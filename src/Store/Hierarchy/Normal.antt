-- ===== src/Store/Hierarchy/Normal.antt =====
-- What a policy specification satisfies after `normalizeOrgPolicySpecJSON` of
-- internal/store/orgpolicy.go.
use noctaxris_gcp.Base.{
  ℕ, ◌+◌, String, false, ◌==◌, ◌≡◌, refl, subst, ◌∙◌, ◌⊎◌, inl, inr, Option, none, some, ok, arith,
  eq_iff, Bool, Option-cases, Result-cases, if◌then◌else◌,
}
use noctaxris_gcp.Store.Hierarchy.Specs.{
  Json, null, bool, number, text, array, object, Items, nil, cons, Fields, end, field, value_at,
  with_value, without_key, coerce_bool, renamed_rule, checked_rule, normalize_rule, normalize_rules,
  lifted_policy, checked_rules, normalize_spec, one_rule, rule_error,
}

value_at-with_value :
    (k j : String) (v : Json) (m : Fields)
    → value_at (with_value k v m) j ≡ (if k == j then some v else value_at m j)
unfolding value_at with_value
value_at-with_value k j v end = refl
value_at-with_value k j v (field i w m) =
    ground (arith, eq_iff k j, eq_iff i k, eq_iff i j, value_at-with_value k j v m)

value_at-without_key :
    (k j : String) (m : Fields)
    → value_at (without_key k m) j ≡ (if k == j then none else value_at m j)
unfolding value_at without_key
value_at-without_key k j end = ground arith
value_at-without_key k j (field i w m) =
    ground (arith, eq_iff k j, eq_iff i k, eq_iff i j, value_at-without_key k j m)

-- A rule says `enforce` by a Boolean or not at all, and does not say `enforced`.
pub record IsRule (rule : Fields) : Type 0 where
  pub no_enforced : value_at rule "enforced" ≡ none
  pub enforce :
      (value_at rule "enforce" ≡ none) ⊎ ((b : Bool) × (value_at rule "enforce" ≡ some (bool b)))

abbrev pub AreRules : Items → Type 0
AreRules nil = Unit
AreRules (cons (object rule) items) = IsRule rule × AreRules items
AreRules (cons item items) = ⊥

coerced :
    (what : String) (v : Option Json) (b : Bool) → coerce_bool what v ≡ ok b → v ≡ some (bool b)
unfolding coerce_bool
coerced what (some (bool c)) b h = ground arith
coerced what none b h = cc
coerced what (some null) b h = cc
coerced what (some (number n)) b h = cc
coerced what (some (text s)) b h = cc
coerced what (some (array xs)) b h = cc
coerced what (some (object m)) b h = cc

ok_inj {ℓ} : {A : Type ℓ} {a b : A} → ok a ≡ ok b → a ≡ b
ok_inj h = cc

removed : (m : Fields) → value_at (without_key "enforced" m) "enforced" ≡ none
removed m = value_at-without_key "enforced" "enforced" m

renamed_no_enforced :
    (i : ℕ) (rule out : Fields) → renamed_rule i rule ≡ ok out → value_at out "enforced" ≡ none
unfolding renamed_rule
renamed_no_enforced i rule out h = elim (Option-cases (value_at rule "enforced")) [
  | inl n ↦ subst None (ok_inj (rw (n, renamed_rule) at h)) n
  | inr (v, p) ↦ elim (Option-cases (value_at rule "enforce")) [
    | inr (w, q) ↦ subst None (ok_inj (rw (p, q, renamed_rule) at h)) (removed rule)
    | inl n ↦
        elim (Result-cases (coerce_bool (rule_error i "].enforced must be a boolean") (some v))) [
          | inl (b, c) ↦ subst None (ok_inj (rw (p, n, c, renamed_rule) at h)) (removed _)
          | inr (x, c) ↦ cc (rw (p, n, c, renamed_rule) at h)
        ]
  ]
]
  where
    None : Fields → Type 0
    None r = value_at r "enforced" ≡ none

checked-IsRule :
    (i : ℕ) (rule out : Fields)
    → value_at rule "enforced" ≡ none
    → checked_rule i rule ≡ ok out
    → IsRule out
unfolding checked_rule
checked-IsRule i rule out e h = elim (Option-cases (value_at rule "enforce")) [
  | inl n ↦
      subst IsRule (ok_inj (rw (n, checked_rule) at h))
        (record { no_enforced = e; enforce = inl n })
  | inr (v, p) ↦
      elim (Result-cases (coerce_bool (rule_error i "].enforce must be a boolean") (some v))) [
        | inl (b, c) ↦ subst IsRule (ok_inj (rw (p, c, checked_rule) at h)) (record {
          no_enforced = value_at-with_value "enforce" "enforced" (bool b) rule ∙ e;
          enforce = inr (b, value_at-with_value "enforce" "enforce" (bool b) rule);
        })
        | inr (x, c) ↦ cc (rw (p, c, checked_rule) at h)
      ]
]

normalize-IsRule :
    (i : ℕ) (item : Json) (out : Fields) → normalize_rule i item ≡ ok out → IsRule out
unfolding normalize_rule
normalize-IsRule i (object rule) out h = elim (Result-cases (renamed_rule i rule)) [
  | inl (renamed, e) ↦
      checked-IsRule i renamed out (renamed_no_enforced i rule renamed e)
        (rw (e, normalize_rule) at h)
  | inr (x, e) ↦ cc (rw (e, normalize_rule) at h)
]
normalize-IsRule i null out h = cc
normalize-IsRule i (bool b) out h = cc
normalize-IsRule i (number n) out h = cc
normalize-IsRule i (text s) out h = cc
normalize-IsRule i (array xs) out h = cc

normalize-AreRules : (i : ℕ) (items out : Items) → normalize_rules i items ≡ ok out → AreRules out
unfolding normalize_rules
normalize-AreRules i nil out h = subst AreRules (ok_inj h) tt
normalize-AreRules i (cons item items) out h = elim (Result-cases (normalize_rule i item)) [
  | inr (x, e) ↦ cc (rw (e, normalize_rules) at h)
  | inl (rule, e) ↦ elim (Result-cases (normalize_rules (i + 1) items)) [
    | inr (x, d) ↦ cc (rw (e, d, normalize_rules) at h)
    | inl (rest, d) ↦
        subst AreRules (ok_inj (rw (e, d, normalize_rules) at h))
          (normalize-IsRule i item rule e, normalize-AreRules (i + 1) items rest d)
  ]
]

-- The rules of a specification are there, and each is a rule.
abbrev pub IsNormal : Fields → Type 0
IsNormal spec = (rules : Items) × (value_at spec "rules" ≡ some (array rules)) × AreRules rules

single-IsRule : (b : Bool) → IsRule (field "enforce" (bool b) end)
unfolding value_at
single-IsRule b = record { no_enforced = refl; enforce = inr (b, refl) }

checked-IsNormal : (raw out : Fields) → checked_rules raw ≡ ok out → IsNormal out
unfolding checked_rules
checked-IsNormal raw out h = elim (Option-cases (value_at raw "rules")) [
  | inl n ↦
      subst IsNormal (ok_inj (rw (n, checked_rules) at h))
        (_, value_at-with_value "rules" "rules" (one_rule false) raw, (single-IsRule false, tt))
  | inr (array items, p) ↦ elim (Result-cases (normalize_rules 0 items)) [
    | inl (rules, e) ↦ subst IsNormal (ok_inj (rw (p, e, checked_rules) at h)) (
      rules,
      value_at-with_value "rules" "rules" (array rules) raw,
      normalize-AreRules 0 items rules e,
    )
    | inr (x, e) ↦ cc (rw (p, e, checked_rules) at h)
  ]
  | inr (null, p) ↦ cc (rw (p, checked_rules) at h)
  | inr (bool b, p) ↦ cc (rw (p, checked_rules) at h)
  | inr (number n, p) ↦ cc (rw (p, checked_rules) at h)
  | inr (text s, p) ↦ cc (rw (p, checked_rules) at h)
  | inr (object m, p) ↦ cc (rw (p, checked_rules) at h)
]

-- A specification that is accepted has, once it is normalized, an array of rules, of which each is an
-- object without `enforced`, whose `enforce`, where there is one, is a Boolean.
pub normalize_spec-IsNormal : (raw out : Fields) → normalize_spec raw ≡ ok out → IsNormal out
unfolding normalize_spec
normalize_spec-IsNormal raw out h = elim (Result-cases (lifted_policy raw)) [
  | inl (lifted, e) ↦ checked-IsNormal lifted out (rw (e, normalize_spec) at h)
  | inr (x, e) ↦ cc (rw (e, normalize_spec) at h)
]
