-- ===== src/Store/Hierarchy/Specs.antt =====
-- The policy specifications of internal/store/orgpolicy.go: `normalizeOrgPolicySpecJSON`,
-- `coerceBool` and `booleanSpecEnforced`. The texts of JSON values are read and written by
-- encoding/json.
use noctaxris_gcp.Base.{
  ℕ, ◌+◌, String, Bool, false, ◌==◌, List, [], ◌∷◌, Option, none, some, Result, ok, err, message,
  concat, if◌then◌else◌, ◌>>=◌,
}
use noctaxris_gcp.Store.Numerals.{itoa}

-- A value as `json.Unmarshal` gives it to an `any`: an object is a map, with each key once.
mutual
  pub data Json : Type 0 where
    null : Json
    bool : Bool → Json
    number text : String → Json
    array : Items → Json
    object : Fields → Json

  pub data Items : Type 0 where
    nil : Items
    cons : Json → Items → Items

  pub data Fields : Type 0 where
    end : Fields
    field : String → Json → Fields → Fields

-- `struct { Reset bool; Rules []struct { Enforce *bool } }`
pub record PolicySpec : Type 0 where
  pub reset : Bool
  pub rules : List (Option Bool)

-- encoding/json: a text as an object, with null for none of its fields and `none` for all else that
-- is no object; the text of an object; and a text as a `PolicySpec`. `quote` is `strconv.Quote`.
pub record SpecJson : Type 0 where
  pub unmarshal_map : String → Option Fields
  pub marshal : Fields → String
  pub unmarshal_spec : String → Option PolicySpec
  pub quote : String → String

-- `m[k]`
unfoldable pub value_at : Fields → String → Option Json
value_at end k = none
value_at (field j v m) k = let rest = value_at m k in if j == k then some v else rest

-- `m[k] = v`
unfoldable pub with_value : String → Json → Fields → Fields
with_value k v end = field k v end
with_value k v (field j w m) =
    let rest = with_value k v m in if j == k then field k v m else field j w rest

-- `delete(m, k)`
unfoldable pub without_key : String → Fields → Fields
without_key k end = end
without_key k (field j v m) = let rest = without_key k m in if j == k then rest else field j v rest

-- `coerceBool(v)`, with its error replaced by the caller's message; `none` is a missing key.
unfoldable pub coerce_bool : String → Option Json → Result Bool
coerce_bool what (some (bool b)) = ok b
coerce_bool what v = err (message what)

abbrev pub rule_error : ℕ → String → String
rule_error i what = concat "rules[" (concat (itoa i) what)

-- `enforced` becomes `enforce`, unless that is there too.
unfoldable pub renamed_rule : ℕ → Fields → Result Fields
unfolding coerce_bool
renamed_rule i rule = elim (value_at rule "enforced") [
  | none ↦ ok rule
  | some v ↦ elim (value_at rule "enforce") [
    | some w ↦ ok (without_key "enforced" rule)
    | none ↦ do
      b ← coerce_bool (rule_error i "].enforced must be a boolean") (some v)
      ok (without_key "enforced" (with_value "enforce" (bool b) rule))
  ]
]

unfoldable pub checked_rule : ℕ → Fields → Result Fields
unfolding coerce_bool
checked_rule i rule = elim (value_at rule "enforce") [
  | none ↦ ok rule
  | some v ↦ do
    b ← coerce_bool (rule_error i "].enforce must be a boolean") (some v)
    ok (with_value "enforce" (bool b) rule)
]

unfoldable pub normalize_rule : ℕ → Json → Result Fields
unfolding renamed_rule checked_rule
normalize_rule i (object rule) = do renamed ← renamed_rule i rule; checked_rule i renamed
normalize_rule i item = err (message (rule_error i "] must be an object"))

-- The loop over the rules, from index `i` on.
unfoldable pub normalize_rules : ℕ → Items → Result Items
unfolding normalize_rule
normalize_rules i nil = ok nil
normalize_rules i (cons item items) = do
  rule ← normalize_rule i item
  rest ← normalize_rules (i + 1) items
  ok (cons (object rule) rest)

abbrev pub one_rule : Bool → Json
one_rule b = array (cons (object (field "enforce" (bool b) end)) nil)

-- The first version's `booleanPolicy` becomes a rule.
unfoldable pub lifted_policy : Fields → Result Fields
unfolding coerce_bool
lifted_policy raw = elim (value_at raw "booleanPolicy") [
  | some (object bp) ↦ do
    enforced ← coerce_bool "booleanPolicy.enforced must be a boolean" (value_at bp "enforced")
    ok (without_key "booleanPolicy" (with_value "rules" (one_rule enforced) raw))
  | _ ↦ ok raw
]

unfoldable pub checked_rules : Fields → Result Fields
unfolding normalize_rules
checked_rules raw = elim (value_at raw "rules") [
  | none ↦ ok (with_value "rules" (one_rule false) raw)
  | some (array items) ↦ do
    rules ← normalize_rules 0 items
    ok (with_value "rules" (array rules) raw)
  | some _ ↦ err (message "rules must be an array")
]

unfoldable pub normalize_spec : Fields → Result Fields
unfolding lifted_policy checked_rules
normalize_spec raw = do lifted ← lifted_policy raw; checked_rules lifted

-- The first rule that says something.
first_enforce : List (Option Bool) → Bool
first_enforce [] = false
first_enforce (some b ∷ rules) = b
first_enforce (none ∷ rules) = first_enforce rules

module _ (json : SpecJson) where
  unfoldable pub normalize_org_policy_spec_json : String → Result String
  unfolding normalize_spec
  normalize_org_policy_spec_json spec_json = elim (json.unmarshal_map spec_json) [
    | none ↦ err (message "spec must be valid JSON")
    | some raw ↦ do normalized ← normalize_spec raw; ok (json.marshal normalized)
  ]

  unfoldable pub boolean_spec_enforced : String → Bool
  unfolding first_enforce
  boolean_spec_enforced spec_json = elim (json.unmarshal_spec spec_json) [
    | none ↦ false
    | some spec ↦ if spec.reset then false else first_enforce spec.rules
  ]
