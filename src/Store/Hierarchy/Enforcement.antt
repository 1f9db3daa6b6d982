-- ===== src/Store/Hierarchy/Enforcement.antt =====
-- Which policy `IsOrgPolicyConstraintEnforced` of internal/store/orgpolicy.go answers by.
use mathlib.Core.List.Memᴰ
use noctaxris_gcp.Base.{
  ℕ, zero, suc, ◌<◌, String, true, false, ◌==◌, ◌||◌, ◌≡◌, refl, ◌∙◌, ap, ◌≢◌, ◌↔◌, inl, inr, List,
  [], ◌∷◌, Memᴰ, none, some, arith, eq_iff, one_of, one_of→mem, trim_space, Bool-cases,
  Option-cases,
}
use noctaxris_gcp.Store.Hierarchy.Types.{OrgPolicy, HierarchyDb}
use noctaxris_gcp.Store.Hierarchy.Parents.{crm_parent}
use noctaxris_gcp.Store.Hierarchy.Specs.{SpecJson, boolean_spec_enforced}
use noctaxris_gcp.Store.Hierarchy.Policies.{
  get_org_policy, enforcement_walk, enforcement_rounds, is_org_policy_constraint_enforced,
  normalize_org_constraint,
}

module _ (db : HierarchyDb) (constraint : String) where
  -- The first policy for the constraint on the way from a resource up through its parents, and the
  -- number of steps to it.
  pub data Governs (p : OrgPolicy) : ℕ → String → Type 0 where
    on : {cur : String} → cur ≢ "" → get_org_policy db cur constraint ≡ some p → Governs p zero cur
    above :
        {n : ℕ} {cur parent : String}
        → cur ≢ ""
        → get_org_policy db cur constraint ≡ none
        → crm_parent db cur ≡ some parent
        → Governs p n parent
        → Governs p (suc n) cur

  -- A resource is one number of steps from its policy.
  steps_unique :
      (p : OrgPolicy) (m n : ℕ) (a b : String) → a ≡ b → Governs p m a → Governs p n b → m ≡ n
  steps_unique p zero zero a b e g h = refl
  steps_unique p zero (suc n) a b e (on x u) (above y v w h) = cc
  steps_unique p (suc m) zero a b e (above x u w g) (on y v) = cc
  steps_unique p (suc m) (suc n) a b e (above {parent = c} x u w g) (above {parent = d} y v z h) =
      ap suc (steps_unique p m n c d (cc) g h)

  -- What was seen lies further from the policy than what comes.
  abbrev Behind : OrgPolicy → ℕ → List String → Type 0
  Behind p n seen = (s : String) → Memᴰ s seen → (k : ℕ) × (n < k) × Governs p k s

  Governs-named : (p : OrgPolicy) (n : ℕ) (cur : String) → Governs p n cur → cur ≢ ""
  Governs-named p zero cur (on x q) = x
  Governs-named p (suc n) cur (above x q c g) = x

  fresh :
      (p : OrgPolicy) (n : ℕ) (cur : String) (seen : List String)
      → Governs p n cur
      → Behind p n seen
      → cur == "" || one_of cur seen ≡ false
  fresh p n cur seen g far = elim (Bool-cases (one_of cur seen)) [
    | inl t ↦
        let (k, l, h) = far cur (one_of→mem cur seen t) in
        absurd (omega (arith, steps_unique p n k cur cur refl g h))
    | inr f ↦ ground (arith, eq_iff cur "", Governs-named p n cur g)
  ]

  module _ (json : SpecJson) where
    walk_sound :
        (rounds : ℕ) (seen : List String) (cur : String)
        → enforcement_walk json db constraint rounds seen cur ≡ true
        → (n : ℕ) × (n < rounds)
          × (p : OrgPolicy) × Governs p n cur
          × (boolean_spec_enforced json p.spec_json ≡ true)
    unfolding enforcement_walk
    walk_sound zero seen cur h = cc
    walk_sound (suc rounds) seen cur h = elim (Bool-cases (cur == "" || one_of cur seen)) [
      | inl b ↦ cc (rw (b, enforcement_walk) at h)
      | inr b ↦ elim (Option-cases (get_org_policy db cur constraint)) [
        | inr (p, q) ↦ (
          zero,
          omega arith,
          p,
          on (ground (arith, eq_iff cur "")) q,
          rw (b, q, enforcement_walk) at h,
        )
        | inl q ↦ elim (Option-cases (crm_parent db cur)) [
          | inl c ↦ cc (rw (b, q, c, enforcement_walk) at h)
          | inr (parent, c) ↦
              let (n, l, p, g, t) =
                walk_sound rounds (cur ∷ seen) parent (rw (b, q, c, enforcement_walk) at h) in
              (suc n, omega arith, p, above (ground (arith, eq_iff cur "")) q c g, t)
        ]
      ]
    ]

    walk_complete :
        (rounds : ℕ) (seen : List String) (p : OrgPolicy) (n : ℕ) (cur : String)
        → Governs p n cur
        → n < rounds
        → Behind p n seen
        → enforcement_walk json db constraint rounds seen cur
          ≡ boolean_spec_enforced json p.spec_json
    unfolding enforcement_walk
    walk_complete zero seen p n cur g l far = absurd (omega arith)
    walk_complete (suc rounds) seen p zero cur (on x q) l far =
        rw (fresh p zero cur seen (on x q) far, q, enforcement_walk) refl
    walk_complete (suc rounds) seen p (suc n) cur (above {parent = parent} x q c g) l far =
        let here : Governs p (suc n) cur = above x q c g in
        rw (fresh p (suc n) cur seen here far, q, c, enforcement_walk)
          (walk_complete rounds (cur ∷ seen) p n parent g (omega arith) (λ s m.
            elim (Memᴰ.cases_cons m) [
              | inl e ↦ (suc n, omega arith, rw e here)
              | inr i ↦ let (k, d, h) = far s i in (k, omega (arith, d), h)
            ]))

module _ (json : SpecJson) (db : HierarchyDb) (resource constraint : String) where
  -- A constraint is enforced on a resource exactly when the first policy for the constraint on the
  -- way from the resource up through its parents, less than 32 steps away, enforces it; the resource
  -- and the constraint not empty once they are trimmed, and the constraint without its prefix.
  pub is_org_policy_constraint_enforced_iff :
      trim_space resource ≢ ""
      → normalize_org_constraint constraint ≢ ""
      → (is_org_policy_constraint_enforced json db resource constraint ≡ true) ↔ (
          (p : OrgPolicy) × (n : ℕ) × (n < enforcement_rounds)
          × Governs db (normalize_org_constraint constraint) p n (trim_space resource)
          × (boolean_spec_enforced json p.spec_json ≡ true))
  unfolding is_org_policy_constraint_enforced
  is_org_policy_constraint_enforced_iff r c =
      let c' = normalize_org_constraint constraint in
      let named : trim_space resource == "" || c' == "" ≡ false =
        ground (arith, eq_iff (trim_space resource) "", eq_iff c' "") in
      (
        λ h.
            let (n, l, p, g, t) =
              walk_sound db c' json enforcement_rounds [] (trim_space resource)
                (rw (named, is_org_policy_constraint_enforced) at h) in
            (p, n, l, g, t),
        λ (p, n, l, g, t).
            rw (named, is_org_policy_constraint_enforced)
              (walk_complete db c' json enforcement_rounds [] p n (trim_space resource) g l
                  (λ s m. absurd (Memᴰ.not-nil m))
                ∙ t),
      )
