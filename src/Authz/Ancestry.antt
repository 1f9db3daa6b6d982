-- ===== src/Authz/Ancestry.antt =====
-- The shape of a policy chain: `policyChain` of internal/kernel/authz/iam.go climbs the parent
-- links, ends, and never meets a resource twice, whatever the parent store answers.
use mathlib.Core.List.{reverse, append-nil, append_assoc}
use mathlib.Core.List.Memᴰ
use noctaxris_gcp.Base.{
  ℕ, zero, suc, ◌≤◌, String, true, false, not, ◌≡◌, refl, sym, subst, ◌∙◌, eq_refl, ◌≢◌, ◌⊎◌, inl,
  inr, List, [], ◌∷◌, ◌++◌, Memᴰ, length, none, some, Result, ok, arith, eq_iff, ◌==◌, one_of,
  mem→one_of, has_prefix, drop_prefix, concat, split_at, ◌||◌, Bool-cases, Option-cases,
  Result-cases,
}
use noctaxris_gcp.Authz.Policy.{Evaluator, CrmParentStore}
use noctaxris_gcp.Authz.Chain.{
  resource_policy_chain, find_anchor, crm_walk, policy_chain, crm_ancestry_max_depth,
}

abbrev pub Distinct : List String → Type 0
Distinct [] = Unit
Distinct (x ∷ xs) = (¬ Memᴰ x xs) × Distinct xs

Distinct-snoc :
    (xs : List String) (y : String) → Distinct xs → ¬ Memᴰ y xs → Distinct (xs ++ y ∷ [])
Distinct-snoc [] y d n = (Memᴰ.not-nil, tt)
Distinct-snoc (x ∷ xs) y d n = (
  λ m. elim (Memᴰ.append_cases xs m) [
    | inl i ↦ d.0 i
    | inr i ↦ n (Memᴰ.head (sym (Memᴰ.eq_of_singleton i)))
  ],
  Distinct-snoc xs y d.1 (λ m. n (Memᴰ.tail m)),
)

seen_more :
    (out seen : List String) (parent : String)
    → ((q : String) → Memᴰ q out → one_of q seen ≡ true)
    → (q : String) → Memᴰ q (out ++ parent ∷ [])
    → one_of q (parent ∷ seen) ≡ true
unfolding one_of
seen_more out seen parent s q m = elim (Memᴰ.append_cases out m) [
  | inl i ↦ rw (s q i) (ground arith)
  | inr i ↦ rw (Memᴰ.eq_of_singleton i, eq_refl)
]

ok-injective : {xs ys : List String} → ◌≡◌ {A = Result (List String)} (ok xs) (ok ys) → xs ≡ ys
ok-injective h = ground arith

module _ (store : CrmParentStore) where
  -- The resources above `cur`, each the parent that the store names for the one before it; an
  -- organization is the last.
  pub data Climbs : String → List String → Type 0 where
    top : {cur : String} → Climbs cur []
    up :
        {cur parent : String} {ps : List String}
        → store.crm_parent cur ≡ ok (some parent)
        → parent ≢ ""
        → (has_prefix parent "organizations/" ≡ true → ps ≡ [])
        → Climbs parent ps
        → Climbs cur (parent ∷ ps)

  -- One round of the loop: it stops, or goes up to a new parent.
  round :
      (depth : ℕ) (out seen : List String) (cur : String) {chain : List String}
      → crm_walk store (suc depth) out seen cur ≡ ok chain
      → (chain ≡ out)
        ⊎ ((parent : String) × (store.crm_parent cur ≡ ok (some parent))
            × (parent ≢ "")
            × (one_of parent seen ≡ false)
            × (((has_prefix parent "organizations/" ≡ true) × (chain ≡ out ++ parent ∷ []))
                ⊎ ((has_prefix parent "organizations/" ≡ false)
                    × (crm_walk store depth (out ++ parent ∷ []) (parent ∷ seen) parent
                        ≡ ok chain))))
  unfolding crm_walk
  round depth out seen cur h = elim (Result-cases (store.crm_parent cur)) [
    | inr (e, p) ↦ cc (rw (p, crm_walk) at h)
    | inl (none, p) ↦ inl (ground arith)
    | inl (some parent, p) ↦ ground (arith, eq_iff parent "")
  ]

  -- The walk appends a climb of at most `depth` resources.
  walk_parts :
      (depth : ℕ) (out seen : List String) (cur : String) {chain : List String}
      → crm_walk store depth out seen cur ≡ ok chain
      → (ps : List String) × (chain ≡ out ++ ps) × Climbs cur ps × (length ps ≤ depth)
  walk_parts zero out seen cur h =
      ([], unfold crm_walk in rw append-nil (ground arith), top, omega arith)
  walk_parts (suc depth) out seen cur h = elim (round depth out seen cur h) [
    | inl e ↦ ([], rw append-nil e, top, omega arith)
    | inr (parent, p, n, fresh, inl (org, e)) ↦
        (parent ∷ [], e, up p n (λ _. refl) top, omega arith)
    | inr (parent, p, n, fresh, inr (folder, rest)) ↦
        let (ps, e, c, l) = walk_parts depth (out ++ parent ∷ []) (parent ∷ seen) parent rest in
        (parent ∷ ps, e ∙ append_assoc out (parent ∷ []) ps, up p n (λ o. cc) c, omega arith)
  ]

  -- The walk adds no resource that it has, while `seen` holds what `out` does.
  walk-Distinct :
      (depth : ℕ) (out seen : List String) (cur : String) {chain : List String}
      → ((q : String) → Memᴰ q out → one_of q seen ≡ true)
      → Distinct out
      → crm_walk store depth out seen cur ≡ ok chain
      → Distinct chain
  walk-Distinct zero out seen cur s d h = unfold crm_walk in subst Distinct (ok-injective h) d
  walk-Distinct (suc depth) out seen cur s d h = elim (round depth out seen cur h) [
    | inl e ↦ rw e d
    | inr (parent, p, n, fresh, inl (org, e)) ↦
        rw e (Distinct-snoc out parent d (λ m. cc (s parent m)))
    | inr (parent, p, n, fresh, inr (folder, rest)) ↦
        walk-Distinct depth (out ++ parent ∷ []) (parent ∷ seen) parent
          (seen_more out seen parent s) (Distinct-snoc out parent d (λ m. cc (s parent m))) rest
  ]

-- The base of the chain has one resource, or two that differ.
base_cases :
    (resource : String)
    → (resource_policy_chain resource ≡ resource ∷ [])
      ⊎ ((project : String) × (project ≢ resource)
          × (resource_policy_chain resource ≡ resource ∷ project ∷ []))
unfolding resource_policy_chain
base_cases resource = elim (Option-cases (split_at b'/' (drop_prefix resource "projects/"))) [
  | inl e ↦ inl (ground arith)
  | inr ((id, rest), e) ↦
      let same = eq_iff (concat "projects/" id) resource in
      elim (Bool-cases
        (not (has_prefix resource "projects/") || id == "" || concat "projects/" id == resource)) [
          | inl b ↦ inl (ground arith)
          | inr b ↦ inr (concat "projects/" id, ground (arith, same), ground arith)
        ]
]

base-Distinct : (resource : String) → Distinct (resource_policy_chain resource)
base-Distinct resource = elim (base_cases resource) [
  | inl e ↦ rw e (Memᴰ.not-nil, tt)
  | inr (project, n, e) ↦ rw e (λ m. n (sym (Memᴰ.eq_of_singleton m)), (Memᴰ.not-nil, tt))
]

-- What a policy chain is made of: the resource with its project, then a climb.
pub record IsChain (store : CrmParentStore) (resource : String) (chain : List String) : Type 0 where
  pub parents : List String
  pub base : chain ≡ resource_policy_chain resource ++ parents
  pub climbs : Climbs store (find_anchor (reverse (resource_policy_chain resource))) parents
  pub bounded : length parents ≤ crm_ancestry_max_depth
  pub distinct : Distinct chain

-- With a parent store, a chain that is returned is the resource with its project, followed by at
-- most 32 resources, each the parent that the store names for the one before it, starting from the
-- innermost hierarchy resource and ending at an organization at the latest; and no resource stands
-- in the chain twice.
pub policy_chain-IsChain :
    (e : Evaluator) (store : CrmParentStore) (resource : String) (chain : List String)
    → e.parents ≡ some store
    → policy_chain (some e) resource ≡ ok chain
    → IsChain store resource chain
policy_chain-IsChain e store resource chain p h =
    elim (Bool-cases (find_anchor (reverse (resource_policy_chain resource)) == "")) [
      | inl b ↦
          let same : chain ≡ resource_policy_chain resource = unfold policy_chain in ground arith in
          record {
            parents = [];
            base = rw append-nil same;
            climbs = top;
            bounded = omega arith;
            distinct = rw same (base-Distinct resource);
          }
      | inr b ↦
          let out = resource_policy_chain resource in
          let anchor = find_anchor (reverse out) in
          let walk : crm_walk store crm_ancestry_max_depth out out anchor ≡ ok chain =
            unfold policy_chain in ground arith in
          let (ps, q, c, l) = walk_parts store crm_ancestry_max_depth out out anchor walk in
          record {
            parents = ps;
            base = q;
            climbs = c;
            bounded = l;
            distinct =
                walk-Distinct store crm_ancestry_max_depth out out anchor
                  (λ r m. mem→one_of r out m) (base-Distinct resource) walk;
          }
    ]
