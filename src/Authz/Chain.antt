-- ===== src/Authz/Chain.antt =====
-- The resources whose policies count for a request: `resourcePolicyChain`, `policyChain` and
-- `isCRMHierarchyResource` of internal/kernel/authz/iam.go.
use mathlib.Core.List.{reverse}
use noctaxris_gcp.Base.{
  ℕ, zero, suc, String, Bool, true, false, not, ◌&&◌, ◌==◌, List, [], ◌∷◌, ◌++◌, Option, none, some,
  Result, ok, err, annotate, has_prefix, drop_prefix, contains, concat, split_at, one_of,
  if◌then◌else◌,
}
use noctaxris_gcp.Authz.Policy.{Evaluator, CrmParentStore}

-- The resource, then its project where it is nested in one.
unfoldable pub resource_policy_chain : String → List String
resource_policy_chain resource =
    if not (has_prefix resource "projects/")
    then resource ∷ []
    else elim (split_at b'/' (drop_prefix resource "projects/")) [
      | none ↦ resource ∷ []
      | some (id, rest) ↦
          if id == ""
          then resource ∷ []
          else if concat "projects/" id == resource
          then resource ∷ []
          else resource ∷ concat "projects/" id ∷ []
    ]

-- The loop over the three prefixes decides at the first that fits.
bare_under : String → List String → Bool
bare_under resource [] = false
bare_under resource (prefix ∷ prefixes) =
    let rest = bare_under resource prefixes in
    if not (has_prefix resource prefix)
    then rest
    else let id = drop_prefix resource prefix in not (id == "") && not (contains id "/")

unfoldable pub is_crm_hierarchy_resource : String → Bool
unfolding bare_under
is_crm_hierarchy_resource resource =
    bare_under resource ("projects/" ∷ "folders/" ∷ "organizations/" ∷ [])

-- The first hierarchy resource of a list, or "".
unfoldable pub find_anchor : List String → String
find_anchor [] = ""
find_anchor (r ∷ rs) = let rest = find_anchor rs in if is_crm_hierarchy_resource r then r else rest

abbrev pub crm_ancestry_max_depth : ℕ
crm_ancestry_max_depth = 32

-- The loop of `policyChain`, on the rounds that are left, over its `out`, `seen` and `cur`.
unfoldable pub crm_walk :
    CrmParentStore → ℕ → List String → List String → String → Result (List String)
crm_walk store zero out seen cur = ok out
crm_walk store (suc depth) out seen cur =
    elim (annotate (concat "crm parent for " cur) (store.crm_parent cur)) [
      | err e ↦ err e
      | ok none ↦ ok out
      | ok (some parent) ↦ elim (parent == "") [
        | true ↦ ok out
        | false ↦ elim (one_of parent seen) [
          | true ↦ ok out
          | false ↦ elim (has_prefix parent "organizations/") [
            | true ↦ ok (out ++ parent ∷ [])
            | false ↦ crm_walk store depth (out ++ parent ∷ []) (parent ∷ seen) parent
          ]
        ]
      ]
    ]

-- The search for the anchor runs from the end of the chain.
unfoldable pub policy_chain : Option Evaluator → String → Result (List String)
policy_chain none resource = ok (resource_policy_chain resource)
policy_chain (some e) resource = elim e.parents [
  | none ↦ ok (resource_policy_chain resource)
  | some store ↦
      let out = resource_policy_chain resource in
      let anchor = find_anchor (reverse out) in
      if anchor == "" then ok out else crm_walk store crm_ancestry_max_depth out out anchor
]
