-- ===== src/Authz/Inheritance.antt =====
-- What a resource inside a project takes from its project, and what an unknown role gives.
use Prim.Native.Char.{Char, code}
use Prim.Native.String.append
use noctaxris_gcp.Base.{
  String, false, ◌≡◌, refl, sym, ap, ◌∙◌, ◌≢◌, inl, inr, List, [], ◌∷◌, ◌++◌, Memᴰ, none, some, ok,
  arith, eq_iff, concat, has_prefix, drop_prefix, has_prefix-append, drop_prefix-append, split_at,
  Option-cases, Result-cases,
}
use mathlib.Core.List.{append-nil}
use noctaxris_gcp.Authz.Policy.{World, Evaluator, PolicyStore}
use noctaxris_gcp.Authz.Members.{member_identity}
use noctaxris_gcp.Authz.Membership.{Meets}
use noctaxris_gcp.Authz.Chain.{resource_policy_chain, policy_chain}
use noctaxris_gcp.Authz.Ancestry.{policy_chain-IsChain}
use noctaxris_gcp.Authz.Evaluate.{evaluate}
use noctaxris_gcp.Authz.Allowed.{Bound}
use noctaxris_gcp.Authz.Decision.{evaluate_complete}

-- A text without the byte splits off before it.
split_at_lem :
    (b : Char) (id rest : String)
    → split_at (code b) id ≡ none
    → split_at (code b) (concat id (String.◌∷◌ b rest)) ≡ some (id, rest)
unfolding split_at
split_at_lem b String.[] rest h = rw append.nil (ground arith)
split_at_lem b (String.◌∷◌ c id) rest h =
    let ih = split_at_lem b id rest (ground arith) in rw append.cons (ground arith)

abbrev slash : Char
slash = "/"

-- The name of a resource below a project.
abbrev pub nested : String → String → String
nested id rest = concat "projects/" (concat id (String.◌∷◌ slash rest))

project-ne-nested :
    (id rest : String) → split_at b'/' id ≡ none → concat "projects/" id ≢ nested id rest
project-ne-nested id rest h e =
    let same : id ≡ concat id (String.◌∷◌ slash rest) =
      sym (drop_prefix-append "projects/" id)
      ∙ ap (λ (s : String). drop_prefix s "projects/") e
      ∙ drop_prefix-append "projects/" (concat id (String.◌∷◌ slash rest)) in
    cc (h, same, split_at_lem slash id rest h)

pub nested-ne : (id rest : String) → nested id rest ≢ ""
unfolding has_prefix
nested-ne id rest e = cc (
  has_prefix-append "projects/" (concat id (String.◌∷◌ slash rest)),
  ap (λ (s : String). has_prefix s "projects/") e,
)

-- The chain of a resource below a project, whose identifier is not empty and has no slash, is the
-- resource, then the project.
pub resource_policy_chain-nested :
    (id rest : String)
    → id ≢ ""
    → split_at b'/' id ≡ none
    → resource_policy_chain (nested id rest) ≡ nested id rest ∷ concat "projects/" id ∷ []
unfolding resource_policy_chain
resource_policy_chain-nested id rest n h = ground (
  arith,
  has_prefix-append "projects/" (concat id (String.◌∷◌ slash rest)),
  drop_prefix-append "projects/" (concat id (String.◌∷◌ slash rest)),
  split_at_lem slash id rest h,
  eq_iff id "",
  eq_iff (concat "projects/" id) (nested id rest),
  project-ne-nested id rest h,
)

-- A chain begins with the resource and its project, whether parents are walked or not.
chain_base :
    (e : Evaluator) (resource : String) (chain : List String)
    → policy_chain (some e) resource ≡ ok chain
    → (ps : List String) × (chain ≡ resource_policy_chain resource ++ ps)
chain_base e resource chain h = elim (Option-cases e.parents) [
  | inl p ↦ ([], rw append-nil (unfold policy_chain in ground arith))
  | inr (store, p) ↦
      let shape = policy_chain-IsChain e store resource chain p h in (shape.parents, shape.base)
]

module _ (w : World) (e : Evaluator) (principal permission id rest : String) (store : PolicyStore)
    (named : id ≢ "") (plain : split_at b'/' id ≡ none) where
  project-mem :
      (chain : List String)
      → policy_chain (some e) (nested id rest) ≡ ok chain
      → Memᴰ (concat "projects/" id) chain
  project-mem chain h =
      let (ps, q) = chain_base e (nested id rest) chain h in
      rw (q, resource_policy_chain-nested id rest named plain) (Memᴰ.tail (Memᴰ.head refl))

  -- A binding on a project counts for what lies in it: where the project's identifier is not empty
  -- and has no slash, and the project's stored policy grants a principal the permission, the
  -- request of this principal is never answered `false` on a resource below the project.
  pub project_grants :
      principal ≢ ""
      → permission ≢ ""
      → e.policies ≡ some store
      → Bound w e permission store (Meets (member_identity principal)) (concat "projects/" id)
      → evaluate w (some e) principal false permission (nested id rest) ≢ ok false
  project_grants a b p bound h = elim (Result-cases (policy_chain (some e) (nested id rest))) [
    | inr (x, q) ↦
        unfold evaluate in
        ground (
          arith,
          eq_iff principal "",
          eq_iff permission "",
          eq_iff (nested id rest) "",
          nested-ne id rest,
        )
    | inl (chain, q) ↦
        evaluate_complete w e principal permission (nested id rest) false a b
          (λ n. nested-ne id rest n)
          (record {
            store = store;
            has_store = p;
            chain = chain;
            has_chain = q;
            place = concat "projects/" id;
            on_chain = project-mem chain q;
            bound = bound;
          })
          h
  ]
