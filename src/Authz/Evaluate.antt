-- ===== src/Authz/Evaluate.antt =====
-- The evaluation entry points of internal/kernel/authz/iam.go.
use noctaxris_gcp.Base.{
  String, Bool, true, false, not, ◌||◌, ◌==◌, List, [], ◌∷◌, Option, none, some, Result, ok, err,
  message, wrapped, concat, first_grant, if◌then◌else◌, ◌>>=◌,
}
use noctaxris_gcp.Authz.Policy.{World, Policy, Binding, PolicyStore, Evaluator}
use noctaxris_gcp.Authz.Condition.{condition_allows}
use noctaxris_gcp.Authz.Members.{member_identity, member_in, exact_member_in}
use noctaxris_gcp.Authz.Grants.{role_grants}
use noctaxris_gcp.Authz.Chain.{policy_chain}

-- The loop of both test methods: keeps, in order, the permissions that `granted` answers.
unfoldable pub granted_subset : (String → Result Bool) → List String → Result (List String)
granted_subset granted [] = ok []
granted_subset granted (p ∷ ps) = elim (granted p) [
  | err e ↦ err e
  | ok yes_or_no ↦ do rest ← granted_subset granted ps; ok (if yes_or_no then p ∷ rest else rest)
]

module _ (w : World) where
  -- `json.Unmarshal(raw, &pol)` and the annotation of its error.
  unfoldable pub parse_policy : String → String → Result Policy
  parse_policy resource raw = elim (w.unmarshal raw) [
    | none ↦ err (wrapped (concat "parse iam policy for " resource) (message "json"))
    | some policy ↦ ok policy
  ]

  -- The body of the loop over the bindings, for the member test `meets`.
  unfoldable pub binding_grants :
      Option Evaluator → (List String → Bool) → String → Binding → Result Bool
  binding_grants e meets permission b =
      if not (meets b.members)
      then ok false
      else if not (condition_allows w e b)
      then ok false
      else role_grants e b.role permission

  -- What the evaluations of a principal and of an exact member share.
  unfoldable pub grants_on_resource :
      Evaluator → PolicyStore → (List String → Bool) → String → String → Result Bool
  grants_on_resource e store meets permission resource = do
    found ← store.get_iam_policy_json resource
    elim found [
      | none ↦ ok false
      | some raw ↦ do
        policy ← parse_policy resource raw
        first_grant (binding_grants (some e) meets permission) policy.bindings
    ]

  unfoldable pub evaluate_on_resource :
      Evaluator → PolicyStore → String → String → String → Result Bool
  unfolding grants_on_resource
  evaluate_on_resource e store principal permission resource =
      grants_on_resource e store (λ ms. member_in ms (member_identity principal)) permission
        resource

  unfoldable pub evaluate_exact_member_on_resource :
      Evaluator → PolicyStore → String → String → String → Result Bool
  unfolding grants_on_resource
  evaluate_exact_member_on_resource e store member permission resource =
      grants_on_resource e store (λ ms. exact_member_in ms member) permission resource

  -- `Evaluate`. A nil receiver is `none`.
  unfoldable pub evaluate : Option Evaluator → String → Bool → String → String → Result Bool
  evaluate none principal is_root permission resource = ok is_root
  evaluate (some e) principal is_root permission resource =
      if is_root
      then ok true
      else if principal == "" || permission == "" || resource == ""
      then ok false
      else elim e.policies [
        | none ↦ ok false
        | some store ↦ do
          chain ← policy_chain (some e) resource
          first_grant (evaluate_on_resource e store principal permission) chain
      ]

  -- The body of the loop of `EvaluateAny`.
  evaluate_unless_empty : Option Evaluator → String → Bool → String → String → Result Bool
  evaluate_unless_empty e principal is_root permission resource =
      if resource == "" then ok false else evaluate e principal is_root permission resource

  unfoldable pub evaluate_any :
      Option Evaluator → String → Bool → String → List String → Result Bool
  unfolding evaluate_unless_empty
  evaluate_any none principal is_root permission resources = ok is_root
  evaluate_any (some e) principal is_root permission resources =
      if is_root
      then ok true
      else first_grant (evaluate_unless_empty (some e) principal is_root permission) resources

  unfoldable pub evaluate_all_users : Option Evaluator → String → String → Result Bool
  evaluate_all_users none permission resource = ok false
  evaluate_all_users (some e) permission resource = elim e.policies [
    | none ↦ ok false
    | some store ↦ if permission == "" || resource == "" then ok false else do
      chain ← policy_chain (some e) resource
      first_grant (evaluate_exact_member_on_resource e store "allUsers" permission) chain
  ]

  evaluate_all_users_unless_empty : Option Evaluator → String → String → Result Bool
  evaluate_all_users_unless_empty e permission resource =
      if resource == "" then ok false else evaluate_all_users e permission resource

  unfoldable pub evaluate_all_users_any : Option Evaluator → String → List String → Result Bool
  unfolding evaluate_all_users_unless_empty
  evaluate_all_users_any none permission resources = ok false
  evaluate_all_users_any (some e) permission resources =
      first_grant (evaluate_all_users_unless_empty (some e) permission) resources

  unfoldable pub allow_principal_or_all_users :
      Option Evaluator → String → Bool → Bool → String → List String → Result Bool
  allow_principal_or_all_users e principal is_root has_principal permission resources =
      if has_principal
      then evaluate_any e principal is_root permission resources
      else evaluate_all_users_any e permission resources

  unfoldable pub test_iam_permissions :
      Option Evaluator → String → Bool → String → List String → Result (List String)
  unfolding granted_subset
  test_iam_permissions e principal is_root resource =
      granted_subset (λ p. evaluate e principal is_root p resource)

  unfoldable pub test_iam_permissions_any :
      Option Evaluator → String → Bool → List String → List String → Result (List String)
  unfolding granted_subset
  test_iam_permissions_any e principal is_root resources =
      granted_subset (λ p. evaluate_any e principal is_root p resources)
