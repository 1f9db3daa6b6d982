-- ===== src/Authz/Decision.antt =====
-- What a decision of the evaluator rests on: `Evaluate` and `EvaluateAllUsers` against a
-- description of an allowed request that names the binding and has no loop.
use noctaxris_gcp.Base.{
  String, Bool, true, false, ◌≡◌, refl, ◌≢◌, ◌⊎◌, inl, inr, List, Memᴰ, some, ok, arith, eq_iff,
  first_grant, first_grant_refused, Option-cases,
}
use noctaxris_gcp.Authz.Policy.{World, PolicyStore, Evaluator}
use noctaxris_gcp.Authz.Members.{member_identity, member_in, exact_member_in}
use noctaxris_gcp.Authz.Chain.{policy_chain}
use noctaxris_gcp.Authz.Evaluate.{
  evaluate_on_resource, evaluate, evaluate_all_users, evaluate_exact_member_on_resource,
}
use noctaxris_gcp.Authz.Allowed.{
  Allowed, Allowed-weaken, Bound-weaken, on_resource_refused, chain_grants-Allowed,
}
use noctaxris_gcp.Authz.Membership.{Meets, member_in_iff, exact_member_in→mem}

module _ (w : World) (e : Evaluator) (principal permission resource : String) where
  -- An unprivileged request with all its names is decided by the loop over the chain.
  walks :
      (store : PolicyStore) (chain : List String)
      → principal ≢ ""
      → permission ≢ ""
      → resource ≢ ""
      → e.policies ≡ some store
      → policy_chain (some e) resource ≡ ok chain
      → evaluate w (some e) principal false permission resource
        ≡ first_grant (evaluate_on_resource w e store principal permission) chain
  unfolding evaluate
  walks store chain a b c p q =
      ground (arith, eq_iff principal "", eq_iff permission "", eq_iff resource "")

  names_given :
      evaluate w (some e) principal false permission resource ≡ ok true
      → (principal ≢ "") × (permission ≢ "") × (resource ≢ "")
  unfolding evaluate
  names_given h = (
    ground (arith, eq_iff principal ""),
    ground (arith, eq_iff permission ""),
    ground (arith, eq_iff resource ""),
  )

  store_given :
      evaluate w (some e) principal false permission resource ≡ ok true
      → (store : PolicyStore) × (e.policies ≡ some store)
  unfolding evaluate
  store_given h = elim (Option-cases e.policies) [
    | inl p ↦ absurd (ground arith)
    | inr found ↦ found
  ]

  chain_given :
      evaluate w (some e) principal false permission resource ≡ ok true
      → (chain : List String) × (policy_chain (some e) resource ≡ ok chain)
  unfolding evaluate
  chain_given h = ground arith

  -- Where the evaluator is there, a request that is answered `true` comes from the root, or the
  -- stored policies allow it: some resource on its chain has a policy with a binding whose members
  -- stand for the principal, whose condition holds and whose role has the permission.
  pub evaluate_sound :
      (is_root : Bool)
      → evaluate w (some e) principal is_root permission resource ≡ ok true
      → (is_root ≡ true) ⊎ Allowed w e permission (Meets (member_identity principal)) resource
  evaluate_sound true h = inl refl
  evaluate_sound false h =
      let (a, b, c) = names_given h in
      let (store, p) = store_given h in
      let (chain, q) = chain_given h in
      let loop = rw (walks store chain a b c p q) at h in
      inr (
        Allowed-weaken (λ ms. (member_in_iff ms (member_identity principal)).0)
          (chain_grants-Allowed w e permission resource store chain
            (λ ms. member_in ms (member_identity principal)) p q
            (unfold evaluate_on_resource in loop)))

  -- Where the evaluator is there, a request for a principal, a permission and a resource with
  -- names that are not empty, which the stored policies allow, is never answered `false`.
  pub evaluate_complete :
      (is_root : Bool)
      → principal ≢ ""
      → permission ≢ ""
      → resource ≢ ""
      → Allowed w e permission (Meets (member_identity principal)) resource
      → evaluate w (some e) principal is_root permission resource ≢ ok false
  evaluate_complete true a b c x h = unfold evaluate in cc
  evaluate_complete false a b c x h =
      let loop = rw (walks x.store x.chain a b c x.has_store x.has_chain) at h in
      let test = λ (ms : List String). member_in ms (member_identity principal) in
      on_resource_refused w e permission x.store test x.place
        (unfold evaluate_on_resource in
          first_grant_refused (evaluate_on_resource w e x.store principal permission) x.chain loop
            x.on_chain)
        (Bound-weaken w e permission x.store x.place
          (λ ms. (member_in_iff ms (member_identity principal)).1) x.bound)

module _ (w : World) (e : Evaluator) (permission resource : String) where
  public_chain :
      evaluate_all_users w (some e) permission resource ≡ ok true
      → (chain : List String) × (policy_chain (some e) resource ≡ ok chain)
  unfolding evaluate_all_users
  public_chain h = ground arith

  -- Where the evaluator is there, an anonymous request that is answered `true` is allowed by a
  -- binding that lists `allUsers`, on a resource of its chain, with a condition that holds and a
  -- role that has the permission.
  pub evaluate_all_users_sound :
      evaluate_all_users w (some e) permission resource ≡ ok true
      → Allowed w e permission (Memᴰ "allUsers") resource
  evaluate_all_users_sound h = elim (Option-cases e.policies) [
    | inl p ↦ absurd (unfold evaluate_all_users in ground arith)
    | inr (store, p) ↦
        let (chain, q) = public_chain h in
        Allowed-weaken (λ ms. exact_member_in→mem ms "allUsers")
          (chain_grants-Allowed w e permission resource store chain
            (λ ms. exact_member_in ms "allUsers") p q
            (unfold evaluate_all_users evaluate_exact_member_on_resource in ground arith))
  ]
