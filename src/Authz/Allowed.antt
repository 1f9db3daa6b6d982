-- ===== src/Authz/Allowed.antt =====
-- What it means that the stored policies allow a request, and what the loops of the evaluator over
-- chains and bindings find (internal/kernel/authz/iam.go).
use noctaxris_gcp.Base.{
  String, Bool, true, false, ◌≡◌, List, Memᴰ, some, ok, arith, first_grant, first_grant_sound,
  first_grant_refused,
}
use noctaxris_gcp.Authz.Policy.{World, Policy, Binding, PolicyStore, Evaluator}
use noctaxris_gcp.Authz.Condition.{condition_allows}
use noctaxris_gcp.Authz.Grants.{role_grants}
use noctaxris_gcp.Authz.Chain.{policy_chain}
use noctaxris_gcp.Authz.Evaluate.{parse_policy, binding_grants, grants_on_resource}

module _ (w : World) (e : Evaluator) (permission : String) where
  -- A binding of a stored policy of the resource grants the permission to members that pass `Who`.
  pub record Bound (store : PolicyStore) (Who : List String → Type 0) (resource : String)
      : Type 0 where
    pub raw : String
    pub stored : store.get_iam_policy_json resource ≡ ok (some raw)
    pub policy : Policy
    pub parsed : w.unmarshal raw ≡ some policy
    pub binding : Binding
    pub listed : Memᴰ binding policy.bindings
    pub member : Who binding.members
    pub condition : condition_allows w (some e) binding ≡ true
    pub role : role_grants (some e) binding.role permission ≡ ok true

  binding_parts :
      (meets : List String → Bool) (b : Binding)
      → binding_grants w (some e) meets permission b ≡ ok true
      → (meets b.members ≡ true)
        × (condition_allows w (some e) b ≡ true)
        × (role_grants (some e) b.role permission ≡ ok true)
  unfolding binding_grants
  binding_parts meets b h = ground arith

  binding_built :
      (meets : List String → Bool) (b : Binding)
      → meets b.members ≡ true
      → condition_allows w (some e) b ≡ true
      → role_grants (some e) b.role permission ≡ ok true
      → binding_grants w (some e) meets permission b ≡ ok true
  unfolding binding_grants
  binding_built meets b m c r = ground arith

  module _ (store : PolicyStore) (meets : List String → Bool) where
    -- With a policy stored, the resource is decided by the loop over its bindings.
    found_policy :
        (resource raw : String) (policy : Policy)
        → store.get_iam_policy_json resource ≡ ok (some raw)
        → w.unmarshal raw ≡ some policy
        → grants_on_resource w e store meets permission resource
          ≡ first_grant (binding_grants w (some e) meets permission) policy.bindings
    unfolding grants_on_resource parse_policy
    found_policy resource raw policy p q = ground arith

    -- A resource that grants has a policy.
    has_policy :
        (resource : String)
        → grants_on_resource w e store meets permission resource ≡ ok true
        → (raw : String) × (policy : Policy) × (store.get_iam_policy_json resource ≡ ok (some raw))
          × (w.unmarshal raw ≡ some policy)
    unfolding grants_on_resource parse_policy
    has_policy resource h = ground arith

    on_resource_parts :
        (resource : String)
        → grants_on_resource w e store meets permission resource ≡ ok true
        → Bound store (λ ms. meets ms ≡ true) resource
    on_resource_parts resource h =
        let (raw, policy, p, q) = has_policy resource h in
        let loop : first_grant (binding_grants w (some e) meets permission) policy.bindings
            ≡ ok true =
          rw (found_policy resource raw policy p q) at h in
        let (b, i, g) =
          first_grant_sound (binding_grants w (some e) meets permission) policy.bindings loop in
        let (m, c, r) = binding_parts meets b g in
        record {
          raw = raw;
          stored = p;
          policy = policy;
          parsed = q;
          binding = b;
          listed = i;
          member = m;
          condition = c;
          role = r;
        }

    pub on_resource_refused :
        (resource : String)
        → grants_on_resource w e store meets permission resource ≡ ok false
        → ¬ Bound store (λ ms. meets ms ≡ true) resource
    on_resource_refused resource h b =
        let loop : first_grant (binding_grants w (some e) meets permission) b.policy.bindings
            ≡ ok false =
          rw (found_policy resource b.raw b.policy b.stored b.parsed) at h in
        cc (
          binding_built meets b.binding b.member b.condition b.role,
          first_grant_refused (binding_grants w (some e) meets permission) b.policy.bindings loop
              b.listed,
        )

  pub Bound-weaken :
      (store : PolicyStore) {P Q : List String → Type 0} (resource : String)
      → ((ms : List String) → P ms → Q ms)
      → Bound store P resource
      → Bound store Q resource
  Bound-weaken store resource f b = record {
    raw = b.raw;
    stored = b.stored;
    policy = b.policy;
    parsed = b.parsed;
    binding = b.binding;
    listed = b.listed;
    member = f b.binding.members b.member;
    condition = b.condition;
    role = b.role;
  }

-- The stored policies allow the permission to members that pass `Who`: some resource of the
-- request's chain has a binding, with such members, a condition that holds and a role with the
-- permission.
pub record Allowed (w : World) (e : Evaluator) (permission : String) (Who : List String → Type 0)
    (resource : String) : Type 0 where
  pub store : PolicyStore
  pub has_store : e.policies ≡ some store
  pub chain : List String
  pub has_chain : policy_chain (some e) resource ≡ ok chain
  pub place : String
  pub on_chain : Memᴰ place chain
  pub bound : Bound w e permission store Who place

pub Allowed-weaken :
    {w : World} {e : Evaluator} {permission : String} {P Q : List String → Type 0}
    {resource : String}
    → ((ms : List String) → P ms → Q ms)
    → Allowed w e permission P resource
    → Allowed w e permission Q resource
Allowed-weaken {w} {e} {permission} f a = record {
  store = a.store;
  has_store = a.has_store;
  chain = a.chain;
  has_chain = a.has_chain;
  place = a.place;
  on_chain = a.on_chain;
  bound = Bound-weaken w e permission a.store a.place f a.bound;
}

module _ (w : World) (e : Evaluator) (permission resource : String) (store : PolicyStore)
    (chain : List String) where
  -- What the loop over a chain finds, for the member test `meets`.
  pub chain_grants-Allowed :
      (meets : List String → Bool)
      → e.policies ≡ some store
      → policy_chain (some e) resource ≡ ok chain
      → first_grant (grants_on_resource w e store meets permission) chain ≡ ok true
      → Allowed w e permission (λ ms. meets ms ≡ true) resource
  chain_grants-Allowed meets p q loop =
      let (place, i, g) =
        first_grant_sound (grants_on_resource w e store meets permission) chain loop in
      record {
        store = store;
        has_store = p;
        chain = chain;
        has_chain = q;
        place = place;
        on_chain = i;
        bound = on_resource_parts w e permission store meets place g;
      }
