-- ===== src/Authz/Tests.antt =====
-- The theorems on the evaluator at a concrete lab.
use noctaxris_gcp.Base.{
  String, true, false, ◌==◌, ◌≡◌, refl, sym, subst, eq_iff, ◌≢◌, ◌↔◌, ◌⊎◌, inl, [], ◌∷◌, Memᴰ, some,
  ok, has_prefix, contains, one_of, has_suffix, trim_space, first_grant, one_of→mem,
}
use noctaxris_gcp.Authz.Condition.{condition_allows, eval_request_time}
use noctaxris_gcp.Authz.Members.{member_identity, member_in, member_among, exact_member_in}
use noctaxris_gcp.Authz.Membership.{Meets, member_in_iff}
use noctaxris_gcp.Authz.Grants.{
  is_custom_role_name, role_grants, default_grants, predefined_service_role_grants,
  predefined_cases,
}
use noctaxris_gcp.Authz.Roles.Switch.{select}
use noctaxris_gcp.Authz.Roles.Basic.{basic_cases}
use noctaxris_gcp.Authz.Roles.Telemetry.{pubsub_publisher_grants}
use noctaxris_gcp.Authz.Ancestry.{IsChain, policy_chain-IsChain}
use noctaxris_gcp.Authz.Evaluate.{
  evaluate, evaluate_on_resource, grants_on_resource, parse_policy, binding_grants,
  evaluate_all_users, evaluate_exact_member_on_resource, granted_subset, test_iam_permissions,
}
use noctaxris_gcp.Authz.Allowed.{Bound, Allowed}
use noctaxris_gcp.Authz.Decision.{evaluate_sound, evaluate_complete, evaluate_all_users_sound}
use noctaxris_gcp.Authz.Minting.{mint_permissions, minting_roles, minting_roles_only}
use noctaxris_gcp.Authz.Requests.{test_iam_permissions_exact, public_for_principals}
use noctaxris_gcp.Authz.Roles.Basic.{viewer_grants, viewer_listed}
use noctaxris_gcp.Authz.Lab.{
  alice_reads, project_policy, lab, policies, parents, evaluator, topic_chain, topic,
}

alice_may_read :
    evaluate lab (some evaluator) "alice@lab.test" false "pubsub.topics.get" topic ≡ ok true
unfolding evaluate evaluate_on_resource grants_on_resource parse_policy first_grant binding_grants
    member_in member_among member_identity condition_allows eval_request_time trim_space role_grants
    select basic_cases viewer_grants has_prefix has_suffix contains one_of
alice_may_read = rw (topic_chain, evaluate) refl

-- A decision that allows, at a concrete project.
evaluate_sound_example :
    (false ≡ true)
    ⊎ Allowed lab evaluator "pubsub.topics.get" (Meets (member_identity "alice@lab.test")) topic
evaluate_sound_example =
    evaluate_sound lab evaluator "alice@lab.test" "pubsub.topics.get" topic false alice_may_read

alice_listed : Meets "serviceAccount:alice@lab.test" alice_reads.members
alice_listed = ("serviceAccount:alice@lab.test", Memᴰ.tail (Memᴰ.head refl), inl refl)

alice_identity : member_identity "alice@lab.test" ≡ "serviceAccount:alice@lab.test"
unfolding member_identity contains trim_space
alice_identity = refl

alice_Meets : Meets (member_identity "alice@lab.test") alice_reads.members
alice_Meets = subst (λ (i : String). Meets i alice_reads.members) (sym alice_identity) alice_listed

project_Bound :
    Bound lab evaluator "pubsub.topics.get" policies
      (Meets (member_identity "alice@lab.test"))
      "projects/p1"
project_Bound = record {
  raw = "document";
  stored = refl;
  policy = project_policy;
  parsed = refl;
  binding = alice_reads;
  listed = Memᴰ.head refl;
  member = alice_Meets;
  condition = unfold condition_allows eval_request_time trim_space in refl;
  role = unfold role_grants select basic_cases viewer_grants one_of has_suffix in refl;
}

topic_Allowed :
    Allowed lab evaluator "pubsub.topics.get" (Meets (member_identity "alice@lab.test")) topic
topic_Allowed = record {
  store = policies;
  has_store = refl;
  chain = topic ∷ "projects/p1" ∷ "folders/f1" ∷ "organizations/o1" ∷ [];
  has_chain = topic_chain;
  place = "projects/p1";
  on_chain = Memᴰ.tail (Memᴰ.head refl);
  bound = project_Bound;
}

not_empty : (s : String) → (s == "" ≡ false) → s ≢ ""
not_empty s h e = cc (h, (eq_iff s "").1 e)

evaluate_complete_example :
    evaluate lab (some evaluator) "alice@lab.test" false "pubsub.topics.get" topic ≢ ok false
evaluate_complete_example =
    evaluate_complete lab evaluator "alice@lab.test" "pubsub.topics.get" topic false
      (not_empty "alice@lab.test" refl) (not_empty "pubsub.topics.get" refl) (not_empty topic refl)
      topic_Allowed

everyone_may_publish :
    evaluate_all_users lab (some evaluator) "pubsub.topics.publish" topic ≡ ok true
unfolding evaluate_all_users evaluate_exact_member_on_resource grants_on_resource parse_policy
    first_grant binding_grants exact_member_in condition_allows role_grants select basic_cases
    default_grants is_custom_role_name predefined_service_role_grants predefined_cases
    pubsub_publisher_grants has_prefix contains one_of
everyone_may_publish = rw (topic_chain, evaluate_all_users) refl

evaluate_all_users_sound_example :
    Allowed lab evaluator "pubsub.topics.publish" (Memᴰ "allUsers") topic
evaluate_all_users_sound_example =
    evaluate_all_users_sound lab evaluator "pubsub.topics.publish" topic everyone_may_publish

public_for_principals_example :
    evaluate lab (some evaluator) "bob@lab.test" false "pubsub.topics.publish" topic ≢ ok false
public_for_principals_example =
    public_for_principals lab evaluator "bob@lab.test" "pubsub.topics.publish" topic
      (not_empty "bob@lab.test" refl) (not_empty "pubsub.topics.publish" refl)
      (not_empty topic refl) (unfold member_identity contains trim_space has_prefix in refl)
      everyone_may_publish

member_in_iff_example :
    (member_in ("allUsers" ∷ []) "user:bob@lab.test" ≡ true)
    ↔ Meets "user:bob@lab.test" ("allUsers" ∷ [])
member_in_iff_example = member_in_iff ("allUsers" ∷ []) "user:bob@lab.test"

policy_chain-IsChain_example :
    IsChain parents topic (topic ∷ "projects/p1" ∷ "folders/f1" ∷ "organizations/o1" ∷ [])
policy_chain-IsChain_example =
    policy_chain-IsChain evaluator parents topic
      (topic ∷ "projects/p1" ∷ "folders/f1" ∷ "organizations/o1" ∷ []) refl topic_chain

creator_signs :
    role_grants
      (some evaluator)
      "roles/iam.serviceAccountTokenCreator"
      "iam.serviceAccounts.signJwt"
    ≡ ok true
unfolding role_grants select basic_cases default_grants is_custom_role_name
    predefined_service_role_grants predefined_cases has_prefix contains one_of
creator_signs = refl

minting_roles_only_example :
    Memᴰ "roles/iam.serviceAccountTokenCreator" minting_roles
    ⊎ (is_custom_role_name "roles/iam.serviceAccountTokenCreator" ≡ true)
minting_roles_only_example =
    minting_roles_only (some evaluator) "roles/iam.serviceAccountTokenCreator"
      "iam.serviceAccounts.signJwt"
      (one_of→mem "iam.serviceAccounts.signJwt" mint_permissions (unfold one_of in refl))
      creator_signs

alice_may_not_delete :
    evaluate lab (some evaluator) "alice@lab.test" false "pubsub.topics.delete" topic ≡ ok false
unfolding evaluate evaluate_on_resource grants_on_resource parse_policy first_grant binding_grants
    member_in member_among member_identity condition_allows eval_request_time trim_space role_grants
    select basic_cases viewer_grants viewer_listed default_grants is_custom_role_name
    predefined_service_role_grants predefined_cases pubsub_publisher_grants has_prefix has_suffix
    contains one_of
alice_may_not_delete = rw (topic_chain, evaluate) refl

alice_tests :
    test_iam_permissions lab
      (some evaluator)
      "alice@lab.test"
      false
      topic
      ("pubsub.topics.get" ∷ "pubsub.topics.delete" ∷ [])
    ≡ ok ("pubsub.topics.get" ∷ [])
unfolding test_iam_permissions granted_subset
alice_tests = rw (alice_may_read, alice_may_not_delete, granted_subset) refl

test_iam_permissions_exact_example :
    Memᴰ {A = String} "pubsub.topics.get" ("pubsub.topics.get" ∷ []) ↔ (
      Memᴰ {A = String} "pubsub.topics.get" ("pubsub.topics.get" ∷ "pubsub.topics.delete" ∷ [])
      × (evaluate lab (some evaluator) "alice@lab.test" false "pubsub.topics.get" topic ≡ ok true))
test_iam_permissions_exact_example =
    test_iam_permissions_exact lab (some evaluator) "alice@lab.test" false topic
      ("pubsub.topics.get" ∷ "pubsub.topics.delete" ∷ []) ("pubsub.topics.get" ∷ [])
      "pubsub.topics.get" alice_tests
