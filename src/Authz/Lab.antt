-- ===== src/Authz/Lab.antt =====
-- Concrete requests: a project in a folder, whose policy lets Alice read until a time and everyone
-- publish.
use noctaxris_gcp.Base.{
  String, true, ◌==◌, ◌≡◌, refl, [], ◌∷◌, none, some, ok, ltb, if◌then◌else◌, has_prefix, split_at,
  drop_prefix, contains, one_of,
}
use noctaxris_gcp.Authz.Policy.{
  Binding, Policy, PolicyStore, CrmParentStore, Evaluator, World, bool,
}
use noctaxris_gcp.Authz.Chain.{
  policy_chain, resource_policy_chain, find_anchor, is_crm_hierarchy_resource, crm_walk,
}

abbrev pub alice_reads : Binding
alice_reads = record {
  role = "roles/viewer";
  members = "user:bob@lab.test" ∷ "serviceAccount:alice@lab.test" ∷ [];
  condition = some (record { expression = " request.time < limit "; title = ""; description = "" });
}

abbrev pub all_publish : Binding
all_publish = record {
  role = "roles/pubsub.publisher";
  members = "allUsers" ∷ [];
  condition = none;
}

abbrev pub project_policy : Policy
project_policy = record { bindings = alice_reads ∷ all_publish ∷ []; etag = "" }

-- The only document is the project's; the only condition that compiles holds before 100.
abbrev pub lab : World
lab = record {
  unmarshal = λ raw. if raw == "document" then some project_policy else none;
  cel = record {
    has_env = true;
    compiles = λ text. text == "request.time < limit";
    plans = λ text. true;
    eval = λ text t. some (bool (ltb t 100));
  };
  wall_now = 200;
}

abbrev pub policies : PolicyStore
policies = record {
  get_iam_policy_json =
      λ resource. if resource == "projects/p1" then ok (some "document") else ok none;
}

abbrev pub parents : CrmParentStore
parents = record {
  crm_parent = λ resource.
      if resource == "projects/p1"
      then ok (some "folders/f1")
      else if resource == "folders/f1"
      then ok (some "organizations/o1")
      else ok none;
}

abbrev pub evaluator : Evaluator
evaluator = record { policies = some policies; roles = none; parents = some parents; now = some 50 }

pub topic_chain :
    policy_chain (some evaluator) "projects/p1/topics/t1"
    ≡ ok ("projects/p1/topics/t1" ∷ "projects/p1" ∷ "folders/f1" ∷ "organizations/o1" ∷ [])
unfolding policy_chain find_anchor resource_policy_chain has_prefix split_at drop_prefix
    is_crm_hierarchy_resource contains crm_walk one_of
topic_chain = refl

abbrev pub topic : String
topic = "projects/p1/topics/t1"
