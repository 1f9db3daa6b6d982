-- ===== src/Store/Hierarchy/Tests.antt =====
-- A folder under the organization with a policy, and a project that is read for the organization.
use mathlib.Core.List.Memᴰ
use noctaxris_gcp.Base.{
  String, true, false, ◌==◌, ◌≡◌, refl, sym, subst, eq_iff, eq_refl, ◌≢◌, ◌↔◌, ◌<◌, ℕ, inl, [], ◌∷◌,
  none, some, ok, arith, concat, has_prefix, has_suffix, drop_prefix, trim_prefix, trim_space,
  contains, split_at, one_of, select_one, exists_row, update_where, select_where, order_by,
  to_lower, fields, trim_suffix, trim_quotes, equal_fold, take_text, without_byte, if◌then◌else◌,
}
use noctaxris_gcp.Authz.Policy.{PolicyStore, Evaluator}
use noctaxris_gcp.Authz.Condition.{condition_allows, eval_request_time}
use noctaxris_gcp.Authz.Members.{member_identity}
use noctaxris_gcp.Authz.Membership.{Meets}
use noctaxris_gcp.Authz.Grants.{role_grants}
use noctaxris_gcp.Authz.Roles.Switch.{select}
use noctaxris_gcp.Authz.Roles.Basic.{basic_cases, viewer_grants}
use noctaxris_gcp.Authz.Inheritance.{nested}
use noctaxris_gcp.Authz.Evaluate.{evaluate}
use noctaxris_gcp.Authz.Allowed.{Bound}
use noctaxris_gcp.Authz.Lab.{alice_reads, project_policy, lab}
use noctaxris_gcp.Store.Hierarchy.Types.{Folder, OrgPolicy, HierarchyDb, default_organization_name}
use noctaxris_gcp.Store.Hierarchy.Folders.{
  get_folder, create_folder, delete_folder, undelete_folder, deleted_folder, restored_folder,
}
use noctaxris_gcp.Store.Hierarchy.Search.{search_folders}
use noctaxris_gcp.Store.Hierarchy.Parents.{crm_parent, crm_parents}
use noctaxris_gcp.Store.Hierarchy.Specs.{
  bool, object, Fields, end, field, SpecJson, value_at, with_value, without_key, one_rule,
  normalize_spec, boolean_spec_enforced,
}
use noctaxris_gcp.Store.Hierarchy.Policies.{
  normalize_org_constraint, get_org_policy, enforcement_rounds, is_org_policy_constraint_enforced,
  split_org_policy_name,
}
use noctaxris_gcp.Store.Hierarchy.Enforcement.{Governs, is_org_policy_constraint_enforced_iff}
use noctaxris_gcp.Store.Hierarchy.Inherited.{organization_grants}
use noctaxris_gcp.Store.Hierarchy.Normal.{IsNormal, normalize_spec-IsNormal}

abbrev draft : Folder
draft = record {
  name = "";
  folder_id = "";
  parent = default_organization_name;
  display_name = "Lab";
  state = "";
  etag = "";
  created_at = "";
  updated_at = "";
  delete_time = "";
}

abbrev folder : Folder
folder = record {
  name = "folders/0123456789abcdef";
  folder_id = "0123456789abcdef";
  parent = default_organization_name;
  display_name = "Lab";
  state = "ACTIVE";
  etag = "ACAB";
  created_at = "noon";
  updated_at = "noon";
  delete_time = "";
}

abbrev keyless : OrgPolicy
keyless = record {
  name = "organizations/noctaxris-gcp-org/policies/iam.disableServiceAccountKeyCreation";
  parent = default_organization_name;
  constraint = "iam.disableServiceAccountKeyCreation";
  spec_json = "enforced";
  etag = "ACAB";
  updated_at = "noon";
}

abbrev tables : HierarchyDb
tables = record { organizations = []; folders = folder ∷ []; policies = keyless ∷ [] }

abbrev json : SpecJson
json = record {
  unmarshal_map = λ spec. some end;
  marshal = λ spec. "{}";
  unmarshal_spec =
      λ spec. some (record { reset = false; rules = none ∷ some (spec == "enforced") ∷ [] });
  quote = λ s. s;
}

created :
    create_folder "noon" "01234567-89ab-cdef-0123-456789abcdef"
      (record { organizations = []; folders = []; policies = keyless ∷ [] })
      draft
    ≡ (tables, ok (some folder))
unfolding create_folder trim_space trim_prefix exists_row select_one take_text without_byte
created = refl

-- A folder that is deleted and restored.
restored :
    undelete_folder "two" "01234567-89ab"
      (delete_folder "one" tables "0123456789abcdef").0
      "folders/0123456789abcdef"
    ≡ (
      record tables {
        folders = restored_folder "two" "01234567-89ab" (deleted_folder "one" folder) ∷ [];
      },
      some (restored_folder "two" "01234567-89ab" (deleted_folder "one" folder)),
    )
unfolding undelete_folder delete_folder get_folder trim_space trim_prefix exists_row select_one
    update_where
restored = refl

found : search_folders tables "displayName=\"la*\" AND state=active" ≡ folder ∷ []
unfolding search_folders select_where order_by trim_space contains to_lower fields trim_suffix
    trim_quotes trim_prefix equal_fold split_at
found = refl

policy_names :
    (split_org_policy_name " folders/f/policies/constraints/c" ≡ some ("folders/f", "c"))
    × (split_org_policy_name "folders/f/g/policies/c" ≡ none)
unfolding split_org_policy_name has_prefix drop_prefix trim_prefix contains trim_space
policy_names = (refl, refl)

folder_enforced :
    is_org_policy_constraint_enforced json tables folder.name
      " constraints/iam.disableServiceAccountKeyCreation"
    ≡ true
unfolding is_org_policy_constraint_enforced get_org_policy crm_parent get_folder trim_space
    trim_prefix has_prefix contains one_of select_one boolean_spec_enforced
folder_enforced = refl

folder_trimmed : trim_space folder.name ≢ ""
unfolding trim_space
folder_trimmed e = ground (arith, eq_iff folder.name "", eq_refl "", e)

constraint_left : normalize_org_constraint keyless.constraint ≢ ""
unfolding normalize_org_constraint trim_space trim_prefix has_prefix
constraint_left e = ground (arith, eq_iff keyless.constraint "", e)

is_org_policy_constraint_enforced_iff_example :
    (is_org_policy_constraint_enforced json tables folder.name keyless.constraint ≡ true) ↔ (
      (p : OrgPolicy) × (n : ℕ) × (n < enforcement_rounds)
      × Governs tables (normalize_org_constraint keyless.constraint) p n (trim_space folder.name)
      × (boolean_spec_enforced json p.spec_json ≡ true))
is_org_policy_constraint_enforced_iff_example =
    is_org_policy_constraint_enforced_iff json tables folder.name keyless.constraint folder_trimmed
      constraint_left

-- The organization's policy is the only one.
abbrev organization_policies : PolicyStore
organization_policies = record {
  get_iam_policy_json =
      λ resource. if resource == default_organization_name then ok (some "document") else ok none;
}

abbrev over_tables : Evaluator
over_tables = record {
  policies = some organization_policies;
  roles = none;
  parents = some (crm_parents tables);
  now = some 50;
}

alice_member : Meets (member_identity "alice@lab.test") alice_reads.members
alice_member =
    let identity : member_identity "alice@lab.test" ≡ "serviceAccount:alice@lab.test" =
      unfold member_identity contains trim_space in refl in
    subst (λ (i : String). Meets i alice_reads.members) (sym identity)
      ("serviceAccount:alice@lab.test", Memᴰ.tail (Memᴰ.head refl), inl refl)

organization_Bound :
    Bound lab over_tables "pubsub.topics.get" organization_policies
      (Meets (member_identity "alice@lab.test"))
      default_organization_name
organization_Bound = record {
  raw = "document";
  stored = refl;
  policy = project_policy;
  parsed = refl;
  binding = alice_reads;
  listed = Memᴰ.head refl;
  member = alice_member;
  condition = unfold condition_allows eval_request_time trim_space in refl;
  role = unfold role_grants select basic_cases viewer_grants one_of has_suffix in refl;
}

not_empty : (s : String) → s == "" ≡ false → s ≢ ""
not_empty s h e = cc (h, (eq_iff s "").1 e)

organization_grants_example :
    (evaluate lab
        (some over_tables)
        "alice@lab.test"
        false
        "pubsub.topics.get"
        (concat "projects/" "p1")
      ≢ ok false)
    × ((rest : String)
        → evaluate lab
            (some over_tables)
            "alice@lab.test"
            false
            "pubsub.topics.get"
            (nested "p1" rest)
          ≢ ok false)
organization_grants_example =
    organization_grants lab tables over_tables organization_policies "alice@lab.test"
      "pubsub.topics.get" "p1" (not_empty "p1" refl) (unfold split_at in refl)
      (unfold trim_space in refl) (not_empty "alice@lab.test" refl)
      (not_empty "pubsub.topics.get" refl) refl refl organization_Bound

abbrev first_version : Fields
first_version = field "booleanPolicy" (object (field "enforced" (bool true) end)) end

abbrev normalized : Fields
normalized = field "rules" (one_rule true) end

lifted : normalize_spec first_version ≡ ok normalized
unfolding normalize_spec value_at with_value without_key
lifted = refl

normalize_spec-IsNormal_example : IsNormal normalized
normalize_spec-IsNormal_example = normalize_spec-IsNormal first_version normalized lifted
