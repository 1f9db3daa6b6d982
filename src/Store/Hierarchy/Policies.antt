-- ===== src/Store/Hierarchy/Policies.antt =====
-- The policies of internal/store/orgpolicy.go. `now` is the text of the current time; the SQL engine
-- is taken not to fail.
use Prim.Native.String.{String}
use noctaxris_gcp.Base.{
  ℕ, zero, suc, Bool, true, false, not, ◌&&◌, ◌||◌, ◌==◌, List, [], ◌∷◌, ◌++◌, Option, none, some,
  Result, ok, err, message, concat, has_prefix, drop_prefix, trim_space, trim_prefix, trim_suffix,
  one_of, select_where, select_one, exists_row, delete_where, update_where, order_by, if◌then◌else◌,
}
use noctaxris_gcp.Store.PubSub.Topics.{name_le}
use noctaxris_gcp.Store.Hierarchy.Types.{OrgPolicy, HierarchyDb}
use noctaxris_gcp.Store.Hierarchy.Parents.{bare, crm_parent}
use noctaxris_gcp.Store.Hierarchy.Specs.{
  SpecJson, normalize_org_policy_spec_json, boolean_spec_enforced,
}

abbrev pub constraint_disable_service_account_key_creation : String
constraint_disable_service_account_key_creation = "iam.disableServiceAccountKeyCreation"

abbrev pub constraint_storage_public_access_prevention : String
constraint_storage_public_access_prevention = "storage.publicAccessPrevention"

unfoldable pub normalize_org_constraint : String → String
normalize_org_constraint constraint =
    trim_space (trim_prefix (trim_space constraint) "constraints/")

abbrev pub known_org_policy_constraints : List String
known_org_policy_constraints =
    constraint_disable_service_account_key_creation ∷ constraint_storage_public_access_prevention
    ∷ []

unfoldable pub is_known_org_constraint : String → Bool
unfolding normalize_org_constraint
is_known_org_constraint constraint =
    one_of (normalize_org_constraint constraint) known_org_policy_constraints

unfoldable pub org_policy_name : String → String → String
unfolding normalize_org_constraint
org_policy_name parent constraint =
    concat (trim_suffix parent "/") (concat "/policies/" (normalize_org_constraint constraint))

unfoldable pub valid_org_policy_parent : String → Bool
valid_org_policy_parent parent =
    if has_prefix parent "projects/"
    then bare parent "projects/"
    else if has_prefix parent "folders/"
    then bare parent "folders/"
    else if has_prefix parent "organizations/"
    then bare parent "organizations/"
    else false

-- What stands before and behind the last `marker`: `name[:i]` and `name[i+len(marker):]`.
split_last_marker : String → String → Option (String × String)
split_last_marker marker String.[] = if marker == "" then some ("", "") else none
split_last_marker marker (String.◌∷◌ c s) =
    let here = String.◌∷◌ c s in
    elim (split_last_marker marker s) [
      | some (u, v) ↦ some (String.◌∷◌ c u, v)
      | none ↦ if has_prefix here marker then some ("", drop_prefix here marker) else none
    ]

unfoldable pub split_org_policy_name : String → Option (String × String)
unfolding split_last_marker normalize_org_constraint valid_org_policy_parent
split_org_policy_name name = elim (split_last_marker "/policies/" (trim_space name)) [
  | none ↦ none
  | some (parent, rest) ↦
      let constraint = normalize_org_constraint rest in
      if not (valid_org_policy_parent parent) || constraint == ""
      then none
      else some (parent, constraint)
]

-- `parent = ? AND constraint_id = ?`
abbrev pub policy_of : String → String → OrgPolicy → Bool
policy_of parent constraint p = p.parent == parent && p.constraint == constraint

-- The columns that `ON CONFLICT ... DO UPDATE` sets.
abbrev pub overwritten : OrgPolicy → OrgPolicy → OrgPolicy
overwritten new old = record old {
  name = new.name;
  spec_json = new.spec_json;
  etag = "ACAB";
  updated_at = new.updated_at;
}

unfoldable pub upsert_policy : List OrgPolicy → OrgPolicy → List OrgPolicy
upsert_policy rows p =
    if exists_row (policy_of p.parent p.constraint) rows
    then update_where (policy_of p.parent p.constraint) (overwritten p) rows
    else rows ++ p ∷ []

unfoldable pub get_org_policy : HierarchyDb → String → String → Option OrgPolicy
unfolding normalize_org_constraint
get_org_policy db parent constraint =
    select_one (policy_of (trim_space parent) (normalize_org_constraint constraint)) db.policies

unfoldable pub get_org_policy_by_name : HierarchyDb → String → Option OrgPolicy
unfolding split_org_policy_name get_org_policy
get_org_policy_by_name db name = elim (split_org_policy_name name) [
  | none ↦ none
  | some (parent, constraint) ↦ get_org_policy db parent constraint
]

unfoldable pub list_org_policies : HierarchyDb → String → List OrgPolicy
list_org_policies db parent =
    order_by (λ a b. name_le a.constraint b.constraint)
      (select_where (λ p. p.parent == trim_space parent) db.policies)

unfoldable pub delete_org_policy : HierarchyDb → String → String → HierarchyDb × Bool
unfolding normalize_org_constraint
delete_org_policy db raw_parent raw_constraint =
    let test = policy_of (trim_space raw_parent) (normalize_org_constraint raw_constraint) in
    (record db { policies = delete_where test db.policies }, exists_row test db.policies)

abbrev pub enforcement_rounds : ℕ
enforcement_rounds = 32

module _ (json : SpecJson) where
  unfoldable pub set_org_policy :
      (now : String)
      → HierarchyDb
      → (parent constraint spec_json : String) → HierarchyDb × Result OrgPolicy
  unfolding normalize_org_constraint valid_org_policy_parent is_known_org_constraint org_policy_name
      upsert_policy
  set_org_policy now db raw_parent raw_constraint raw_spec =
      let parent = trim_space raw_parent in
      let constraint = normalize_org_constraint raw_constraint in
      if parent == "" || constraint == ""
      then (db, err (message "parent and constraint required"))
      else if not (valid_org_policy_parent parent)
      then (db, err (message "parent must be projects/{id}, folders/{id}, or organizations/{id}"))
      else if not (is_known_org_constraint constraint)
      then (db, err (message (concat "unknown constraint " (json.quote constraint))))
      else elim (normalize_org_policy_spec_json json
          (if trim_space raw_spec == "" then "{\"rules\":[{\"enforce\":false}]}" else raw_spec)) [
            | err e ↦ (db, err e)
            | ok spec_json ↦
                let p : OrgPolicy = record {
                  name = org_policy_name parent constraint;
                  parent = parent;
                  constraint = constraint;
                  spec_json = spec_json;
                  etag = "ACAB";
                  updated_at = now;
                } in
                (record db { policies = upsert_policy db.policies p }, ok p)
          ]

  -- The loop of `IsOrgPolicyConstraintEnforced`, on the rounds that are left, over `seen` and `cur`.
  unfoldable pub enforcement_walk : HierarchyDb → String → ℕ → List String → String → Bool
  enforcement_walk db constraint zero seen cur = false
  enforcement_walk db constraint (suc rounds) seen cur = elim (cur == "" || one_of cur seen) [
    | true ↦ false
    | false ↦ elim (get_org_policy db cur constraint) [
      | some p ↦ boolean_spec_enforced json p.spec_json
      | none ↦ elim (crm_parent db cur) [
        | none ↦ false
        | some parent ↦ enforcement_walk db constraint rounds (cur ∷ seen) parent
      ]
    ]
  ]

  unfoldable pub is_org_policy_constraint_enforced : HierarchyDb → String → String → Bool
  unfolding enforcement_walk normalize_org_constraint
  is_org_policy_constraint_enforced db raw_resource raw_constraint =
      let constraint = normalize_org_constraint raw_constraint in
      let resource = trim_space raw_resource in
      if resource == "" || constraint == ""
      then false
      else enforcement_walk db constraint enforcement_rounds [] resource
