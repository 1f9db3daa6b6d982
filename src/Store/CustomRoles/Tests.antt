-- ===== src/Store/CustomRoles/Tests.antt =====
-- A role that is created, changed and deleted, and what the evaluator says to it.
use noctaxris_gcp.Base.{
  String, true, false, not, ◌≡◌, ◌≢◌, ◌↔◌, refl, ap, List, [], ◌∷◌, Memᴰ, none, some, Result, ok,
  err, message, concat, eq_iff, all_pass, select_one, exists_row, update_where, trim_space,
  equal_fold, to_lower, split_on, split_when, has_prefix, contains,
}
use noctaxris_gcp.Authz.Policy.{Evaluator}
use noctaxris_gcp.Authz.Grants.{is_custom_role_name, role_grants}
use noctaxris_gcp.Store.CustomRoles.Types.{CustomRole, RoleRow, RolePatch, PermissionCodec}
use noctaxris_gcp.Store.CustomRoles.Roles.{
  row_named, with_permissions, fresh_role, custom_role_name, decode_permission_list, is_disabled,
  get_active_role, patched_role, get_custom_role, get_role_included_permissions, read_role,
  role_store, create_custom_role, update_custom_role, delete_custom_role, undelete_custom_role,
  valid_custom_role_id,
}
use noctaxris_gcp.Store.CustomRoles.Granted.{Active, custom_role_grants_iff}
use noctaxris_gcp.Store.CustomRoles.Created.{listed_grant, created_role_grants}
use noctaxris_gcp.Store.CustomRoles.Revoked.{
  RoleCall, create, update, delete, undelete, role_call, run_roles, undeletes, deleted_role_silent,
}

-- A JSON list of texts without escapes.
abbrev quoted : List String → String
quoted [] = "]"
quoted (p ∷ ps) = concat "\"" (concat p (concat "\"," (quoted ps)))

abbrev every_second : List String → List String
every_second [] = []
every_second (a ∷ []) = []
every_second (a ∷ b ∷ rest) = b ∷ every_second rest

abbrev plain : PermissionCodec
plain = record {
  marshal = λ ps. concat "[" (quoted ps);
  unmarshal = λ s. ok (unfold split_on split_when in every_second (split_on b'"' s));
}

abbrev reads : List String
reads = "pubsub.topics.get" ∷ "pubsub.topics.list" ∷ []

abbrev reader : String
reader = "projects/p/roles/reader"

abbrev with_reader : List RoleRow
with_reader = fresh_role plain "noon" "p" "reader" "Reader" "" "GA" reads ∷ []

created_test : create_custom_role plain "noon" [] " p" "reader" "Reader" "" "" reads ≡ (
  with_reader,
  ok (with_permissions (fresh_role plain "noon" "p" "reader" "Reader" "" "GA" reads) reads),
)
unfolding create_custom_role trim_space valid_custom_role_id exists_row fresh_role
created_test = refl

refused :
    (create_custom_role plain "one" with_reader "p" "reader" "" "" "" []
      ≡ (with_reader, err (message "already exists")))
    × (create_custom_role plain "one" with_reader "p" "no" "" "" "" []
        ≡ (with_reader, err (message "invalid roleId")))
    × (create_custom_role plain "one" with_reader "p" " " "" "" "" []
        ≡ (with_reader, err (message "project and roleId required")))
unfolding create_custom_role trim_space valid_custom_role_id exists_row fresh_role
refused = (refl, refl, refl)

abbrev reading : List RoleRow → Evaluator
reading db = record {
  policies = none;
  roles = some (role_store plain db);
  parents = none;
  now = none;
}

-- The same role once more, disabled, then given another permission.
abbrev patch : String → List String → RolePatch
patch stage perms = record {
  title = "";
  description = "";
  stage = stage;
  included_permissions = perms;
  update_title = false;
  update_description = false;
  update_stage = true;
  update_perms = true;
}

reader_decodes : plain.unmarshal (plain.marshal reads) ≡ ok reads
unfolding split_on split_when
reader_decodes = refl

marshal_not_blank : trim_space (plain.marshal reads) ≢ ""
unfolding trim_space
marshal_not_blank e = cc ((eq_iff (trim_space (plain.marshal reads)) "").1 e)

created_role_grants_example :
    (select_one (row_named reader) [] ≡ none)
    × (reader ≡ custom_role_name (trim_space " p") (trim_space "reader"))
    × (role_grants
          (some (reading (create_custom_role plain "noon" [] " p" "reader" "Reader" "" "" reads).0))
          reader
          "pubsub.topics.get"
        ≡ ok (listed_grant "GA" reads "pubsub.topics.get"))
unfolding fresh_role
created_role_grants_example =
    created_role_grants plain "noon" [] " p" "reader" "Reader" "" "" reads
      (reading (create_custom_role plain "noon" [] " p" "reader" "Reader" "" "" reads).0)
      "pubsub.topics.get"
      {role = with_permissions (fresh_role plain "noon" "p" "reader" "Reader" "" "GA" reads) reads}
      reader_decodes marshal_not_blank
      (ap (λ (c : List RoleRow × Result CustomRole). c.1) created_test) refl

reader_IsCustom : is_custom_role_name reader ≡ true
unfolding is_custom_role_name has_prefix contains
reader_IsCustom = refl

custom_role_grants_iff_example :
    (role_grants (some (reading with_reader)) reader "pubsub.topics.list" ≡ ok true) ↔ (
      (perms : List String) × Active plain with_reader reader perms
      × Memᴰ "pubsub.topics.list" perms)
custom_role_grants_iff_example =
    custom_role_grants_iff (reading with_reader) plain with_reader refl reader "pubsub.topics.list"
      reader_IsCustom

abbrev later : List (String × RoleCall)
later =
    ("two", create "p" "reader" "" "" "" ("iam.roles.get" ∷ []))
    ∷ ("three", update reader (patch "GA" reads))
    ∷ ("four", undelete "projects/p/roles/other")
    ∷ []

later_restores_others : all_pass (λ c. not (undeletes reader c)) later ≡ true
unfolding all_pass
later_restores_others = refl

reader_deleted :
    (delete_custom_role plain "one" with_reader reader).1
    ≡ ok (
        some
          (record (with_permissions
            (fresh_role plain "noon" "p" "reader" "Reader" "" "GA" reads)
            reads) { deleted = true; updated_at = "one" }))
unfolding delete_custom_role get_active_role get_custom_role read_role decode_permission_list
    select_one exists_row fresh_role trim_space split_on split_when
reader_deleted = refl

deleted_role_silent_example :
    role_grants
      (some (reading (run_roles plain (delete_custom_role plain "one" with_reader reader).0 later)))
      reader
      "pubsub.topics.get"
    ≢ ok true
deleted_role_silent_example =
    deleted_role_silent
      (reading (run_roles plain (delete_custom_role plain "one" with_reader reader).0 later)) plain
      with_reader reader "one" later "pubsub.topics.get" reader_IsCustom reader_deleted
      later_restores_others refl

-- Deleted, restored, and then disabled in another spelling.
restored :
    get_role_included_permissions plain
      (run_roles plain with_reader (("one", delete reader) ∷ ("two", undelete reader) ∷ []))
      reader
    ≡ ok (some reads)
unfolding run_roles role_call delete_custom_role undelete_custom_role get_role_included_permissions
    get_active_role get_custom_role read_role decode_permission_list select_one exists_row
    update_where fresh_role trim_space split_on split_when is_disabled equal_fold to_lower
restored = refl

disabled :
    get_role_included_permissions plain
      (role_call plain "one" with_reader (update reader (patch " Disabled" reads)))
      reader
    ≡ ok none
unfolding role_call update_custom_role patched_role get_role_included_permissions get_active_role
    get_custom_role read_role decode_permission_list select_one exists_row update_where fresh_role
    trim_space split_on split_when is_disabled equal_fold to_lower
disabled = refl
