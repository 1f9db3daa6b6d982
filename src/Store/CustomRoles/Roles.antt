-- ===== src/Store/CustomRoles/Roles.antt =====
-- The methods of internal/store/iam_roles.go. `now` is the text of the current time. A write returns
-- the table that it leaves; the SQL engine is taken not to fail.
use noctaxris_gcp.Base.{
  ℕ, suc, String, Bool, true, false, not, ◌&&◌, ◌||◌, ◌==◌, List, [], ◌∷◌, ◌++◌, Option, none, some,
  Result, ok, err, message, annotate, ◌>>=◌, concat, trim_space, equal_fold, select_where,
  select_one, exists_row, update_where, order_by, leb, eqb, ltb, if◌then◌else◌,
}
use Prim.Native.Char.{code}
use noctaxris_gcp.Authz.Policy.{RoleStore}
use noctaxris_gcp.Store.PubSub.Topics.{name_le}
use noctaxris_gcp.Store.Kms.Keys.{or_default}
use noctaxris_gcp.Store.CustomRoles.Types.{CustomRole, RoleRow, RolePatch, PermissionCodec}

abbrev role_id_char : ℕ → Bool
role_id_char c =
    leb b'a' c && leb c b'z'
    || leb b'A' c && leb c b'Z'
    || leb b'0' c && leb c b'9'
    || eqb c b'_'
    || eqb c b'.'

abbrev role_id_chars : String → Bool
role_id_chars String.[] = true
role_id_chars (String.◌∷◌ c s) = role_id_char (code c) && role_id_chars s

abbrev text_length : String → ℕ
text_length String.[] = 0
text_length (String.◌∷◌ c s) = suc (text_length s)

-- Characters are counted for bytes: a text with a longer one is refused by its characters.
unfoldable pub valid_custom_role_id : String → Bool
valid_custom_role_id id =
    if ltb (text_length id) 3 || ltb 64 (text_length id) then false else role_id_chars id

unfoldable pub decode_permission_list : PermissionCodec → String → Result (List String)
decode_permission_list codec raw =
    if trim_space raw == ""
    then ok []
    else annotate "decode includedPermissions" (codec.unmarshal raw)

abbrev pub custom_role_name : String → String → String
custom_role_name project_id role_id =
    concat "projects/" (concat project_id (concat "/roles/" role_id))

abbrev pub row_named : String → RoleRow → Bool
row_named name r = r.name == name

-- The row that the INSERT of `CreateCustomRole` writes.
unfoldable pub fresh_role :
    PermissionCodec
    → String
    → (project_id role_id title description stage : String) → List String
    → RoleRow
fresh_role codec now project_id role_id title description stage perms = record {
  name = custom_role_name project_id role_id;
  project_id = project_id;
  role_id = role_id;
  title = title;
  description = description;
  included_permissions_json = codec.marshal perms;
  stage = or_default "GA" stage;
  etag = "ACAB";
  deleted = false;
  created_at = now;
  updated_at = now;
}

abbrev pub with_permissions : RoleRow → List String → CustomRole
with_permissions r perms = record {
  name = r.name;
  project_id = r.project_id;
  role_id = r.role_id;
  title = r.title;
  description = r.description;
  included_permissions = perms;
  stage = r.stage;
  etag = r.etag;
  deleted = r.deleted;
  created_at = r.created_at;
  updated_at = r.updated_at;
}

-- INSERT OR IGNORE, under the primary key and UNIQUE (project_id, role_id).
abbrev pub taken : RoleRow → RoleRow → Bool
taken new r = r.name == new.name || r.project_id == new.project_id && r.role_id == new.role_id

abbrev pub inserted_role : List RoleRow → RoleRow → List String → List RoleRow × Result CustomRole
inserted_role db row perms =
    if exists_row (taken row) db
    then (db, err (message "already exists"))
    else (db ++ row ∷ [], ok (with_permissions row perms))

unfoldable pub create_custom_role :
    PermissionCodec
    → String
    → List RoleRow
    → (raw_project_id raw_role_id title description stage : String) → List String
    → List RoleRow × Result CustomRole
unfolding fresh_role
create_custom_role codec now db raw_project_id raw_role_id title description stage perms =
    let project_id = trim_space raw_project_id in
    let role_id = trim_space raw_role_id in
    if project_id == "" || role_id == ""
    then (db, err (message "project and roleId required"))
    else if not (valid_custom_role_id role_id)
    then (db, err (message "invalid roleId"))
    else inserted_role db (fresh_role codec now project_id role_id title description stage perms)
        perms

unfoldable pub read_role : PermissionCodec → RoleRow → Result CustomRole
read_role codec r = decode_permission_list codec r.included_permissions_json >>= λ perms.
    ok (with_permissions r perms)

unfoldable pub get_custom_role :
    PermissionCodec → List RoleRow → String → Result (Option CustomRole)
unfolding read_role
get_custom_role codec db name = elim (select_one (row_named name) db) [
  | none ↦ ok none
  | some r ↦ read_role codec r >>= λ role. ok (some role)
]

-- The role that a method works on: `none` where it is not there, or deleted.
unfoldable pub get_active_role :
    PermissionCodec → List RoleRow → String → Result (Option CustomRole)
unfolding get_custom_role
get_active_role codec db name = get_custom_role codec db name >>= λ found. elim found [
  | none ↦ ok none
  | some r ↦ if r.deleted then ok none else ok (some r)
]

unfoldable pub is_disabled : String → Bool
is_disabled stage = equal_fold (trim_space stage) "DISABLED"

unfoldable pub get_role_included_permissions :
    PermissionCodec → List RoleRow → String → Result (Option (List String))
unfolding get_active_role is_disabled
get_role_included_permissions codec db role_name = get_active_role codec db role_name >>= λ found.
    elim found [
      | none ↦ ok none
      | some r ↦ if is_disabled r.stage then ok none else ok (some r.included_permissions)
    ]

-- The store as the evaluator sees it.
unfoldable pub role_store : PermissionCodec → List RoleRow → RoleStore
unfolding get_role_included_permissions
role_store codec db = record {
  get_role_included_permissions = get_role_included_permissions codec db;
}

-- The loop over the rows of a SELECT, which ends at the first that cannot be read.
unfoldable pub read_roles : PermissionCodec → List RoleRow → Result (List CustomRole)
unfolding read_role
read_roles codec [] = ok []
read_roles codec (r ∷ rs) =
    read_role codec r >>= λ role. read_roles codec rs >>= λ roles. ok (role ∷ roles)

unfoldable pub list_custom_roles :
    PermissionCodec → List RoleRow → String → Bool → Result (List CustomRole)
unfolding read_roles
list_custom_roles codec db raw_project_id show_deleted =
    let project_id = trim_space raw_project_id in
    read_roles codec (
      order_by (λ a b. name_le a.role_id b.role_id)
        (select_where (λ r. r.project_id == project_id && (show_deleted || not r.deleted)) db))

unfoldable pub patched_role : String → RolePatch → CustomRole → CustomRole
patched_role now p r = record r {
  title = if p.update_title then p.title else r.title;
  description = if p.update_description then p.description else r.description;
  stage = if p.update_stage then or_default "GA" p.stage else r.stage;
  included_permissions = if p.update_perms then p.included_permissions else r.included_permissions;
  etag = "ACAB";
  updated_at = now;
}

-- SET title, description, included_permissions_json, stage, etag, updated_at
abbrev pub write_role : PermissionCodec → CustomRole → RoleRow → RoleRow
write_role codec role r = record r {
  title = role.title;
  description = role.description;
  included_permissions_json = codec.marshal role.included_permissions;
  stage = role.stage;
  etag = role.etag;
  updated_at = role.updated_at;
}

abbrev pub active_named : String → RoleRow → Bool
active_named name r = r.name == name && not r.deleted

unfoldable pub update_custom_role :
    PermissionCodec
    → String
    → List RoleRow
    → String
    → RolePatch
    → List RoleRow × Result (Option CustomRole)
unfolding get_active_role patched_role
update_custom_role codec now db name p = elim (get_active_role codec db name) [
  | err e ↦ (db, err e)
  | ok none ↦ (db, ok none)
  | ok (some r) ↦
      let role = patched_role now p r in
      (
        update_where (active_named name) (write_role codec role) db,
        ok (if exists_row (active_named name) db then some role else none),
      )
]

abbrev pub mark_role : Bool → String → RoleRow → RoleRow
mark_role deleted now r = record r { deleted = deleted; updated_at = now }

unfoldable pub delete_custom_role :
    PermissionCodec → String → List RoleRow → String → List RoleRow × Result (Option CustomRole)
unfolding get_active_role
delete_custom_role codec now db name = elim (get_active_role codec db name) [
  | err e ↦ (db, err e)
  | ok none ↦ (db, ok none)
  | ok (some r) ↦ (
    update_where (active_named name) (mark_role true now) db,
    ok (
        if exists_row (active_named name) db
        then some (record r { deleted = true; updated_at = now })
        else none),
  )
]

abbrev pub deleted_named : String → RoleRow → Bool
deleted_named name r = r.name == name && r.deleted

unfoldable pub undelete_custom_role :
    PermissionCodec → String → List RoleRow → String → List RoleRow × Result (Option CustomRole)
unfolding get_custom_role
undelete_custom_role codec now db name =
    let db' = update_where (deleted_named name) (mark_role false now) db in
    (db', if exists_row (deleted_named name) db then get_custom_role codec db' name else ok none)
