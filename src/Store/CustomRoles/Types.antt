-- ===== src/Store/CustomRoles/Types.antt =====
-- The rows of internal/store/iam_roles.go and the roles that its methods answer with. A time is kept
-- as its text, since the table only stores it.
use noctaxris_gcp.Base.{String, Bool, List, Result}

pub record CustomRole : Type 0 where
  pub name : String
  pub project_id : String
  pub role_id : String
  pub title : String
  pub description : String
  pub included_permissions : List String
  pub stage : String
  pub etag : String
  pub deleted : Bool
  pub created_at : String
  pub updated_at : String

-- A row of `iam_custom_roles`, which keeps the permissions as JSON.
pub record RoleRow : Type 0 where
  pub name : String
  pub project_id : String
  pub role_id : String
  pub title : String
  pub description : String
  pub included_permissions_json : String
  pub stage : String
  pub etag : String
  pub deleted : Bool
  pub created_at : String
  pub updated_at : String

-- The arguments of `UpdateCustomRole` behind the name. A nil list is empty.
pub record RolePatch : Type 0 where
  pub title : String
  pub description : String
  pub stage : String
  pub included_permissions : List String
  pub update_title : Bool
  pub update_description : Bool
  pub update_stage : Bool
  pub update_perms : Bool

-- `json.Marshal` and `json.Unmarshal` at a list of texts, where the JSON `null` is the empty list.
pub record PermissionCodec : Type 0 where
  pub marshal : List String → String
  pub unmarshal : String → Result (List String)
