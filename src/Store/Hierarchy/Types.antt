-- ===== src/Store/Hierarchy/Types.antt =====
-- The rows and tables of internal/store/appengine_crm.go (organizations and folders) and
-- internal/store/orgpolicy.go. A time is kept as its text, since the tables only store it.
use noctaxris_gcp.Base.{String, List}

pub record Organization : Type 0 where
  pub name : String
  pub org_id : String
  pub display_name : String
  pub state : String
  pub created_at : String
  pub updated_at : String

pub record Folder : Type 0 where
  pub name : String
  pub folder_id : String
  pub parent : String
  pub display_name : String
  pub state : String
  pub etag : String
  pub created_at : String
  pub updated_at : String
  pub delete_time : String

pub record OrgPolicy : Type 0 where
  pub name : String
  pub parent : String
  pub constraint : String
  pub spec_json : String
  pub etag : String
  pub updated_at : String

pub record HierarchyDb : Type 0 where
  pub organizations : List Organization
  pub folders : List Folder
  pub policies : List OrgPolicy

abbrev pub default_organization_name : String
default_organization_name = "organizations/noctaxris-gcp-org"

abbrev pub default_organization_id : String
default_organization_id = "noctaxris-gcp-org"
