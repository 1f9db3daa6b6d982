-- ===== src/Store/Hierarchy/Organizations.antt =====
-- Organizations (internal/store/appengine_crm.go). `now` is the text of the current time. A write
-- returns the tables that it leaves; the SQL engine is taken not to fail.
use noctaxris_gcp.Base.{
  String, Bool, ◌||◌, ◌==◌, List, [], ◌∷◌, ◌++◌, Option, none, Result, ok, err, message, concat,
  trim_space, trim_prefix, select_one, exists_row, order_by, if◌then◌else◌,
}
use noctaxris_gcp.Store.PubSub.Topics.{name_le}
use noctaxris_gcp.Store.Kms.Keys.{or_default}
use noctaxris_gcp.Store.Hierarchy.Types.{
  Organization, HierarchyDb, default_organization_name, default_organization_id,
}

-- The primary key and the unique column of the table.
abbrev same_organization : Organization → Organization → Bool
same_organization new old = old.name == new.name || old.org_id == new.org_id

-- INSERT OR IGNORE
unfoldable pub insert_organization : HierarchyDb → Organization → HierarchyDb × Bool
insert_organization db org =
    if exists_row (same_organization org) db.organizations
    then (db, Bool.false)
    else (record db { organizations = db.organizations ++ org ∷ [] }, Bool.true)

unfoldable pub ensure_lab_organization : String → HierarchyDb → HierarchyDb
unfolding insert_organization
ensure_lab_organization now db =
    (insert_organization db (record {
      name = default_organization_name;
      org_id = default_organization_id;
      display_name = "Noctaxris-GCP Lab Org";
      state = "ACTIVE";
      created_at = now;
      updated_at = now;
    })).0

unfoldable pub create_organization : String → HierarchyDb → Organization → HierarchyDb × Result Bool
unfolding insert_organization
create_organization now db org =
    if org.org_id == ""
    then (db, err (message "org id required"))
    else let created_at = or_default now org.created_at in
      let (db', made) = insert_organization db (record org {
        name = or_default (concat "organizations/" org.org_id) org.name;
        display_name = or_default org.org_id org.display_name;
        state = or_default "ACTIVE" org.state;
        created_at = created_at;
        updated_at = or_default created_at org.updated_at;
      }) in
      (db', ok made)

-- `WHERE name = ? OR org_id = ?`
unfoldable pub get_organization : HierarchyDb → String → Option Organization
get_organization db name_or_id =
    let id = trim_prefix (trim_space name_or_id) "organizations/" in
    if id == ""
    then none
    else select_one (λ o. o.name == concat "organizations/" id || o.org_id == id) db.organizations

unfoldable pub list_organizations : HierarchyDb → List Organization
list_organizations db = order_by (λ a b. name_le a.org_id b.org_id) db.organizations
