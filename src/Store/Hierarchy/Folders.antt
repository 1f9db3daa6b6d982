-- ===== src/Store/Hierarchy/Folders.antt =====
-- Folders (internal/store/appengine_crm.go). `uuid` is what `uuid.NewString()` draws.
use noctaxris_gcp.Base.{
  String, Bool, ◌&&◌, ◌||◌, not, ◌==◌, List, [], ◌∷◌, ◌++◌, Option, none, some, Result, ok, err,
  message, concat, trim_space, trim_prefix, take_text, without_byte, select_where, select_one,
  exists_row, update_where, order_by, if◌then◌else◌,
}
use noctaxris_gcp.Store.PubSub.Topics.{name_le}
use noctaxris_gcp.Store.Kms.Keys.{or_default}
use noctaxris_gcp.Store.Hierarchy.Types.{Folder, HierarchyDb}

abbrev pub folder_named : String → Folder → Bool
folder_named name f = f.name == name

abbrev pub active_named : String → Folder → Bool
active_named name f = f.name == name && f.state == "ACTIVE"

-- `WHERE name = ? OR folder_id = ?`
unfoldable pub get_folder : HierarchyDb → String → Option Folder
get_folder db name_or_id =
    let id = trim_prefix (trim_space name_or_id) "folders/" in
    if id == ""
    then none
    else select_one (λ f. f.name == concat "folders/" id || f.folder_id == id) db.folders

-- The primary key and the unique column of the table.
abbrev pub same_folder : Folder → Folder → Bool
same_folder new old = old.name == new.name || old.folder_id == new.folder_id

-- The row that `CreateFolder` inserts.
unfoldable pub folder_row : (now uuid : String) → Folder → Folder
folder_row now uuid f =
    let folder_id = or_default (take_text 16 (without_byte b'-' uuid)) f.folder_id in
    let created_at = or_default now f.created_at in
    record f {
      folder_id = folder_id;
      name = or_default (concat "folders/" folder_id) f.name;
      state = or_default "ACTIVE" f.state;
      etag = or_default "ACAB" f.etag;
      created_at = created_at;
      updated_at = or_default created_at f.updated_at;
      delete_time = "";
    }

-- INSERT OR IGNORE; `none` says that the name or the identifier is taken.
unfoldable pub create_folder :
    (now uuid : String) → HierarchyDb → Folder → HierarchyDb × Result (Option Folder)
unfolding folder_row get_folder
create_folder now uuid db f =
    if f.parent == ""
    then (db, err (message "parent required"))
    else if f.display_name == ""
    then (db, err (message "displayName required"))
    else let row = folder_row now uuid f in
      if exists_row (same_folder row) db.folders
      then (db, ok none)
      else let db' = record db { folders = db.folders ++ row ∷ [] } in
        (db', ok (get_folder db' row.name))

unfoldable pub list_folders : HierarchyDb → String → Bool → List Folder
list_folders db parent show_deleted =
    order_by (λ a b. name_le a.display_name b.display_name)
      (select_where (λ f. f.parent == parent && (show_deleted || f.state == "ACTIVE")) db.folders)

-- An UPDATE of the rows that pass a test, `RowsAffected`, and the folder as it then is.
unfoldable pub set_folder :
    HierarchyDb → String → (Folder → Bool) → (Folder → Folder) → HierarchyDb × Option Folder
unfolding get_folder
set_folder db name test change =
    let db' = record db { folders = update_where test change db.folders } in
    (db', if exists_row test db.folders then get_folder db' name else none)

unfoldable pub update_folder_display_name :
    (now uuid : String) → HierarchyDb → String → String → HierarchyDb × Option Folder
unfolding set_folder
update_folder_display_name now uuid db name_or_id display_name = elim (get_folder db name_or_id) [
  | none ↦ (db, none)
  | some f ↦
      if not (f.state == "ACTIVE")
      then (db, none)
      else set_folder db f.name (active_named f.name)
          (λ g. record g { display_name = display_name; updated_at = now; etag = take_text 8 uuid })
]

abbrev pub deleted_folder : String → Folder → Folder
deleted_folder now f = record f { state = "DELETE_REQUESTED"; delete_time = now; updated_at = now }

unfoldable pub delete_folder : String → HierarchyDb → String → HierarchyDb × Option Folder
unfolding set_folder
delete_folder now db name_or_id = elim (get_folder db name_or_id) [
  | none ↦ (db, none)
  | some f ↦
      if f.state == "DELETE_REQUESTED"
      then (db, some f)
      else set_folder db f.name (folder_named f.name) (deleted_folder now)
]

abbrev pub restored_folder : (now uuid : String) → Folder → Folder
restored_folder now uuid f = record f {
  state = "ACTIVE";
  delete_time = "";
  updated_at = now;
  etag = take_text 8 uuid;
}

unfoldable pub undelete_folder :
    (now uuid : String) → HierarchyDb → String → HierarchyDb × Option Folder
unfolding set_folder
undelete_folder now uuid db name_or_id = elim (get_folder db name_or_id) [
  | none ↦ (db, none)
  | some f ↦
      if f.state == "ACTIVE"
      then (db, some f)
      else set_folder db f.name (folder_named f.name) (restored_folder now uuid)
]

unfoldable pub move_folder :
    (now uuid : String) → HierarchyDb → String → String → HierarchyDb × Result (Option Folder)
unfolding set_folder
move_folder now uuid db name_or_id destination_parent =
    if destination_parent == ""
    then (db, err (message "destinationParent required"))
    else elim (get_folder db name_or_id) [
      | none ↦ (db, ok none)
      | some f ↦
          if not (f.state == "ACTIVE")
          then (db, ok none)
          else let (db', found) = set_folder db f.name (active_named f.name) (λ g. record g {
            parent = destination_parent;
            updated_at = now;
            etag = take_text 8 uuid;
          }) in
            (db', ok found)
    ]
