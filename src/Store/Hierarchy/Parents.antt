-- ===== src/Store/Hierarchy/Parents.antt =====
-- `CRMParent` of internal/store/appengine_crm.go, and the store as the parent store of the evaluator.
use noctaxris_gcp.Base.{
  String, Bool, not, ◌&&◌, ◌==◌, Option, none, some, ok, has_prefix, trim_prefix, contains,
  trim_space, if◌then◌else◌,
}
use noctaxris_gcp.Authz.Policy.{CrmParentStore}
use noctaxris_gcp.Store.Hierarchy.Types.{HierarchyDb, default_organization_name}
use noctaxris_gcp.Store.Hierarchy.Folders.{get_folder}

-- What stands behind the prefix is one segment.
abbrev pub bare : String → String → Bool
bare resource prefix =
    let rest = trim_prefix resource prefix in not (rest == "") && not (contains rest "/")

-- `none` says that there is no parent.
unfoldable pub crm_parent : HierarchyDb → String → Option String
crm_parent db raw =
    let resource = trim_space raw in
    if has_prefix resource "organizations/"
    then none
    else if has_prefix resource "folders/"
    then (if bare resource "folders/"
        then (elim (get_folder db resource) [
          | none ↦ none
          | some f ↦ if f.parent == "" then none else some f.parent
        ])
        else none)
    else if has_prefix resource "projects/"
    then (if bare resource "projects/" then some default_organization_name else none)
    else none

unfoldable pub crm_parents : HierarchyDb → CrmParentStore
unfolding crm_parent
crm_parents db = record { crm_parent = λ resource. ok (crm_parent db resource) }
