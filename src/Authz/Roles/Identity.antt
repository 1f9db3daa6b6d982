-- ===== src/Authz/Roles/Identity.antt =====
-- The IAM, Resource Manager and Service Usage roles of internal/kernel/authz/predefined_roles.go.
use noctaxris_gcp.Base.{
  String, Bool, List, [], ◌∷◌, has_prefix, has_suffix, one_of, ◌||◌, ◌==◌, if◌then◌else◌, true,
}
use noctaxris_gcp.Authz.Roles.Switch.{Case}

unfoldable pub iam_security_reviewer_grants : String → Bool
iam_security_reviewer_grants permission =
    if has_suffix permission ".getIamPolicy"
    then true
    else one_of permission (
        "iam.roles.get" ∷ "iam.roles.list" ∷ "iam.serviceAccounts.get" ∷ "iam.serviceAccounts.list"
        ∷ "iam.serviceAccountKeys.get" ∷ "iam.serviceAccountKeys.list"
        ∷ "iam.workloadIdentityPools.get" ∷ "iam.workloadIdentityPools.list"
        ∷ "iam.workloadIdentityPoolProviders.get" ∷ "iam.workloadIdentityPoolProviders.list"
        ∷ "resourcemanager.projects.get" ∷ "resourcemanager.projects.getIamPolicy"
        ∷ "resourcemanager.folders.get" ∷ "resourcemanager.folders.getIamPolicy"
        ∷ "resourcemanager.organizations.get" ∷ "resourcemanager.organizations.getIamPolicy" ∷ [])

unfoldable pub iam_service_account_viewer_grants : String → Bool
iam_service_account_viewer_grants permission = one_of permission (
    "iam.serviceAccounts.get" ∷ "iam.serviceAccounts.list" ∷ "iam.serviceAccountKeys.get"
    ∷ "iam.serviceAccountKeys.list" ∷ "iam.serviceAccounts.getIamPolicy" ∷ [])

unfoldable pub iam_workload_identity_viewer_grants : String → Bool
iam_workload_identity_viewer_grants permission = one_of permission (
    "iam.workloadIdentityPools.get" ∷ "iam.workloadIdentityPools.list"
    ∷ "iam.workloadIdentityPoolProviders.get" ∷ "iam.workloadIdentityPoolProviders.list" ∷ [])

unfoldable pub resourcemanager_project_viewer_grants : String → Bool
resourcemanager_project_viewer_grants permission = one_of permission (
    "resourcemanager.projects.get" ∷ "resourcemanager.projects.getIamPolicy"
    ∷ "resourcemanager.projects.list" ∷ "resourcemanager.projects.search" ∷ [])

unfoldable pub resourcemanager_folder_viewer_grants : String → Bool
resourcemanager_folder_viewer_grants permission = one_of permission (
    "resourcemanager.folders.get" ∷ "resourcemanager.folders.getIamPolicy"
    ∷ "resourcemanager.folders.list" ∷ [])

unfoldable pub resourcemanager_folder_editor_grants : String → Bool
unfolding resourcemanager_folder_viewer_grants
resourcemanager_folder_editor_grants permission =
    if resourcemanager_folder_viewer_grants permission
    then true
    else one_of permission (
        "resourcemanager.folders.create" ∷ "resourcemanager.folders.update"
        ∷ "resourcemanager.folders.move" ∷ "resourcemanager.folders.delete"
        ∷ "resourcemanager.folders.undelete" ∷ [])

unfoldable pub serviceusage_consumer_grants : String → Bool
serviceusage_consumer_grants permission =
    one_of permission ("serviceusage.services.get" ∷ "serviceusage.services.list" ∷ [])

-- The cases of the `switch role` for these roles: their names and the grants.
unfoldable pub identity_cases : List Case
unfolding iam_security_reviewer_grants iam_service_account_viewer_grants
    iam_workload_identity_viewer_grants resourcemanager_folder_editor_grants
    resourcemanager_folder_viewer_grants resourcemanager_project_viewer_grants
    serviceusage_consumer_grants
identity_cases =
    ("roles/iam.securityReviewer" ∷ [], iam_security_reviewer_grants)
    ∷ (
      "roles/iam.roleViewer" ∷ [],
      (λ permission. permission == "iam.roles.get" || permission == "iam.roles.list"),
    )
    ∷ ("roles/iam.roleAdmin" ∷ [], (λ permission. has_prefix permission "iam.roles."))
    ∷ (
      "roles/iam.serviceAccountUser" ∷ [],
      (λ permission. permission == "iam.serviceAccounts.actAs"),
    )
    ∷ ("roles/iam.serviceAccountViewer" ∷ [], iam_service_account_viewer_grants)
    ∷ (
      "roles/iam.workloadIdentityPoolAdmin" ∷ [],
      (λ permission.
          has_prefix permission "iam.workloadIdentityPools."
          || has_prefix permission "iam.workloadIdentityPoolProviders."),
    )
    ∷ ("roles/iam.workloadIdentityPoolViewer" ∷ [], iam_workload_identity_viewer_grants)
    ∷ (
      "roles/resourcemanager.organizationAdmin" ∷ [],
      (λ permission.
          has_prefix permission "resourcemanager.organizations."
          || has_prefix permission "resourcemanager.folders."
          || has_prefix permission "resourcemanager.projects."),
    )
    ∷ (
      "roles/resourcemanager.organizationViewer" ∷ [],
      (λ permission.
          permission == "resourcemanager.organizations.get"
          || permission == "resourcemanager.organizations.getIamPolicy"),
    )
    ∷ (
      "roles/resourcemanager.folderAdmin" ∷ [],
      (λ permission. has_prefix permission "resourcemanager.folders."),
    )
    ∷ ("roles/resourcemanager.folderEditor" ∷ [], resourcemanager_folder_editor_grants)
    ∷ ("roles/resourcemanager.folderViewer" ∷ [], resourcemanager_folder_viewer_grants)
    ∷ (
      "roles/resourcemanager.folderIamAdmin" ∷ [],
      (λ permission.
          permission == "resourcemanager.folders.getIamPolicy"
          || permission == "resourcemanager.folders.setIamPolicy"
          || permission == "resourcemanager.folders.get"),
    )
    ∷ (
      "roles/resourcemanager.projectIamAdmin" ∷ [],
      (λ permission.
          permission == "resourcemanager.projects.getIamPolicy"
          || permission == "resourcemanager.projects.setIamPolicy"
          || permission == "resourcemanager.projects.get"),
    )
    ∷ ("roles/resourcemanager.projectViewer" ∷ [], resourcemanager_project_viewer_grants)
    ∷ (
      "roles/resourcemanager.projectCreator" ∷ [],
      (λ permission. permission == "resourcemanager.projects.create"),
    )
    ∷ (
      "roles/resourcemanager.projectMover" ∷ [],
      (λ permission.
          permission == "resourcemanager.projects.update"
          || permission == "resourcemanager.projects.get"),
    )
    ∷ (
      "roles/resourcemanager.tagAdmin" ∷ [],
      (λ permission.
          has_prefix permission "resourcemanager.tagKeys."
          || has_prefix permission "resourcemanager.tagBindings."),
    )
    ∷ (
      "roles/resourcemanager.tagUser" ∷ [],
      (λ permission.
          permission == "resourcemanager.tagBindings.create"
          || permission == "resourcemanager.tagBindings.delete"
          || permission == "resourcemanager.tagBindings.get"
          || permission == "resourcemanager.tagBindings.list"
          || permission == "resourcemanager.tagKeys.get"
          || permission == "resourcemanager.tagKeys.list"),
    )
    ∷ (
      "roles/resourcemanager.tagViewer" ∷ [],
      (λ permission.
          permission == "resourcemanager.tagBindings.get"
          || permission == "resourcemanager.tagBindings.list"
          || permission == "resourcemanager.tagKeys.get"
          || permission == "resourcemanager.tagKeys.list"),
    )
    ∷ ("roles/serviceusage.serviceUsageConsumer" ∷ [], serviceusage_consumer_grants)
    ∷ (
      "roles/serviceusage.serviceUsageViewer" ∷ [],
      (λ permission.
          permission == "serviceusage.services.get" || permission == "serviceusage.services.list"),
    )
    ∷ []
