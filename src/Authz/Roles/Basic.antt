-- ===== src/Authz/Roles/Basic.antt =====
-- The grants of the basic, IAM, Secret Manager and Cloud KMS roles of internal/kernel/authz/iam.go.
use noctaxris_gcp.Base.{
  String, Bool, true, false, not, List, [], ◌∷◌, has_prefix, has_suffix, drop_prefix, one_of, ◌||◌,
  ◌==◌, if◌then◌else◌,
}
use noctaxris_gcp.Authz.Roles.Switch.{Case}

unfoldable pub token_creator_grants : String → Bool
token_creator_grants permission = one_of permission (
    "iam.serviceAccounts.getAccessToken" ∷ "iam.serviceAccounts.actAs"
    ∷ "iam.serviceAccounts.signBlob" ∷ "iam.serviceAccounts.signJwt"
    ∷ "iam.serviceAccounts.implicitDelegation" ∷ "iam.serviceAccounts.generateAccessToken"
    ∷ "iam.serviceAccounts.generateIdToken" ∷ [])

unfoldable pub service_account_admin_grants : String → Bool
service_account_admin_grants permission = one_of permission (
    "iam.serviceAccounts.create" ∷ "iam.serviceAccounts.delete" ∷ "iam.serviceAccounts.disable"
    ∷ "iam.serviceAccounts.enable" ∷ "iam.serviceAccounts.get" ∷ "iam.serviceAccounts.getIamPolicy"
    ∷ "iam.serviceAccounts.list" ∷ "iam.serviceAccounts.setIamPolicy"
    ∷ "iam.serviceAccounts.undelete" ∷ "iam.serviceAccounts.update"
    ∷ "iam.serviceAccountKeys.create" ∷ "iam.serviceAccountKeys.delete"
    ∷ "iam.serviceAccountKeys.disable" ∷ "iam.serviceAccountKeys.enable"
    ∷ "iam.serviceAccountKeys.get" ∷ "iam.serviceAccountKeys.list" ∷ [])

unfoldable pub secretmanager_viewer_grants : String → Bool
secretmanager_viewer_grants permission = one_of permission (
    "secretmanager.secrets.get" ∷ "secretmanager.secrets.list" ∷ "secretmanager.versions.get"
    ∷ "secretmanager.versions.list" ∷ "secretmanager.secrets.getIamPolicy"
    ∷ "secretmanager.locations.get" ∷ "secretmanager.locations.list" ∷ [])

unfoldable pub secretmanager_secret_accessor_grants : String → Bool
secretmanager_secret_accessor_grants permission = one_of permission (
    "secretmanager.versions.access" ∷ "secretmanager.versions.get" ∷ "secretmanager.versions.list"
    ∷ "secretmanager.secrets.get" ∷ "secretmanager.secrets.list" ∷ [])

unfoldable pub secretmanager_secret_version_manager_grants : String → Bool
secretmanager_secret_version_manager_grants permission = one_of permission (
    "secretmanager.versions.add" ∷ "secretmanager.versions.enable"
    ∷ "secretmanager.versions.disable" ∷ "secretmanager.versions.destroy"
    ∷ "secretmanager.versions.get" ∷ "secretmanager.versions.list" ∷ "secretmanager.secrets.get"
    ∷ "secretmanager.secrets.list" ∷ [])

unfoldable pub cloudkms_viewer_grants : String → Bool
cloudkms_viewer_grants permission = one_of permission (
    "cloudkms.keyRings.get" ∷ "cloudkms.keyRings.list" ∷ "cloudkms.cryptoKeys.get"
    ∷ "cloudkms.cryptoKeys.list" ∷ "cloudkms.cryptoKeyVersions.get"
    ∷ "cloudkms.cryptoKeyVersions.list" ∷ "cloudkms.cryptoKeys.getIamPolicy"
    ∷ "cloudkms.locations.get" ∷ "cloudkms.locations.list" ∷ [])

unfoldable pub security_admin_grants : String → Bool
security_admin_grants permission =
    if one_of permission (
      "iam.roles.create" ∷ "iam.roles.delete" ∷ "iam.roles.get" ∷ "iam.roles.list"
      ∷ "iam.roles.undelete" ∷ "iam.roles.update" ∷ "iam.serviceAccounts.get"
      ∷ "iam.serviceAccounts.list" ∷ "iam.serviceAccounts.getIamPolicy"
      ∷ "iam.serviceAccounts.setIamPolicy" ∷ "iam.serviceAccountKeys.get"
      ∷ "iam.serviceAccountKeys.list" ∷ "iam.workloadIdentityPools.create"
      ∷ "iam.workloadIdentityPools.delete" ∷ "iam.workloadIdentityPools.get"
      ∷ "iam.workloadIdentityPools.list" ∷ "iam.workloadIdentityPools.update"
      ∷ "iam.workloadIdentityPoolProviders.create" ∷ "iam.workloadIdentityPoolProviders.delete"
      ∷ "iam.workloadIdentityPoolProviders.get" ∷ "iam.workloadIdentityPoolProviders.list"
      ∷ "iam.workloadIdentityPoolProviders.update" ∷ "resourcemanager.projects.get"
      ∷ "resourcemanager.projects.list" ∷ "resourcemanager.projects.getIamPolicy"
      ∷ "resourcemanager.projects.setIamPolicy" ∷ "resourcemanager.folders.get"
      ∷ "resourcemanager.folders.getIamPolicy" ∷ "resourcemanager.folders.setIamPolicy"
      ∷ "resourcemanager.organizations.get" ∷ "resourcemanager.organizations.getIamPolicy"
      ∷ "resourcemanager.organizations.setIamPolicy" ∷ [])
    then true
    else if has_suffix permission ".getIamPolicy" || has_suffix permission ".setIamPolicy"
    then true
    else false

-- The verbs of `iam.serviceAccounts.` that are ordinary administration.
unfoldable pub ordinary_verbs : List String
ordinary_verbs =
    "get" ∷ "list" ∷ "create" ∷ "delete" ∷ "update" ∷ "enable" ∷ "disable" ∷ "undelete"
    ∷ "getIamPolicy" ∷ "testIamPermissions" ∷ []

unfoldable pub editor_denies_token_creator_class : String → Bool
editor_denies_token_creator_class permission =
    if not (has_prefix permission "iam.serviceAccounts.")
    then false
    else if one_of (drop_prefix permission "iam.serviceAccounts.") ordinary_verbs
    then false
    else true

-- The permissions that `editorGrants` refuses by name.
unfoldable pub editor_refused : List String
editor_refused =
    "secretmanager.versions.access" ∷ "cloudkms.cryptoKeyVersions.useToEncrypt"
    ∷ "cloudkms.cryptoKeyVersions.useToDecrypt" ∷ "cloudkms.cryptoKeyVersions.useToSign"
    ∷ "cloudkms.cryptoKeyVersions.viewPublicKey" ∷ "orgpolicy.policies.create"
    ∷ "orgpolicy.policies.update" ∷ "orgpolicy.policies.delete" ∷ []

unfoldable pub editor_grants : String → Bool
unfolding editor_denies_token_creator_class
editor_grants permission =
    if permission == ""
    then false
    else if has_suffix permission ".setIamPolicy"
    then false
    else if editor_denies_token_creator_class permission
    then false
    else if one_of permission editor_refused
    then false
    else true

-- The permissions that `viewerGrants` lists after its suffix tests.
unfoldable pub viewer_listed : List String
viewer_listed =
    "resourcemanager.projects.get" ∷ "resourcemanager.projects.getIamPolicy"
    ∷ "resourcemanager.projects.list" ∷ "resourcemanager.projects.search"
    ∷ "iam.serviceAccounts.get" ∷ "iam.serviceAccounts.list" ∷ "iam.serviceAccountKeys.get"
    ∷ "iam.serviceAccountKeys.list" ∷ "serviceusage.services.get" ∷ "serviceusage.services.list"
    ∷ "storage.buckets.get" ∷ "storage.buckets.list" ∷ "storage.objects.get"
    ∷ "storage.objects.list" ∷ "pubsub.topics.get" ∷ "pubsub.topics.list"
    ∷ "pubsub.subscriptions.get" ∷ "pubsub.subscriptions.list" ∷ "pubsub.snapshots.get"
    ∷ "pubsub.snapshots.list" ∷ "secretmanager.secrets.get" ∷ "secretmanager.secrets.list"
    ∷ "secretmanager.versions.get" ∷ "secretmanager.versions.list" ∷ "cloudkms.cryptoKeys.get"
    ∷ "cloudkms.cryptoKeys.list" ∷ "cloudkms.keyRings.get" ∷ "cloudkms.keyRings.list"
    ∷ "logging.logEntries.list" ∷ "logging.logs.list" ∷ "run.services.get" ∷ "run.services.list"
    ∷ "run.revisions.get" ∷ "run.revisions.list" ∷ "cloudfunctions.functions.get"
    ∷ "cloudfunctions.functions.list" ∷ "cloudscheduler.jobs.get" ∷ "cloudscheduler.jobs.list"
    ∷ "cloudtasks.queues.get" ∷ "cloudtasks.queues.list" ∷ "cloudtasks.tasks.get"
    ∷ "cloudtasks.tasks.list" ∷ "bigquery.datasets.get" ∷ "bigquery.datasets.list"
    ∷ "bigquery.tables.get" ∷ "bigquery.tables.list" ∷ "monitoring.metricDescriptors.get"
    ∷ "monitoring.metricDescriptors.list" ∷ "monitoring.timeSeries.list" ∷ "datastore.entities.get"
    ∷ "datastore.entities.list" ∷ "eventarc.triggers.get" ∷ "eventarc.triggers.list"
    ∷ "firestore.documents.get" ∷ "firestore.documents.list"
    ∷ "cloudasset.assets.searchAllResources" ∷ "cloudasset.assets.listResource"
    ∷ "cloudasset.feeds.get" ∷ "cloudasset.feeds.list" ∷ []

unfoldable pub viewer_grants : String → Bool
viewer_grants permission =
    if permission == ""
    then false
    else if has_suffix permission ".get"
        || has_suffix permission ".list"
        || has_suffix permission ".getIamPolicy"
        || has_suffix permission ".search"
    then true
    else one_of permission viewer_listed

unfoldable pub cloudkms_admin_grants : String → Bool
cloudkms_admin_grants permission =
    if permission == "cloudkms.cryptoKeyVersions.useToEncrypt"
      || permission == "cloudkms.cryptoKeyVersions.useToDecrypt"
      || permission == "cloudkms.cryptoKeyVersions.useToSign"
      || permission == "cloudkms.cryptoKeyVersions.viewPublicKey"
    then false
    else has_prefix permission "cloudkms."

-- The cases of the `switch role` of `roleGrants`, before its `default`.
unfoldable pub basic_cases : List Case
unfolding cloudkms_admin_grants cloudkms_viewer_grants editor_grants
    secretmanager_secret_accessor_grants secretmanager_secret_version_manager_grants
    secretmanager_viewer_grants security_admin_grants service_account_admin_grants
    token_creator_grants viewer_grants
basic_cases =
    ("roles/owner" ∷ [], (λ permission. true))
    ∷ ("roles/editor" ∷ [], editor_grants)
    ∷ ("roles/viewer" ∷ [], viewer_grants)
    ∷ ("roles/iam.securityAdmin" ∷ [], security_admin_grants)
    ∷ ("roles/iam.serviceAccountAdmin" ∷ [], service_account_admin_grants)
    ∷ ("roles/iam.serviceAccountTokenCreator" ∷ [], token_creator_grants)
    ∷ (
      "roles/serviceusage.serviceUsageAdmin" ∷ [],
      (λ permission. has_prefix permission "serviceusage."),
    )
    ∷ ("roles/run.invoker" ∷ [], (λ permission. permission == "run.routes.invoke"))
    ∷ (
      "roles/cloudfunctions.invoker" ∷ [],
      (λ permission. permission == "cloudfunctions.functions.invoke"),
    )
    ∷ (
      "roles/cloudbuild.workerPoolUser" ∷ [],
      (λ permission.
          permission == "cloudbuild.workerpools.use" || permission == "cloudbuild.workerpools.get"),
    )
    ∷ (
      "roles/logging.viewAccessor" ∷ [],
      (λ permission. permission == "logging.views.get" || permission == "logging.views.list"),
    )
    ∷ ("roles/secretmanager.viewer" ∷ [], secretmanager_viewer_grants)
    ∷ ("roles/secretmanager.secretAccessor" ∷ [], secretmanager_secret_accessor_grants)
    ∷ ("roles/secretmanager.secretVersionManager" ∷ [], secretmanager_secret_version_manager_grants)
    ∷ ("roles/secretmanager.admin" ∷ [], (λ permission. has_prefix permission "secretmanager."))
    ∷ ("roles/cloudkms.viewer" ∷ [], cloudkms_viewer_grants)
    ∷ ("roles/cloudkms.admin" ∷ [], cloudkms_admin_grants)
    ∷ (
      "roles/cloudkms.cryptoKeyEncrypterDecrypter" ∷ [],
      (λ permission.
          permission == "cloudkms.cryptoKeyVersions.useToEncrypt"
          || permission == "cloudkms.cryptoKeyVersions.useToDecrypt"
          || permission == "cloudkms.cryptoKeys.get"),
    )
    ∷ (
      "roles/cloudkms.cryptoKeyEncrypter" ∷ [],
      (λ permission.
          permission == "cloudkms.cryptoKeyVersions.useToEncrypt"
          || permission == "cloudkms.cryptoKeys.get"),
    )
    ∷ (
      "roles/cloudkms.cryptoKeyDecrypter" ∷ [],
      (λ permission.
          permission == "cloudkms.cryptoKeyVersions.useToDecrypt"
          || permission == "cloudkms.cryptoKeys.get"),
    )
    ∷ (
      "roles/cloudkms.signer" ∷ "roles/cloudkms.signerVerifier" ∷ [],
      (λ permission.
          permission == "cloudkms.cryptoKeyVersions.useToSign"
          || permission == "cloudkms.cryptoKeyVersions.viewPublicKey"
          || permission == "cloudkms.cryptoKeys.get"),
    )
    ∷ (
      "roles/cloudkms.publicKeyViewer" ∷ [],
      (λ permission.
          permission == "cloudkms.cryptoKeyVersions.viewPublicKey"
          || permission == "cloudkms.cryptoKeys.get"),
    )
    ∷ []
