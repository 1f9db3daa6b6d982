-- ===== src/Authz/Roles/Storage.antt =====
-- The storage, registry and database roles of internal/kernel/authz/predefined_roles.go.
use noctaxris_gcp.Base.{
  String, Bool, List, [], ◌∷◌, has_prefix, one_of, ◌||◌, ◌==◌, if◌then◌else◌, true,
}
use noctaxris_gcp.Authz.Roles.Switch.{Case}

unfoldable pub storage_object_viewer_grants : String → Bool
storage_object_viewer_grants permission =
    one_of permission ("storage.objects.get" ∷ "storage.objects.list" ∷ "storage.buckets.get" ∷ [])

unfoldable pub storage_object_creator_grants : String → Bool
storage_object_creator_grants permission =
    one_of permission
      ("storage.objects.create" ∷ "storage.objects.list" ∷ "storage.buckets.get" ∷ [])

unfoldable pub storage_object_admin_grants : String → Bool
unfolding storage_object_creator_grants storage_object_viewer_grants
storage_object_admin_grants permission =
    if storage_object_viewer_grants permission || storage_object_creator_grants permission
    then true
    else one_of permission (
        "storage.objects.delete" ∷ "storage.objects.update" ∷ "storage.objects.getIamPolicy"
        ∷ "storage.objects.setIamPolicy" ∷ [])

unfoldable pub artifactregistry_reader_grants : String → Bool
artifactregistry_reader_grants permission = one_of permission (
    "artifactregistry.repositories.get" ∷ "artifactregistry.repositories.list"
    ∷ "artifactregistry.repositories.downloadArtifacts" ∷ "artifactregistry.packages.get"
    ∷ "artifactregistry.packages.list" ∷ "artifactregistry.versions.get"
    ∷ "artifactregistry.versions.list" ∷ "artifactregistry.files.list"
    ∷ "artifactregistry.tags.list" ∷ "artifactregistry.dockerimages.get"
    ∷ "artifactregistry.repositories.getIamPolicy" ∷ [])

unfoldable pub artifactregistry_writer_grants : String → Bool
unfolding artifactregistry_reader_grants
artifactregistry_writer_grants permission =
    if artifactregistry_reader_grants permission
    then true
    else one_of permission (
        "artifactregistry.repositories.uploadArtifacts" ∷ "artifactregistry.packages.create"
        ∷ "artifactregistry.versions.create" ∷ "artifactregistry.dockerimages.create" ∷ [])

unfoldable pub artifactregistry_repo_admin_grants : String → Bool
unfolding artifactregistry_writer_grants
artifactregistry_repo_admin_grants permission =
    if artifactregistry_writer_grants permission
    then true
    else one_of permission (
        "artifactregistry.repositories.create" ∷ "artifactregistry.repositories.update"
        ∷ "artifactregistry.repositories.delete" ∷ "artifactregistry.repositories.setIamPolicy"
        ∷ "artifactregistry.packages.delete" ∷ "artifactregistry.versions.delete" ∷ [])

unfoldable pub datastore_viewer_grants : String → Bool
datastore_viewer_grants permission = one_of permission (
    "datastore.entities.get" ∷ "datastore.entities.list" ∷ "datastore.databases.get"
    ∷ "datastore.databases.list" ∷ [])

unfoldable pub datastore_user_grants : String → Bool
unfolding datastore_viewer_grants
datastore_user_grants permission =
    if datastore_viewer_grants permission
    then true
    else one_of permission (
        "datastore.entities.create" ∷ "datastore.entities.update" ∷ "datastore.entities.delete"
        ∷ "datastore.entities.write" ∷ [])

unfoldable pub datastore_owner_grants : String → Bool
datastore_owner_grants permission =
    has_prefix permission "datastore." || has_prefix permission "firestore."

unfoldable pub spanner_viewer_grants : String → Bool
spanner_viewer_grants permission = one_of permission (
    "spanner.instances.get" ∷ "spanner.instances.list" ∷ "spanner.databases.get"
    ∷ "spanner.databases.list" ∷ "spanner.databases.select" ∷ "spanner.databases.read"
    ∷ "spanner.sessions.create" ∷ [])

unfoldable pub spanner_database_user_grants : String → Bool
unfolding spanner_viewer_grants
spanner_database_user_grants permission =
    if spanner_viewer_grants permission
    then true
    else permission == "spanner.databases.write" || permission == "spanner.databases.partitionQuery"

unfoldable pub spanner_database_admin_grants : String → Bool
unfolding spanner_database_user_grants
spanner_database_admin_grants permission =
    if spanner_database_user_grants permission
    then true
    else one_of permission (
        "spanner.databases.create" ∷ "spanner.databases.drop" ∷ "spanner.databases.updateDdl"
        ∷ "spanner.instances.create" ∷ "spanner.instances.delete" ∷ [])

-- The cases of the `switch role` for these roles: their names and the grants.
unfoldable pub storage_cases : List Case
unfolding artifactregistry_reader_grants artifactregistry_repo_admin_grants
    artifactregistry_writer_grants datastore_owner_grants datastore_user_grants
    datastore_viewer_grants spanner_database_admin_grants spanner_database_user_grants
    spanner_viewer_grants storage_object_admin_grants storage_object_creator_grants
    storage_object_viewer_grants
storage_cases =
    ("roles/storage.admin" ∷ [], (λ permission. has_prefix permission "storage."))
    ∷ ("roles/storage.objectAdmin" ∷ [], storage_object_admin_grants)
    ∷ ("roles/storage.objectViewer" ∷ [], storage_object_viewer_grants)
    ∷ ("roles/storage.objectCreator" ∷ [], storage_object_creator_grants)
    ∷ ("roles/storage.hmacKeyAdmin" ∷ [], (λ permission. has_prefix permission "storage.hmacKeys."))
    ∷ (
      "roles/storage.legacyBucketReader" ∷ [],
      (λ permission. permission == "storage.buckets.get" || permission == "storage.objects.list"),
    )
    ∷ ("roles/storage.legacyObjectReader" ∷ [], (λ permission. permission == "storage.objects.get"))
    ∷ (
      "roles/artifactregistry.admin" ∷ [],
      (λ permission. has_prefix permission "artifactregistry."),
    )
    ∷ ("roles/artifactregistry.repoAdmin" ∷ [], artifactregistry_repo_admin_grants)
    ∷ ("roles/artifactregistry.writer" ∷ [], artifactregistry_writer_grants)
    ∷ ("roles/artifactregistry.reader" ∷ [], artifactregistry_reader_grants)
    ∷ ("roles/datastore.owner" ∷ "roles/firestore.owner" ∷ [], datastore_owner_grants)
    ∷ ("roles/datastore.user" ∷ "roles/firestore.user" ∷ [], datastore_user_grants)
    ∷ ("roles/datastore.viewer" ∷ "roles/firestore.viewer" ∷ [], datastore_viewer_grants)
    ∷ ("roles/spanner.admin" ∷ [], (λ permission. has_prefix permission "spanner."))
    ∷ ("roles/spanner.databaseAdmin" ∷ [], spanner_database_admin_grants)
    ∷ ("roles/spanner.databaseUser" ∷ [], spanner_database_user_grants)
    ∷ ("roles/spanner.viewer" ∷ "roles/spanner.databaseReader" ∷ [], spanner_viewer_grants)
    ∷ []
