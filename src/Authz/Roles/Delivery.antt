-- ===== src/Authz/Roles/Delivery.antt =====
-- The Scheduler, Eventarc, Cloud Build and identity toolkit roles of internal/kernel/authz/predefined_roles.go.
use noctaxris_gcp.Base.{
  String, Bool, List, [], ◌∷◌, has_prefix, one_of, ◌||◌, ◌==◌, if◌then◌else◌, true,
}
use noctaxris_gcp.Authz.Roles.Switch.{Case}

unfoldable pub cloudscheduler_viewer_grants : String → Bool
cloudscheduler_viewer_grants permission =
    one_of permission ("cloudscheduler.jobs.get" ∷ "cloudscheduler.jobs.list" ∷ [])

unfoldable pub cloudscheduler_job_runner_grants : String → Bool
unfolding cloudscheduler_viewer_grants
cloudscheduler_job_runner_grants permission =
    if cloudscheduler_viewer_grants permission
    then true
    else permission == "cloudscheduler.jobs.run"

unfoldable pub eventarc_viewer_grants : String → Bool
eventarc_viewer_grants permission = one_of permission (
    "eventarc.triggers.get" ∷ "eventarc.triggers.list" ∷ "eventarc.channels.get"
    ∷ "eventarc.channels.list" ∷ [])

unfoldable pub eventarc_developer_grants : String → Bool
unfolding eventarc_viewer_grants
eventarc_developer_grants permission =
    if eventarc_viewer_grants permission
    then true
    else one_of permission (
        "eventarc.triggers.create" ∷ "eventarc.triggers.delete" ∷ "eventarc.triggers.update"
        ∷ "eventarc.channels.create" ∷ "eventarc.channels.delete" ∷ "eventarc.channels.update" ∷ [])

unfoldable pub cloudbuild_viewer_grants : String → Bool
cloudbuild_viewer_grants permission = one_of permission (
    "cloudbuild.builds.get" ∷ "cloudbuild.builds.list" ∷ "cloudbuild.triggers.get"
    ∷ "cloudbuild.triggers.list" ∷ "cloudbuild.workerpools.get" ∷ "cloudbuild.workerpools.list"
    ∷ [])

unfoldable pub cloudbuild_editor_grants : String → Bool
unfolding cloudbuild_viewer_grants
cloudbuild_editor_grants permission =
    if cloudbuild_viewer_grants permission
    then true
    else one_of permission (
        "cloudbuild.builds.create" ∷ "cloudbuild.builds.update" ∷ "cloudbuild.triggers.create"
        ∷ "cloudbuild.triggers.delete" ∷ "cloudbuild.triggers.update"
        ∷ "cloudbuild.workerpools.create" ∷ "cloudbuild.workerpools.use" ∷ [])

unfoldable pub firebaseauth_viewer_grants : String → Bool
firebaseauth_viewer_grants permission =
    one_of permission ("firebaseauth.users.get" ∷ "firebaseauth.users.list" ∷ [])

unfoldable pub identitytoolkit_viewer_grants : String → Bool
identitytoolkit_viewer_grants permission =
    one_of permission ("identitytoolkit.tenants.get" ∷ "identitytoolkit.tenants.list" ∷ [])

-- The cases of the `switch role` for these roles: their names and the grants.
unfoldable pub delivery_cases : List Case
unfolding cloudbuild_editor_grants cloudbuild_viewer_grants cloudscheduler_job_runner_grants
    cloudscheduler_viewer_grants eventarc_developer_grants eventarc_viewer_grants
    firebaseauth_viewer_grants identitytoolkit_viewer_grants
delivery_cases =
    ("roles/cloudscheduler.admin" ∷ [], (λ permission. has_prefix permission "cloudscheduler."))
    ∷ ("roles/cloudscheduler.jobRunner" ∷ [], cloudscheduler_job_runner_grants)
    ∷ ("roles/cloudscheduler.viewer" ∷ [], cloudscheduler_viewer_grants)
    ∷ ("roles/eventarc.admin" ∷ [], (λ permission. has_prefix permission "eventarc."))
    ∷ ("roles/eventarc.developer" ∷ [], eventarc_developer_grants)
    ∷ (
      "roles/eventarc.eventReceiver" ∷ [],
      (λ permission.
          permission == "eventarc.events.receiveEvent"
          || permission == "eventarc.triggers.get"
          || permission == "eventarc.triggers.list"),
    )
    ∷ ("roles/eventarc.viewer" ∷ [], eventarc_viewer_grants)
    ∷ (
      "roles/cloudbuild.builds.builder" ∷ "roles/cloudbuild.builds.editor" ∷ [],
      cloudbuild_editor_grants,
    )
    ∷ ("roles/cloudbuild.builds.viewer" ∷ [], cloudbuild_viewer_grants)
    ∷ ("roles/firebaseauth.admin" ∷ [], (λ permission. has_prefix permission "firebaseauth."))
    ∷ ("roles/firebaseauth.viewer" ∷ [], firebaseauth_viewer_grants)
    ∷ ("roles/identitytoolkit.admin" ∷ [], (λ permission. has_prefix permission "identitytoolkit."))
    ∷ ("roles/identitytoolkit.viewer" ∷ [], identitytoolkit_viewer_grants)
    ∷ []
