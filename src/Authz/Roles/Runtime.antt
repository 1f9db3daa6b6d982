-- ===== src/Authz/Roles/Runtime.antt =====
-- The Cloud Run, Functions, policy, asset and task roles of internal/kernel/authz/predefined_roles.go.
use noctaxris_gcp.Base.{
  String, Bool, List, [], ◌∷◌, has_prefix, one_of, ◌||◌, ◌==◌, if◌then◌else◌, true,
}
use noctaxris_gcp.Authz.Roles.Switch.{Case}

unfoldable pub run_viewer_grants : String → Bool
run_viewer_grants permission = one_of permission (
    "run.services.get" ∷ "run.services.list" ∷ "run.services.getIamPolicy" ∷ "run.revisions.get"
    ∷ "run.revisions.list" ∷ "run.jobs.get" ∷ "run.jobs.list" ∷ [])

unfoldable pub run_developer_grants : String → Bool
unfolding run_viewer_grants
run_developer_grants permission =
    if run_viewer_grants permission
    then true
    else one_of permission (
        "run.services.create" ∷ "run.services.update" ∷ "run.services.delete"
        ∷ "run.revisions.delete" ∷ "run.jobs.create" ∷ "run.jobs.update" ∷ "run.jobs.delete" ∷ [])

unfoldable pub cloudfunctions_viewer_grants : String → Bool
cloudfunctions_viewer_grants permission = one_of permission (
    "cloudfunctions.functions.get" ∷ "cloudfunctions.functions.list"
    ∷ "cloudfunctions.functions.getIamPolicy" ∷ "cloudfunctions.functions.sourceCodeGet" ∷ [])

unfoldable pub cloudfunctions_developer_grants : String → Bool
unfolding cloudfunctions_viewer_grants
cloudfunctions_developer_grants permission =
    if cloudfunctions_viewer_grants permission
    then true
    else one_of permission (
        "cloudfunctions.functions.create" ∷ "cloudfunctions.functions.update"
        ∷ "cloudfunctions.functions.delete" ∷ [])

unfoldable pub accesscontextmanager_viewer_grants : String → Bool
accesscontextmanager_viewer_grants permission = one_of permission (
    "accesscontextmanager.policies.get" ∷ "accesscontextmanager.policies.list"
    ∷ "accesscontextmanager.servicePerimeters.get" ∷ "accesscontextmanager.servicePerimeters.list"
    ∷ [])

unfoldable pub accesscontextmanager_editor_grants : String → Bool
accesscontextmanager_editor_grants permission = one_of permission (
    "accesscontextmanager.policies.get" ∷ "accesscontextmanager.policies.list"
    ∷ "accesscontextmanager.policies.update" ∷ "accesscontextmanager.servicePerimeters.get"
    ∷ "accesscontextmanager.servicePerimeters.list"
    ∷ "accesscontextmanager.servicePerimeters.create"
    ∷ "accesscontextmanager.servicePerimeters.update"
    ∷ "accesscontextmanager.servicePerimeters.delete" ∷ [])

unfoldable pub cloudasset_viewer_grants : String → Bool
cloudasset_viewer_grants permission = one_of permission (
    "cloudasset.assets.searchAllResources" ∷ "cloudasset.assets.listResource"
    ∷ "cloudasset.feeds.get" ∷ "cloudasset.feeds.list" ∷ [])

unfoldable pub cloudtasks_viewer_grants : String → Bool
cloudtasks_viewer_grants permission = one_of permission (
    "cloudtasks.queues.get" ∷ "cloudtasks.queues.list" ∷ "cloudtasks.tasks.get"
    ∷ "cloudtasks.tasks.list" ∷ [])

unfoldable pub cloudtasks_editor_grants : String → Bool
unfolding cloudtasks_viewer_grants
cloudtasks_editor_grants permission =
    if cloudtasks_viewer_grants permission
    then true
    else one_of permission (
        "cloudtasks.queues.create" ∷ "cloudtasks.queues.update" ∷ "cloudtasks.queues.delete"
        ∷ "cloudtasks.tasks.create" ∷ "cloudtasks.tasks.delete" ∷ "cloudtasks.tasks.run" ∷ [])

-- The cases of the `switch role` for these roles: their names and the grants.
unfoldable pub runtime_cases : List Case
unfolding accesscontextmanager_editor_grants accesscontextmanager_viewer_grants
    cloudasset_viewer_grants cloudfunctions_developer_grants cloudfunctions_viewer_grants
    cloudtasks_editor_grants cloudtasks_viewer_grants run_developer_grants run_viewer_grants
runtime_cases =
    ("roles/run.admin" ∷ [], (λ permission. has_prefix permission "run."))
    ∷ ("roles/run.developer" ∷ [], run_developer_grants)
    ∷ ("roles/run.viewer" ∷ [], run_viewer_grants)
    ∷ ("roles/cloudfunctions.admin" ∷ [], (λ permission. has_prefix permission "cloudfunctions."))
    ∷ ("roles/cloudfunctions.developer" ∷ [], cloudfunctions_developer_grants)
    ∷ ("roles/cloudfunctions.viewer" ∷ [], cloudfunctions_viewer_grants)
    ∷ (
      "roles/accesscontextmanager.policyAdmin" ∷ "roles/accesscontextmanager.gcpAccessAdmin"
          ∷ "roles/accesscontextmanager.admin" ∷ [],
      (λ permission. has_prefix permission "accesscontextmanager."),
    )
    ∷ (
      "roles/accesscontextmanager.policyEditor" ∷ "roles/accesscontextmanager.editor" ∷ [],
      accesscontextmanager_editor_grants,
    )
    ∷ (
      "roles/accesscontextmanager.policyReader" ∷ "roles/accesscontextmanager.viewer" ∷ [],
      accesscontextmanager_viewer_grants,
    )
    ∷ (
      "roles/binaryauthorization.policyAdmin" ∷ "roles/binaryauthorization.attestorsAdmin"
          ∷ "roles/binaryauthorization.admin" ∷ [],
      (λ permission. has_prefix permission "binaryauthorization."),
    )
    ∷ (
      "roles/binaryauthorization.policyEditor" ∷ "roles/binaryauthorization.editor" ∷ [],
      (λ permission.
          permission == "binaryauthorization.policy.get"
          || permission == "binaryauthorization.policy.update"),
    )
    ∷ (
      "roles/binaryauthorization.policyViewer" ∷ "roles/binaryauthorization.attestorsViewer"
          ∷ "roles/binaryauthorization.viewer" ∷ [],
      (λ permission. permission == "binaryauthorization.policy.get"),
    )
    ∷ (
      "roles/cloudasset.owner" ∷ "roles/cloudasset.admin" ∷ [],
      (λ permission. has_prefix permission "cloudasset."),
    )
    ∷ ("roles/cloudasset.viewer" ∷ [], cloudasset_viewer_grants)
    ∷ (
      "roles/containeranalysis.admin" ∷ "roles/containeranalysis.occurrences.editor"
          ∷ "roles/containeranalysis.notes.editor" ∷ [],
      (λ permission. has_prefix permission "containeranalysis."),
    )
    ∷ (
      "roles/containeranalysis.occurrences.viewer" ∷ "roles/containeranalysis.notes.viewer"
          ∷ "roles/containeranalysis.viewer" ∷ [],
      (λ permission.
          permission == "containeranalysis.occurrences.get"
          || permission == "containeranalysis.occurrences.list"),
    )
    ∷ ("roles/cloudtasks.admin" ∷ [], (λ permission. has_prefix permission "cloudtasks."))
    ∷ ("roles/cloudtasks.viewer" ∷ [], cloudtasks_viewer_grants)
    ∷ (
      "roles/cloudtasks.enqueuer" ∷ [],
      (λ permission.
          permission == "cloudtasks.tasks.create"
          || permission == "cloudtasks.queues.get"
          || permission == "cloudtasks.tasks.get"
          || permission == "cloudtasks.tasks.list"),
    )
    ∷ (
      "roles/cloudtasks.taskRunner" ∷ [],
      (λ permission.
          permission == "cloudtasks.tasks.run"
          || permission == "cloudtasks.tasks.get"
          || permission == "cloudtasks.tasks.list"),
    )
    ∷ ("roles/cloudtasks.queueAdmin" ∷ "roles/cloudtasks.editor" ∷ [], cloudtasks_editor_grants)
    ∷ ("roles/orgpolicy.policyAdmin" ∷ [], (λ permission. has_prefix permission "orgpolicy."))
    ∷ (
      "roles/orgpolicy.policyViewer" ∷ [],
      (λ permission.
          permission == "orgpolicy.policies.get"
          || permission == "orgpolicy.policies.list"
          || permission == "orgpolicy.constraints.list"),
    )
    ∷ []
