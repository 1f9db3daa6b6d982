-- ===== src/Authz/Roles/Telemetry.antt =====
-- The Pub/Sub, BigQuery, Logging and Monitoring roles of internal/kernel/authz/predefined_roles.go.
use noctaxris_gcp.Base.{
  String, Bool, List, [], ◌∷◌, has_prefix, one_of, ◌||◌, ◌==◌, if◌then◌else◌, true,
}
use noctaxris_gcp.Authz.Roles.Switch.{Case}

unfoldable pub pubsub_viewer_grants : String → Bool
pubsub_viewer_grants permission = one_of permission (
    "pubsub.topics.get" ∷ "pubsub.topics.list" ∷ "pubsub.subscriptions.get"
    ∷ "pubsub.subscriptions.list" ∷ "pubsub.snapshots.get" ∷ "pubsub.snapshots.list" ∷ [])

unfoldable pub pubsub_publisher_grants : String → Bool
pubsub_publisher_grants permission =
    one_of permission ("pubsub.topics.publish" ∷ "pubsub.topics.get" ∷ "pubsub.topics.list" ∷ [])

unfoldable pub pubsub_subscriber_grants : String → Bool
pubsub_subscriber_grants permission = one_of permission (
    "pubsub.subscriptions.consume" ∷ "pubsub.subscriptions.get" ∷ "pubsub.subscriptions.list"
    ∷ "pubsub.snapshots.get" ∷ "pubsub.snapshots.list" ∷ "pubsub.topics.get" ∷ "pubsub.topics.list"
    ∷ [])

unfoldable pub bigquery_metadata_viewer_grants : String → Bool
bigquery_metadata_viewer_grants permission = one_of permission (
    "bigquery.datasets.get" ∷ "bigquery.datasets.list" ∷ "bigquery.tables.get"
    ∷ "bigquery.tables.list" ∷ "bigquery.jobs.get" ∷ [])

unfoldable pub bigquery_data_viewer_grants : String → Bool
unfolding bigquery_metadata_viewer_grants
bigquery_data_viewer_grants permission =
    if bigquery_metadata_viewer_grants permission
    then true
    else permission == "bigquery.tables.getData"

unfoldable pub bigquery_data_editor_grants : String → Bool
unfolding bigquery_data_viewer_grants
bigquery_data_editor_grants permission =
    if bigquery_data_viewer_grants permission
    then true
    else one_of permission (
        "bigquery.datasets.create" ∷ "bigquery.datasets.delete" ∷ "bigquery.tables.create"
        ∷ "bigquery.tables.delete" ∷ "bigquery.tables.updateData" ∷ [])

unfoldable pub bigquery_user_grants : String → Bool
bigquery_user_grants permission = one_of permission (
    "bigquery.jobs.create" ∷ "bigquery.jobs.get" ∷ "bigquery.datasets.get"
    ∷ "bigquery.datasets.list" ∷ "bigquery.tables.get" ∷ "bigquery.tables.list"
    ∷ "bigquery.datasets.create" ∷ [])

unfoldable pub logging_viewer_grants : String → Bool
logging_viewer_grants permission = one_of permission (
    "logging.logEntries.list" ∷ "logging.logs.list" ∷ "logging.sinks.get" ∷ "logging.sinks.list"
    ∷ "logging.buckets.get" ∷ "logging.buckets.list" ∷ "logging.views.get" ∷ "logging.views.list"
    ∷ "logging.exclusions.get" ∷ "logging.exclusions.list" ∷ [])

unfoldable pub logging_config_writer_grants : String → Bool
unfolding logging_viewer_grants
logging_config_writer_grants permission =
    if logging_viewer_grants permission
    then true
    else one_of permission (
        "logging.sinks.create" ∷ "logging.sinks.update" ∷ "logging.sinks.delete"
        ∷ "logging.views.create" ∷ "logging.exclusions.create" ∷ "logging.exclusions.delete"
        ∷ "logging.logs.delete" ∷ "logging.entries.copy" ∷ [])

unfoldable pub monitoring_viewer_grants : String → Bool
monitoring_viewer_grants permission = one_of permission (
    "monitoring.metricDescriptors.get" ∷ "monitoring.metricDescriptors.list"
    ∷ "monitoring.timeSeries.list" ∷ "monitoring.alertPolicies.get"
    ∷ "monitoring.alertPolicies.list" ∷ [])

-- The cases of the `switch role` for these roles: their names and the grants.
unfoldable pub telemetry_cases : List Case
unfolding bigquery_data_editor_grants bigquery_data_viewer_grants bigquery_metadata_viewer_grants
    bigquery_user_grants logging_config_writer_grants logging_viewer_grants monitoring_viewer_grants
    pubsub_publisher_grants pubsub_subscriber_grants pubsub_viewer_grants
telemetry_cases =
    (
      "roles/pubsub.admin" ∷ "roles/pubsub.editor" ∷ [],
      (λ permission. has_prefix permission "pubsub."),
    )
    ∷ ("roles/pubsub.viewer" ∷ [], pubsub_viewer_grants)
    ∷ ("roles/pubsub.publisher" ∷ [], pubsub_publisher_grants)
    ∷ ("roles/pubsub.subscriber" ∷ [], pubsub_subscriber_grants)
    ∷ ("roles/bigquery.admin" ∷ [], (λ permission. has_prefix permission "bigquery."))
    ∷ ("roles/bigquery.dataOwner" ∷ "roles/bigquery.dataEditor" ∷ [], bigquery_data_editor_grants)
    ∷ ("roles/bigquery.dataViewer" ∷ [], bigquery_data_viewer_grants)
    ∷ ("roles/bigquery.metadataViewer" ∷ [], bigquery_metadata_viewer_grants)
    ∷ ("roles/bigquery.user" ∷ [], bigquery_user_grants)
    ∷ ("roles/bigquery.jobUser" ∷ [], (λ permission. permission == "bigquery.jobs.create"))
    ∷ ("roles/logging.admin" ∷ [], (λ permission. has_prefix permission "logging."))
    ∷ ("roles/logging.viewer" ∷ "roles/logging.privateLogViewer" ∷ [], logging_viewer_grants)
    ∷ ("roles/logging.logWriter" ∷ [], (λ permission. permission == "logging.logEntries.create"))
    ∷ ("roles/logging.configWriter" ∷ [], logging_config_writer_grants)
    ∷ ("roles/monitoring.admin" ∷ [], (λ permission. has_prefix permission "monitoring."))
    ∷ ("roles/monitoring.viewer" ∷ [], monitoring_viewer_grants)
    ∷ (
      "roles/monitoring.metricWriter" ∷ [],
      (λ permission.
          permission == "monitoring.timeSeries.create"
          || permission == "monitoring.metricDescriptors.create"),
    )
    ∷ (
      "roles/monitoring.alertPolicyEditor" ∷ [],
      (λ permission. has_prefix permission "monitoring.alertPolicies."),
    )
    ∷ []
