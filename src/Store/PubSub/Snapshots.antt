-- ===== src/Store/PubSub/Snapshots.antt =====
-- Snapshots (internal/store/pubsub.go).
use noctaxris_gcp.Base.{
  ℕ, ◌+◌, ◌*◌, String, Bool, ◌&&◌, ◌||◌, ◌==◌, List, [], ◌∷◌, ◌++◌, Option, none, some, Result, ok,
  err, message, trim_space, split_at, select_where, select_one, exists_row, delete_where, order_by,
  if◌then◌else◌,
}
use noctaxris_gcp.Store.Stamps.{second, format}
use noctaxris_gcp.Store.PubSub.Types.{Db, PubSubSnapshot, StringMap, or_empty_map}
use noctaxris_gcp.Store.PubSub.Topics.{name_le}
use noctaxris_gcp.Store.PubSub.Subscriptions.{get_subscription}

abbrev pub snapshot_named : String → PubSubSnapshot → Bool
snapshot_named name s = s.name == name

-- The project of `projects/{project}/snapshots/...`: of `strings.Split(name, "/")`, with at least
-- four parts, the second, where the first and the third are those words.
unfoldable pub snapshot_project : String → Option String
unfolding split_at
snapshot_project name = elim (split_at b'/' name) [
  | none ↦ none
  | some (first, rest) ↦ elim (split_at b'/' rest) [
    | none ↦ none
    | some (project, rest') ↦ elim (split_at b'/' rest') [
      | none ↦ none
      | some (third, rest'') ↦
          if first == "projects" && third == "snapshots" then some project else none
    ]
  ]
]

unfoldable pub create_snapshot :
    ℕ → Db → String → String → Option StringMap → Db × Result (Option PubSubSnapshot)
create_snapshot now db raw_name raw_subscription labels =
    let name = trim_space raw_name in
    let subscription = trim_space raw_subscription in
    if name == "" || subscription == ""
    then (db, err (message "snapshot name and subscription required"))
    else elim (get_subscription db subscription) [
      | none ↦ (db, err (message "subscription not found"))
      | some sub ↦ elim (snapshot_project name) [
        | none ↦ (db, err (message "invalid snapshot name"))
        | some project_id ↦
            let snap : PubSubSnapshot = record {
              name = name;
              project_id = project_id;
              topic = sub.topic;
              subscription = subscription;
              labels = or_empty_map labels;
              expire_time = format (now + 7 * 24 * 3600 * second);
              created_at = format now;
            } in
            if exists_row (snapshot_named name) db.snapshots
            then (db, ok none)
            else (record db { snapshots = db.snapshots ++ snap ∷ [] }, ok (some snap))
      ]
    ]

unfoldable pub get_snapshot : Db → String → Option PubSubSnapshot
get_snapshot db name = select_one (snapshot_named name) db.snapshots

unfoldable pub list_snapshots : Db → String → List PubSubSnapshot
list_snapshots db project_id =
    order_by (λ a b. name_le a.name b.name)
      (select_where (λ s. s.project_id == project_id) db.snapshots)

unfoldable pub delete_snapshot : Db → String → Db × Bool
delete_snapshot db name = (
  record db { snapshots = delete_where (snapshot_named name) db.snapshots },
  exists_row (snapshot_named name) db.snapshots,
)
