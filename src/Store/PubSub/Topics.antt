-- ===== src/Store/PubSub/Topics.antt =====
-- Topics (internal/store/pubsub.go). A write returns the database that it leaves. The SQL engine is
-- taken not to fail.
use noctaxris_gcp.Base.{
  ℕ, String, Bool, ◌||◌, ◌==◌, List, [], ◌∷◌, ◌++◌, Option, none, some, Result, ok, err, message,
  trim_space, select_where, select_one, exists_row, delete_where, update_where, order_by,
  if◌then◌else◌,
}
use text.Mathlib.Text.{is_le}
use Prim.Native.String.{compare}
use noctaxris_gcp.Store.Stamps.{format}
use noctaxris_gcp.Store.PubSub.Types.{Db, PubSubTopic, StringMap, or_empty_map}

-- `name = ?`
abbrev pub topic_named : String → PubSubTopic → Bool
topic_named name t = t.name == name

-- ORDER BY name
abbrev pub name_le : String → String → Bool
name_le a b = is_le (compare a b)

-- `none` says that the topic is there already.
unfoldable pub create_topic_with_labels :
    ℕ → Db → String → String → Option StringMap → Db × Result (Option PubSubTopic)
create_topic_with_labels now db raw_name raw_project labels =
    let name = trim_space raw_name in
    let project_id = trim_space raw_project in
    if name == "" || project_id == ""
    then (db, err (message "topic name and project required"))
    else let topic : PubSubTopic = record {
      name = name;
      project_id = project_id;
      labels = or_empty_map labels;
      created_at = format now;
    } in
      if exists_row (topic_named name) db.topics
      then (db, ok none)
      else (record db { topics = db.topics ++ topic ∷ [] }, ok (some topic))

unfoldable pub create_topic : ℕ → Db → String → String → Db × Result (Option PubSubTopic)
unfolding create_topic_with_labels
create_topic now db name project_id = create_topic_with_labels now db name project_id none

unfoldable pub get_topic : Db → String → Option PubSubTopic
get_topic db name = select_one (topic_named name) db.topics

unfoldable pub update_topic_labels : Db → String → Option StringMap → Db × Result PubSubTopic
update_topic_labels db name labels = elim (get_topic db name) [
  | none ↦ (db, err (message "topic not found"))
  | some t ↦ (
    record db {
      topics =
          update_where (topic_named name) (λ r. record r { labels = or_empty_map labels })
            db.topics;
    },
    ok (record t { labels = or_empty_map labels }),
  )
]

unfoldable pub list_topics : Db → String → List PubSubTopic
list_topics db project_id =
    order_by (λ a b. name_le a.name b.name)
      (select_where (λ t. t.project_id == project_id) db.topics)

-- The subscriptions of the topic stay.
unfoldable pub delete_topic : Db → String → Db × Bool
delete_topic db name = (
  record db { topics = delete_where (topic_named name) db.topics },
  exists_row (topic_named name) db.topics,
)
