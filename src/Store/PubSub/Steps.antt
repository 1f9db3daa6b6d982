-- ===== src/Store/PubSub/Steps.antt =====
-- The life of the Pub/Sub tables: what a caller can ask of internal/store/pubsub.go, in any order,
-- and that the tables keep what they promise.
use noctaxris_gcp.Base.{ℕ, String, ◌≡◌, List, [], Option, none, some, ok}
use noctaxris_gcp.Store.PubSub.Types.{Db, PubSubTopic, StringMap, Uuids}
use noctaxris_gcp.Store.PubSub.Topics.{
  get_topic, create_topic, create_topic_with_labels, update_topic_labels, delete_topic,
}
use noctaxris_gcp.Store.PubSub.Subscriptions.{
  create_subscription, create_subscription_full, update_subscription, delete_subscription,
}
use noctaxris_gcp.Store.PubSub.Calls.{Call}
use noctaxris_gcp.Store.PubSub.Publish.{publish_fanout, publish}
use noctaxris_gcp.Store.PubSub.Pull.{pull, record_push_delivery_failure}
use noctaxris_gcp.Store.PubSub.Leases.{acknowledge, modify_ack_deadline, seek_to_time}
use noctaxris_gcp.Store.PubSub.Snapshots.{create_snapshot, delete_snapshot}
use noctaxris_gcp.Store.PubSub.Published.{AreDistinct, publish_total}
use noctaxris_gcp.Store.PubSub.Valid.{IsValid, empty-IsValid}
use noctaxris_gcp.Store.PubSub.ValidNames.{
  create_topic_with_labels-IsValid, update_topic_labels-IsValid, delete_topic-IsValid,
  create_snapshot-IsValid, delete_snapshot-IsValid,
}
use noctaxris_gcp.Store.PubSub.ValidSubscriptions.{
  create_subscription_full-IsValid, update_subscription-IsValid, delete_subscription-IsValid,
}
use noctaxris_gcp.Store.PubSub.ValidPublish.{publish_fanout-IsValid, publish-IsValid}
use noctaxris_gcp.Store.PubSub.ValidPull.{pull-IsValid, record_push_delivery_failure-IsValid}
use noctaxris_gcp.Store.PubSub.ValidLeases.{
  acknowledge-IsValid, modify_ack_deadline-IsValid, seek_to_time-IsValid,
}

-- The tables of a new store.
abbrev pub empty_db : Db
empty_db = record { topics = []; subscriptions = []; messages = []; snapshots = []; drawn = 0 }

module _ (uuids : Uuids) where
  -- What a call at a time leaves behind.
  unfoldable pub perform : ℕ → Db → Call → Db
  perform now db (Call.create_topic name project) = (create_topic now db name project).0
  perform now db (Call.create_topic_with_labels name project labels) =
      (create_topic_with_labels now db name project labels).0
  perform now db (Call.update_topic_labels name labels) = (update_topic_labels db name labels).0
  perform now db (Call.delete_topic name) = (delete_topic db name).0
  perform now db (Call.create_subscription name topic project seconds) =
      (create_subscription now db name topic project seconds).0
  perform now db (Call.create_subscription_full args) = (create_subscription_full now db args).0
  perform now db (Call.update_subscription name u) = (update_subscription db name u).0
  perform now db (Call.delete_subscription name) = (delete_subscription db name).0
  perform now db (Call.publish topic payload attributes) =
      (publish uuids now db topic payload attributes).0
  perform now db (Call.publish_fanout topic payload attributes) =
      (publish_fanout uuids now db topic payload attributes).0
  perform now db (Call.pull subscription requested) = (pull uuids now db subscription requested).0
  perform now db (Call.record_push_delivery_failure subscription ack_id) =
      (record_push_delivery_failure uuids now db subscription ack_id).0
  perform now db (Call.acknowledge subscription ids) = acknowledge db subscription ids
  perform now db (Call.modify_ack_deadline subscription ids seconds) =
      modify_ack_deadline now db subscription ids seconds
  perform now db (Call.seek_to_time subscription time) = (seek_to_time db subscription time).0
  perform now db (Call.create_snapshot name subscription labels) =
      (create_snapshot now db name subscription labels).0
  perform now db (Call.delete_snapshot name) = (delete_snapshot db name).0

  -- The states that calls lead to, each at any time.
  pub data Reachable : Db → Type 0 where
    start : Reachable empty_db
    step : (now : ℕ) (db : Db) (call : Call) → Reachable db → Reachable (perform now db call)

  pub perform-IsValid :
      (now : ℕ) (db : Db) (call : Call) → IsValid uuids db → IsValid uuids (perform now db call)
  unfolding perform create_topic create_subscription
  perform-IsValid now db (Call.create_topic name project) v =
      create_topic_with_labels-IsValid uuids now db name project none v
  perform-IsValid now db (Call.create_topic_with_labels name project labels) v =
      create_topic_with_labels-IsValid uuids now db name project labels v
  perform-IsValid now db (Call.update_topic_labels name labels) v =
      update_topic_labels-IsValid uuids db name labels v
  perform-IsValid now db (Call.delete_topic name) v = delete_topic-IsValid uuids db name v
  perform-IsValid now db (Call.create_subscription name topic project seconds) v =
      create_subscription_full-IsValid uuids now db _ v
  perform-IsValid now db (Call.create_subscription_full args) v =
      create_subscription_full-IsValid uuids now db args v
  perform-IsValid now db (Call.update_subscription name u) v =
      update_subscription-IsValid uuids db name u v
  perform-IsValid now db (Call.delete_subscription name) v =
      delete_subscription-IsValid uuids db name v
  perform-IsValid now db (Call.publish topic payload attributes) v =
      publish-IsValid uuids now db topic payload attributes v
  perform-IsValid now db (Call.publish_fanout topic payload attributes) v =
      publish_fanout-IsValid uuids now db topic payload attributes v
  perform-IsValid now db (Call.pull subscription requested) v =
      pull-IsValid uuids now db subscription requested v
  perform-IsValid now db (Call.record_push_delivery_failure subscription ack_id) v =
      record_push_delivery_failure-IsValid uuids now db subscription ack_id v
  perform-IsValid now db (Call.acknowledge subscription ids) v =
      acknowledge-IsValid uuids db subscription ids v
  perform-IsValid now db (Call.modify_ack_deadline subscription ids seconds) v =
      modify_ack_deadline-IsValid uuids now db subscription ids seconds v
  perform-IsValid now db (Call.seek_to_time subscription time) v =
      seek_to_time-IsValid uuids db subscription time v
  perform-IsValid now db (Call.create_snapshot name subscription labels) v =
      create_snapshot-IsValid uuids now db name subscription labels v
  perform-IsValid now db (Call.delete_snapshot name) v = delete_snapshot-IsValid uuids db name v

  -- Whatever is called, in whatever order and at whatever times, from a new store on: the names of
  -- topics, subscriptions and snapshots and the acknowledgements are unique; every subscription
  -- has a deadline, a filter that is empty or parses, and no dead-letter topic or one with 5 to
  -- 100 attempts; and every message belongs to a subscription that is there, has an
  -- acknowledgement that was drawn, and has a deadline if it is delivered.
  pub Reachable-IsValid : (db : Db) → Reachable db → IsValid uuids db
  Reachable-IsValid _ start = empty-IsValid uuids
  Reachable-IsValid _ (step now db call r) = perform-IsValid now db call (Reachable-IsValid db r)

  -- In every state that calls lead to, publishing to a topic that is there succeeds, while
  -- identifiers do not repeat.
  pub Reachable-publish :
      (now : ℕ) (db : Db) (topic : String) (payload : List ℕ) (attributes : Option StringMap)
      (t : PubSubTopic)
      → AreDistinct uuids
      → Reachable db
      → get_topic db topic ≡ some t
      → (db' : Db) × (id : String) × (publish uuids now db topic payload attributes ≡ (db', ok id))
  Reachable-publish now db topic payload attributes t inj r p =
      let v = Reachable-IsValid db r in
      let (db', id, e, d) =
        publish_total uuids now db topic payload attributes inj (λ m i. (v.messages m i).from_draw)
          p in
      (db', id, e)
