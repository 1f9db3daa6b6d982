-- ===== src/Store/PubSub/Calls.antt =====
-- The calls of internal/store/pubsub.go that write, with their arguments.
use noctaxris_gcp.Base.{ℕ, String, List, Option}
use noctaxris_gcp.Store.PubSub.Types.{StringMap}
use noctaxris_gcp.Store.PubSub.Subscriptions.{SubscriptionArgs, SubscriptionUpdate}

pub data Call : Type 0 where
  create_topic : (name project : String) → Call
  create_topic_with_labels : (name project : String) (labels : Option StringMap) → Call
  update_topic_labels : (name : String) (labels : Option StringMap) → Call
  delete_topic : (name : String) → Call
  create_subscription : (name topic project : String) (seconds : ℕ) → Call
  create_subscription_full : SubscriptionArgs → Call
  update_subscription : (name : String) (u : SubscriptionUpdate) → Call
  delete_subscription : (name : String) → Call
  publish : (topic : String) (payload : List ℕ) (attributes : Option StringMap) → Call
  publish_fanout : (topic : String) (payload : List ℕ) (attributes : Option StringMap) → Call
  pull : (subscription : String) (requested : ℕ) → Call
  record_push_delivery_failure : (subscription ack_id : String) → Call
  acknowledge : (subscription : String) (ids : List String) → Call
  modify_ack_deadline : (subscription : String) (ids : List String) (seconds : ℕ) → Call
  seek_to_time : (subscription : String) (time : ℕ) → Call
  create_snapshot : (name subscription : String) (labels : Option StringMap) → Call
  delete_snapshot : (name : String) → Call
