-- ===== src/Store/PubSub/Quiet.antt =====
-- Calls that are not about a message, and what each method leaves alone (internal/store/pubsub.go).
use noctaxris_gcp.Base.{
  ℕ, ◌+◌, ◌≤◌, String, Bool, true, false, not, ◌==◌, ◌≡◌, refl, inl, inr, List, Memᴰ, Option, some,
  arith, eq_iff, exists_row, mem_delete_where, Bool-cases, Option-cases, Result-cases,
}
use noctaxris_gcp.Store.Stamps.{second, format, stamp_ltb}
use noctaxris_gcp.Store.PubSub.Types.{Db, PubSubMessage, StringMap}
use noctaxris_gcp.Store.PubSub.Topics.{create_topic_with_labels, update_topic_labels}
use noctaxris_gcp.Store.PubSub.Subscriptions.{
  SubscriptionArgs, SubscriptionUpdate, create_subscription_full, checked_subscription,
  update_subscription, updated_subscription, delete_subscription, get_subscription,
  subscription_named,
}
use noctaxris_gcp.Store.PubSub.Pull.{available, expired}
use noctaxris_gcp.Store.PubSub.Leases.{modify_ack_deadline, seek_to_time}
use noctaxris_gcp.Store.PubSub.LeaseLaws.{concerns, modify_ack_deadline_iff, seek_to_time_iff}
use noctaxris_gcp.Store.StampOrder.{stamp_order}
use noctaxris_gcp.Store.PubSub.Calls.{Call}

-- Whether a call is not about the message: it does not acknowledge it, set its deadline, report its
-- failure, seek in its subscription, or delete that.
unfoldable pub passes_by : PubSubMessage → Call → Bool
passes_by m (Call.delete_subscription name) = not (m.subscription == name)
passes_by m (Call.record_push_delivery_failure subscription ack_id) = not (m.ack_id == ack_id)
passes_by m (Call.acknowledge subscription ids) = not (concerns subscription ids m)
passes_by m (Call.modify_ack_deadline subscription ids seconds) = not (concerns subscription ids m)
passes_by m (Call.seek_to_time subscription time) = not (m.subscription == subscription)
passes_by m (Call.create_topic name project) = true
passes_by m (Call.create_topic_with_labels name project labels) = true
passes_by m (Call.update_topic_labels name labels) = true
passes_by m (Call.delete_topic name) = true
passes_by m (Call.create_subscription name topic project seconds) = true
passes_by m (Call.create_subscription_full args) = true
passes_by m (Call.update_subscription name u) = true
passes_by m (Call.publish topic payload attributes) = true
passes_by m (Call.publish_fanout topic payload attributes) = true
passes_by m (Call.pull subscription requested) = true
passes_by m (Call.create_snapshot name subscription labels) = true
passes_by m (Call.delete_snapshot name) = true

pub topic_messages :
    (now : ℕ) (db : Db) (name project : String) (labels : Option StringMap)
    → (create_topic_with_labels now db name project labels).0.messages ≡ db.messages
unfolding create_topic_with_labels
topic_messages now db name project labels = ground arith

pub label_messages :
    (db : Db) (name : String) (labels : Option StringMap)
    → (update_topic_labels db name labels).0.messages ≡ db.messages
unfolding update_topic_labels
label_messages db name labels = ground arith

pub subscription_messages :
    (now : ℕ) (db : Db) (args : SubscriptionArgs)
    → (create_subscription_full now db args).0.messages ≡ db.messages
unfolding create_subscription_full
subscription_messages now db args = elim (Result-cases (checked_subscription now db args)) [
  | inr (e, p) ↦ rw (p, create_subscription_full) refl
  | inl (s, p) ↦ elim (Bool-cases (exists_row (subscription_named s.name) db.subscriptions)) [
    | inl t ↦ rw (p, t, create_subscription_full) refl
    | inr t ↦ rw (p, t, create_subscription_full) refl
  ]
]

pub update_messages :
    (db : Db) (name : String) (u : SubscriptionUpdate)
    → (update_subscription db name u).0.messages ≡ db.messages
unfolding update_subscription
update_messages db name u = elim (Option-cases (get_subscription db name)) [
  | inl p ↦ rw (p, update_subscription) refl
  | inr (sub, p) ↦ elim (Result-cases (updated_subscription db sub u)) [
    | inr (e, q) ↦ rw (p, q, update_subscription) refl
    | inl (new, q) ↦ rw (p, q, update_subscription) refl
  ]
]

pub seek_keeps :
    (db : Db) (subscription : String) (time : ℕ) (x : PubSubMessage)
    → Memᴰ x db.messages
    → x.subscription == subscription ≡ false
    → Memᴰ x (seek_to_time db subscription time).0.messages
seek_keeps db subscription time x i n = elim (Option-cases (get_subscription db subscription)) [
  | inl p ↦ unfold seek_to_time in rw (p, seek_to_time) i
  | inr (sub, p) ↦
      (seek_to_time_iff db subscription time sub x p).1
        (x, i, inl (λ e. cc (n, (eq_iff x.subscription subscription).1 e), refl))
]

pub modify_keeps :
    (now : ℕ) (db : Db) (subscription : String) (ids : List String) (seconds : ℕ)
    (x : PubSubMessage)
    → Memᴰ x db.messages
    → concerns subscription ids x ≡ false
    → Memᴰ x (modify_ack_deadline now db subscription ids seconds).messages
modify_keeps now db subscription ids seconds x i n =
    (modify_ack_deadline_iff now db subscription ids seconds x).1 (x, i, rw n refl)

pub subscription_keeps :
    (db : Db) (name : String) (x : PubSubMessage)
    → Memᴰ x db.messages
    → x.subscription == name ≡ false
    → Memᴰ x (delete_subscription db name).0.messages
unfolding delete_subscription
subscription_keeps db name x i n = mem_delete_where (λ m. m.subscription == name) db.messages i n

-- Until a second before its deadline a leased message is not available.
pub leased_unavailable :
    (subscription : String) (now deadline : ℕ) (x : PubSubMessage)
    → x.delivered ≡ true
    → x.ack_deadline ≡ some (format deadline)
    → now + second ≤ deadline
    → available subscription (format now) x ≡ false
unfolding available expired
leased_unavailable subscription now deadline x d e l =
    elim (Bool-cases (stamp_ltb (format deadline) (format now))) [
      | inl t ↦ let late = (stamp_order deadline now).1 t in absurd (omega arith)
      | inr f ↦ rw (d, e, expired, f) (ground arith)
    ]
