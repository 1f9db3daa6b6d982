-- ===== src/Store/PubSub/Publish.antt =====
-- Publishing (internal/store/pubsub.go). The delivery to Eventarc that `PublishFanout` starts in
-- the background touches no table of Pub/Sub, and is left out.
use noctaxris_gcp.Base.{
  ℕ, suc, String, Bool, true, false, ◌==◌, List, [], ◌∷◌, ◌++◌, Option, none, some, Result, ok, err,
  message, exists_row, if◌then◌else◌,
}
use noctaxris_gcp.Store.Stamps.{format}
use noctaxris_gcp.Store.PubSub.Types.{
  Db, PubSubSubscription, PubSubMessage, StringMap, or_empty_map, Uuids,
}
use noctaxris_gcp.Store.PubSub.Filter.{message_matches_filter}
use noctaxris_gcp.Store.PubSub.Topics.{get_topic}
use noctaxris_gcp.Store.PubSub.Subscriptions.{list_subscriptions_for_topic}

abbrev pub acked_by : String → PubSubMessage → Bool
acked_by ack_id m = m.ack_id == ack_id

-- INSERT INTO pubsub_messages: `ack_id` is the key.
unfoldable pub insert_message : List PubSubMessage → PubSubMessage → Result (List PubSubMessage)
insert_message rows m =
    if exists_row (acked_by m.ack_id) rows
    then err (message "UNIQUE constraint failed: pubsub_messages.ack_id")
    else ok (rows ++ m ∷ [])

module _ (uuids : Uuids) where
  -- The loop over the subscriptions, on the rows, the identifiers drawn and the copies so far: `draft`
  -- is the message with its subscription and its acknowledgement to be filled in.
  unfoldable pub fan_out :
      PubSubMessage
      → List PubSubMessage
      → ℕ
      → List PubSubMessage
      → List PubSubSubscription
      → Result (List PubSubMessage × ℕ × List PubSubMessage)
  fan_out draft rows drawn copies [] = ok (rows, drawn, copies)
  fan_out draft rows drawn copies (sub ∷ subs) =
      elim (message_matches_filter sub.filter draft.attributes) [
        | false ↦ fan_out draft rows drawn copies subs
        | true ↦
            let copy = record draft { subscription = sub.name; ack_id = uuids.new_string drawn } in
            elim (insert_message rows copy) [
              | err e ↦ err e
              | ok rows' ↦ fan_out draft rows' (suc drawn) (copies ++ copy ∷ []) subs
            ]
      ]

  -- The message identifier and the copies. An error leaves the tables as they were.
  unfoldable pub publish_fanout :
      ℕ → Db → String → List ℕ → Option StringMap → Db × Result (String × List PubSubMessage)
  publish_fanout now db topic payload attributes = elim (get_topic db topic) [
    | none ↦ (db, err (message "topic not found"))
    | some t ↦
        let draft : PubSubMessage = record {
          id = uuids.new_string db.drawn;
          subscription = "";
          topic = topic;
          payload = payload;
          attributes = or_empty_map attributes;
          publish_time = format now;
          ack_id = "";
          ack_deadline = none;
          delivered = false;
          delivery_attempts = 0;
        } in
        elim (fan_out draft db.messages (suc db.drawn) [] (list_subscriptions_for_topic db topic)) [
          | err e ↦ (db, err e)
          | ok (rows, drawn, copies) ↦
              (record db { messages = rows; drawn = drawn }, ok (draft.id, copies))
        ]
  ]

  unfoldable pub publish : ℕ → Db → String → List ℕ → Option StringMap → Db × Result String
  publish now db topic payload attributes =
      let (db', r) = publish_fanout now db topic payload attributes in
      elim r [ err e ↦ (db', err e) | ok (id, copies) ↦ (db', ok id) ]
