-- ===== src/Store/PubSub/Pull.antt =====
-- Pulling and failed pushes (internal/store/pubsub.go).
use noctaxris_gcp.Base.{
  ℕ, ◌+◌, ◌-◌, ◌*◌, ◌%◌, ◌^◌, String, Bool, true, false, not, ◌&&◌, ◌||◌, ◌==◌, List, [], ◌∷◌, ◌++◌,
  Option, none, some, Result, ok, err, message, annotate, length, take, select_where, select_one,
  delete_where, update_where, order_by, ltb, leb, if◌then◌else◌,
}
use noctaxris_gcp.Store.Stamps.{Stamp, second, format, stamp_ltb}
use noctaxris_gcp.Store.PubSub.Types.{
  Db, PubSubSubscription, PubSubMessage, StringMap, Uuids, map_put,
}
use noctaxris_gcp.Store.PubSub.Subscriptions.{get_subscription}
use noctaxris_gcp.Store.PubSub.Publish.{acked_by, publish}

-- `maxMessages * 4` in a 64-bit `int`, unless that is less than `maxMessages`.
unfoldable pub fetch_limit : ℕ → ℕ
fetch_limit max_messages =
    let product = max_messages * 4 % 2 ^ 64 in
    if leb (2 ^ 63) product || ltb product max_messages then max_messages else product

unfoldable pub expired : Stamp → Option Stamp → Bool
expired now none = true
expired now (some deadline) = stamp_ltb deadline now

-- The WHERE clause of `Pull`.
unfoldable pub available : String → Stamp → PubSubMessage → Bool
available subscription now m =
    m.subscription == subscription && (not m.delivered || expired now m.ack_deadline)

unfoldable pub candidates : Db → String → Stamp → ℕ → List PubSubMessage
candidates db subscription now limit = take limit (
    order_by (λ a b. not (stamp_ltb b.publish_time a.publish_time))
      (select_where (available subscription now) db.messages))

-- The deadline of a lease: `now.Add(time.Duration(seconds) * time.Second)`. The product is an `int64`:
-- it wraps, and is negative from 2^63 on.
unfoldable pub lease_end : ℕ → ℕ → ℕ
lease_end now seconds =
    let product = seconds * second % 2 ^ 64 in
    if ltb product (2 ^ 63) then now + product else now - (2 ^ 64 - product)

-- Whether a delivery with this number ends at the dead-letter topic.
unfoldable pub is_dead_letter : PubSubSubscription → ℕ → Bool
is_dead_letter sub attempts =
    not (sub.dead_letter_topic == "")
    && ltb 0 sub.max_delivery_attempts
    && leb sub.max_delivery_attempts attempts

-- The message as a lease leaves it.
unfoldable pub leased : Stamp → PubSubMessage → PubSubMessage
leased deadline m = record m {
  delivered = true;
  ack_deadline = some deadline;
  delivery_attempts = m.delivery_attempts + 1;
}

abbrev pub dead_letter_attributes : String → StringMap → StringMap
dead_letter_attributes subscription attributes =
    map_put "CloudPubSubDeadLetterSourceSubscription" subscription attributes

-- The columns that the UPDATE of a lease sets.
abbrev pub set_lease : Stamp → ℕ → PubSubMessage → PubSubMessage
set_lease deadline attempts row = record row {
  delivered = true;
  ack_deadline = some deadline;
  delivery_attempts = attempts;
}

module _ (uuids : Uuids) where
  -- Publishes a message to the dead-letter topic of its subscription and removes it.
  unfoldable pub move_to_dead_letter :
      ℕ → Db → PubSubSubscription → String → PubSubMessage → Db × Result (Unit {0})
  move_to_dead_letter now db sub subscription m =
      let (db', r) =
        publish uuids now db sub.dead_letter_topic m.payload
          (some (dead_letter_attributes subscription m.attributes)) in
      elim (annotate "dead letter publish" r) [
        | err e ↦ (db', err e)
        | ok id ↦ (record db' { messages = delete_where (acked_by m.ack_id) db'.messages }, ok tt)
      ]

  -- The loop over the candidates, on the database and the messages so far.
  unfoldable pub lease_loop :
      ℕ
      → PubSubSubscription
      → String
      → ℕ
      → Stamp
      → Db
      → List PubSubMessage
      → List PubSubMessage
      → Db × Result (List PubSubMessage)
  lease_loop now sub subscription max_messages deadline db msgs [] = (db, ok msgs)
  lease_loop now sub subscription max_messages deadline db msgs (m ∷ ms) =
      elim (leb max_messages (length msgs)) [
        | true ↦ (db, ok msgs)
        | false ↦ elim (is_dead_letter sub (m.delivery_attempts + 1)) [
          | true ↦
              let (db', r) = move_to_dead_letter now db sub subscription m in
              elim r [
                | err e ↦ (db', err e)
                | ok u ↦ lease_loop now sub subscription max_messages deadline db' msgs ms
              ]
          | false ↦
              lease_loop now sub subscription max_messages deadline
                (record db {
                  messages =
                      update_where (acked_by m.ack_id)
                        (set_lease deadline (m.delivery_attempts + 1)) db.messages;
                })
                (msgs ++ leased deadline m ∷ []) ms
        ]
      ]

  -- `Pull`. A count that is not positive stands for one.
  unfoldable pub pull : ℕ → Db → String → ℕ → Db × Result (List PubSubMessage)
  pull now db subscription requested =
      let max_messages = if leb requested 0 then 1 else requested in
      elim (get_subscription db subscription) [
        | none ↦ (db, err (message "subscription not found"))
        | some sub ↦
            lease_loop now sub subscription max_messages
              (format (lease_end now sub.ack_deadline_seconds)) db []
              (candidates db subscription (format now) (fetch_limit max_messages))
      ]

  -- `RecordPushDeliveryFailure`: whether the message was moved.
  unfoldable pub record_push_delivery_failure : ℕ → Db → String → String → Db × Result Bool
  record_push_delivery_failure now db subscription ack_id =
      elim (get_subscription db subscription) [
        | none ↦ (db, ok false)
        | some sub ↦
            elim (select_one (λ m. m.subscription == subscription && m.ack_id == ack_id)
              db.messages) [
                | none ↦ (db, ok false)
                | some m ↦ elim (is_dead_letter sub (m.delivery_attempts + 1)) [
                  | true ↦
                      let (db', r) = move_to_dead_letter now db sub subscription m in
                      elim r [ err e ↦ (db', err e) | ok u ↦ (db', ok true) ]
                  | false ↦ (
                    record db {
                      messages =
                          update_where (acked_by ack_id)
                            (λ row. record row { delivery_attempts = m.delivery_attempts + 1 })
                            db.messages;
                    },
                    ok false,
                  )
                ]
              ]
      ]
