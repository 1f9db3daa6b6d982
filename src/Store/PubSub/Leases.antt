-- ===== src/Store/PubSub/Leases.antt =====
-- Acknowledgement, lease deadlines and seeking (internal/store/pubsub.go).
use noctaxris_gcp.Base.{
  ℕ, ◌+◌, ◌-◌, ◌*◌, String, Bool, true, false, not, ◌&&◌, ◌==◌, List, [], ◌∷◌, none, some, Result,
  ok, err, message, delete_where, update_where, ltb, eqb, if◌then◌else◌,
}
use noctaxris_gcp.Store.Stamps.{Stamp, second, format, stamp_ltb}
use noctaxris_gcp.Store.PubSub.Types.{Db, PubSubMessage}
use noctaxris_gcp.Store.PubSub.Subscriptions.{get_subscription}

-- WHERE subscription = ? AND ack_id = ?
abbrev pub lease_of : String → String → PubSubMessage → Bool
lease_of subscription ack_id m = m.subscription == subscription && m.ack_id == ack_id

unfoldable pub acknowledge_rows : String → List String → List PubSubMessage → List PubSubMessage
acknowledge_rows subscription [] rows = rows
acknowledge_rows subscription (id ∷ ids) rows =
    acknowledge_rows subscription ids (delete_where (lease_of subscription id) rows)

unfoldable pub acknowledge : Db → String → List String → Db
unfolding acknowledge_rows
acknowledge db subscription ack_ids = record db {
  messages = acknowledge_rows subscription ack_ids db.messages;
}

-- The deadline that a request for so many seconds sets.
unfoldable pub modified_deadline : ℕ → ℕ → Stamp
modified_deadline now seconds =
    let capped = if ltb 600 seconds then 600 else seconds in
    if eqb capped 0 then format (now - second) else format (now + capped * second)

unfoldable pub modify_rows : Stamp → String → List String → List PubSubMessage → List PubSubMessage
modify_rows deadline subscription [] rows = rows
modify_rows deadline subscription (id ∷ ids) rows = modify_rows deadline subscription ids (
    update_where (lease_of subscription id)
      (λ row. record row { delivered = true; ack_deadline = some deadline }) rows)

unfoldable pub modify_ack_deadline : ℕ → Db → String → List String → ℕ → Db
unfolding modify_rows
modify_ack_deadline now db subscription ack_ids seconds = record db {
  messages = modify_rows (modified_deadline now seconds) subscription ack_ids db.messages;
}

-- WHERE subscription = ? AND publish_time < ?
abbrev pub published_before : String → Stamp → PubSubMessage → Bool
published_before subscription ts m = m.subscription == subscription && stamp_ltb m.publish_time ts

-- WHERE subscription = ? AND publish_time >= ?
abbrev pub published_since : String → Stamp → PubSubMessage → Bool
published_since subscription ts m =
    m.subscription == subscription && not (stamp_ltb m.publish_time ts)

unfoldable pub seek_to_time : Db → String → ℕ → Db × Result (Unit {0})
seek_to_time db subscription t = elim (get_subscription db subscription) [
  | none ↦ (db, err (message "subscription not found"))
  | some sub ↦ (
    record db {
      messages =
          update_where (published_since subscription (format t))
            (λ row. record row { delivered = false; ack_deadline = none })
            (delete_where (published_before subscription (format t)) db.messages);
    },
    ok tt,
  )
]
