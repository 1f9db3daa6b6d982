-- ===== src/Store/PubSub/ValidLeases.antt =====
-- Acknowledging, changing deadlines and seeking keep what the tables promise.
use noctaxris_gcp.Base.{
  ℕ, String, true, false, refl, inl, inr, List, [], ◌∷◌, none, some, delete_where, Option-cases,
}
use noctaxris_gcp.Store.Stamps.{Stamp, format}
use noctaxris_gcp.Store.PubSub.Types.{Db, PubSubMessage, Uuids}
use noctaxris_gcp.Store.PubSub.Subscriptions.{get_subscription}
use noctaxris_gcp.Store.PubSub.Leases.{
  lease_of, acknowledge_rows, acknowledge, modified_deadline, modify_rows, modify_ack_deadline,
  published_before, published_since, seek_to_time,
}
use noctaxris_gcp.Store.PubSub.Valid.{
  IsValid, IsLeaseChange, deleted_rows-IsValid, updated_rows-IsValid,
}

module _ (uuids : Uuids) where
  acknowledged_rows-IsValid :
      (db : Db) (subscription : String) (ids : List String) (rows : List PubSubMessage)
      → IsValid uuids (record db { messages = rows })
      → IsValid uuids (record db { messages = acknowledge_rows subscription ids rows })
  unfolding acknowledge_rows
  acknowledged_rows-IsValid db subscription [] rows v = v
  acknowledged_rows-IsValid db subscription (id ∷ ids) rows v =
      acknowledged_rows-IsValid db subscription ids (delete_where (lease_of subscription id) rows)
        (deleted_rows-IsValid uuids (record db { messages = rows }) (lease_of subscription id) v)

  pub acknowledge-IsValid :
      (db : Db) (subscription : String) (ids : List String)
      → IsValid uuids db
      → IsValid uuids (acknowledge db subscription ids)
  unfolding acknowledge
  acknowledge-IsValid db subscription ids v =
      acknowledged_rows-IsValid db subscription ids db.messages v

  deadline_change :
      (deadline : Stamp)
      → IsLeaseChange uuids (λ row. record row { delivered = true; ack_deadline = some deadline })
  deadline_change deadline = record {
    same_ack = λ m. refl;
    same_subscription = λ m. refl;
    leased = λ m l t e. cc;
  }

  modified_rows-IsValid :
      (db : Db) (deadline : Stamp) (subscription : String) (ids : List String)
      (rows : List PubSubMessage)
      → IsValid uuids (record db { messages = rows })
      → IsValid uuids (record db { messages = modify_rows deadline subscription ids rows })
  unfolding modify_rows
  modified_rows-IsValid db deadline subscription [] rows v = v
  modified_rows-IsValid db deadline subscription (id ∷ ids) rows v =
      modified_rows-IsValid db deadline subscription ids _ (
        updated_rows-IsValid uuids (record db { messages = rows }) (lease_of subscription id) _
          (deadline_change deadline) v)

  pub modify_ack_deadline-IsValid :
      (now : ℕ) (db : Db) (subscription : String) (ids : List String) (seconds : ℕ)
      → IsValid uuids db
      → IsValid uuids (modify_ack_deadline now db subscription ids seconds)
  unfolding modify_ack_deadline
  modify_ack_deadline-IsValid now db subscription ids seconds v =
      modified_rows-IsValid db (modified_deadline now seconds) subscription ids db.messages v

  cleared_change :
      IsLeaseChange uuids (λ row. record row { delivered = false; ack_deadline = none })
  cleared_change = record {
    same_ack = λ m. refl;
    same_subscription = λ m. refl;
    leased = λ m l t. cc;
  }

  pub seek_to_time-IsValid :
      (db : Db) (subscription : String) (t : ℕ)
      → IsValid uuids db
      → IsValid uuids (seek_to_time db subscription t).0
  unfolding seek_to_time
  seek_to_time-IsValid db subscription t v =
      elim (Option-cases (get_subscription db subscription)) [
        | inl p ↦ rw (p, seek_to_time) v
        | inr (sub, p) ↦
            rw (p, seek_to_time)
              (updated_rows-IsValid uuids (record db { messages = _ })
                (published_since subscription (format t)) _ cleared_change
                (deleted_rows-IsValid uuids db (published_before subscription (format t)) v))
      ]
