-- ===== src/Store/PubSub/ValidPull.antt =====
-- Pulling and failed pushes keep what the tables promise.
use noctaxris_gcp.Base.{
  ℕ, ◌+◌, String, ◌&&◌, ◌==◌, refl, inl, inr, List, [], ◌∷◌, some, length, select_one, Bool-cases,
  Option-cases, Result-cases, leb,
}
use noctaxris_gcp.Store.Stamps.{Stamp}
use noctaxris_gcp.Store.PubSub.Types.{Db, PubSubSubscription, PubSubMessage, Uuids}
use noctaxris_gcp.Store.PubSub.Subscriptions.{get_subscription}
use noctaxris_gcp.Store.PubSub.Publish.{acked_by, publish}
use noctaxris_gcp.Store.PubSub.Pull.{
  is_dead_letter, set_lease, dead_letter_attributes, move_to_dead_letter, lease_loop, pull,
  record_push_delivery_failure,
}
use noctaxris_gcp.Store.PubSub.ValidPublish.{publish-IsValid}
use noctaxris_gcp.Store.PubSub.Valid.{
  IsValid, IsLeaseChange, deleted_rows-IsValid, updated_rows-IsValid,
}

module _ (uuids : Uuids) where
  pub lease_change :
      (deadline : Stamp) (attempts : ℕ) → IsLeaseChange uuids (set_lease deadline attempts)
  lease_change deadline attempts = record {
    same_ack = λ m. refl;
    same_subscription = λ m. refl;
    leased = λ m l t e. cc;
  }

  pub moved-IsValid :
      (now : ℕ) (db : Db) (sub : PubSubSubscription) (subscription : String) (m : PubSubMessage)
      → IsValid uuids db
      → IsValid uuids (move_to_dead_letter uuids now db sub subscription m).0
  unfolding move_to_dead_letter
  moved-IsValid now db sub subscription m v =
      let attributes = some (dead_letter_attributes subscription m.attributes) in
      let out = publish uuids now db sub.dead_letter_topic m.payload attributes in
      let kept = publish-IsValid uuids now db sub.dead_letter_topic m.payload attributes v in
      elim (Result-cases out.1) [
        | inl (x, p) ↦
            rw (p, move_to_dead_letter) (deleted_rows-IsValid uuids out.0 (acked_by m.ack_id) kept)
        | inr (e, p) ↦ rw (p, move_to_dead_letter) kept
      ]

  loop-IsValid :
      (now : ℕ) (sub : PubSubSubscription) (subscription : String) (max_messages : ℕ)
      (deadline : Stamp) (db : Db) (msgs ms : List PubSubMessage)
      → IsValid uuids db
      → IsValid uuids (lease_loop uuids now sub subscription max_messages deadline db msgs ms).0
  unfolding lease_loop
  loop-IsValid now sub subscription max_messages deadline db msgs [] v = v
  loop-IsValid now sub subscription max_messages deadline db msgs (m ∷ ms) v =
      elim (Bool-cases (leb max_messages (length msgs))) [
        | inl t ↦ rw (t, lease_loop) v
        | inr f ↦ elim (Bool-cases (is_dead_letter sub (m.delivery_attempts + 1))) [
          | inr g ↦
              rw (f, g, lease_loop)
                (loop-IsValid now sub subscription max_messages deadline _ _ ms (
                  updated_rows-IsValid uuids db (acked_by m.ack_id)
                    (set_lease deadline (m.delivery_attempts + 1))
                    (lease_change deadline (m.delivery_attempts + 1)) v))
          | inl d ↦
              let out = move_to_dead_letter uuids now db sub subscription m in
              let kept = moved-IsValid now db sub subscription m v in
              elim (Result-cases out.1) [
                | inl (x, p) ↦
                    rw (f, d, p, lease_loop)
                      (loop-IsValid now sub subscription max_messages deadline out.0 msgs ms kept)
                | inr (e, p) ↦ rw (f, d, p, lease_loop) kept
              ]
        ]
      ]

  pub pull-IsValid :
      (now : ℕ) (db : Db) (subscription : String) (requested : ℕ)
      → IsValid uuids db
      → IsValid uuids (pull uuids now db subscription requested).0
  unfolding pull
  pull-IsValid now db subscription requested v =
      elim (Option-cases (get_subscription db subscription)) [
        | inl p ↦ rw (p, pull) v
        | inr (sub, p) ↦ rw (p, pull) (loop-IsValid now sub subscription _ _ db [] _ v)
      ]

  attempt_change : (n : ℕ) → IsLeaseChange uuids (λ row. record row { delivery_attempts = n })
  attempt_change n = record {
    same_ack = λ m. refl;
    same_subscription = λ m. refl;
    leased = λ m l. l;
  }

  pub record_push_delivery_failure-IsValid :
      (now : ℕ) (db : Db) (subscription ack_id : String)
      → IsValid uuids db
      → IsValid uuids (record_push_delivery_failure uuids now db subscription ack_id).0
  unfolding record_push_delivery_failure
  record_push_delivery_failure-IsValid now db subscription ack_id v =
      elim (Option-cases (get_subscription db subscription)) [
        | inl p ↦ rw (p, record_push_delivery_failure) v
        | inr (sub, p) ↦
            elim (Option-cases (
              select_one (λ m. m.subscription == subscription && m.ack_id == ack_id) db.messages)) [
                | inl q ↦ rw (p, q, record_push_delivery_failure) v
                | inr (m, q) ↦ elim (Bool-cases (is_dead_letter sub (m.delivery_attempts + 1))) [
                  | inr g ↦
                      rw (p, q, g, record_push_delivery_failure)
                        (updated_rows-IsValid uuids db (acked_by ack_id) _
                          (attempt_change (m.delivery_attempts + 1)) v)
                  | inl d ↦
                      let out = move_to_dead_letter uuids now db sub subscription m in
                      let kept = moved-IsValid now db sub subscription m v in
                      elim (Result-cases out.1) [
                        | inl (x, r) ↦ rw (p, q, d, r, record_push_delivery_failure) kept
                        | inr (e, r) ↦ rw (p, q, d, r, record_push_delivery_failure) kept
                      ]
                ]
              ]
      ]
