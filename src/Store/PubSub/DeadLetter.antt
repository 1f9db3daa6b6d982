-- ===== src/Store/PubSub/DeadLetter.antt =====
-- What a failed push does (`RecordPushDeliveryFailure`).
use noctaxris_gcp.Base.{
  ℕ, ◌+◌, String, Bool, true, false, ◌&&◌, ◌==◌, ◌≡◌, ◌≢◌, refl, ap, subst, ◌∙◌, inl, inr, List,
  Memᴰ, Option, some, Result, Error, ok, err, arith, eq_iff, select_one, select_one_mem,
  delete_where, delete_where_mem, Bool-cases, Option-cases, Result-cases,
}
use noctaxris_gcp.Store.PubSub.Types.{Db, PubSubSubscription, PubSubMessage, Uuids}
use noctaxris_gcp.Store.PubSub.Subscriptions.{get_subscription}
use noctaxris_gcp.Store.PubSub.Publish.{acked_by}
use noctaxris_gcp.Store.PubSub.Published.{IsPublished, publish_fanout_copies}
use noctaxris_gcp.Store.PubSub.Pull.{
  is_dead_letter, dead_letter_attributes, move_to_dead_letter, record_push_delivery_failure,
}
use noctaxris_gcp.Store.PubSub.Moves.{moved_parts}

-- The message that a failure is about.
abbrev pub failed_message : Db → String → String → Option PubSubMessage
failed_message db subscription ack_id =
    select_one (λ m. m.subscription == subscription && m.ack_id == ack_id) db.messages

-- A message that has gone to the dead-letter topic of its subscription: its attempts were used up,
-- the topic's subscriptions have their copies, which name the subscription it came from, and it is
-- gone.
pub record IsDeadLettered (now : ℕ) (db db' : Db) (subscription ack_id : String) : Type 0 where
  pub sub : PubSubSubscription
  pub found_sub : get_subscription db subscription ≡ some sub
  pub message : PubSubMessage
  pub found : failed_message db subscription ack_id ≡ some message
  pub used_up : is_dead_letter sub (message.delivery_attempts + 1) ≡ true
  pub middle : Db
  pub copies : List PubSubMessage
  pub published :
      IsPublished now db sub.dead_letter_topic message.payload
        (dead_letter_attributes subscription message.attributes)
        middle
        copies
  pub after : db' ≡ record middle { messages = delete_where (acked_by ack_id) middle.messages }
  pub gone : (m : PubSubMessage) → Memᴰ m db'.messages → m.ack_id ≢ ack_id

module _ (uuids : Uuids) where
  -- How a failure ends: with the move of the message, or with another answer.
  data FailureEnd (now : ℕ) (db : Db) (subscription ack_id : String) (out : Db × Result Bool)
      : Type 0 where
    other : out.1 ≢ ok true → FailureEnd now db subscription ack_id out
    moved :
        (sub : PubSubSubscription) (m : PubSubMessage)
        → get_subscription db subscription ≡ some sub
        → failed_message db subscription ack_id ≡ some m
        → is_dead_letter sub (m.delivery_attempts + 1) ≡ true
        → move_to_dead_letter uuids now db sub subscription m ≡ (out.0, ok tt)
        → FailureEnd now db subscription ack_id out

  not_true : {r : Result Bool} → r ≡ ok false → r ≢ ok true
  not_true p q = cc

  error_not_true : {r : Result Bool} {e : Error} → r ≡ err e → r ≢ ok true
  error_not_true p q = cc

  failure_end :
      (now : ℕ) (db : Db) (subscription ack_id : String)
      → FailureEnd now db subscription ack_id
          (record_push_delivery_failure uuids now db subscription ack_id)
  unfolding record_push_delivery_failure
  failure_end now db subscription ack_id = elim (Option-cases (get_subscription db subscription)) [
    | inl p ↦ other (not_true (rw (p, record_push_delivery_failure) refl))
    | inr (sub, p) ↦ elim (Option-cases (failed_message db subscription ack_id)) [
      | inl q ↦ other (not_true (rw (p, q, record_push_delivery_failure) refl))
      | inr (m, q) ↦ elim (Bool-cases (is_dead_letter sub (m.delivery_attempts + 1))) [
        | inr g ↦ other (not_true (rw (p, q, g, record_push_delivery_failure) refl))
        | inl d ↦
            let out = move_to_dead_letter uuids now db sub subscription m in
            elim (Result-cases out.1) [
              | inr (e, r) ↦
                  other
                    (error_not_true {e = e} (rw (p, q, d, r, record_push_delivery_failure) refl))
              | inl (u, r) ↦
                  let same : out.0
                      ≡ (record_push_delivery_failure uuids now db subscription ack_id).0 =
                    rw (p, q, d, r, record_push_delivery_failure) refl in
                  moved sub m p q d (λ j. (same j, r j))
            ]
      ]
    ]
  ]

  failure_parts :
      (now : ℕ) (db : Db) (subscription ack_id : String) {db' : Db}
      → record_push_delivery_failure uuids now db subscription ack_id ≡ (db', ok true)
      → (sub : PubSubSubscription) × (m : PubSubMessage) × (get_subscription db subscription
          ≡ some sub)
        × (failed_message db subscription ack_id ≡ some m)
        × (is_dead_letter sub (m.delivery_attempts + 1) ≡ true)
        × (move_to_dead_letter uuids now db sub subscription m ≡ (db', ok tt))
  failure_parts now db subscription ack_id h = elim (failure_end now db subscription ack_id) [
    | other n ↦ absurd (n (ap (λ (x : Db × Result Bool). x.1) h))
    | moved sub m p q d e ↦ (sub, m, p, q, d, e ∙ ap (λ (x : Db × Result Bool). (x.0, ok tt)) h)
  ]

  failed_ack :
      (db : Db) (subscription ack_id : String) {m : PubSubMessage}
      → failed_message db subscription ack_id ≡ some m
      → m.ack_id ≡ ack_id
  failed_ack db subscription ack_id {m} q =
      let (i, t) =
        select_one_mem (λ x. x.subscription == subscription && x.ack_id == ack_id) db.messages q in
      ground (arith, eq_iff m.ack_id ack_id)

  deleted_gone :
      (rows : List PubSubMessage) (ack_id : String) (m : PubSubMessage)
      → Memᴰ m (delete_where (acked_by ack_id) rows)
      → m.ack_id ≢ ack_id
  deleted_gone rows ack_id m i e =
      let (j, kept) = delete_where_mem (acked_by ack_id) rows i in
      ground (arith, eq_iff m.ack_id ack_id)

  -- A failed push that reports a move was the last attempt that the subscription allows: each
  -- subscription of the dead-letter topic whose filter the attributes match has a fresh copy,
  -- which names the subscription that the message came from, and no message with the
  -- acknowledgement is left.
  pub dead_lettered :
      (now : ℕ) (db : Db) (subscription ack_id : String) {db' : Db}
      → record_push_delivery_failure uuids now db subscription ack_id ≡ (db', ok true)
      → IsDeadLettered now db db' subscription ack_id
  dead_lettered now db subscription ack_id {db'} h =
      let (sub, m, p, q, d, move) = failure_parts now db subscription ack_id h in
      let (mid, id, copies, s, e) = moved_parts uuids now sub subscription db m move in
      let after : db' ≡ record mid { messages = delete_where (acked_by ack_id) mid.messages } =
        e
        ∙ ap (λ (k : String). record mid { messages = delete_where (acked_by k) mid.messages })
            (failed_ack db subscription ack_id q) in
      record {
        sub = sub;
        found_sub = p;
        message = m;
        found = q;
        used_up = d;
        middle = mid;
        copies = copies;
        published =
            publish_fanout_copies uuids now db sub.dead_letter_topic m.payload
              (some (dead_letter_attributes subscription m.attributes)) s;
        after = after;
        gone = λ x k.
            deleted_gone mid.messages ack_id x (subst (λ (d : Db). Memᴰ x d.messages) after k);
      }
