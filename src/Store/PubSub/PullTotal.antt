-- ===== src/Store/PubSub/PullTotal.antt =====
-- That a pull answers, and with which messages (`Pull`).
use noctaxris_gcp.Base.{
  ℕ, zero, suc, ◌+◌, ◌-◌, ◌≤◌, String, false, not, ◌≡◌, refl, sym, ap, ◌∙◌, inl, inr, List, [], ◌∷◌,
  ◌++◌, some, Result, ok, arith, eq_iff, update_where, map, length, length-append, take,
  select_where, order_by, Bool-cases, leb,
}
use mathlib.Core.List.{append-nil, append_assoc}
use noctaxris_gcp.Store.Stamps.{Stamp, format, stamp_ltb}
use noctaxris_gcp.Store.PubSub.Types.{Db, PubSubSubscription, PubSubTopic, PubSubMessage, Uuids}
use noctaxris_gcp.Store.PubSub.Topics.{get_topic}
use noctaxris_gcp.Store.PubSub.Subscriptions.{get_subscription}
use noctaxris_gcp.Store.PubSub.Publish.{acked_by}
use noctaxris_gcp.Store.PubSub.Pull.{
  lease_end, available, is_dead_letter, leased, set_lease, dead_letter_attributes,
  move_to_dead_letter, lease_loop, pull, candidates, fetch_limit,
}
use noctaxris_gcp.Store.PubSub.Exclusive.{at_most, pull_loop}
use noctaxris_gcp.Store.PubSub.Published.{AreDistinct, publish_total, publish_fanout_copies}
use noctaxris_gcp.Store.PubSub.Moves.{moved_parts}
use noctaxris_gcp.Store.PubSub.Valid.{IsValid, updated_rows-IsValid}
use noctaxris_gcp.Store.PubSub.ValidPull.{lease_change, moved-IsValid}

still_there :
    (db db' : Db) (name : String) {t : PubSubTopic}
    → db'.topics ≡ db.topics
    → get_topic db name ≡ some t
    → get_topic db' name ≡ some t
unfolding get_topic
still_there db db' name e p = rw e p

take-take {ℓ} : {A : Type ℓ} (n k : ℕ) (xs : List A) → n ≤ k → take n (take k xs) ≡ take n xs
take-take zero k xs l = refl
take-take (suc n) zero xs l = absurd (omega arith)
take-take (suc n) (suc k) [] l = refl
take-take (suc n) (suc k) (x ∷ xs) l = ap (◌∷◌ x) (take-take n k xs (omega arith))

-- The rows that are fetched are enough, also where four times the maximum overflows.
fetch_limit_enough : (n : ℕ) → n ≤ fetch_limit n
unfolding fetch_limit
fetch_limit_enough n = ground arith

module _ (uuids : Uuids) (now : ℕ) (sub : PubSubSubscription) (subscription : String)
    (max_messages : ℕ) (deadline : Stamp) where
  no_dead_letter : (n : ℕ) → sub.dead_letter_topic ≡ "" → is_dead_letter sub n ≡ false
  unfolding is_dead_letter
  no_dead_letter n e = ground (arith, eq_iff sub.dead_letter_topic "")

  abbrev lend : Db → PubSubMessage → Db
  lend db m = record db {
    messages =
        update_where (acked_by m.ack_id) (set_lease deadline (m.delivery_attempts + 1)) db.messages;
  }

  take-nil : (n : ℕ) → take {A = PubSubMessage} n [] ≡ []
  take-nil zero = refl
  take-nil (suc n) = refl

  -- Without a dead-letter topic the loop leases the first candidates, as many as there is room for.
  loop_answer :
      (db : Db) (msgs ms : List PubSubMessage)
      → sub.dead_letter_topic ≡ ""
      → (lease_loop uuids now sub subscription max_messages deadline db msgs ms).1
        ≡ ok (msgs ++ map (leased deadline) (take (max_messages - length msgs) ms))
  unfolding lease_loop
  loop_answer db msgs [] e = ap ok (
      sym (
        ap (λ (l : List PubSubMessage). msgs ++ map (leased deadline) l)
          (take-nil (max_messages - length msgs))
        ∙ append-nil msgs))
  loop_answer db msgs (m ∷ ms) e = elim (Bool-cases (leb max_messages (length msgs))) [
    | inl t ↦
        let none_left : max_messages - length msgs ≡ 0 = ground arith in
        rw (t, lease_loop, none_left) (ap ok (sym (append-nil msgs)))
    | inr f ↦
        let room : max_messages - length msgs
            ≡ suc (max_messages - length (msgs ++ leased deadline m ∷ [])) =
          ground (arith, length-append msgs (leased deadline m ∷ [])) in
        rw (f, no_dead_letter (m.delivery_attempts + 1) e, lease_loop, room)
          (loop_answer (lend db m) (msgs ++ leased deadline m ∷ []) ms e
            ∙ ap ok (append_assoc msgs (leased deadline m ∷ []) _))
  ]

  -- While identifiers do not repeat and the dead-letter topic is there, the loop does not fail.
  moved_total :
      (db : Db) (m : PubSubMessage) {t : PubSubTopic}
      → AreDistinct uuids
      → IsValid uuids db
      → get_topic db sub.dead_letter_topic ≡ some t
      → (move_to_dead_letter uuids now db sub subscription m).1 ≡ ok tt
  unfolding move_to_dead_letter
  moved_total db m inj v p =
      let (mid, id, e, d) =
        publish_total uuids now db sub.dead_letter_topic m.payload
          (some (dead_letter_attributes subscription m.attributes)) inj
          (λ x i. (v.messages x i).from_draw) p in
      let answered = ap (λ (x : Db × Result String). x.1) e in
      rw (answered, move_to_dead_letter) refl

  same_topics :
      (db : Db) (m : PubSubMessage) {db' : Db}
      → move_to_dead_letter uuids now db sub subscription m ≡ (db', ok tt)
      → db'.topics ≡ db.topics
  same_topics db m h =
      let (mid, id, copies, s, e) = moved_parts uuids now sub subscription db m h in
      let published =
        publish_fanout_copies uuids now db sub.dead_letter_topic m.payload
          (some (dead_letter_attributes subscription m.attributes)) s in
      ap (λ (d : Db). d.topics) e ∙ published.same_topics

  loop_total :
      (db : Db) (msgs ms : List PubSubMessage) {t : PubSubTopic}
      → AreDistinct uuids
      → IsValid uuids db
      → get_topic db sub.dead_letter_topic ≡ some t
      → (out : List PubSubMessage) × ((lease_loop uuids now sub subscription max_messages deadline
            db msgs ms).1
          ≡ ok out)
  unfolding lease_loop
  loop_total db msgs [] inj v p = (msgs, refl)
  loop_total db msgs (m ∷ ms) inj v p = elim (Bool-cases (leb max_messages (length msgs))) [
    | inl t ↦ (msgs, rw (t, lease_loop) refl)
    | inr f ↦ elim (Bool-cases (is_dead_letter sub (m.delivery_attempts + 1))) [
      | inr g ↦
          let (out, e) =
            loop_total (lend db m) (msgs ++ leased deadline m ∷ []) ms inj
              (updated_rows-IsValid uuids db (acked_by m.ack_id)
                (set_lease deadline (m.delivery_attempts + 1))
                (lease_change uuids deadline (m.delivery_attempts + 1)) v)
              (still_there db (lend db m) sub.dead_letter_topic refl p) in
          (out, rw (f, g, lease_loop) e)
      | inl d ↦
          let move = move_to_dead_letter uuids now db sub subscription m in
          let succeeds = moved_total db m inj v p in
          let there =
            still_there db move.0 sub.dead_letter_topic
              (same_topics db m (λ j. (move.0, succeeds j))) p in
          let (out, e) =
            loop_total move.0 msgs ms inj (moved-IsValid uuids now db sub subscription m v) there in
          (out, rw (f, d, succeeds, lease_loop) e)
    ]
  ]

-- The messages that a pull may return, in the order of their publication.
abbrev pub in_line : Db → String → ℕ → List PubSubMessage
in_line db subscription now =
    order_by (λ a b. not (stamp_ltb b.publish_time a.publish_time))
      (select_where (available subscription (format now)) db.messages)

module _ (uuids : Uuids) where
  -- On a subscription that is there and has no dead-letter topic a pull succeeds, and returns the
  -- leases, with `lease_end` as the deadline, of the first messages in the order of their publish
  -- times, as many as are asked for or as are available.
  pub pull_returns :
      (now : ℕ) (db : Db) (subscription : String) (requested : ℕ) (sub : PubSubSubscription)
      → get_subscription db subscription ≡ some sub
      → sub.dead_letter_topic ≡ ""
      → (pull uuids now db subscription requested).1
        ≡ ok (
            map
              (leased (format (lease_end now sub.ack_deadline_seconds)))
              (take (at_most requested) (in_line db subscription now)))
  unfolding candidates
  pull_returns now db subscription requested sub p e =
      let limit = fetch_limit (at_most requested) in
      let deadline = format (lease_end now sub.ack_deadline_seconds) in
      let answer =
        loop_answer uuids now sub subscription (at_most requested) deadline db []
          (candidates db subscription (format now) limit) e in
      let all : at_most requested - length {A = PubSubMessage} [] ≡ at_most requested =
        omega arith in
      let same =
        take-take (at_most requested) limit (in_line db subscription now)
          (fetch_limit_enough (at_most requested)) in
      ap (λ (x : Db × Result (List PubSubMessage)). x.1)
        (pull_loop uuids now db subscription requested sub p)
      ∙ answer
      ∙ ap
          (λ (n : ℕ).
            ok (map (leased deadline) (take n (candidates db subscription (format now) limit))))
          all
      ∙ ap (λ (l : List PubSubMessage). ok (map (leased deadline) l)) same

  -- While identifiers do not repeat, a pull succeeds on valid tables, on a subscription that is
  -- there with a dead-letter topic that is there.
  pub pull_total :
      (now : ℕ) (db : Db) (subscription : String) (requested : ℕ) (sub : PubSubSubscription)
      (t : PubSubTopic)
      → AreDistinct uuids
      → IsValid uuids db
      → get_subscription db subscription ≡ some sub
      → get_topic db sub.dead_letter_topic ≡ some t
      → (out : List PubSubMessage) × ((pull uuids now db subscription requested).1 ≡ ok out)
  pull_total now db subscription requested sub t inj v p q =
      let limit = fetch_limit (at_most requested) in
      let deadline = format (lease_end now sub.ack_deadline_seconds) in
      let (out, e) =
        loop_total uuids now sub subscription (at_most requested) deadline db []
          (candidates db subscription (format now) limit) inj v q in
      (
        out,
        ap (λ (x : Db × Result (List PubSubMessage)). x.1)
              (pull_loop uuids now db subscription requested sub p)
            ∙ e,
      )
