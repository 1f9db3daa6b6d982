-- ===== src/Store/PubSub/Undisturbed.antt =====
-- A lease holds through other calls: what keeps a leased message in the table as it is.
use mathlib.Core.List.Memᴰ
use noctaxris_gcp.Base.{
  ℕ, ◌+◌, String, false, ◌&&◌, ◌==◌, ◌≡◌, refl, ap, ◌∙◌, ◌≢◌, inl, inr, List, [], ◌∷◌, Memᴰ, Option,
  some, arith, eq_iff, select_one_mem, Unique-mem, length, select_one, Unique, Bool-cases,
  Option-cases, Result-cases, leb,
}
use noctaxris_gcp.Store.Stamps.{Stamp, format}
use noctaxris_gcp.Store.PubSub.Types.{Db, PubSubSubscription, PubSubMessage, StringMap, Uuids}
use noctaxris_gcp.Store.PubSub.Subscriptions.{get_subscription}
use noctaxris_gcp.Store.PubSub.Publish.{publish_fanout, publish}
use noctaxris_gcp.Store.PubSub.Published.{publish_fanout_copies}
use noctaxris_gcp.Store.PubSub.Copies.{ack}
use noctaxris_gcp.Store.PubSub.Pull.{
  available, is_dead_letter, dead_letter_attributes, move_to_dead_letter, lease_loop, pull,
  record_push_delivery_failure,
}
use noctaxris_gcp.Store.PubSub.Moves.{other_updated, other_deleted}
use noctaxris_gcp.Store.PubSub.ValidPublish.{publish_failed}
use noctaxris_gcp.Store.PubSub.Exclusive.{candidates_mem}

module _ (uuids : Uuids) (now : ℕ) where
  pub publish_fanout_keeps :
      (db : Db) (topic : String) (payload : List ℕ) (attributes : Option StringMap)
      (x : PubSubMessage)
      → Memᴰ x db.messages
      → Memᴰ x (publish_fanout uuids now db topic payload attributes).0.messages
  publish_fanout_keeps db topic payload attributes x i =
      let out = publish_fanout uuids now db topic payload attributes in
      elim (Result-cases out.1) [
        | inr (e, p) ↦ rw (publish_failed uuids now db topic payload attributes p) i
        | inl ((id, copies), p) ↦
            let done =
              publish_fanout_copies uuids now db topic payload attributes (λ j. (out.0, p j)) in
            rw done.rows (Memᴰ.append_left copies i)
      ]

  pub publish-messages :
      (db : Db) (topic : String) (payload : List ℕ) (attributes : Option StringMap)
      (x : PubSubMessage)
      → Memᴰ x db.messages
      → Memᴰ x (publish uuids now db topic payload attributes).0.messages
  unfolding publish
  publish-messages db topic payload attributes x i =
      let out = publish_fanout uuids now db topic payload attributes in
      let held = publish_fanout_keeps db topic payload attributes x i in
      elim (Result-cases out.1) [
        | inr (e, p) ↦ rw (p, publish) held
        | inl (r, p) ↦ rw (p, publish) held
      ]

  move_keeps :
      (db : Db) (sub : PubSubSubscription) (subscription : String) (m x : PubSubMessage)
      → Memᴰ x db.messages
      → x.ack_id ≢ m.ack_id
      → Memᴰ x (move_to_dead_letter uuids now db sub subscription m).0.messages
  unfolding move_to_dead_letter
  move_keeps db sub subscription m x i n =
      let attributes = some (dead_letter_attributes subscription m.attributes) in
      let out = publish uuids now db sub.dead_letter_topic m.payload attributes in
      let held = publish-messages db sub.dead_letter_topic m.payload attributes x i in
      elim (Result-cases out.1) [
        | inr (e, p) ↦ rw (p, move_to_dead_letter) held
        | inl (id, p) ↦ rw (p, move_to_dead_letter) (other_deleted m.ack_id out.0.messages held n)
      ]

  loop_keeps :
      (sub : PubSubSubscription) (subscription : String) (max_messages : ℕ) (deadline : Stamp)
      (db : Db) (msgs ms : List PubSubMessage) (x : PubSubMessage)
      → Memᴰ x db.messages
      → ((c : PubSubMessage) → Memᴰ c ms → x.ack_id ≢ c.ack_id)
      → Memᴰ x (lease_loop uuids now sub subscription max_messages deadline db msgs ms).0.messages
  unfolding lease_loop
  loop_keeps sub subscription max_messages deadline db msgs [] x i n = i
  loop_keeps sub subscription max_messages deadline db msgs (m ∷ ms) x i n =
      elim (Bool-cases (leb max_messages (length msgs))) [
        | inl t ↦ rw (t, lease_loop) i
        | inr f ↦ elim (Bool-cases (is_dead_letter sub (m.delivery_attempts + 1))) [
          | inr g ↦
              rw (f, g, lease_loop)
                (loop_keeps sub subscription max_messages deadline _ _ ms x
                  (other_updated m.ack_id _ db.messages i (n m (Memᴰ.head refl)))
                  (λ c j. n c (Memᴰ.tail j)))
          | inl d ↦
              let out = move_to_dead_letter uuids now db sub subscription m in
              let held = move_keeps db sub subscription m x i (n m (Memᴰ.head refl)) in
              elim (Result-cases out.1) [
                | inl (u, p) ↦
                    rw (f, d, p, lease_loop)
                      (loop_keeps sub subscription max_messages deadline out.0 msgs ms x held
                        (λ c j. n c (Memᴰ.tail j)))
                | inr (e, p) ↦ rw (f, d, p, lease_loop) held
              ]
        ]
      ]

  -- A pull leaves every message alone that is not available to it.
  pub pull_keeps :
      (db : Db) (subscription : String) (requested : ℕ) (x : PubSubMessage)
      → Unique ack db.messages
      → Memᴰ x db.messages
      → available subscription (format now) x ≡ false
      → Memᴰ x (pull uuids now db subscription requested).0.messages
  unfolding pull
  pull_keeps db subscription requested x u i f =
      elim (Option-cases (get_subscription db subscription)) [
        | inl p ↦ rw (p, pull) i
        | inr (sub, p) ↦
            rw (p, pull)
              (loop_keeps sub subscription _ _ db [] _ x i (λ c j e.
                let (k, a) = candidates_mem db subscription (format now) _ j in
                let same = Unique-mem ack db.messages u i k e in
                absurd (cc (f, a, ap (available subscription (format now)) same))))
      ]

  pub failure_keeps :
      (db : Db) (subscription ack_id : String) (x : PubSubMessage)
      → Memᴰ x db.messages
      → x.ack_id ≢ ack_id
      → Memᴰ x (record_push_delivery_failure uuids now db subscription ack_id).0.messages
  unfolding record_push_delivery_failure
  failure_keeps db subscription ack_id x i n =
      elim (Option-cases (get_subscription db subscription)) [
        | inl p ↦ rw (p, record_push_delivery_failure) i
        | inr (sub, p) ↦
            elim (Option-cases (
              select_one (λ m. m.subscription == subscription && m.ack_id == ack_id) db.messages)) [
                | inl q ↦ rw (p, q, record_push_delivery_failure) i
                | inr (m, q) ↦
                    let (j, t) =
                      select_one_mem (λ y. y.subscription == subscription && y.ack_id == ack_id)
                        db.messages q in
                    let key : m.ack_id ≡ ack_id = ground (arith, eq_iff m.ack_id ack_id) in
                    elim (Bool-cases (is_dead_letter sub (m.delivery_attempts + 1))) [
                      | inr g ↦
                          rw (p, q, g, record_push_delivery_failure)
                            (other_updated ack_id _ db.messages i n)
                      | inl d ↦
                          let out = move_to_dead_letter uuids now db sub subscription m in
                          let held = move_keeps db sub subscription m x i (λ e. n (e ∙ key)) in
                          elim (Result-cases out.1) [
                            | inl (u, r) ↦ rw (p, q, d, r, record_push_delivery_failure) held
                            | inr (e, r) ↦ rw (p, q, d, r, record_push_delivery_failure) held
                          ]
                    ]
              ]
      ]
