-- ===== src/Store/PubSub/Moves.antt =====
-- What a lease and a move to the dead-letter topic do to the rows (`Pull`).
use mathlib.Core.List.Memᴰ
use noctaxris_gcp.Base.{
  ℕ, ◌+◌, String, ◌≡◌, refl, sym, subst, ◌≢◌, inl, inr, List, Memᴰ, some, ok, arith, eq_iff,
  eq_refl, delete_where, update_where, mem_delete_where, mem_update_where, Unique,
  Unique-delete_where, Result-cases,
}
use noctaxris_gcp.Store.Stamps.{Stamp}
use noctaxris_gcp.Store.PubSub.Types.{Db, PubSubSubscription, PubSubMessage, Uuids}
use noctaxris_gcp.Store.PubSub.Publish.{acked_by, publish_fanout, publish}
use noctaxris_gcp.Store.PubSub.Copies.{ack}
use noctaxris_gcp.Store.PubSub.Published.{publish_fanout_copies}
use noctaxris_gcp.Store.PubSub.Pull.{leased, set_lease, dead_letter_attributes, move_to_dead_letter}

-- A row with another acknowledgement is not touched by an UPDATE or a DELETE on one.
pub other_updated :
    (k : String) (f : PubSubMessage → PubSubMessage) (rows : List PubSubMessage) {x : PubSubMessage}
    → Memᴰ x rows
    → x.ack_id ≢ k
    → Memᴰ x (update_where (acked_by k) f rows)
other_updated k f rows {x} m n =
    subst (λ (y : PubSubMessage). Memᴰ y (update_where (acked_by k) f rows))
      (ground (arith, eq_iff x.ack_id k)) (mem_update_where (acked_by k) f rows m)

pub other_deleted :
    (k : String) (rows : List PubSubMessage) {x : PubSubMessage}
    → Memᴰ x rows
    → x.ack_id ≢ k
    → Memᴰ x (delete_where (acked_by k) rows)
other_deleted k rows {x} m n =
    mem_delete_where (acked_by k) rows m (ground (arith, eq_iff x.ack_id k))

pub lease_row :
    (deadline : Stamp) (rows : List PubSubMessage) (m : PubSubMessage)
    → Memᴰ m rows
    → Memᴰ
        (leased deadline m)
        (update_where (acked_by m.ack_id) (set_lease deadline (m.delivery_attempts + 1)) rows)
unfolding leased
lease_row deadline rows m i =
    subst
      (λ (y : PubSubMessage).
        Memᴰ y
          (update_where (acked_by m.ack_id) (set_lease deadline (m.delivery_attempts + 1)) rows))
      (rw (eq_refl m.ack_id))
      (mem_update_where (acked_by m.ack_id) (set_lease deadline (m.delivery_attempts + 1)) rows i)

pub ack-leased : (deadline : Stamp) (m : PubSubMessage) → ack (leased deadline m) ≡ ack m
unfolding leased
ack-leased deadline m = refl

module _ (uuids : Uuids) (now : ℕ) (sub : PubSubSubscription) (subscription : String) where
  -- The publication inside a move to the dead-letter topic.
  pub moved_parts :
      (db : Db) (m : PubSubMessage) {db' : Db}
      → move_to_dead_letter uuids now db sub subscription m ≡ (db', ok tt)
      → (mid : Db) × (id : String) × (copies : List PubSubMessage) × (publish_fanout uuids now db
            sub.dead_letter_topic m.payload
            (some (dead_letter_attributes subscription m.attributes))
          ≡ (mid, ok (id, copies)))
        × (db' ≡ record mid { messages = delete_where (acked_by m.ack_id) mid.messages })
  unfolding move_to_dead_letter publish
  moved_parts db m h =
      let out =
        publish_fanout uuids now db sub.dead_letter_topic m.payload
          (some (dead_letter_attributes subscription m.attributes)) in
      elim (Result-cases out.1) [
        | inl ((id, copies), p) ↦ (out.0, id, copies, λ i. (out.0, p i), ground arith)
        | inr (e, p) ↦ absurd (ground arith)
      ]

  pub moved_keeps :
      (db : Db) (m x : PubSubMessage) {db' : Db}
      → move_to_dead_letter uuids now db sub subscription m ≡ (db', ok tt)
      → Memᴰ x db.messages
      → x.ack_id ≢ m.ack_id
      → Memᴰ x db'.messages
  moved_keeps db m x h i n =
      let (mid, id, copies, p, q) = moved_parts db m h in
      let published =
        publish_fanout_copies uuids now db sub.dead_letter_topic m.payload
          (some (dead_letter_attributes subscription m.attributes)) p in
      subst (λ (d : Db). Memᴰ x d.messages) (sym q)
        (other_deleted m.ack_id mid.messages (rw published.rows (Memᴰ.append_left copies i)) n)

  pub moved-Unique :
      (db : Db) (m : PubSubMessage) {db' : Db}
      → move_to_dead_letter uuids now db sub subscription m ≡ (db', ok tt)
      → Unique ack db.messages
      → Unique ack db'.messages
  moved-Unique db m h u =
      let (mid, id, copies, p, q) = moved_parts db m h in
      let published =
        publish_fanout_copies uuids now db sub.dead_letter_topic m.payload
          (some (dead_letter_attributes subscription m.attributes)) p in
      subst (λ (d : Db). Unique ack d.messages) (sym q)
        (Unique-delete_where ack (acked_by m.ack_id) mid.messages (published.unique u))
