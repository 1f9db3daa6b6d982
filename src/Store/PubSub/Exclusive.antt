-- ===== src/Store/PubSub/Exclusive.antt =====
-- The promise of a pull: what it returns (`Pull`).
use mathlib.Core.List.Memᴰ
use noctaxris_gcp.Base.{
  ℕ, ◌≤◌, String, true, false, ◌≡◌, sym, ◌∙◌, inl, inr, List, [], Memᴰ, length, some, ok, arith,
  select_where_mem, order_by_mem, take_mem, Unique, Unique-select_where, Unique-order_by,
  Unique-take, leb, if◌then◌else◌,
}
use noctaxris_gcp.Store.Stamps.{Stamp, format}
use noctaxris_gcp.Store.PubSub.Types.{Db, PubSubSubscription, PubSubMessage, Uuids}
use noctaxris_gcp.Store.PubSub.Subscriptions.{get_subscription}
use noctaxris_gcp.Store.PubSub.Copies.{ack}
use noctaxris_gcp.Store.PubSub.Pull.{
  lease_end, fetch_limit, available, candidates, is_dead_letter, leased, lease_loop, pull,
}
use noctaxris_gcp.Store.PubSub.Leasing.{Standing, loop_length, loop_from, loop-Standing}

pub candidates_mem :
    (db : Db) (subscription : String) (now : Stamp) (limit : ℕ) {c : PubSubMessage}
    → Memᴰ c (candidates db subscription now limit)
    → Memᴰ c db.messages × (available subscription now c ≡ true)
unfolding candidates
candidates_mem db subscription now limit i =
    select_where_mem (available subscription now) db.messages
      (order_by_mem _ _ (take_mem limit _ i))

candidates-Unique :
    (db : Db) (subscription : String) (now : Stamp) (limit : ℕ)
    → Unique ack db.messages
    → Unique ack (candidates db subscription now limit)
unfolding candidates
candidates-Unique db subscription now limit u =
    Unique-take ack limit _ (Unique-order_by ack _ _ (Unique-select_where ack _ db.messages u))

-- `maxMessages`, where a count that is not positive stands for one.
abbrev pub at_most : ℕ → ℕ
at_most requested = if leb requested 0 then 1 else requested

-- The lease of a message: which row it was made from, and that it stands in the table.
pub record IsLease (now : ℕ) (db db' : Db) (sub : PubSubSubscription) (subscription : String)
    (a : PubSubMessage) : Type 0 where
  pub row : PubSubMessage
  pub was_there : Memᴰ row db.messages
  pub was_available : available subscription (format now) row ≡ true
  pub lease : a ≡ leased (format (lease_end now sub.ack_deadline_seconds)) row
  pub below_limit : is_dead_letter sub a.delivery_attempts ≡ false
  pub stands : Memᴰ a db'.messages

module _ (uuids : Uuids) where
  pub pull_loop :
      (now : ℕ) (db : Db) (subscription : String) (requested : ℕ) (sub : PubSubSubscription)
      → get_subscription db subscription ≡ some sub
      → pull uuids now db subscription requested
        ≡ lease_loop uuids now sub subscription
            (at_most requested)
            (format (lease_end now sub.ack_deadline_seconds))
            db
            []
            (candidates db subscription (format now) (fetch_limit (at_most requested)))
  unfolding pull
  pull_loop now db subscription requested sub p = rw (p, pull)

  start-Standing :
      (now : ℕ) (db : Db) (sub : PubSubSubscription) (subscription : String) (limit : ℕ)
      (deadline : Stamp) (max_messages : ℕ)
      → Unique ack db.messages
      → Standing uuids now sub subscription max_messages deadline db []
          (candidates db subscription (format now) limit)
  start-Standing now db sub subscription limit deadline max_messages u = record {
    keys = u;
    left = λ c i. (candidates_mem db subscription (format now) limit i).0;
    apart = candidates-Unique db subscription (format now) limit u;
    held = λ a i. absurd (Memᴰ.not-nil i);
    done = λ a c i j. absurd (Memᴰ.not-nil i);
  }

  pub pull_leases :
      (now : ℕ) (db : Db) (subscription : String) (requested : ℕ) (sub : PubSubSubscription)
      {db' : Db} {out : List PubSubMessage}
      → Unique ack db.messages
      → get_subscription db subscription ≡ some sub
      → pull uuids now db subscription requested ≡ (db', ok out)
      → (length out ≤ at_most requested)
        × Unique ack db'.messages
        × ((a : PubSubMessage) → Memᴰ a out → IsLease now db db' sub subscription a)
  pull_leases now db subscription requested sub {db'} {out} u p h =
      let limit = fetch_limit (at_most requested) in
      let deadline = format (lease_end now sub.ack_deadline_seconds) in
      let found = candidates db subscription (format now) limit in
      let loop : lease_loop uuids now sub subscription (at_most requested) deadline db [] found
          ≡ (db', ok out) =
        sym (pull_loop now db subscription requested sub p) ∙ h in
      let (u', stand) =
        loop-Standing uuids now sub subscription (at_most requested) deadline db [] found loop
          (start-Standing now db sub subscription limit deadline (at_most requested) u) in
      (
        loop_length uuids now sub subscription (at_most requested) deadline db [] found loop
            (omega arith),
        u',
        λ a i.
            elim (loop_from uuids now sub subscription (at_most requested) deadline db [] found loop
              i) [
                | inl j ↦ absurd (Memᴰ.not-nil j)
                | inr (c, j, e, d) ↦
                    let (m, v) = candidates_mem db subscription (format now) limit j in
                    record {
                      row = c;
                      was_there = m;
                      was_available = v;
                      lease = e;
                      below_limit = rw e (unfold leased in d);
                      stands = stand a i;
                    }
              ],
      )
