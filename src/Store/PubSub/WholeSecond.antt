-- ===== src/Store/PubSub/WholeSecond.antt =====
-- Leases that end at a whole second, in `Pull` of internal/store/pubsub.go.
use noctaxris_gcp.Base.{
  ℕ, ◌+◌, ◌*◌, ◌<◌, String, true, false, ◌≡◌, ap, sym, ◌∙◌, ◌≢◌, List, Memᴰ, some, ok, Unique,
  Unique-mem, arith,
}
use noctaxris_gcp.Store.Stamps.{second, format}
use noctaxris_gcp.Store.StampOrder.{whole_second_last}
use noctaxris_gcp.Store.PubSub.Types.{Db, PubSubSubscription, PubSubMessage, Uuids}
use noctaxris_gcp.Store.PubSub.Subscriptions.{get_subscription}
use noctaxris_gcp.Store.PubSub.Copies.{ack}
use noctaxris_gcp.Store.PubSub.Pull.{available, expired, lease_end, pull}
use noctaxris_gcp.Store.PubSub.Exclusive.{pull_leases}
use noctaxris_gcp.Store.PubSub.Moves.{ack-leased}

module _ (s n : ℕ) (past : 0 < n) (within : n < second) where
  lapsed_unavailable :
      (subscription : String) (m : PubSubMessage)
      → m.delivered ≡ true
      → m.ack_deadline ≡ some (format (s * second))
      → available subscription (format (s * second + n)) m ≡ false
  unfolding available expired
  lapsed_unavailable subscription m d e =
      rw (d, e, expired, (whole_second_last s n past within).0) (ground arith)

  -- A message whose lease ended at a whole second is returned by no pull that succeeds in the rest of
  -- this second, on tables that have no acknowledgement twice and on a subscription that is there,
  -- although its lease is over.
  pub lapsed_lease_held :
      (uuids : Uuids) (db : Db) (subscription : String) (requested : ℕ) (sub : PubSubSubscription)
      (m : PubSubMessage) {db' : Db} {out : List PubSubMessage} {a : PubSubMessage}
      → Unique ack db.messages
      → Memᴰ m db.messages
      → m.delivered ≡ true
      → m.ack_deadline ≡ some (format (s * second))
      → get_subscription db subscription ≡ some sub
      → pull uuids (s * second + n) db subscription requested ≡ (db', ok out)
      → Memᴰ a out
      → a.ack_id ≢ m.ack_id
  lapsed_lease_held uuids db subscription requested sub m {db'} {out} {a} u i d e p h j same =
      let now = s * second + n in
      let x = (pull_leases uuids now db subscription requested sub u p h).2 a j in
      let row : m ≡ x.row = Unique-mem ack db.messages u i x.was_there (
        sym same
        ∙ ap ack x.lease
        ∙ ack-leased (format (lease_end now sub.ack_deadline_seconds)) x.row) in
      cc (
        x.was_available,
        lapsed_unavailable subscription m d e,
        ap (available subscription (format now)) row,
      )
