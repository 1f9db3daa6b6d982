-- ===== src/Store/PubSub/LeaseLaws.antt =====
-- What acknowledging, changing deadlines and seeking do to the messages, and to later pulls.
use noctaxris_gcp.Base.{
  ℕ, ◌-◌, ◌≤◌, String, Bool, true, false, ◌&&◌, ◌==◌, ◌≡◌, subst, ◌≢◌, ◌↔◌, ◌⊎◌, inl, inr, List, [],
  ◌∷◌, Memᴰ, none, some, arith, eq_iff, one_of, delete_where, delete_where_mem, mem_delete_where,
  update_where, update_where_mem, mem_update_where, Bool-cases, if◌then◌else◌,
}
use noctaxris_gcp.Store.Stamps.{Stamp, second, format, stamp_ltb}
use noctaxris_gcp.Store.StampOrder.{earlier_second}
use noctaxris_gcp.Store.PubSub.Types.{Db, PubSubSubscription, PubSubMessage}
use noctaxris_gcp.Store.PubSub.Subscriptions.{get_subscription}
use noctaxris_gcp.Store.PubSub.Pull.{expired, available}
use noctaxris_gcp.Store.PubSub.Leases.{
  lease_of, acknowledge_rows, acknowledge, modified_deadline, modify_rows, modify_ack_deadline,
  published_before, published_since, seek_to_time,
}

-- Whether a request that names a subscription and acknowledgements is about the message.
abbrev pub concerns : String → List String → PubSubMessage → Bool
concerns subscription ids m = m.subscription == subscription && one_of m.ack_id ids

rows_left :
    (subscription : String) (ids : List String) (rows : List PubSubMessage) {m : PubSubMessage}
    → Memᴰ m (acknowledge_rows subscription ids rows)
    → Memᴰ m rows × (concerns subscription ids m ≡ false)
unfolding acknowledge_rows one_of
rows_left subscription [] rows i = (i, ground arith)
rows_left subscription (id ∷ ids) rows i =
    let (j, c) = rows_left subscription ids (delete_where (lease_of subscription id) rows) i in
    let (k, d) = delete_where_mem (lease_of subscription id) rows j in (k, ground arith)

pub rows_kept :
    (subscription : String) (ids : List String) (rows : List PubSubMessage) {m : PubSubMessage}
    → Memᴰ m rows
    → concerns subscription ids m ≡ false
    → Memᴰ m (acknowledge_rows subscription ids rows)
unfolding acknowledge_rows one_of
rows_kept subscription [] rows i c = i
rows_kept subscription (id ∷ ids) rows i c =
    rows_kept subscription ids (delete_where (lease_of subscription id) rows)
      (mem_delete_where (lease_of subscription id) rows i (ground arith)) (ground arith)

-- After an acknowledgement the table holds exactly the messages that it had and that the request is
-- not about: those of other subscriptions, and those with other acknowledgements.
pub acknowledge_iff :
    (db : Db) (subscription : String) (ids : List String) (m : PubSubMessage)
    → Memᴰ m (acknowledge db subscription ids).messages
      ↔ (Memᴰ m db.messages × (concerns subscription ids m ≡ false))
unfolding acknowledge
acknowledge_iff db subscription ids m =
    (rows_left subscription ids db.messages, λ x. rows_kept subscription ids db.messages x.0 x.1)

-- A message with a new lease deadline.
abbrev pub with_deadline : Stamp → PubSubMessage → PubSubMessage
with_deadline deadline m = record m { delivered = true; ack_deadline = some deadline }

pub rows_modified :
    (deadline : Stamp) (subscription : String) (ids : List String) (rows : List PubSubMessage)
    {m : PubSubMessage}
    → Memᴰ m rows
    → Memᴰ
        (if concerns subscription ids m then with_deadline deadline m else m)
        (modify_rows deadline subscription ids rows)
unfolding modify_rows one_of
rows_modified deadline subscription [] rows {m} i =
    subst (λ (z : PubSubMessage). Memᴰ z rows) (ground arith) i
rows_modified deadline subscription (id ∷ ids) rows {m} i =
    let step = mem_update_where (lease_of subscription id) (with_deadline deadline) rows i in
    subst (λ (z : PubSubMessage). Memᴰ z (modify_rows deadline subscription (id ∷ ids) rows))
      (ground arith)
      (rows_modified deadline subscription ids
        (update_where (lease_of subscription id) (with_deadline deadline) rows) step)

rows_unmodified :
    (deadline : Stamp) (subscription : String) (ids : List String) (rows : List PubSubMessage)
    {z : PubSubMessage}
    → Memᴰ z (modify_rows deadline subscription ids rows)
    → (m : PubSubMessage) × Memᴰ m rows
      × (z ≡ (if concerns subscription ids m then with_deadline deadline m else m))
unfolding modify_rows one_of
rows_unmodified deadline subscription [] rows {z} i = (z, i, ground arith)
rows_unmodified deadline subscription (id ∷ ids) rows {z} i =
    let (y, j, e) =
      rows_unmodified deadline subscription ids
        (update_where (lease_of subscription id) (with_deadline deadline) rows) i in
    let (x, k, d) = update_where_mem (lease_of subscription id) (with_deadline deadline) rows j in
    (x, k, ground arith)

-- After `ModifyAckDeadline` the table holds exactly the messages that it had, where those that the
-- request is about are delivered with the new deadline.
pub modify_ack_deadline_iff :
    (now : ℕ) (db : Db) (subscription : String) (ids : List String) (seconds : ℕ)
    (z : PubSubMessage)
    → Memᴰ z (modify_ack_deadline now db subscription ids seconds).messages ↔ (
        (m : PubSubMessage) × Memᴰ m db.messages
        × (z ≡ (
            if concerns subscription ids m
            then with_deadline (modified_deadline now seconds) m
            else m)))
unfolding modify_ack_deadline
modify_ack_deadline_iff now db subscription ids seconds z = (
  rows_unmodified (modified_deadline now seconds) subscription ids db.messages,
  λ (m, i, e). rw e (rows_modified (modified_deadline now seconds) subscription ids db.messages i),
)

-- A deadline of zero seconds gives a message of the subscription back: from then on it is
-- available, at every time that is not before the request, where the request is a second after the
-- start of the year 1 or later.
pub zero_deadline_available :
    (now later : ℕ) (subscription : String) (m : PubSubMessage)
    → second ≤ now
    → now ≤ later
    → m.subscription ≡ subscription
    → available subscription (format later) (with_deadline (modified_deadline now 0) m) ≡ true
unfolding modified_deadline available expired
zero_deadline_available now later subscription m p q e =
    ground
      (arith, earlier_second (now - second) later (omega arith), eq_iff m.subscription subscription)

-- The message as a seek leaves it, where it is of the subscription.
abbrev pub unleased : PubSubMessage → PubSubMessage
unleased m = record m { delivered = false; ack_deadline = none }

-- What a seek makes of a message.
abbrev pub SeekOf : String → Stamp → PubSubMessage → PubSubMessage → Type 0
SeekOf subscription ts m z =
    ((m.subscription ≢ subscription) × (z ≡ m))
    ⊎ ((m.subscription ≡ subscription) × (stamp_ltb m.publish_time ts ≡ false) × (z ≡ unleased m))

seek_left :
    (subscription : String) (ts : Stamp) (rows : List PubSubMessage) {z : PubSubMessage}
    → Memᴰ z (
        update_where
          (published_since subscription ts)
          unleased
          (delete_where (published_before subscription ts) rows))
    → (m : PubSubMessage) × Memᴰ m rows × SeekOf subscription ts m z
seek_left subscription ts rows {z} i =
    let (m, j, e) =
      update_where_mem (published_since subscription ts) unleased
        (delete_where (published_before subscription ts) rows) i in
    let (k, f) = delete_where_mem (published_before subscription ts) rows j in
    elim (Bool-cases (m.subscription == subscription)) [
      | inl t ↦ (
        m,
        k,
        inr (ground (arith, eq_iff m.subscription subscription), ground arith, ground arith),
      )
      | inr n ↦ (m, k, inl (ground (arith, eq_iff m.subscription subscription), ground arith))
    ]

pub seek_right :
    (subscription : String) (ts : Stamp) (rows : List PubSubMessage) (m : PubSubMessage)
    {z : PubSubMessage}
    → Memᴰ m rows
    → SeekOf subscription ts m z
    → Memᴰ z (
        update_where
          (published_since subscription ts)
          unleased
          (delete_where (published_before subscription ts) rows))
seek_right subscription ts rows m {z} i c =
    let after : m.subscription == subscription && stamp_ltb m.publish_time ts ≡ false =
      ground (arith, eq_iff m.subscription subscription) in
    let kept = mem_delete_where (published_before subscription ts) rows i after in
    subst
      (λ (y : PubSubMessage). Memᴰ y (
        update_where (published_since subscription ts) unleased
          (delete_where (published_before subscription ts) rows)))
      (ground (arith, eq_iff m.subscription subscription))
      (mem_update_where (published_since subscription ts) unleased _ kept)

-- After a seek on a subscription that is there the table holds exactly the messages of other
-- subscriptions, as they were, and those of the subscription whose text of the publish time is not
-- before that of the time, with their leases cleared.
pub seek_to_time_iff :
    (db : Db) (subscription : String) (t : ℕ) (sub : PubSubSubscription) (z : PubSubMessage)
    → get_subscription db subscription ≡ some sub
    → Memᴰ z (seek_to_time db subscription t).0.messages
      ↔ ((m : PubSubMessage) × Memᴰ m db.messages × SeekOf subscription (format t) m z)
unfolding seek_to_time
seek_to_time_iff db subscription t sub z p =
    rw (p, seek_to_time)
      (
        seek_left subscription (format t) db.messages,
        λ (m, i, c). seek_right subscription (format t) db.messages m i c,
      )
