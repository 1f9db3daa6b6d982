-- ===== src/Store/PubSub/Valid.antt =====
-- What the Pub/Sub tables promise: keys, the settings of subscriptions, the state of messages
-- (internal/store/pubsub.go, and the keys of internal/store/schema.go).
use mathlib.Core.List.Memᴰ
use noctaxris_gcp.Base.{
  ℕ, ◌≤◌, ◌<◌, Bool, true, ◌≡◌, sym, subst, ◌∙◌, ◌≢◌, ◌⊎◌, inl, inr, List, [], Memᴰ, none, ok,
  Unique-delete_where, Unique-update_where, delete_where, delete_where_mem, update_where,
  update_where_mem, Unique, Bool-cases, if◌then◌else◌,
}
use noctaxris_gcp.Store.PubSub.Types.{Db, PubSubSubscription, PubSubMessage, StringMap, Uuids}
use noctaxris_gcp.Store.PubSub.Filter.{parse_attribute_equality_filter}
use noctaxris_gcp.Store.PubSub.Copies.{ack}

-- What a subscription's settings satisfy: a deadline, a filter that parses, and a dead-letter topic
-- with attempts that Pub/Sub allows.
pub record IsConfigured (s : PubSubSubscription) : Type 0 where
  pub deadline : s.ack_deadline_seconds ≢ 0
  pub filter :
      (s.filter ≡ "") ⊎ ((want : StringMap) × (parse_attribute_equality_filter s.filter ≡ ok want))
  pub dead_letter :
      ((s.dead_letter_topic ≡ "") × (s.max_delivery_attempts ≡ 0))
      ⊎ ((s.dead_letter_topic ≢ "")
          × (5 ≤ s.max_delivery_attempts)
          × (s.max_delivery_attempts ≤ 100))

module _ (uuids : Uuids) where
  -- What a message satisfies: its subscription is there, its acknowledgement is one of the first `n`
  -- identifiers, and it has a lease deadline if it is delivered.
  pub record IsSound (subs : List PubSubSubscription) (n : ℕ) (m : PubSubMessage) : Type 0 where
    pub home : (s : PubSubSubscription) × Memᴰ s subs × (s.name ≡ m.subscription)
    pub from_draw : (k : ℕ) × (k < n) × (m.ack_id ≡ uuids.new_string k)
    pub lease : m.delivered ≡ true → m.ack_deadline ≢ none

  pub record IsValid (db : Db) : Type 0 where
    pub topic_names : Unique (λ t. t.name) db.topics
    pub subscription_names : Unique (λ s. s.name) db.subscriptions
    pub snapshot_names : Unique (λ s. s.name) db.snapshots
    pub acks : Unique ack db.messages
    pub settings : (s : PubSubSubscription) → Memᴰ s db.subscriptions → IsConfigured s
    pub messages : (m : PubSubMessage) → Memᴰ m db.messages → IsSound db.subscriptions db.drawn m

  pub empty-IsValid :
      IsValid (record { topics = []; subscriptions = []; messages = []; snapshots = []; drawn = 0 })
  empty-IsValid = record {
    topic_names = tt;
    subscription_names = tt;
    snapshot_names = tt;
    acks = tt;
    settings = λ s i. absurd (Memᴰ.not-nil i);
    messages = λ m i. absurd (Memᴰ.not-nil i);
  }

  -- New rows, with identifiers drawn on the way, for a valid database.
  pub rows-IsValid :
      (db : Db) (rows : List PubSubMessage) (n : ℕ)
      → IsValid db
      → Unique ack rows
      → ((m : PubSubMessage) → Memᴰ m rows → IsSound db.subscriptions n m)
      → IsValid (record db { messages = rows; drawn = n })
  rows-IsValid db rows n v u s = record {
    topic_names = v.topic_names;
    subscription_names = v.subscription_names;
    snapshot_names = v.snapshot_names;
    acks = u;
    settings = v.settings;
    messages = s;
  }

  pub deleted_rows-IsValid :
      (db : Db) (p : PubSubMessage → Bool)
      → IsValid db
      → IsValid (record db { messages = delete_where p db.messages })
  deleted_rows-IsValid db p v =
      rows-IsValid db (delete_where p db.messages) db.drawn v
        (Unique-delete_where ack p db.messages v.acks)
        (λ m i. v.messages m (delete_where_mem p db.messages i).0)

  -- A change of the lease of a message.
  pub record IsLeaseChange (f : PubSubMessage → PubSubMessage) : Type 0 where
    pub same_ack : (m : PubSubMessage) → (f m).ack_id ≡ m.ack_id
    pub same_subscription : (m : PubSubMessage) → (f m).subscription ≡ m.subscription
    pub leased :
        (m : PubSubMessage)
        → (m.delivered ≡ true → m.ack_deadline ≢ none)
        → (f m).delivered ≡ true
        → (f m).ack_deadline ≢ none

  changed-IsSound :
      (f : PubSubMessage → PubSubMessage) (subs : List PubSubSubscription) (n : ℕ)
      (m : PubSubMessage)
      → IsLeaseChange f
      → IsSound subs n m
      → IsSound subs n (f m)
  changed-IsSound f subs n m c s =
      let (x, i, e) = s.home in
      let (k, l, d) = s.from_draw in
      record {
        home = (x, i, e ∙ sym (c.same_subscription m));
        from_draw = (k, l, c.same_ack m ∙ d);
        lease = c.leased m s.lease;
      }

  either-IsSound :
      (p : PubSubMessage → Bool) (f : PubSubMessage → PubSubMessage)
      (subs : List PubSubSubscription) (n : ℕ) (m : PubSubMessage)
      → IsLeaseChange f
      → IsSound subs n m
      → IsSound subs n (if p m then f m else m)
  either-IsSound p f subs n m c s = elim (Bool-cases (p m)) [
    | inl t ↦ rw t (changed-IsSound f subs n m c s)
    | inr t ↦ rw t s
  ]

  pub updated_rows-IsValid :
      (db : Db) (p : PubSubMessage → Bool) (f : PubSubMessage → PubSubMessage)
      → IsLeaseChange f
      → IsValid db
      → IsValid (record db { messages = update_where p f db.messages })
  updated_rows-IsValid db p f c v =
      rows-IsValid db (update_where p f db.messages) db.drawn v
        (Unique-update_where ack p f db.messages c.same_ack v.acks)
        (λ m i.
          let (x, j, e) = update_where_mem p f db.messages i in
          subst (IsSound db.subscriptions db.drawn) (sym e)
            (either-IsSound p f db.subscriptions db.drawn x c (v.messages x j)))
