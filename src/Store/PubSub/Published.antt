-- ===== src/Store/PubSub/Published.antt =====
-- The promise of publishing: who receives a copy, what a copy holds, and that it does not fail.
use mathlib.Core.List.Memᴰ
use noctaxris_gcp.Base.{
  ℕ, suc, ◌<◌, String, false, ◌≡◌, refl, sym, ap, subst, ◌∙◌, inl, inr, List, [], ◌∷◌, ◌++◌, map,
  Memᴰ, All, Option, none, some, ok, arith, eq_iff, exists_row, exists_row_mem, select_where,
  Unique, Bool-cases, Option-cases, Result-cases,
}
use noctaxris_gcp.Store.Stamps.{format}
use noctaxris_gcp.Store.PubSub.Types.{
  Db, PubSubSubscription, PubSubMessage, PubSubTopic, StringMap, or_empty_map, Uuids,
}
use noctaxris_gcp.Store.PubSub.Filter.{message_matches_filter}
use noctaxris_gcp.Store.PubSub.Topics.{get_topic}
use noctaxris_gcp.Store.PubSub.Subscriptions.{list_subscriptions_for_topic}
use noctaxris_gcp.Store.PubSub.Publish.{acked_by, insert_message, fan_out, publish_fanout, publish}
use noctaxris_gcp.Store.PubSub.Copies.{ack, IsCopy, fan_out_parts, matching, copy_for}

-- A message as it is published: not delivered yet, and never tried.
abbrev pub IsFresh : ℕ → String → List ℕ → StringMap → PubSubMessage → Type 0
IsFresh now topic payload attributes m =
    (m.topic ≡ topic)
    × (m.payload ≡ payload)
    × (m.attributes ≡ attributes)
    × (m.publish_time ≡ format now)
    × (m.delivered ≡ false)
    × (m.ack_deadline ≡ none)
    × (m.delivery_attempts ≡ 0)

-- What a successful publication has done to the database.
pub record IsPublished (now : ℕ) (db : Db) (topic : String) (payload : List ℕ)
    (attributes : StringMap) (db' : Db) (copies : List PubSubMessage) : Type 0 where
  pub rows : db'.messages ≡ db.messages ++ copies
  pub receivers :
      map (λ m. m.subscription) copies
      ≡ map
          (λ s. s.name)
          (select_where
            (λ s. message_matches_filter s.filter attributes)
            (list_subscriptions_for_topic db topic))
  pub fresh : All (IsFresh now topic payload attributes) copies
  pub same_topics : db'.topics ≡ db.topics
  pub same_subscriptions : db'.subscriptions ≡ db.subscriptions
  pub same_snapshots : db'.snapshots ≡ db.snapshots
  pub unique : Unique ack db.messages → Unique ack db'.messages

copy-IsFresh :
    (now : ℕ) (draft m : PubSubMessage)
    → draft.delivered ≡ false
    → draft.ack_deadline ≡ none
    → draft.delivery_attempts ≡ 0
    → draft.publish_time ≡ format now
    → IsCopy draft m
    → IsFresh now draft.topic draft.payload draft.attributes m
copy-IsFresh now draft m d l a p c = (
  ap (λ (x : PubSubMessage). x.topic) c,
  ap (λ (x : PubSubMessage). x.payload) c,
  ap (λ (x : PubSubMessage). x.attributes) c,
  ap (λ (x : PubSubMessage). x.publish_time) c ∙ p,
  ap (λ (x : PubSubMessage). x.delivered) c ∙ d,
  ap (λ (x : PubSubMessage). x.ack_deadline) c ∙ l,
  ap (λ (x : PubSubMessage). x.delivery_attempts) c ∙ a,
)

copies-IsFresh :
    (now : ℕ) (draft : PubSubMessage) (copies : List PubSubMessage)
    → draft.delivered ≡ false
    → draft.ack_deadline ≡ none
    → draft.delivery_attempts ≡ 0
    → draft.publish_time ≡ format now
    → All (IsCopy draft) copies
    → All (IsFresh now draft.topic draft.payload draft.attributes) copies
copies-IsFresh now draft [] d l a p c = tt
copies-IsFresh now draft (m ∷ ms) d l a p c =
    (copy-IsFresh now draft m d l a p c.0, copies-IsFresh now draft ms d l a p c.1)

module _ (uuids : Uuids) where
  -- The message that the loop copies.
  abbrev pub draft_of : ℕ → Db → String → List ℕ → Option StringMap → PubSubMessage
  draft_of now db topic payload attributes = record {
    id = uuids.new_string db.drawn;
    subscription = "";
    topic = topic;
    payload = payload;
    attributes = or_empty_map attributes;
    publish_time = format now;
    ack_id = "";
    ack_deadline = none;
    delivered = false;
    delivery_attempts = 0;
  }

  pub publish_loop :
      (now : ℕ) (db : Db) (topic : String) (payload : List ℕ) (attributes : Option StringMap)
      {db' : Db} {id : String} {copies : List PubSubMessage}
      → publish_fanout uuids now db topic payload attributes ≡ (db', ok (id, copies))
      → (rows : List PubSubMessage) × (drawn : ℕ) × (fan_out uuids
            (draft_of now db topic payload attributes)
            db.messages
            (suc db.drawn)
            []
            (list_subscriptions_for_topic db topic)
          ≡ ok (rows, drawn, copies))
        × (db' ≡ record db { messages = rows; drawn = drawn })
  unfolding publish_fanout
  publish_loop now db topic payload attributes h = elim (Option-cases (get_topic db topic)) [
    | inl p ↦ cc (rw (p, publish_fanout) at h)
    | inr (t, p) ↦
        elim (Result-cases (
          fan_out uuids (draft_of now db topic payload attributes) db.messages (suc db.drawn) []
            (list_subscriptions_for_topic db topic))) [
              | inl ((rows, drawn, cs), q) ↦ (rows, drawn, ground arith, ground arith)
              | inr (e, q) ↦ cc (rw (p, q, publish_fanout) at h)
            ]
  ]

  -- A publication that succeeds adds exactly one copy for each subscription of the topic whose
  -- filter the attributes match, in the order of their names, and changes no other table. Each copy
  -- holds the topic, the payload and the attributes, stamped with the time, and is not delivered.
  pub publish_fanout_copies :
      (now : ℕ) (db : Db) (topic : String) (payload : List ℕ) (attributes : Option StringMap)
      {db' : Db} {id : String} {copies : List PubSubMessage}
      → publish_fanout uuids now db topic payload attributes ≡ (db', ok (id, copies))
      → IsPublished now db topic payload (or_empty_map attributes) db' copies
  publish_fanout_copies now db topic payload attributes h =
      let (rows, drawn, p, q) = publish_loop now db topic payload attributes h in
      let draft = draft_of now db topic payload attributes in
      let added =
        fan_out_parts uuids draft db.messages (suc db.drawn) []
          (list_subscriptions_for_topic db topic) p in
      record {
        rows =
            ap (λ (d : Db). d.messages) q
            ∙ added.in_table
            ∙ ap (λ (l : List PubSubMessage). db.messages ++ l) (sym added.in_answer);
        receivers = ap (map (λ m. m.subscription)) added.in_answer ∙ added.receivers;
        fresh =
            subst (All (IsFresh now topic payload (or_empty_map attributes))) (sym added.in_answer)
              (copies-IsFresh now draft added.new refl refl refl refl added.are_copies);
        same_topics = ap (λ (d : Db). d.topics) q;
        same_subscriptions = ap (λ (d : Db). d.subscriptions) q;
        same_snapshots = ap (λ (d : Db). d.snapshots) q;
        unique = λ u. subst (Unique ack) (ap (λ (d : Db). d.messages) (sym q)) (added.unique u);
      }

  -- Every acknowledgement of the table is one of the first `n` identifiers.
  abbrev pub Drawn : ℕ → List PubSubMessage → Type 0
  Drawn n rows =
      (m : PubSubMessage) → Memᴰ m rows → (k : ℕ) × (k < n) × (m.ack_id ≡ uuids.new_string k)

  -- Identifiers that are drawn apart are different.
  abbrev pub AreDistinct : Type 0
  AreDistinct = (i j : ℕ) → uuids.new_string i ≡ uuids.new_string j → i ≡ j

  unused :
      (n : ℕ) (rows : List PubSubMessage)
      → AreDistinct
      → Drawn n rows
      → exists_row (acked_by (uuids.new_string n)) rows ≡ false
  unused n rows inj d = elim (Bool-cases (exists_row (acked_by (uuids.new_string n)) rows)) [
    | inr f ↦ f
    | inl t ↦
        let (m, i, p) = exists_row_mem (acked_by (uuids.new_string n)) rows t in
        let (k, l, e) = d m i in
        let same = inj k n (sym e ∙ (eq_iff m.ack_id (uuids.new_string n)).0 p) in
        absurd (omega arith)
  ]

  Drawn-snoc :
      (n : ℕ) (rows : List PubSubMessage) (m : PubSubMessage)
      → Drawn n rows
      → m.ack_id ≡ uuids.new_string n
      → Drawn (suc n) (rows ++ m ∷ [])
  Drawn-snoc n rows m d e x i = elim (Memᴰ.append_cases rows i) [
    | inl j ↦ let (k, l, p) = d x j in (k, omega arith, p)
    | inr j ↦ (n, omega arith, ap ack (Memᴰ.eq_of_singleton j) ∙ e)
  ]

  fan_out_total :
      (draft : PubSubMessage) (rows : List PubSubMessage) (drawn : ℕ) (copies : List PubSubMessage)
      (subs : List PubSubSubscription)
      → AreDistinct
      → Drawn drawn rows
      → (rows' : List PubSubMessage) × (drawn' : ℕ) × (copies' : List PubSubMessage) × (fan_out
            uuids draft rows drawn copies subs
          ≡ ok (rows', drawn', copies'))
        × Drawn drawn' rows'
  unfolding fan_out insert_message
  fan_out_total draft rows drawn copies [] inj d = (rows, drawn, copies, refl, d)
  fan_out_total draft rows drawn copies (s ∷ subs) inj d =
      elim (Bool-cases (matching uuids draft s)) [
        | inr f ↦ rw (f, fan_out) (fan_out_total draft rows drawn copies subs inj d)
        | inl t ↦
            rw (t, fan_out)
              (rw (unused drawn rows inj d, insert_message)
                (fan_out_total draft (rows ++ copy_for uuids draft s drawn ∷ []) (suc drawn)
                  (copies ++ copy_for uuids draft s drawn ∷ []) subs inj
                  (Drawn-snoc drawn rows (copy_for uuids draft s drawn) d refl)))
      ]

  -- While identifiers do not repeat, publishing to a topic that is there succeeds.
  pub publish_total :
      (now : ℕ) (db : Db) (topic : String) (payload : List ℕ) (attributes : Option StringMap)
      {t : PubSubTopic}
      → AreDistinct
      → Drawn db.drawn db.messages
      → get_topic db topic ≡ some t
      → (db' : Db) × (id : String) × (publish uuids now db topic payload attributes ≡ (db', ok id))
        × Drawn db'.drawn db'.messages
  unfolding publish publish_fanout
  publish_total now db topic payload attributes inj d p =
      let (rows, drawn, copies, q, d') =
        fan_out_total (draft_of now db topic payload attributes) db.messages (suc db.drawn) []
          (list_subscriptions_for_topic db topic) inj
          (λ m i. let (k, l, e) = d m i in (k, omega arith, e)) in
      (record db { messages = rows; drawn = drawn }, uuids.new_string db.drawn, ground arith, d')
