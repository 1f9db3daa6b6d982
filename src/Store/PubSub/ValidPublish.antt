-- ===== src/Store/PubSub/ValidPublish.antt =====
-- Publishing keeps what the tables promise.
use mathlib.Core.List.Memᴰ
use noctaxris_gcp.Base.{
  ℕ, suc, ◌≤◌, String, false, ◌==◌, ◌≡◌, refl, inl, inr, List, [], ◌∷◌, ◌++◌, Memᴰ, Option, Error,
  ok, err, arith, select_where_mem, order_by_mem, Unique, Bool-cases, Option-cases, Result-cases,
}
use noctaxris_gcp.Store.PubSub.Types.{Db, PubSubSubscription, PubSubMessage, StringMap, Uuids}
use noctaxris_gcp.Store.PubSub.Topics.{get_topic}
use noctaxris_gcp.Store.PubSub.Subscriptions.{list_subscriptions_for_topic}
use noctaxris_gcp.Store.PubSub.Publish.{insert_message, fan_out, publish_fanout, publish}
use noctaxris_gcp.Store.PubSub.Copies.{ack, matching, copy_for, insert_parts, insert-Unique}
use noctaxris_gcp.Store.PubSub.Published.{draft_of, publish_loop}
use noctaxris_gcp.Store.PubSub.Valid.{IsSound, IsValid, rows-IsValid}

module _ (uuids : Uuids) where
  drawn_more :
      {subs : List PubSubSubscription} {n k : ℕ} {m : PubSubMessage}
      → n ≤ k
      → IsSound uuids subs n m
      → IsSound uuids subs k m
  drawn_more l s =
      let (j, b, e) = s.from_draw in
      record { home = s.home; from_draw = (j, omega arith, e); lease = s.lease }

  -- The loop of a publication adds sound messages to sound ones.
  fan_out-IsSound :
      (draft : PubSubMessage) (all subs : List PubSubSubscription) (rows : List PubSubMessage)
      (drawn : ℕ) (copies : List PubSubMessage) {rows' : List PubSubMessage} {drawn' : ℕ}
      {copies' : List PubSubMessage}
      → draft.delivered ≡ false
      → ((s : PubSubSubscription) → Memᴰ s subs → Memᴰ s all)
      → Unique ack rows
      → ((m : PubSubMessage) → Memᴰ m rows → IsSound uuids all drawn m)
      → fan_out uuids draft rows drawn copies subs ≡ ok (rows', drawn', copies')
      → Unique ack rows' × ((m : PubSubMessage) → Memᴰ m rows' → IsSound uuids all drawn' m)
  unfolding fan_out
  fan_out-IsSound draft all [] rows drawn copies {rows'} {drawn'} fresh sub u sound h =
      let e : rows ≡ rows' = ground arith in
      let d : drawn ≡ drawn' = ground arith in rw (← e, ← d) (u, sound)
  fan_out-IsSound draft all (s ∷ subs) rows drawn copies fresh sub u sound h =
      elim (Bool-cases (matching uuids draft s)) [
        | inr f ↦
            fan_out-IsSound draft all subs rows drawn copies fresh (λ x i. sub x (Memᴰ.tail i)) u
              sound (rw (f, fan_out) at h)
        | inl t ↦ elim (Result-cases (insert_message rows (copy_for uuids draft s drawn))) [
          | inr (e, p) ↦ cc (rw (t, p, fan_out) at h)
          | inl (more, p) ↦
              fan_out-IsSound draft all subs more (suc drawn)
                (copies ++ copy_for uuids draft s drawn ∷ []) fresh (λ x i. sub x (Memᴰ.tail i))
                (insert-Unique rows (copy_for uuids draft s drawn) p u)
                (λ m i.
                  elim (Memᴰ.append_cases rows
                    (rw ((insert_parts rows (copy_for uuids draft s drawn) p).1) at i)) [
                      | inl j ↦ drawn_more (omega arith) (sound m j)
                      | inr j ↦ rw (Memᴰ.eq_of_singleton j) (record {
                        home = (s, sub s (Memᴰ.head refl), refl);
                        from_draw = (drawn, omega arith, refl);
                        lease = λ t. cc;
                      })
                    ])
                (rw (t, p, fan_out) at h)
        ]
      ]

  topic_subscriptions :
      (db : Db) (topic : String) (s : PubSubSubscription)
      → Memᴰ s (list_subscriptions_for_topic db topic)
      → Memᴰ s db.subscriptions
  unfolding list_subscriptions_for_topic
  topic_subscriptions db topic s i =
      (select_where_mem (λ x. x.topic == topic) db.subscriptions (order_by_mem _ _ i)).0

  pub publish_failed :
      (now : ℕ) (db : Db) (topic : String) (payload : List ℕ) (attributes : Option StringMap)
      {e : Error}
      → (publish_fanout uuids now db topic payload attributes).1 ≡ err e
      → (publish_fanout uuids now db topic payload attributes).0 ≡ db
  unfolding publish_fanout
  publish_failed now db topic payload attributes h = elim (Option-cases (get_topic db topic)) [
    | inl p ↦ rw (p, publish_fanout) refl
    | inr (t, p) ↦
        elim (Result-cases (
          fan_out uuids (draft_of uuids now db topic payload attributes) db.messages (suc db.drawn)
            [] (list_subscriptions_for_topic db topic))) [
              | inl ((rows, drawn, cs), q) ↦ cc (rw (p, q, publish_fanout) at h)
              | inr (e, q) ↦ rw (p, q, publish_fanout) refl
            ]
  ]

  pub publish_fanout-IsValid :
      (now : ℕ) (db : Db) (topic : String) (payload : List ℕ) (attributes : Option StringMap)
      → IsValid uuids db
      → IsValid uuids (publish_fanout uuids now db topic payload attributes).0
  publish_fanout-IsValid now db topic payload attributes v =
      let out = publish_fanout uuids now db topic payload attributes in
      elim (Result-cases out.1) [
        | inr (e, p) ↦ rw (publish_failed now db topic payload attributes p) v
        | inl ((id, copies), p) ↦
            let (rows, drawn, loop, e) =
              publish_loop uuids now db topic payload attributes (λ i. (out.0, p i)) in
            let (u, sound) =
              fan_out-IsSound (draft_of uuids now db topic payload attributes) db.subscriptions
                (list_subscriptions_for_topic db topic) db.messages (suc db.drawn) [] refl
                (λ s i. topic_subscriptions db topic s i) v.acks
                (λ m i. drawn_more (omega arith) (v.messages m i)) loop in
            rw e (rows-IsValid uuids db rows drawn v u sound)
      ]

  pub publish-IsValid :
      (now : ℕ) (db : Db) (topic : String) (payload : List ℕ) (attributes : Option StringMap)
      → IsValid uuids db
      → IsValid uuids (publish uuids now db topic payload attributes).0
  unfolding publish
  publish-IsValid now db topic payload attributes v =
      let out = publish_fanout uuids now db topic payload attributes in
      let kept = publish_fanout-IsValid now db topic payload attributes v in
      elim (Result-cases out.1) [
        | inl (x, p) ↦ rw (p, publish) kept
        | inr (e, p) ↦ rw (p, publish) kept
      ]
