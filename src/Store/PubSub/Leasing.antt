-- ===== src/Store/PubSub/Leasing.antt =====
-- What a pull leaves in the table and what it answers (`Pull`).
use mathlib.Core.List.Memᴰ
use noctaxris_gcp.Base.{
  ℕ, ◌+◌, ◌≤◌, ◌<◌, String, false, ◌≡◌, refl, sym, ap, subst, ◌∙◌, ◌≢◌, ◌⊎◌, inl, inr, List, [],
  ◌∷◌, ◌++◌, Memᴰ, length, length-append, Result, ok, arith, update_where, Unique,
  Unique-update_where, Bool-cases, Result-cases, leb,
}
use noctaxris_gcp.Store.Stamps.{Stamp}
use noctaxris_gcp.Store.PubSub.Types.{Db, PubSubSubscription, PubSubMessage, Uuids}
use noctaxris_gcp.Store.PubSub.Publish.{acked_by}
use noctaxris_gcp.Store.PubSub.Copies.{ack}
use noctaxris_gcp.Store.PubSub.Pull.{
  is_dead_letter, leased, set_lease, move_to_dead_letter, lease_loop,
}
use noctaxris_gcp.Store.PubSub.Moves.{
  other_updated, lease_row, ack-leased, moved_keeps, moved-Unique,
}

module _ (uuids : Uuids) (now : ℕ) (sub : PubSubSubscription) (subscription : String) where
  module _ (max_messages : ℕ) (deadline : Stamp) where
    -- Where a returned message comes from.
    abbrev pub IsLeasedFrom : List PubSubMessage → PubSubMessage → Type 0
    IsLeasedFrom ms a =
        (c : PubSubMessage) × Memᴰ c ms
        × (a ≡ leased deadline c)
        × (is_dead_letter sub (c.delivery_attempts + 1) ≡ false)

    -- One round of the loop.
    data Round (db : Db) (msgs : List PubSubMessage) (m : PubSubMessage) (ms : List PubSubMessage)
        (db' : Db) (out : List PubSubMessage) : Type 0 where
      full : db' ≡ db → out ≡ msgs → Round db msgs m ms db' out
      moved :
          (mid : Db)
          → move_to_dead_letter uuids now db sub subscription m ≡ (mid, ok tt)
          → lease_loop uuids now sub subscription max_messages deadline mid msgs ms ≡ (db', ok out)
          → Round db msgs m ms db' out
      lent :
          length msgs < max_messages
          → is_dead_letter sub (m.delivery_attempts + 1) ≡ false
          → lease_loop uuids now sub subscription max_messages deadline
              (record db {
                messages =
                    update_where
                      (acked_by m.ack_id)
                      (set_lease deadline (m.delivery_attempts + 1))
                      db.messages;
              })
              (msgs ++ leased deadline m ∷ [])
              ms
            ≡ (db', ok out)
          → Round db msgs m ms db' out

    round :
        (db : Db) (msgs : List PubSubMessage) (m : PubSubMessage) (ms : List PubSubMessage)
        {db' : Db} {out : List PubSubMessage}
        → lease_loop uuids now sub subscription max_messages deadline db msgs (m ∷ ms)
          ≡ (db', ok out)
        → Round db msgs m ms db' out
    unfolding lease_loop
    round db msgs m ms h = elim (Bool-cases (leb max_messages (length msgs))) [
      | inl t ↦ full (ground arith) (ground arith)
      | inr f ↦ elim (Bool-cases (is_dead_letter sub (m.delivery_attempts + 1))) [
        | inr g ↦ lent (ground arith) g (rw (f, g, lease_loop) at h)
        | inl d ↦
            let res = move_to_dead_letter uuids now db sub subscription m in
            elim (Result-cases res.1) [
              | inl (u, p) ↦ moved res.0 (λ i. (res.0, p i)) (rw (f, d, p, lease_loop) at h)
              | inr (e, p) ↦ cc (rw (f, d, p, lease_loop) at h)
            ]
      ]
    ]

    done_out :
        (db : Db) (msgs : List PubSubMessage) {db' : Db} {out : List PubSubMessage}
        → lease_loop uuids now sub subscription max_messages deadline db msgs [] ≡ (db', ok out)
        → out ≡ msgs
    unfolding lease_loop
    done_out db msgs h = ground arith

    done_db :
        (db : Db) (msgs : List PubSubMessage) {db' : Db} {out : List PubSubMessage}
        → lease_loop uuids now sub subscription max_messages deadline db msgs [] ≡ (db', ok out)
        → db' ≡ db
    unfolding lease_loop
    done_db db msgs h = ap (λ (r : Db × Result (List PubSubMessage)). r.0) (sym h)

    -- No more than the maximum is returned.
    pub loop_length :
        (db : Db) (msgs ms : List PubSubMessage) {db' : Db} {out : List PubSubMessage}
        → lease_loop uuids now sub subscription max_messages deadline db msgs ms ≡ (db', ok out)
        → length msgs ≤ max_messages
        → length out ≤ max_messages
    loop_length db msgs [] h l = rw (done_out db msgs h) l
    loop_length db msgs (m ∷ ms) h l = elim (round db msgs m ms h) [
      | full e f ↦ rw f l
      | moved mid p rest ↦ loop_length mid msgs ms rest l
      | lent room d rest ↦
          loop_length _ (msgs ++ leased deadline m ∷ []) ms rest
            (omega (arith, length-append msgs (leased deadline m ∷ [])))
    ]

    -- Every message that is returned was a candidate, and is leased from it.
    pub loop_from :
        (db : Db) (msgs ms : List PubSubMessage) {db' : Db} {out : List PubSubMessage}
        {a : PubSubMessage}
        → lease_loop uuids now sub subscription max_messages deadline db msgs ms ≡ (db', ok out)
        → Memᴰ a out
        → Memᴰ a msgs ⊎ IsLeasedFrom ms a
    loop_from db msgs [] {a = a} h i = inl (subst (Memᴰ a) (done_out db msgs h) i)
    loop_from db msgs (m ∷ ms) {a = a} h i = elim (round db msgs m ms h) [
      | full e f ↦ inl (subst (Memᴰ a) f i)
      | moved mid p rest ↦ elim (loop_from mid msgs ms rest i) [
        | inl j ↦ inl j
        | inr (c, j, e, d) ↦ inr (c, Memᴰ.tail j, e, d)
      ]
      | lent room d rest ↦ elim (loop_from _ (msgs ++ leased deadline m ∷ []) ms rest i) [
        | inr (c, j, e, g) ↦ inr (c, Memᴰ.tail j, e, g)
        | inl j ↦ elim (Memᴰ.append_cases msgs j) [
          | inl k ↦ inl k
          | inr k ↦ inr (m, Memᴰ.head refl, Memᴰ.eq_of_singleton k, d)
        ]
      ]
    ]

    -- What holds before each round: the keys of the table, the candidates that are left, and the
    -- messages so far, which stand in the table and are no candidates any more.
    pub record Standing (db : Db) (msgs ms : List PubSubMessage) : Type 0 where
      pub keys : Unique ack db.messages
      pub left : (c : PubSubMessage) → Memᴰ c ms → Memᴰ c db.messages
      pub apart : Unique ack ms
      pub held : (a : PubSubMessage) → Memᴰ a msgs → Memᴰ a db.messages
      pub done : (a c : PubSubMessage) → Memᴰ a msgs → Memᴰ c ms → a.ack_id ≢ c.ack_id

    moved-Standing :
        (db : Db) (msgs : List PubSubMessage) (m : PubSubMessage) (ms : List PubSubMessage)
        {mid : Db}
        → move_to_dead_letter uuids now db sub subscription m ≡ (mid, ok tt)
        → Standing db msgs (m ∷ ms)
        → Standing mid msgs ms
    moved-Standing db msgs m ms p s = record {
      keys = moved-Unique uuids now sub subscription db m p s.keys;
      left = λ c i.
          moved_keeps uuids now sub subscription db m c p (s.left c (Memᴰ.tail i)) (s.apart.0 c i);
      apart = s.apart.1;
      held = λ a i.
          moved_keeps uuids now sub subscription db m a p (s.held a i)
            (s.done a m i (Memᴰ.head refl));
      done = λ a c i j. s.done a c i (Memᴰ.tail j);
    }

    lent-Standing :
        (db : Db) (msgs : List PubSubMessage) (m : PubSubMessage) (ms : List PubSubMessage)
        → Standing db msgs (m ∷ ms)
        → Standing
            (record db {
              messages =
                  update_where
                    (acked_by m.ack_id)
                    (set_lease deadline (m.delivery_attempts + 1))
                    db.messages;
            })
            (msgs ++ leased deadline m ∷ [])
            ms
    lent-Standing db msgs m ms s = record {
      keys =
          Unique-update_where ack (acked_by m.ack_id) (set_lease deadline (m.delivery_attempts + 1))
            db.messages (λ x. refl) s.keys;
      left = λ c i. other_updated m.ack_id _ db.messages (s.left c (Memᴰ.tail i)) (s.apart.0 c i);
      apart = s.apart.1;
      held = λ a i. elim (Memᴰ.append_cases msgs i) [
        | inl j ↦ other_updated m.ack_id _ db.messages (s.held a j) (s.done a m j (Memᴰ.head refl))
        | inr j ↦
            rw (Memᴰ.eq_of_singleton j)
              (lease_row deadline db.messages m (s.left m (Memᴰ.head refl)))
      ];
      done = λ a c i j. elim (Memᴰ.append_cases msgs i) [
        | inl k ↦ s.done a c k (Memᴰ.tail j)
        | inr k ↦
            λ e. s.apart.0 c j (sym e ∙ ap ack (Memᴰ.eq_of_singleton k) ∙ ack-leased deadline m)
      ];
    }

    same_end :
        {db db' : Db} {msgs out : List PubSubMessage}
        → db' ≡ db
        → out ≡ msgs
        → Unique ack db.messages
        → ((a : PubSubMessage) → Memᴰ a msgs → Memᴰ a db.messages)
        → Unique ack db'.messages × ((a : PubSubMessage) → Memᴰ a out → Memᴰ a db'.messages)
    same_end e f u held = rw (e, f) (u, held)

    -- At the end the messages that are returned stand in the table as they are returned.
    pub loop-Standing :
        (db : Db) (msgs ms : List PubSubMessage) {db' : Db} {out : List PubSubMessage}
        → lease_loop uuids now sub subscription max_messages deadline db msgs ms ≡ (db', ok out)
        → Standing db msgs ms
        → Unique ack db'.messages × ((a : PubSubMessage) → Memᴰ a out → Memᴰ a db'.messages)
    loop-Standing db msgs [] h s = same_end (done_db db msgs h) (done_out db msgs h) s.keys s.held
    loop-Standing db msgs (m ∷ ms) h s = elim (round db msgs m ms h) [
      | full e f ↦ same_end e f s.keys s.held
      | moved mid p rest ↦ loop-Standing mid msgs ms rest (moved-Standing db msgs m ms p s)
      | lent room d rest ↦
          loop-Standing _ (msgs ++ leased deadline m ∷ []) ms rest (lent-Standing db msgs m ms s)
    ]
