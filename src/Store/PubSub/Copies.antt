-- ===== src/Store/PubSub/Copies.antt =====
-- What publishing adds (`PublishFanout`, `Publish`).
use mathlib.Core.List.{append-nil, append_assoc}
use noctaxris_gcp.Base.{
  ℕ, suc, String, Bool, false, ◌≡◌, refl, ap, subst, ◌∙◌, inl, inr, List, [], ◌∷◌, ◌++◌, map, All,
  ok, arith, eq_refl, exists_row, select_where, Unique, Unique-snoc, absent-Apart, Bool-cases,
  Result-cases,
}
use noctaxris_gcp.Store.PubSub.Types.{PubSubSubscription, PubSubMessage, Uuids}
use noctaxris_gcp.Store.PubSub.Filter.{message_matches_filter}
use noctaxris_gcp.Store.PubSub.Publish.{acked_by, insert_message, fan_out}

abbrev pub ack : PubSubMessage → String
ack m = m.ack_id

-- A copy is the draft, but for its subscription and its acknowledgement.
abbrev pub IsCopy : PubSubMessage → PubSubMessage → Type 0
IsCopy draft m = m ≡ record draft { subscription = m.subscription; ack_id = m.ack_id }

pub insert_parts :
    (rows : List PubSubMessage) (m : PubSubMessage) {rows' : List PubSubMessage}
    → insert_message rows m ≡ ok rows'
    → (exists_row (acked_by m.ack_id) rows ≡ false) × (rows' ≡ rows ++ m ∷ [])
unfolding insert_message
insert_parts rows m h = ground arith

pub insert-Unique :
    (rows : List PubSubMessage) (m : PubSubMessage) {rows' : List PubSubMessage}
    → insert_message rows m ≡ ok rows'
    → Unique ack rows
    → Unique ack rows'
insert-Unique rows m h u =
    let (absent, e) = insert_parts rows m h in
    rw e (
      Unique-snoc ack rows m u
        (absent-Apart ack (acked_by m.ack_id) m rows (λ y d. rw d (eq_refl m.ack_id)) absent))

module _ (uuids : Uuids) (draft : PubSubMessage) where
  abbrev pub matching : PubSubSubscription → Bool
  matching s = message_matches_filter s.filter draft.attributes

  abbrev pub copy_for : PubSubSubscription → ℕ → PubSubMessage
  copy_for s n = record draft { subscription = s.name; ack_id = uuids.new_string n }

  -- What the loop has added when it ends without an error.
  pub record Added (rows copies : List PubSubMessage) (subs : List PubSubSubscription)
      (rows' copies' : List PubSubMessage) : Type 0 where
    pub new : List PubSubMessage
    pub in_table : rows' ≡ rows ++ new
    pub in_answer : copies' ≡ copies ++ new
    pub receivers : map (λ m. m.subscription) new ≡ map (λ s. s.name) (select_where matching subs)
    pub are_copies : All (IsCopy draft) new
    pub unique : Unique ack rows → Unique ack rows'

  pub fan_out_parts :
      (rows : List PubSubMessage) (drawn : ℕ) (copies : List PubSubMessage)
      (subs : List PubSubSubscription) {rows' : List PubSubMessage} {drawn' : ℕ}
      {copies' : List PubSubMessage}
      → fan_out uuids draft rows drawn copies subs ≡ ok (rows', drawn', copies')
      → Added rows copies subs rows' copies'
  unfolding fan_out select_where
  fan_out_parts rows drawn copies [] h = record {
    new = [];
    in_table = rw append-nil (ground arith);
    in_answer = rw append-nil (ground arith);
    receivers = refl;
    are_copies = tt;
    unique = λ u. subst (Unique ack) (ground arith) u;
  }
  fan_out_parts rows drawn copies (s ∷ subs) h = elim (Bool-cases (matching s)) [
    | inr f ↦
        let rest = fan_out_parts rows drawn copies subs (rw (f, fan_out) at h) in
        record {
          new = rest.new;
          in_table = rest.in_table;
          in_answer = rest.in_answer;
          receivers = rw f rest.receivers;
          are_copies = rest.are_copies;
          unique = rest.unique;
        }
    | inl t ↦ elim (Result-cases (insert_message rows (copy_for s drawn))) [
      | inr (e, p) ↦ cc (rw (t, p, fan_out) at h)
      | inl (more, p) ↦
          let rest =
            fan_out_parts more (suc drawn) (copies ++ copy_for s drawn ∷ []) subs
              (rw (t, p, fan_out) at h) in
          record {
            new = copy_for s drawn ∷ rest.new;
            in_table =
                rest.in_table
                ∙ ap (λ (l : List PubSubMessage). l ++ rest.new)
                    (insert_parts rows (copy_for s drawn) p).1
                ∙ append_assoc rows (copy_for s drawn ∷ []) rest.new;
            in_answer = rest.in_answer ∙ append_assoc copies (copy_for s drawn ∷ []) rest.new;
            receivers = rw t (ap (◌∷◌ s.name) rest.receivers);
            are_copies = (refl, rest.are_copies);
            unique = λ u. rest.unique (insert-Unique rows (copy_for s drawn) p u);
          }
    ]
  ]
