-- ===== src/Store/PubSub/Tests.antt =====
-- A pull half a second after a lease has ended at a whole second.
use mathlib.Core.List.Memᴰ
use noctaxris_gcp.Base.{
  ℕ, ◌+◌, ◌*◌, ◌≡◌, refl, ◌≢◌, ◌⊎◌, inl, inr, sym, ap, ◌∙◌, [], ◌∷◌, Memᴰ, some, ok, true, Unique,
  arith, select_where, select_one, update_where, insert_by, order_by,
}
use noctaxris_gcp.Store.Stamps.{bytes_ltb, fraction, second, format, stamp_ltb}
use noctaxris_gcp.Store.PubSub.Types.{Db, PubSubMessage}
use noctaxris_gcp.Store.PubSub.Subscriptions.{get_subscription}
use noctaxris_gcp.Store.PubSub.Pull.{
  lease_end, fetch_limit, expired, available, candidates, is_dead_letter, leased, lease_loop, pull,
}
use noctaxris_gcp.Store.PubSub.Copies.{ack}
use noctaxris_gcp.Store.PubSub.WholeSecond.{lapsed_lease_held}
use noctaxris_gcp.Store.Lab.{letters, letters-injective, uuids, plain_copy, plain, lab_db}

abbrev leased_plain : PubSubMessage
leased_plain = record plain_copy {
  delivered = true;
  ack_deadline = some (format (22 * second));
  delivery_attempts = 1;
}

-- The lease ends at 22 seconds, and half a second later its message is not returned, but one that
-- waits is.
abbrev half_past : ℕ
half_past = 22 * second + 500000000

abbrev waiting : PubSubMessage
waiting = record plain_copy { ack_id = letters 9 }

abbrev leased_waiting : PubSubMessage
leased_waiting = record waiting {
  delivered = true;
  ack_deadline = some (format (half_past + 20 * second));
  delivery_attempts = 1;
}

abbrev waiting_db : Db
waiting_db = record lab_db { messages = leased_plain ∷ waiting ∷ [] }

half_past_test :
    pull uuids half_past waiting_db "plain" 10
    ≡ (record lab_db { messages = leased_plain ∷ leased_waiting ∷ [] }, ok (leased_waiting ∷ []))
unfolding pull lease_end get_subscription select_one lease_loop is_dead_letter candidates order_by
    insert_by select_where available expired fetch_limit update_where leased letters format
    stamp_ltb bytes_ltb fraction
half_past_test = refl

waiting-Unique : Unique ack waiting_db.messages
waiting-Unique = (λ y m e. other y (Memᴰ.cases_cons m) e, ((λ y m. absurd (Memᴰ.not-nil m)), tt))
  where
    other : (y : PubSubMessage) → (y ≡ waiting) ⊎ Memᴰ y [] → ack y ≢ letters 1
    other y (inl q) e =
        let nine : letters 9 ≡ letters 1 = sym (ap ack q) ∙ e in
        let same : ◌≡◌ {A = ℕ} 9 1 = letters-injective 9 1 nine in omega arith
    other y (inr m) e = absurd (Memᴰ.not-nil m)

get_plain_waiting : get_subscription waiting_db "plain" ≡ some plain
unfolding get_subscription select_one
get_plain_waiting = refl

lapsed_lease_held_example : leased_waiting.ack_id ≢ leased_plain.ack_id
lapsed_lease_held_example =
    lapsed_lease_held 22 500000000 (omega arith) (omega arith) uuids waiting_db "plain" 10 plain
      leased_plain waiting-Unique (Memᴰ.head refl) refl refl get_plain_waiting half_past_test
      (Memᴰ.head refl)
