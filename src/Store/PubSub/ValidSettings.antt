-- ===== src/Store/PubSub/ValidSettings.antt =====
-- What the checks of the settings of a subscription let through (`CreateSubscriptionFull`,
-- `UpdateSubscription`).
use noctaxris_gcp.Base.{
  ℕ, ◌≤◌, String, ◌==◌, ◌≡◌, sym, ap, ◌∙◌, ◌≢◌, ◌⊎◌, inl, inr, ok, arith, eq_iff, Bool-cases,
  Option-cases, Result-cases, trim_space,
}
use noctaxris_gcp.Store.PubSub.Types.{Db, PubSubSubscription, StringMap}
use noctaxris_gcp.Store.PubSub.Filter.{parse_attribute_equality_filter}
use noctaxris_gcp.Store.PubSub.Topics.{get_topic}
use noctaxris_gcp.Store.PubSub.Subscriptions.{
  SubscriptionArgs, SubscriptionUpdate, ack_deadline_or_default, check_filter, check_dead_letter,
  checked_subscription, updated_subscription,
}
use noctaxris_gcp.Store.PubSub.Valid.{IsConfigured}

check_filter_lem :
    (f : String) {g : String}
    → check_filter f ≡ ok g
    → (g ≡ "") ⊎ ((want : StringMap) × (parse_attribute_equality_filter g ≡ ok want))
unfolding check_filter
check_filter_lem f {g} h = elim (Bool-cases (f == "")) [
  | inl t ↦ inl (ground (arith, eq_iff f ""))
  | inr t ↦ elim (Result-cases (parse_attribute_equality_filter f)) [
    | inl (want, p) ↦
        let same : f ≡ g = ground arith in
        inr (want, ap parse_attribute_equality_filter (sym same) ∙ p)
    | inr (e, p) ↦ absurd (ground arith)
  ]
]

check_dead_letter_lem :
    (db : Db) (topic : String) (attempts : ℕ) {t : String} {n : ℕ}
    → check_dead_letter db topic attempts ≡ ok (t, n)
    → ((t ≡ "") × (n ≡ 0)) ⊎ ((t ≢ "") × (5 ≤ n) × (n ≤ 100))
unfolding check_dead_letter
check_dead_letter_lem db topic attempts h = elim (Bool-cases (topic == "")) [
  | inl t ↦ inl (ground arith, ground arith)
  | inr t ↦ elim (Option-cases (get_topic db topic)) [
    | inl p ↦ absurd (ground arith)
    | inr (x, p) ↦ inr (ground (arith, eq_iff topic ""), ground arith, ground arith)
  ]
]

deadline_positive : (n : ℕ) → ack_deadline_or_default n ≢ 0
deadline_positive n = ground arith

checked_parts :
    (now : ℕ) (db : Db) (args : SubscriptionArgs) {s : PubSubSubscription}
    → checked_subscription now db args ≡ ok s
    → (filter : String) × (policy : String × ℕ) × (check_filter (trim_space args.filter)
        ≡ ok filter)
      × (check_dead_letter db (trim_space args.dead_letter_topic) args.max_delivery_attempts
          ≡ ok policy)
      × (s.filter ≡ filter)
      × (s.dead_letter_topic ≡ policy.0)
      × (s.max_delivery_attempts ≡ policy.1)
      × (s.ack_deadline_seconds ≡ ack_deadline_or_default args.ack_deadline_seconds)
unfolding checked_subscription
checked_parts now db args h = ground arith

-- What passes the checks of `CreateSubscriptionFull` is configured.
pub checked_subscription-IsConfigured :
    (now : ℕ) (db : Db) (args : SubscriptionArgs) {s : PubSubSubscription}
    → checked_subscription now db args ≡ ok s
    → IsConfigured s
checked_subscription-IsConfigured now db args {s} h =
    let (f, (t, n), p, q, a, b, c, d) = checked_parts now db args h in
    record {
      deadline = rw d (deadline_positive args.ack_deadline_seconds);
      filter = rw a (check_filter_lem (trim_space args.filter) p);
      dead_letter =
          rw (b, c)
            (check_dead_letter_lem db (trim_space args.dead_letter_topic) args.max_delivery_attempts
              q);
    }

updated_filter :
    (db : Db) (sub : PubSubSubscription) (u : SubscriptionUpdate) {s : PubSubSubscription}
    → updated_subscription db sub u ≡ ok s
    → (s.filter ≡ sub.filter) ⊎ ((f : String) × (check_filter f ≡ ok s.filter))
unfolding updated_subscription
updated_filter db sub u {s} h = elim (Option-cases u.filter) [
  | inl p ↦ inl (ground arith)
  | inr (f, p) ↦ inr (trim_space f, ground arith)
]

updated_dead_letter :
    (db : Db) (sub : PubSubSubscription) (u : SubscriptionUpdate) {s : PubSubSubscription}
    → updated_subscription db sub u ≡ ok s
    → ((s.dead_letter_topic ≡ sub.dead_letter_topic)
        × (s.max_delivery_attempts ≡ sub.max_delivery_attempts))
      ⊎ ((t : String) × (n : ℕ) × (check_dead_letter db t n
            ≡ ok (s.dead_letter_topic, s.max_delivery_attempts)))
unfolding updated_subscription
updated_dead_letter db sub u {s} h = elim (Option-cases u.dead_letter) [
  | inl p ↦ inl (ground arith, ground arith)
  | inr (d, p) ↦ inr (trim_space d.dead_letter_topic, d.max_delivery_attempts, ground arith)
]

updated_deadline :
    (db : Db) (sub : PubSubSubscription) (u : SubscriptionUpdate) {s : PubSubSubscription}
    → updated_subscription db sub u ≡ ok s
    → (s.ack_deadline_seconds ≡ sub.ack_deadline_seconds)
      ⊎ ((k : ℕ) × (s.ack_deadline_seconds ≡ ack_deadline_or_default k))
unfolding updated_subscription
updated_deadline db sub u {s} h = elim (Option-cases u.ack_deadline) [
  | inl p ↦ inl (ground arith)
  | inr (k, p) ↦ inr (k, ground arith)
]

pub updated_subscription-IsConfigured :
    (db : Db) (sub : PubSubSubscription) (u : SubscriptionUpdate) {s : PubSubSubscription}
    → IsConfigured sub
    → updated_subscription db sub u ≡ ok s
    → IsConfigured s
updated_subscription-IsConfigured db sub u {s} c h = record {
  deadline = elim (updated_deadline db sub u h) [
    | inl e ↦ rw e c.deadline
    | inr (n, e) ↦ rw e (deadline_positive n)
  ];
  filter = elim (updated_filter db sub u h) [
    | inl e ↦ rw e c.filter
    | inr (t, p) ↦ check_filter_lem t p
  ];
  dead_letter = elim (updated_dead_letter db sub u h) [
    | inl (e, l) ↦ rw (e, l) c.dead_letter
    | inr (t, n, p) ↦ check_dead_letter_lem db t n p
  ];
}
