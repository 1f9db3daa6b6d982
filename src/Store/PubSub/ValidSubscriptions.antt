-- ===== src/Store/PubSub/ValidSubscriptions.antt =====
-- The operations on subscriptions keep what the tables promise.
use mathlib.Core.List.Memᴰ
use noctaxris_gcp.Base.{
  ℕ, String, false, ◌==◌, ◌≡◌, refl, ◌∙◌, inl, inr, List, [], ◌∷◌, ◌++◌, eq_refl, exists_row,
  absent-Apart, Unique-snoc, Unique-delete_where, Unique-update_where, select_one_mem,
  delete_where_mem, mem_delete_where, update_where, update_where_mem, mem_update_where, Bool-cases,
  Option-cases, Result-cases, if◌then◌else◌,
}
use noctaxris_gcp.Store.PubSub.Types.{Db, PubSubSubscription, PubSubMessage, Uuids}
use noctaxris_gcp.Store.PubSub.Subscriptions.{
  subscription_named, SubscriptionArgs, SubscriptionUpdate, checked_subscription,
  create_subscription_full, get_subscription, updated_subscription, set_subscription,
  update_subscription, delete_subscription,
}
use noctaxris_gcp.Store.PubSub.Copies.{ack}
use noctaxris_gcp.Store.PubSub.ValidSettings.{
  checked_subscription-IsConfigured, updated_subscription-IsConfigured,
}
use noctaxris_gcp.Store.PubSub.Valid.{IsConfigured, IsSound, IsValid}

module _ (uuids : Uuids) where
  -- A database with a new subscription, or the same.
  data SubscriptionStep (db db' : Db) : Type 0 where
    kept : db' ≡ db → SubscriptionStep db db'
    added :
        (s : PubSubSubscription)
        → IsConfigured s
        → exists_row (subscription_named s.name) db.subscriptions ≡ false
        → db' ≡ record db { subscriptions = db.subscriptions ++ s ∷ [] }
        → SubscriptionStep db db'

  create-SubscriptionStep :
      (now : ℕ) (db : Db) (args : SubscriptionArgs)
      → SubscriptionStep db (create_subscription_full now db args).0
  unfolding create_subscription_full
  create-SubscriptionStep now db args = elim (Result-cases (checked_subscription now db args)) [
    | inr (e, p) ↦ kept (rw (p, create_subscription_full) refl)
    | inl (s, p) ↦ elim (Bool-cases (exists_row (subscription_named s.name) db.subscriptions)) [
      | inl t ↦ kept (rw (p, t, create_subscription_full) refl)
      | inr t ↦
          added s (checked_subscription-IsConfigured now db args p) t
            (rw (p, t, create_subscription_full) refl)
    ]
  ]

  home_grows :
      (subs : List PubSubSubscription) (s : PubSubSubscription) (n : ℕ) (m : PubSubMessage)
      → IsSound uuids subs n m
      → IsSound uuids (subs ++ s ∷ []) n m
  home_grows subs s n m x =
      let (h, i, e) = x.home in
      record {
        home = (h, Memᴰ.append_left (s ∷ []) i, e);
        from_draw = x.from_draw;
        lease = x.lease;
      }

  pub create_subscription_full-IsValid :
      (now : ℕ) (db : Db) (args : SubscriptionArgs)
      → IsValid uuids db
      → IsValid uuids (create_subscription_full now db args).0
  create_subscription_full-IsValid now db args v = elim (create-SubscriptionStep now db args) [
    | kept e ↦ rw e v
    | added s c absent e ↦ rw e (record {
      topic_names = v.topic_names;
      subscription_names =
          Unique-snoc (λ t. t.name) db.subscriptions s v.subscription_names
            (absent-Apart (λ t. t.name) (subscription_named s.name) s db.subscriptions
              (λ y d. rw d (eq_refl s.name)) absent);
      snapshot_names = v.snapshot_names;
      acks = v.acks;
      settings = λ x i. elim (Memᴰ.append_cases db.subscriptions i) [
        | inl j ↦ v.settings x j
        | inr j ↦ rw (Memᴰ.eq_of_singleton j) c
      ];
      messages = λ m i. home_grows db.subscriptions s db.drawn m (v.messages m i);
    })
  ]

  update-IsConfigured :
      (name : String) (new s : PubSubSubscription)
      → IsConfigured new
      → IsConfigured s
      → IsConfigured (if subscription_named name s then set_subscription new s else s)
  unfolding set_subscription
  update-IsConfigured name new s c d = elim (Bool-cases (s.name == name)) [
    | inl t ↦
        rw t (record { deadline = c.deadline; filter = c.filter; dead_letter = c.dead_letter })
    | inr t ↦ rw t d
  ]

  updated_name :
      (name : String) (new s : PubSubSubscription)
      → (if subscription_named name s then set_subscription new s else s).name ≡ s.name
  unfolding set_subscription
  updated_name name new s = elim (Bool-cases (s.name == name)) [
    | inl t ↦ rw t refl
    | inr t ↦ rw t refl
  ]

  updated-IsValid :
      (db : Db) (name : String) (new : PubSubSubscription)
      → IsConfigured new
      → IsValid uuids db
      → IsValid uuids (record db {
        subscriptions =
            update_where (subscription_named name) (set_subscription new) db.subscriptions;
      })
  updated-IsValid db name new c v = record {
    topic_names = v.topic_names;
    subscription_names =
        Unique-update_where (λ s. s.name) (subscription_named name) (set_subscription new)
          db.subscriptions (λ s. unfold set_subscription in refl) v.subscription_names;
    snapshot_names = v.snapshot_names;
    acks = v.acks;
    settings = λ s i.
        let (x, j, e) =
          update_where_mem (subscription_named name) (set_subscription new) db.subscriptions i in
        rw e (update-IsConfigured name new x c (v.settings x j));
    messages = λ m i.
        let sound = v.messages m i in
        let (h, j, e) = sound.home in
        record {
          home = (
            _,
            mem_update_where (subscription_named name) (set_subscription new) db.subscriptions j,
            updated_name name new h ∙ e,
          );
          from_draw = sound.from_draw;
          lease = sound.lease;
        };
  }

  pub update_subscription-IsValid :
      (db : Db) (name : String) (u : SubscriptionUpdate)
      → IsValid uuids db
      → IsValid uuids (update_subscription db name u).0
  unfolding update_subscription get_subscription
  update_subscription-IsValid db name u v = elim (Option-cases (get_subscription db name)) [
    | inl p ↦ rw (p, update_subscription) v
    | inr (sub, p) ↦ elim (Result-cases (updated_subscription db sub u)) [
      | inr (e, q) ↦ rw (p, q, update_subscription) v
      | inl (new, q) ↦
          let (i, t) = select_one_mem (subscription_named name) db.subscriptions p in
          rw (p, q, update_subscription)
            (updated-IsValid db name new
              (updated_subscription-IsConfigured db sub u (v.settings sub i) q) v)
    ]
  ]

  -- No message is left without its subscription.
  pub delete_subscription-IsValid :
      (db : Db) (name : String) → IsValid uuids db → IsValid uuids (delete_subscription db name).0
  unfolding delete_subscription
  delete_subscription-IsValid db name v = record {
    topic_names = v.topic_names;
    subscription_names =
        Unique-delete_where (λ s. s.name) (subscription_named name) db.subscriptions
          v.subscription_names;
    snapshot_names = v.snapshot_names;
    acks = Unique-delete_where ack (λ m. m.subscription == name) db.messages v.acks;
    settings =
        λ s i. v.settings s (delete_where_mem (subscription_named name) db.subscriptions i).0;
    messages = λ m i.
        let (j, other) = delete_where_mem (λ x. x.subscription == name) db.messages i in
        let sound = v.messages m j in
        let (h, k, e) = sound.home in
        record {
          home = (h, mem_delete_where (subscription_named name) db.subscriptions k (rw e other), e);
          from_draw = sound.from_draw;
          lease = sound.lease;
        };
  }
