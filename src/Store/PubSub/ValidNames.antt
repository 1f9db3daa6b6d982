-- ===== src/Store/PubSub/ValidNames.antt =====
-- The operations on topics and snapshots keep what the tables promise.
use noctaxris_gcp.Base.{
  ℕ, ◌+◌, ◌*◌, String, false, ◌||◌, ◌==◌, ◌≡◌, refl, inl, inr, List, [], ◌∷◌, ◌++◌, Option, arith,
  eq_refl, exists_row, absent-Apart, Unique-snoc, Unique-delete_where, Unique-update_where, Unique,
  Bool-cases, Option-cases, trim_space,
}
use noctaxris_gcp.Store.Stamps.{second, format}
use noctaxris_gcp.Store.PubSub.Types.{
  or_empty_map, Db, PubSubSubscription, PubSubTopic, PubSubSnapshot, StringMap, Uuids,
}
use noctaxris_gcp.Store.PubSub.Topics.{
  topic_named, get_topic, create_topic_with_labels, update_topic_labels, delete_topic,
}
use noctaxris_gcp.Store.PubSub.Subscriptions.{get_subscription}
use noctaxris_gcp.Store.PubSub.Snapshots.{
  snapshot_named, snapshot_project, create_snapshot, delete_snapshot,
}
use noctaxris_gcp.Store.PubSub.Valid.{IsValid}

module _ (uuids : Uuids) where
  -- What a topic, a subscription or a snapshot operation leaves alone stays valid.
  pub topics-IsValid :
      (db : Db) (topics : List PubSubTopic)
      → IsValid uuids db
      → Unique (λ t. t.name) topics
      → IsValid uuids (record db { topics = topics })
  topics-IsValid db topics v u = record {
    topic_names = u;
    subscription_names = v.subscription_names;
    snapshot_names = v.snapshot_names;
    acks = v.acks;
    settings = v.settings;
    messages = v.messages;
  }

  pub create_topic_with_labels-IsValid :
      (now : ℕ) (db : Db) (raw project : String) (labels : Option StringMap)
      → IsValid uuids db
      → IsValid uuids (create_topic_with_labels now db raw project labels).0
  create_topic_with_labels-IsValid now db raw project labels v =
      let topic : PubSubTopic = record {
        name = trim_space raw;
        project_id = trim_space project;
        labels = or_empty_map labels;
        created_at = format now;
      } in
      elim (Bool-cases (exists_row (topic_named (trim_space raw)) db.topics)) [
        | inl t ↦
            let same : (create_topic_with_labels now db raw project labels).0 ≡ db =
              unfold create_topic_with_labels in ground arith in
            rw same v
        | inr t ↦ elim (Bool-cases (trim_space raw == "" || trim_space project == "")) [
          | inl b ↦ unfold create_topic_with_labels in rw (b, create_topic_with_labels) v
          | inr b ↦
              unfold create_topic_with_labels in
              rw (b, t, create_topic_with_labels)
                (topics-IsValid db (db.topics ++ topic ∷ []) v (
                  Unique-snoc (λ t. t.name) db.topics topic v.topic_names
                    (absent-Apart (λ t. t.name) (topic_named (trim_space raw)) topic db.topics
                      (λ y d. rw d (eq_refl (trim_space raw))) t)))
        ]
      ]

  pub update_topic_labels-IsValid :
      (db : Db) (name : String) (labels : Option StringMap)
      → IsValid uuids db
      → IsValid uuids (update_topic_labels db name labels).0
  unfolding update_topic_labels
  update_topic_labels-IsValid db name labels v = elim (Option-cases (get_topic db name)) [
    | inl p ↦ rw (p, update_topic_labels) v
    | inr (t, p) ↦
        rw (p, update_topic_labels)
          (topics-IsValid db _ v (
            Unique-update_where (λ t. t.name) (topic_named name) _ db.topics (λ t. refl)
              v.topic_names))
  ]

  pub delete_topic-IsValid :
      (db : Db) (name : String) → IsValid uuids db → IsValid uuids (delete_topic db name).0
  unfolding delete_topic
  delete_topic-IsValid db name v =
      topics-IsValid db _ v
        (Unique-delete_where (λ t. t.name) (topic_named name) db.topics v.topic_names)

  pub snapshots-IsValid :
      (db : Db) (snapshots : List PubSubSnapshot)
      → IsValid uuids db
      → Unique (λ t. t.name) snapshots
      → IsValid uuids (record db { snapshots = snapshots })
  snapshots-IsValid db snapshots v u = record {
    topic_names = v.topic_names;
    subscription_names = v.subscription_names;
    snapshot_names = u;
    acks = v.acks;
    settings = v.settings;
    messages = v.messages;
  }

  pub delete_snapshot-IsValid :
      (db : Db) (name : String) → IsValid uuids db → IsValid uuids (delete_snapshot db name).0
  unfolding delete_snapshot
  delete_snapshot-IsValid db name v =
      snapshots-IsValid db _ v
        (Unique-delete_where (λ s. s.name) (snapshot_named name) db.snapshots v.snapshot_names)

  -- A database with a new snapshot, or the same.
  pub data SnapshotStep (db db' : Db) : Type 0 where
    kept : db' ≡ db → SnapshotStep db db'
    added :
        (s : PubSubSnapshot)
        → exists_row (snapshot_named s.name) db.snapshots ≡ false
        → db' ≡ record db { snapshots = db.snapshots ++ s ∷ [] }
        → SnapshotStep db db'

  -- The row that `CreateSnapshot` inserts.
  abbrev snapshot_row :
      ℕ → String → String → PubSubSubscription → String → Option StringMap → PubSubSnapshot
  snapshot_row now name project sub subscription labels = record {
    name = name;
    project_id = project;
    topic = sub.topic;
    subscription = subscription;
    labels = or_empty_map labels;
    expire_time = format (now + 7 * 24 * 3600 * second);
    created_at = format now;
  }

  pub create-SnapshotStep :
      (now : ℕ) (db : Db) (raw subscription : String) (labels : Option StringMap)
      → SnapshotStep db (create_snapshot now db raw subscription labels).0
  unfolding create_snapshot
  create-SnapshotStep now db raw subscription labels =
      elim (Bool-cases (trim_space raw == "" || trim_space subscription == "")) [
        | inl b ↦ kept (rw (b, create_snapshot) refl)
        | inr b ↦ elim (Option-cases (get_subscription db (trim_space subscription))) [
          | inl p ↦ kept (rw (b, p, create_snapshot) refl)
          | inr (sub, p) ↦ elim (Option-cases (snapshot_project (trim_space raw))) [
            | inl q ↦ kept (rw (b, p, q, create_snapshot) refl)
            | inr (project, q) ↦
                elim (Bool-cases (exists_row (snapshot_named (trim_space raw)) db.snapshots)) [
                  | inl t ↦ kept (rw (b, p, q, t, create_snapshot) refl)
                  | inr t ↦
                      added
                        (snapshot_row now (trim_space raw) project sub (trim_space subscription)
                          labels)
                        t (rw (b, p, q, t, create_snapshot) refl)
                ]
          ]
        ]
      ]

  pub create_snapshot-IsValid :
      (now : ℕ) (db : Db) (raw subscription : String) (labels : Option StringMap)
      → IsValid uuids db
      → IsValid uuids (create_snapshot now db raw subscription labels).0
  create_snapshot-IsValid now db raw subscription labels v =
      elim (create-SnapshotStep now db raw subscription labels) [
        | kept e ↦ rw e v
        | added s absent e ↦ rw e (
            snapshots-IsValid db (db.snapshots ++ s ∷ []) v (
              Unique-snoc (λ t. t.name) db.snapshots s v.snapshot_names
                (absent-Apart (λ t. t.name) (snapshot_named s.name) s db.snapshots
                  (λ y d. rw d (eq_refl s.name)) absent)))
      ]
