-- ===== src/Store/Gcs/Held.antt =====
-- The retention policies of internal/store/gcs.go: what a locked policy holds.
use noctaxris_gcp.Base.{
  ℕ, ◌+◌, ◌*◌, ◌%◌, ◌^◌, ◌<◌, ◌≤◌, String, true, false, ◌≡◌, refl, ap, ◌∙◌, inl, inr, Memᴰ, some,
  ok, err, arith, eq_iff, ltb, eqb, select_one, select_one_mem, select_one-none, Bool-cases,
  Option-cases, Result-cases,
}
use noctaxris_gcp.Base.{Error}
use noctaxris_gcp.Store.Paths.Buckets.{validate_gcs_bucket_name}
use noctaxris_gcp.Store.Stamps.{second}
use noctaxris_gcp.Store.Gcs.Types.{Bucket, ObjectMeta, GcsDb, GcsWorld}
use noctaxris_gcp.Store.Gcs.Buckets.{bucket_named, read_bucket, get_bucket}
use noctaxris_gcp.Store.Gcs.Lookup.{
  err_retention_policy_not_met, is_generation, latest, get_object, too_young, check_age,
  check_object_retention,
}
use noctaxris_gcp.Store.Gcs.Objects.{put_target, delete_object}
use noctaxris_gcp.Store.Gcs.Newest.{latest_mem, get_object_mem}

-- Where the product of the period stays below 2^63 nanoseconds, the age is tested as it is meant.
too_young_lem :
    (now created period : ℕ)
    → period * second < 2 ^ 63
    → too_young now created period ≡ ltb now (created + period * second)
unfolding too_young
too_young_lem now created period h =
    let plain : period * second % 2 ^ 64 ≡ period * second = omega arith in rw plain (ground arith)

module _ (w : GcsWorld) (bucket name : String) (o : ObjectMeta) (created period : ℕ) where
  -- The object is the newest of its name, alone with its generation, and its bucket has a locked
  -- policy of at least the period.
  pub record Held (db : GcsDb) : Type 0 where
    pub newest : latest bucket name db.objects ≡ some o
    pub alone :
        (x : ObjectMeta)
        → Memᴰ x db.objects
        → is_generation bucket name o.generation x ≡ true
        → x ≡ o
    pub row : Bucket
    pub at_name : select_one (bucket_named bucket) db.buckets ≡ some row
    pub locked : row.retention_is_locked ≡ true
    pub long : period ≤ row.retention_period_seconds
    pub short : row.retention_period_seconds * second < 2 ^ 63

  pub bucket_there : (db : GcsDb) (h : Held db) → get_bucket db bucket ≡ some (read_bucket h.row)
  unfolding get_bucket
  bucket_there db h = rw (h.at_name, get_bucket) refl

  module _ (parsed : w.parse_gcs_time o.created_at ≡ ok created) (positive : 0 < period) where
    too_young_here :
        (now : ℕ) (db : GcsDb) (h : Held db)
        → now < created + period * second
        → check_age w now (read_bucket h.row) o ≡ err err_retention_policy_not_met
    unfolding check_age
    too_young_here now db h early =
        let young : too_young now created h.row.retention_period_seconds ≡ true =
          too_young_lem now created h.row.retention_period_seconds h.short
          ∙ within now created h.row.retention_period_seconds h.long early in
        rw parsed (rw young refl)
      where
        within :
            (now created p : ℕ)
            → period ≤ p
            → now < created + period * second
            → ltb now (created + p * second) ≡ true
        within now created p a b = ground arith

    refused :
        (now : ℕ) (db : GcsDb) (generation : ℕ)
        → Held db
        → now < created + period * second
        → get_object db bucket name generation ≡ some o
        → check_object_retention w now db bucket name generation ≡ err err_retention_policy_not_met
    unfolding check_object_retention get_bucket
    refused now db generation h early found =
        let set : eqb h.row.retention_period_seconds 0 ≡ false = ground (arith, h.long) in
        rw (h.at_name, check_object_retention) (rw (set, found) (too_young_here now db h early))

    newest_found : (db : GcsDb) → Held db → get_object db bucket name 0 ≡ some o
    unfolding get_object
    newest_found db h = h.newest

    exact_found : (db : GcsDb) → Held db → get_object db bucket name o.generation ≡ some o
    unfolding get_object
    exact_found db h = elim (Bool-cases (ltb 0 o.generation)) [
      | inr f ↦ rw (f, get_object) h.newest
      | inl t ↦
          elim (Option-cases (select_one (is_generation bucket name o.generation) db.objects)) [
            | inl n ↦
                let (m, i) = latest_mem bucket name db.objects h.newest in
                let missed : is_generation bucket name o.generation o ≡ false =
                  select_one-none (is_generation bucket name o.generation) db.objects n m in
                absurd (ground arith)
            | inr (y, p) ↦
                let (m, i) = select_one_mem (is_generation bucket name o.generation) db.objects p in
                rw (t, get_object) (p ∙ ap some (h.alone y m i))
          ]
    ]

    -- A deletion of the object itself is refused.
    pub delete_refused :
        (now : ℕ) (db : GcsDb) (b n : String) (generation : ℕ) (x : ObjectMeta)
        → Held db
        → now < created + period * second
        → get_object db b n generation ≡ some x
        → is_generation x.bucket x.name x.generation o ≡ true
        → (delete_object w now db b n generation).0 ≡ db
    unfolding delete_object
    delete_refused now db b n generation x h early found same =
        let (m, fits) = get_object_mem db b n generation found in
        let (m', here) = latest_mem bucket name db.objects h.newest in
        let eb : b ≡ bucket =
          ground (arith, eq_iff x.bucket b, eq_iff o.bucket x.bucket, eq_iff o.bucket bucket) in
        let en : n ≡ name =
          ground (arith, eq_iff x.name n, eq_iff o.name x.name, eq_iff o.name name) in
        let eg : x.generation ≡ o.generation = ground arith in
        let stopped : check_object_retention w now db b n x.generation
            ≡ err err_retention_policy_not_met =
          rw (eb, en, eg) (refused now db o.generation h early (exact_found db h)) in
        rw (found, delete_object) (rw stopped refl)

    pub put_refused :
        (now : ℕ) (db : GcsDb)
        → Held db
        → now < created + period * second
        → (e : Error) × (put_target w now db bucket name ≡ err e)
    unfolding put_target
    put_refused now db h early = elim (Result-cases (validate_gcs_bucket_name bucket)) [
      | inr (e, p) ↦ (e, rw (p, put_target) refl)
      | inl (u, p) ↦ (
        err_retention_policy_not_met,
        rw (p, put_target)
            (rw (bucket_there db h) (rw (refused now db 0 h early (newest_found db h)) refl)),
      )
    ]
