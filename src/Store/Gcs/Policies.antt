-- ===== src/Store/Gcs/Policies.antt =====
-- What the calls of internal/store/gcs.go on buckets leave of a locked retention policy.
use noctaxris_gcp.Base.{
  ℕ, ◌+◌, ◌*◌, ◌^◌, ◌<◌, ◌≤◌, String, Bool, true, false, ◌≡◌, refl, ap, ◌∙◌, inl, inr, ◌||◌, ◌==◌,
  List, [], ◌∷◌, ◌++◌, Option, none, some, ok, arith, eq_iff, ltb, select_one, select_one_front,
  subst, exists_row, update_where, row_at-update, assign, trim_space, Bool-cases, Option-cases,
  Result-cases,
}
use mathlib.Core.Option.{map}
use noctaxris_gcp.Store.Stamps.{second}
use noctaxris_gcp.Store.PubSub.Types.{StringMap}
use noctaxris_gcp.Store.Paths.Buckets.{validate_gcs_bucket_name}
use noctaxris_gcp.Store.Gcs.Types.{Bucket, BucketRetentionPolicy, ObjectMeta, GcsDb, GcsWorld}
use noctaxris_gcp.Store.Gcs.Buckets.{
  bucket_named, inserted_bucket, fresh_bucket, read_bucket, get_bucket, shortens, with_retention,
  patched_retention, write_bucket, changed_bucket, create_bucket, patch_bucket,
  bump_bucket_metageneration,
}
use noctaxris_gcp.Store.Gcs.Held.{bucket_there}
use noctaxris_gcp.Store.Gcs.Kept.{Kept}

-- No period of 2^63 nanoseconds or more.
abbrev pub bounded : Option BucketRetentionPolicy → Bool
bounded none = true
bounded (some r) = ltb (r.retention_period_seconds * second) (2 ^ 63)

-- `b` is locked, for as long as `a` or longer.
pub record Locked (a b : Bucket) : Type 0 where
  pub stays : b.retention_is_locked ≡ true
  pub longer : a.retention_period_seconds ≤ b.retention_period_seconds
  pub fits : b.retention_period_seconds * second < 2 ^ 63

with_retention-Locked :
    (now : String) (b : Bucket) (p : BucketRetentionPolicy)
    → shortens b p ≡ false
    → b.retention_is_locked ≡ true
    → bounded (some p) ≡ true
    → Locked b (with_retention now b p)
unfolding shortens with_retention
with_retention-Locked now b p f locked short = record {
  stays = ground arith;
  longer = ground arith;
  fits = ground arith;
}

-- What a change of the policy leaves of a locked one.
patched_retention-Locked :
    (now : String) (b : Bucket) (retention : Option BucketRetentionPolicy) {r : Bucket}
    → patched_retention now b retention ≡ ok r
    → b.retention_is_locked ≡ true
    → b.retention_period_seconds * second < 2 ^ 63
    → bounded retention ≡ true
    → Locked b r
unfolding patched_retention
patched_retention-Locked now b none {r} h locked short fits =
    let same : b ≡ r = cc in
    subst (Locked b) same (record { stays = locked; longer = omega arith; fits = short })
patched_retention-Locked now b (some p) {r} h locked short fits = elim (Bool-cases (shortens b p)) [
  | inl t ↦ cc (rw (t, patched_retention) at h)
  | inr f ↦
      let same : with_retention now b p ≡ r = cc (rw (f, patched_retention) at h) in
      subst (Locked b) same (with_retention-Locked now b p f locked fits)
]

module _ (w : GcsWorld) (bucket name : String) (o : ObjectMeta) (created period : ℕ) where
  -- Other rows of the bucket table, with a row of the bucket that is locked as well.
  pub rebucketed-Kept :
      (db : GcsDb) (bs : List Bucket) (files : String → Option (List ℕ)) (b : Bucket)
      (h : Kept w bucket name o created period db)
      → select_one (bucket_named bucket) bs ≡ some b
      → Locked h.row b
      → Kept w bucket name o created period (record db { buckets = bs; files = files })
  rebucketed-Kept db bs files b h at_name l = record {
    newest = h.newest;
    alone = h.alone;
    row = b;
    at_name = at_name;
    locked = l.stays;
    long = let a = h.long in let c = l.longer in omega arith;
    short = l.fits;
  }

  pub same_lock : (db : GcsDb) (h : Kept w bucket name o created period db) → Locked h.row h.row
  same_lock db h = record { stays = h.locked; longer = omega arith; fits = h.short }

  inserted_bucket-Kept :
      (db : GcsDb) (b : Bucket)
      → Kept w bucket name o created period db
      → Kept w bucket name o created period (inserted_bucket db b).0
  inserted_bucket-Kept db b h = elim (Bool-cases (exists_row (bucket_named b.name) db.buckets)) [
    | inl t ↦ rw t h
    | inr f ↦ rw f (
        rebucketed-Kept db (db.buckets ++ b ∷ []) db.files h.row h
          (select_one_front (bucket_named bucket) db.buckets (b ∷ []) h.at_name) (same_lock db h))
  ]

  pub create_bucket-Kept :
      (now : ℕ) (db : GcsDb) (n p location storage_class : String)
      → Kept w bucket name o created period db
      → Kept w bucket name o created period (create_bucket w now db n p location storage_class).0
  unfolding create_bucket
  create_bucket-Kept now db n p location storage_class h =
      elim (Bool-cases (trim_space n == "" || trim_space p == "")) [
        | inl a ↦ rw (a, create_bucket) h
        | inr a ↦ elim (Result-cases (validate_gcs_bucket_name (trim_space n))) [
          | inr (e, v) ↦ rw (a, create_bucket) (rw v h)
          | inl (u, v) ↦
              rw (a, create_bucket)
                (rw v (
                  inserted_bucket-Kept db
                    (fresh_bucket w now (trim_space n) (trim_space p) location storage_class) h))
        ]
      ]

  updated-Kept :
      (db : GcsDb) (target : String) (f : Bucket → Bucket)
      (h : Kept w bucket name o created period db)
      → ((x : Bucket) → (f x).name ≡ x.name)
      → (target == bucket ≡ true → Locked h.row (f h.row))
      → Kept w bucket name o created period
          (record db { buckets = update_where (bucket_named target) f db.buckets })
  unfolding assign
  updated-Kept db target f h names locks = elim (Bool-cases (target == bucket)) [
    | inr e ↦ rebucketed-Kept db _ db.files h.row h (at_bucket ∙ rw e h.at_name) (same_lock db h)
    | inl t ↦
        rebucketed-Kept db _ db.files (f h.row) h
          (at_bucket ∙ rw (t, (eq_iff target bucket).0 t, h.at_name) refl) (locks t)
  ]
    where
      at_bucket :
          select_one (bucket_named bucket) (update_where (bucket_named target) f db.buckets)
          ≡ assign
              (λ n. select_one (bucket_named n) db.buckets)
              target
              (map f (select_one (bucket_named target) db.buckets))
              bucket
      at_bucket =
          ap (λ (m : String → Option Bucket). m bucket)
            (row_at-update (λ (x : Bucket). x.name) target f db.buckets names)

  pub bump_bucket_metageneration-Kept :
      (now : ℕ) (db : GcsDb) (target : String) (current : ℕ)
      → Kept w bucket name o created period db
      → Kept w bucket name o created period (bump_bucket_metageneration w now db target current)
  unfolding bump_bucket_metageneration
  bump_bucket_metageneration-Kept now db target current h =
      updated-Kept db target
        (λ b. record b { metageneration = current + 1; updated_at = w.format_time now }) h
        (λ x. refl) (λ t. record { stays = h.locked; longer = omega arith; fits = h.short })

  pub patch_bucket-Kept :
      (now : ℕ) (db : GcsDb) (target : String) (location storage_class : Option String)
      (labels : Option StringMap) (retention : Option BucketRetentionPolicy)
      → bounded retention ≡ true
      → Kept w bucket name o created period db
      → Kept w bucket name o created period
          (patch_bucket w now db target location storage_class labels retention).0
  unfolding patch_bucket
  patch_bucket-Kept now db target location storage_class labels retention fits h =
      elim (Option-cases (get_bucket db target)) [
        | inl n ↦ rw (n, patch_bucket) h
        | inr (b, g) ↦ elim (Result-cases (patched_retention (w.format_time now) b retention)) [
          | inr (e, p) ↦ rw (g, patch_bucket) (rw p h)
          | inl (r, p) ↦
              rw (g, patch_bucket)
                (rw p (
                  updated-Kept db target
                    (write_bucket
                      (changed_bucket (w.format_time now) location storage_class labels b r))
                    h (λ x. refl) (λ t. locks b r t g p)))
        ]
      ]
    where
      locks :
          (b r : Bucket)
          → target == bucket ≡ true
          → get_bucket db target ≡ some b
          → patched_retention (w.format_time now) b retention ≡ ok r
          → Locked h.row (
              write_bucket
                (changed_bucket (w.format_time now) location storage_class labels b r)
                h.row)
      locks b r t g p =
          let here : read_bucket h.row ≡ b = cc (
            rw ((eq_iff target bucket).0 t) at g,
            bucket_there w bucket name o created period db h,
          ) in
          let l =
            patched_retention-Locked (w.format_time now) (read_bucket h.row) retention
              (rw (← here) at p) h.locked h.short fits in
          record { stays = l.stays; longer = l.longer; fits = l.fits }
