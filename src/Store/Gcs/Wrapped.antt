-- ===== src/Store/Gcs/Wrapped.antt =====
-- Retention periods whose nanoseconds do not fit an `int64`, in internal/store/gcs.go.
use noctaxris_gcp.Base.{
  ℕ, ◌*◌, ◌%◌, ◌^◌, ◌<◌, ◌≤◌, String, true, false, ◌≡◌, refl, inl, inr, some, ok, arith, eqb, ltb,
  eq_iff, exists_row, exists_row_none, select_one_mem, Bool-cases,
}
use noctaxris_gcp.Store.Stamps.{second}
use noctaxris_gcp.Store.Gcs.Types.{Bucket, ObjectMeta, GcsDb, GcsWorld}
use noctaxris_gcp.Store.Gcs.Buckets.{get_bucket}
use noctaxris_gcp.Store.Gcs.Lookup.{
  is_generation, get_object, too_young, check_age, check_object_retention,
}
use noctaxris_gcp.Store.Gcs.Objects.{removed_object, delete_object}

wrapped_age :
    (now created period : ℕ)
    → created ≤ now
    → 2 ^ 63 ≤ period * second
    → period * second < 2 ^ 64
    → too_young now created period ≡ false
unfolding too_young
wrapped_age now created period past long wrapped =
    let plain : period * second % 2 ^ 64 ≡ period * second = omega arith in rw plain (ground arith)

module _ (w : GcsWorld) (now created : ℕ) (db : GcsDb) (bucket name : String) (b : Bucket)
    (o : ObjectMeta) where
  unprotected :
      (generation : ℕ)
      → get_bucket db bucket ≡ some b
      → 2 ^ 63 ≤ b.retention_period_seconds * second
      → b.retention_period_seconds * second < 2 ^ 64
      → get_object db bucket name generation ≡ some o
      → w.parse_gcs_time o.created_at ≡ ok created
      → created ≤ now
      → check_object_retention w now db bucket name generation ≡ ok tt
  unfolding check_object_retention check_age
  unprotected generation p long wrapped found parsed past =
      let set : eqb b.retention_period_seconds 0 ≡ false = ground arith in
      rw (p, check_object_retention)
        (rw (set, found)
          (rw parsed
            (rw (wrapped_age now created b.retention_period_seconds past long wrapped) refl)))

  -- Where the retention period of a bucket is 2^63 nanoseconds or more and less than 2^64, locked or
  -- not, a named generation of an object that was created now or earlier is deleted when that is
  -- asked, with its row and file.
  pub long_period_void :
      (generation : ℕ)
      → 0 < generation
      → get_bucket db bucket ≡ some b
      → 2 ^ 63 ≤ b.retention_period_seconds * second
      → b.retention_period_seconds * second < 2 ^ 64
      → get_object db bucket name generation ≡ some o
      → w.parse_gcs_time o.created_at ≡ ok created
      → created ≤ now
      → delete_object w now db bucket name generation ≡ (removed_object w db o, true, ok tt)
  unfolding delete_object
  long_period_void generation named p long wrapped found parsed past =
      let t : ltb 0 generation ≡ true = ground arith in
      let (m, fits) =
        select_one_mem (is_generation bucket name generation) db.objects
          (rw (t, get_object) at found) in
      let same : o.generation ≡ generation = ground arith in
      let free : check_object_retention w now db bucket name o.generation ≡ ok tt =
        rw same (unprotected generation p long wrapped found parsed past) in
      let own : is_generation o.bucket o.name o.generation o ≡ true =
        ground (arith, eq_iff o.bucket o.bucket, eq_iff o.name o.name) in
      elim (Bool-cases (exists_row (is_generation o.bucket o.name o.generation) db.objects)) [
        | inl there ↦ rw (found, delete_object) (rw free (rw there refl))
        | inr gone ↦ absurd (
            cc
              (own, exists_row_none (is_generation o.bucket o.name o.generation) db.objects gone m))
      ]
