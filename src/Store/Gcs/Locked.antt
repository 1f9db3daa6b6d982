-- ===== src/Store/Gcs/Locked.antt =====
-- What a locked retention policy of internal/store/gcs.go promises.
use noctaxris_gcp.Base.{
  ℕ, ◌+◌, ◌*◌, ◌<◌, ◌≤◌, String, Bool, true, false, ◌≡◌, ap, ◌∙◌, inl, inr, ◌&&◌, ◌==◌, List, [],
  ◌∷◌, Option, some, ok, arith, eq_iff, ltb, all_pass, select_one, exists_row, exists_row_none,
  delete_where, row_at-delete, assign, Bool-cases,
}
use noctaxris_gcp.Store.Stamps.{second}
use noctaxris_gcp.Store.Paths.Buckets.{gcs_bucket_dir}
use noctaxris_gcp.Store.Gcs.Types.{Bucket, ObjectMeta, GcsDb, GcsWorld}
use noctaxris_gcp.Store.Gcs.Buckets.{
  bucket_named, read_bucket, get_bucket, without_dir, delete_bucket,
}
use noctaxris_gcp.Store.Gcs.Lookup.{get_object}
use noctaxris_gcp.Store.Gcs.Calls.{
  GcsCall, create, patch, drop, put, delete, revise, copy, compose, bump, gcs_call, run_gcs,
}
use noctaxris_gcp.Store.Gcs.Newest.{latest_mem}
use noctaxris_gcp.Store.Gcs.Held.{Held, bucket_there}
use noctaxris_gcp.Store.Gcs.Kept.{
  Kept, delete_object-Kept, put-Kept, copy_object-Kept, compose_object-Kept,
}
use noctaxris_gcp.Store.Gcs.Revised.{
  SameObject, SameObject-trans, Still, Held-Still, patch_object_metadata-Still,
}
use noctaxris_gcp.Store.Gcs.Policies.{
  bounded, rebucketed-Kept, same_lock, create_bucket-Kept, patch_bucket-Kept,
  bump_bucket_metageneration-Kept,
}

-- A call before a time, with a bounded period where it sets one.
abbrev pub in_time : ℕ → ℕ × GcsCall → Bool
in_time until (now, patch name location storage_class labels retention) =
    ltb now until && bounded retention
in_time until (now, _) = ltb now until

module _ (w : GcsWorld) (bucket name : String) (o : ObjectMeta) (created period : ℕ) where
  delete_bucket-Kept :
      (db : GcsDb) (target : String)
      → Kept w bucket name o created period db
      → Kept w bucket name o created period (delete_bucket w db target).0
  unfolding delete_bucket assign
  delete_bucket-Kept db target h =
      elim (Bool-cases (exists_row (λ (x : ObjectMeta). x.bucket == target) db.objects)) [
        | inl t ↦ rw (t, delete_bucket) h
        | inr empty ↦ elim (Bool-cases (exists_row (bucket_named target) db.buckets)) [
          | inr f ↦ rw (empty, f, delete_bucket) h
          | inl t ↦
              rw (empty, t, delete_bucket)
                (rebucketed-Kept w bucket name o created period db
                  (delete_where (bucket_named target) db.buckets)
                  (without_dir (gcs_bucket_dir w.getwd w.data_root target) db.files) h.row h
                  (at_bucket empty) (same_lock w bucket name o created period db h))
        ]
      ]
    where
      at_bucket :
          exists_row (λ (x : ObjectMeta). x.bucket == target) db.objects ≡ false
          → select_one (bucket_named bucket) (delete_where (bucket_named target) db.buckets)
            ≡ some h.row
      at_bucket empty =
          let (m, here) = latest_mem bucket name db.objects h.newest in
          let apart : o.bucket == target ≡ false =
            exists_row_none (λ (x : ObjectMeta). x.bucket == target) db.objects empty m in
          let other : target == bucket ≡ false =
            ground (arith, eq_iff o.bucket target, eq_iff target bucket, eq_iff o.bucket bucket) in
          ap (λ (f : String → Option Bucket). f bucket)
            (row_at-delete (λ (x : Bucket). x.name) target db.buckets)
          ∙ rw other h.at_name

module _ (w : GcsWorld) (bucket name : String) (created period : ℕ) (positive : 0 < period) where
  module _ (o : ObjectMeta) (parsed : w.parse_gcs_time o.created_at ≡ ok created) where
    gcs_call-Still :
        (now : ℕ) (db : GcsDb) (call : GcsCall)
        → in_time (created + period * second) (now, call) ≡ true
        → Kept w bucket name o created period db
        → Still w bucket name created period o (gcs_call w now db call)
    unfolding gcs_call
    gcs_call-Still now db (create n p location storage_class) t h =
        Held-Still w bucket name created period o _
          (create_bucket-Kept w bucket name o created period now db n p location storage_class h)
    gcs_call-Still now db (patch n location storage_class labels retention) t h =
        Held-Still w bucket name created period o _ (
          patch_bucket-Kept w bucket name o created period now db n location storage_class labels
            retention (ground arith) h)
    gcs_call-Still now db (drop n) t h =
        Held-Still w bucket name created period o _
          (delete_bucket-Kept w bucket name o created period db n h)
    gcs_call-Still now db (put b n content_type bytes meta) t h =
        Held-Still w bucket name created period o _ (
          put-Kept w bucket name o created period parsed positive now db b n content_type bytes meta
            h (ground arith))
    gcs_call-Still now db (delete b n generation) t h =
        Held-Still w bucket name created period o _ (
          delete_object-Kept w bucket name o created period parsed positive now db b n generation h
            (ground arith))
    gcs_call-Still now db (revise b n generation p) t h =
        patch_object_metadata-Still w bucket name created period now db b n generation p o h
    gcs_call-Still now db (copy src_bucket src_name src_generation dst_bucket dst_name) t h =
        Held-Still w bucket name created period o _ (
          copy_object-Kept w bucket name o created period parsed positive now db src_bucket src_name
            src_generation dst_bucket dst_name h (ground arith))
    gcs_call-Still now db (compose b dest sources content_type) t h =
        Held-Still w bucket name created period o _ (
          compose_object-Kept w bucket name o created period parsed positive now db b dest sources
            content_type h (ground arith))
    gcs_call-Still now db (bump n current) t h =
        Held-Still w bucket name created period o _
          (bump_bucket_metageneration-Kept w bucket name o created period now db n current h)

  run_gcs-Still :
      (o : ObjectMeta) (db : GcsDb) (calls : List (ℕ × GcsCall))
      → w.parse_gcs_time o.created_at ≡ ok created
      → all_pass (in_time (created + period * second)) calls ≡ true
      → Kept w bucket name o created period db
      → Still w bucket name created period o (run_gcs w db calls)
  unfolding run_gcs all_pass
  run_gcs-Still o db [] parsed t h = Held-Still w bucket name created period o db h
  run_gcs-Still o db ((now, call) ∷ calls) parsed t h =
      let (a, same, k) = gcs_call-Still o parsed now db call (ground arith) h in
      let (b, same', k') =
        run_gcs-Still a (gcs_call w now db call) calls
          (ap w.parse_gcs_time same.created_at ∙ parsed) (ground arith) k in
      (b, SameObject-trans o a b same same', k')

  -- Take the newest generation of an object that is the only row of its generation, whose
  -- `created_at` is read as a time, and whose bucket has a locked policy of `period` seconds or
  -- more, of less than 2^63 nanoseconds, where `period` is not zero. Through all `GcsCall`s before
  -- `period` seconds from that time, of which none sets a policy of 2^63 nanoseconds or more, the
  -- newest generation stays that generation, and its row keeps the size, the path of the file, both
  -- hashes and `created_at`, while its other columns may be changed; and the policy stays locked and
  -- is for `period` seconds or more. Of the bytes in the file it says nothing.
  pub locked_object_kept :
      (o : ObjectMeta) (db : GcsDb) (calls : List (ℕ × GcsCall))
      → w.parse_gcs_time o.created_at ≡ ok created
      → Held w bucket name o created period db
      → all_pass (in_time (created + period * second)) calls ≡ true
      → ((o' : ObjectMeta) × (get_object (run_gcs w db calls) bucket name 0 ≡ some o')
          × SameObject o o')
        × ((b : Bucket) × (get_bucket (run_gcs w db calls) bucket ≡ some b)
            × (b.retention_is_locked ≡ true)
            × (period ≤ b.retention_period_seconds))
  unfolding get_object
  locked_object_kept o db calls parsed h t =
      let (o', same, k) = run_gcs-Still o db calls parsed t h in
      (
        (o', k.newest, same),
        (
          read_bucket k.row,
          bucket_there w bucket name o' created period (run_gcs w db calls) k,
          k.locked,
          k.long,
        ),
      )
