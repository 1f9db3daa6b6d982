-- ===== src/Store/Gcs/Calls.antt =====
-- The calls of internal/store/gcs.go that write to buckets and objects, as one type, with the write to
-- a bucket's row that internal/store/gcs_notifications.go makes.
-- `RewriteObject` is `CopyObject`, and the completion of an upload session is a `put`.
-- `SetObjectCreatedAt` is left out: only tests call it.
use noctaxris_gcp.Base.{ℕ, String, List, [], ◌∷◌, Option}
use noctaxris_gcp.Store.PubSub.Types.{StringMap}
use noctaxris_gcp.Store.Gcs.Types.{BucketRetentionPolicy, GcsDb, GcsWorld}
use noctaxris_gcp.Store.Gcs.Buckets.{
  create_bucket, patch_bucket, delete_bucket, bump_bucket_metageneration,
}
use noctaxris_gcp.Store.Gcs.Objects.{Extras, put_object_bytes_meta, delete_object}
use noctaxris_gcp.Store.Gcs.Metadata.{
  ObjectPatch, patch_object_metadata, copy_object, compose_object,
}

pub data GcsCall : Type 0 where
  create : (name project_id location storage_class : String) → GcsCall
  patch :
      String
      → Option String
      → Option String
      → Option StringMap
      → Option BucketRetentionPolicy
      → GcsCall
  drop : String → GcsCall
  put : (bucket name content_type : String) → List ℕ → Extras → GcsCall
  delete : String → String → ℕ → GcsCall
  revise : String → String → ℕ → Option ObjectPatch → GcsCall
  copy : String → String → ℕ → String → String → GcsCall
  compose : String → String → List String → String → GcsCall
  bump : String → ℕ → GcsCall

unfoldable pub gcs_call : GcsWorld → ℕ → GcsDb → GcsCall → GcsDb
gcs_call w now db (create name project_id location storage_class) =
    (create_bucket w now db name project_id location storage_class).0
gcs_call w now db (patch name location storage_class labels retention) =
    (patch_bucket w now db name location storage_class labels retention).0
gcs_call w now db (drop name) = (delete_bucket w db name).0
gcs_call w now db (put bucket name content_type bytes meta) =
    (put_object_bytes_meta w now db bucket name content_type bytes meta).0
gcs_call w now db (delete bucket name generation) =
    (delete_object w now db bucket name generation).0
gcs_call w now db (revise bucket name generation p) =
    (patch_object_metadata w now db bucket name generation p).0
gcs_call w now db (copy src_bucket src_name src_generation dst_bucket dst_name) =
    (copy_object w now db src_bucket src_name src_generation dst_bucket dst_name).0
gcs_call w now db (compose bucket dest sources content_type) =
    (compose_object w now db bucket dest sources content_type).0
gcs_call w now db (bump bucket current) = bump_bucket_metageneration w now db bucket current

unfoldable pub run_gcs : GcsWorld → GcsDb → List (ℕ × GcsCall) → GcsDb
unfolding gcs_call
run_gcs w db [] = db
run_gcs w db ((now, call) ∷ calls) = run_gcs w (gcs_call w now db call) calls
