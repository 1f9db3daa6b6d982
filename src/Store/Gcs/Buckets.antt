-- ===== src/Store/Gcs/Buckets.antt =====
-- The methods of internal/store/gcs.go on buckets. A write returns the state that it leaves; the SQL
-- engine and the file system are taken not to fail.
use noctaxris_gcp.Base.{
  ℕ, ◌+◌, String, Bool, true, false, ◌&&◌, ◌||◌, ◌==◌, List, [], ◌∷◌, ◌++◌, Option, none, some,
  Result, Error, ok, err, message, concat, trim_space, has_prefix, select_where, select_one,
  exists_row, update_where, delete_where, order_by, map, ltb, eqb, if◌then◌else◌,
}
use noctaxris_gcp.Store.PubSub.Types.{StringMap}
use noctaxris_gcp.Store.PubSub.Topics.{name_le}
use noctaxris_gcp.Store.Kms.Keys.{or_default}
use noctaxris_gcp.Store.Paths.Buckets.{validate_gcs_bucket_name, gcs_bucket_dir}
use noctaxris_gcp.Store.Gcs.Types.{Bucket, BucketRetentionPolicy, ObjectMeta, GcsDb, GcsWorld}

abbrev pub err_retention_policy_locked : Error
err_retention_policy_locked = message "retention policy is locked"

unfoldable pub bucket_iam_resource : String → String
bucket_iam_resource bucket = concat "buckets/" bucket

abbrev pub bucket_named : String → Bucket → Bool
bucket_named name b = b.name == name

unfoldable pub fresh_bucket :
    GcsWorld → ℕ → (name project_id location storage_class : String) → Bucket
fresh_bucket w now name project_id location storage_class = record {
  name = name;
  project_id = project_id;
  location = or_default "US" location;
  storage_class = or_default "STANDARD" storage_class;
  labels = [];
  metageneration = 1;
  retention_period_seconds = 0;
  retention_is_locked = false;
  retention_effective_time = "";
  created_at = w.format_time now;
  updated_at = w.format_time now;
}

-- INSERT OR IGNORE: `none` says that the name is there already. Its directory is made on the way.
abbrev pub inserted_bucket : GcsDb → Bucket → GcsDb × Result (Option Bucket)
inserted_bucket db b =
    if exists_row (bucket_named b.name) db.buckets
    then (db, ok none)
    else (record db { buckets = db.buckets ++ b ∷ [] }, ok (some b))

unfoldable pub create_bucket :
    GcsWorld
    → ℕ
    → GcsDb
    → (name project_id location storage_class : String) → GcsDb × Result (Option Bucket)
unfolding fresh_bucket
create_bucket w now db raw_name raw_project_id location storage_class =
    let name = trim_space raw_name in
    let project_id = trim_space raw_project_id in
    if name == "" || project_id == ""
    then (db, err (message "bucket name and project required"))
    else elim (validate_gcs_bucket_name name) [
      | err e ↦ (db, err e)
      | ok _ ↦ inserted_bucket db (fresh_bucket w now name project_id location storage_class)
    ]

-- A row as it is read: no time of a change is that of the creation.
abbrev pub read_bucket : Bucket → Bucket
read_bucket b = record b { updated_at = or_default b.created_at b.updated_at }

unfoldable pub get_bucket : GcsDb → String → Option Bucket
get_bucket db name = elim (select_one (bucket_named name) db.buckets) [
  | none ↦ none
  | some b ↦ some (read_bucket b)
]

unfoldable pub list_buckets : GcsDb → String → List Bucket
list_buckets db project_id = map read_bucket (
    order_by (λ a b. name_le a.name b.name)
      (select_where (λ b. b.project_id == project_id) db.buckets))

-- The guard of a locked policy.
unfoldable pub shortens : Bucket → BucketRetentionPolicy → Bool
shortens b r =
    b.retention_is_locked
    && (ltb r.retention_period_seconds b.retention_period_seconds
        || eqb r.retention_period_seconds 0)

-- `b.RetentionEffectiveTime` after the three tests.
unfoldable pub effective_time : String → Bucket → BucketRetentionPolicy → String
effective_time now b r =
    let period = r.retention_period_seconds in
    let started =
      if ltb 0 period && (b.retention_effective_time == "" || eqb b.retention_period_seconds 0)
      then now
      else b.retention_effective_time in
    or_default (if eqb period 0 then "" else started) r.effective_time

unfoldable pub with_retention : String → Bucket → BucketRetentionPolicy → Bucket
unfolding effective_time
with_retention now b r = record b {
  retention_period_seconds = r.retention_period_seconds;
  retention_is_locked =
      if eqb r.retention_period_seconds 0 then false else r.is_locked || b.retention_is_locked;
  retention_effective_time = effective_time now b r;
}

abbrev pub given : Option String → String → String
given none old = old
given (some new) old = if new == "" then old else new

abbrev pub given_labels : Option StringMap → StringMap → StringMap
given_labels none old = old
given_labels (some new) old = new

unfoldable pub patched_retention : String → Bucket → Option BucketRetentionPolicy → Result Bucket
unfolding shortens with_retention
patched_retention now b none = ok b
patched_retention now b (some r) =
    if shortens b r then err err_retention_policy_locked else ok (with_retention now b r)

-- What the UPDATE writes into the row of the name.
abbrev pub write_bucket : Bucket → Bucket → Bucket
write_bucket b old = record old {
  location = b.location;
  storage_class = b.storage_class;
  labels = b.labels;
  metageneration = b.metageneration;
  updated_at = b.updated_at;
  retention_period_seconds = b.retention_period_seconds;
  retention_is_locked = b.retention_is_locked;
  retention_effective_time = b.retention_effective_time;
}

abbrev pub changed_bucket :
    String → Option String → Option String → Option StringMap → Bucket → Bucket → Bucket
changed_bucket now location storage_class labels old b = record b {
  location = given location old.location;
  storage_class = given storage_class old.storage_class;
  labels = given_labels labels old.labels;
  metageneration = old.metageneration + 1;
  updated_at = now;
}

unfoldable pub patch_bucket :
    GcsWorld
    → ℕ
    → GcsDb
    → String
    → Option String
    → Option String
    → Option StringMap
    → Option BucketRetentionPolicy
    → GcsDb × Result Bucket
unfolding patched_retention
patch_bucket w now db name location storage_class labels retention = elim (get_bucket db name) [
  | none ↦ (db, err (message "bucket not found"))
  | some b ↦ elim (patched_retention (w.format_time now) b retention) [
    | err e ↦ (db, err e)
    | ok r ↦
        let b' = changed_bucket (w.format_time now) location storage_class labels b r in
        (
          record db { buckets = update_where (bucket_named name) (write_bucket b') db.buckets },
          ok b',
        )
  ]
]

-- `bumpBucketMetageneration` of internal/store/gcs_notifications.go, with the number that was read.
unfoldable pub bump_bucket_metageneration : GcsWorld → ℕ → GcsDb → String → ℕ → GcsDb
bump_bucket_metageneration w now db bucket current = record db {
  buckets =
      update_where (bucket_named bucket)
        (λ b. record b { metageneration = current + 1; updated_at = w.format_time now }) db.buckets;
}

-- `os.RemoveAll(dir)`
abbrev pub without_dir : Result String → (String → Option (List ℕ)) → String → Option (List ℕ)
without_dir (err e) files path = files path
without_dir (ok dir) files path =
    if path == dir || has_prefix path (concat dir "/") then none else files path

-- `found`, with the error. The notification settings of the bucket are rows of another file.
unfoldable pub delete_bucket : GcsWorld → GcsDb → String → GcsDb × Bool × Result (Unit {0})
delete_bucket w db name =
    if exists_row (λ (o : ObjectMeta). o.bucket == name) db.objects
    then (db, true, err (message "bucket not empty"))
    else if exists_row (bucket_named name) db.buckets
    then (
      record db {
        buckets = delete_where (bucket_named name) db.buckets;
        files = without_dir (gcs_bucket_dir w.getwd w.data_root name) db.files;
      },
      true,
      ok tt,
    )
    else (db, false, ok tt)
