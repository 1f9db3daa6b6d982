-- ===== src/Store/Gcs/Tests.antt =====
-- A bucket with a locked policy and its object, and two objects in one file.
use mathlib.Core.List.Memᴰ
use noctaxris_gcp.Base.{
  ℕ, ◌≤◌, String, true, false, ◌≡◌, refl, ◌⊎◌, inl, inr, List, [], ◌∷◌, Memᴰ, none, some, Result,
  ok, err, message, arith, all_pass, concat, assign, select_one, exists_row, has_prefix, contains,
  trim_space, to_lower, split_on, split_when,
}
use noctaxris_gcp.Store.Numerals.{itoa}
use noctaxris_gcp.Store.Paths.Filepath.{
  clean, clean_segments, clean_loop, clean_step, popped, join, join_slash, abs, rel, apart, way,
  ups,
}
use noctaxris_gcp.Store.Paths.Buckets.{
  validate_gcs_bucket_name, gcs_bucket_name_pattern, check_elements, related, join_under_root,
  ensure_under_gcs_root,
}
use noctaxris_gcp.Store.Gcs.Types.{Bucket, BucketRetentionPolicy, ObjectMeta, GcsDb, GcsWorld}
use noctaxris_gcp.Store.Gcs.Buckets.{
  get_bucket, patch_bucket, patched_retention, shortens, delete_bucket,
}
use noctaxris_gcp.Store.Gcs.Lookup.{check_object_retention, next_generation, latest, get_object}
use noctaxris_gcp.Store.Gcs.Objects.{
  no_extras, put_target, fresh_object, sanitize_object_path, slashed, clean_parts,
  put_object_bytes_meta, put_object_bytes, blob_file, read_object_bytes, removed_object,
  delete_object,
}
use noctaxris_gcp.Store.Gcs.Calls.{
  GcsCall, patch, drop, put, delete, revise, copy, compose, run_gcs,
}
use noctaxris_gcp.Store.Gcs.Held.{Held}
use noctaxris_gcp.Store.Gcs.Wrapped.{long_period_void}
use noctaxris_gcp.Store.Gcs.Metadata.{
  ObjectPatch, patched_object, patch_object_metadata, gather, compose_object,
}
use noctaxris_gcp.Store.Gcs.Revised.{SameObject}
use noctaxris_gcp.Store.Gcs.Locked.{locked_object_kept}
use noctaxris_gcp.Store.Gcs.Blobs.{slash_shares_blob}

abbrev lab : GcsWorld
lab = record {
  data_root = "/srv";
  getwd = ok "/";
  md5_base64 = λ bytes. "m";
  crc32c_base64 = λ bytes. "c";
  format_time = λ t. "now";
  parse_gcs_time = λ s. ok 5;
}

abbrev locked_bucket : Bucket
locked_bucket = record {
  name = "vault";
  project_id = "p";
  location = "US";
  storage_class = "STANDARD";
  labels = [];
  metageneration = 1;
  retention_period_seconds = 60;
  retention_is_locked = true;
  retention_effective_time = "now";
  created_at = "now";
  updated_at = "now";
}

abbrev kept : ObjectMeta
kept = record {
  bucket = "vault";
  name = "a";
  generation = 1;
  size = 1;
  content_type = "t";
  blob_path = "vault/1/a";
  md5_hash = "m";
  crc32c = "c";
  metadata = [];
  cache_control = "";
  content_disposition = "";
  content_encoding = "";
  content_language = "";
  metageneration = 1;
  created_at = "now";
  updated_at = "now";
}

abbrev stored : GcsDb
stored = record { buckets = locked_bucket ∷ []; objects = kept ∷ []; files = λ path. none }

abbrev longer : BucketRetentionPolicy
longer = record { retention_period_seconds = 90; is_locked = false; effective_time = "" }

abbrev plain_text : ObjectPatch
plain_text = record {
  content_type = "text/plain";
  metadata = none;
  cache_control = "";
  content_disposition = "";
  content_encoding = "";
  content_language = "";
}

abbrev calls : List (ℕ × GcsCall)
calls =
    (6, delete "vault" "a" 0)
    ∷ (7, put "vault" "a" "" (1 ∷ []) no_extras)
    ∷ (7, revise "vault" "a" 0 (some plain_text))
    ∷ (7, copy "vault" "a" 1 "vault" "a")
    ∷ (7, compose "vault" "a" ("a" ∷ []) "")
    ∷ (8, patch "vault" none none none (some longer))
    ∷ (9, drop "vault")
    ∷ []

kept_Held : Held lab "vault" "a" kept 5 60 stored
kept_Held = record {
  newest = unfold latest in refl;
  alone = λ x m same. only x (Memᴰ.cases_cons m);
  row = locked_bucket;
  at_name = unfold select_one in refl;
  locked = refl;
  long = omega arith;
  short = omega arith;
}
  where
    only : (x : ObjectMeta) → (x ≡ kept) ⊎ Memᴰ x [] → x ≡ kept
    only x (inl e) = e
    only x (inr m) = absurd (Memᴰ.not-nil m)

locked_object_kept_example :
    ((o' : ObjectMeta) × (get_object (run_gcs lab stored calls) "vault" "a" 0 ≡ some o')
      × SameObject kept o')
    × ((b : Bucket) × (get_bucket (run_gcs lab stored calls) "vault" ≡ some b)
        × (b.retention_is_locked ≡ true)
        × (60 ≤ b.retention_period_seconds))
locked_object_kept_example =
    locked_object_kept lab "vault" "a" 5 60 (omega arith) kept stored calls refl kept_Held
      (unfold all_pass in refl)

-- 300 years are more than 2^63 nanoseconds.
abbrev century_bucket : Bucket
century_bucket = record locked_bucket { retention_period_seconds = 9467280000 }

abbrev centuries : GcsDb
centuries = record stored { buckets = century_bucket ∷ [] }

long_period_void_example :
    delete_object lab 8 centuries "vault" "a" 1 ≡ (removed_object lab centuries kept, true, ok tt)
long_period_void_example =
    long_period_void lab 8 5 centuries "vault" "a" century_bucket kept 1 (omega arith)
      (unfold get_bucket select_one in refl) (omega arith) (omega arith)
      (unfold get_object select_one in refl) refl (omega arith)

-- A locked policy is not shortened, and its bucket not removed.
guarded :
    ((patch_bucket lab 6 stored "vault" none none none
        (some (record longer { retention_period_seconds = 59 }))).1
      ≡ err (message "retention policy is locked"))
    × (delete_bucket lab stored "vault" ≡ (stored, true, err (message "bucket not empty")))
unfolding patch_bucket get_bucket patched_retention shortens delete_bucket select_one exists_row
guarded = (refl, refl)

abbrev open_bucket : GcsDb
open_bucket = record {
  buckets = record locked_bucket { retention_period_seconds = 0; retention_is_locked = false } ∷ [];
  objects = [];
  files = λ path. none;
}

abbrev first : GcsDb × Result ObjectMeta
first = put_object_bytes_meta lab 6 open_bucket "vault" "a" "" (1 ∷ []) no_extras

abbrev second_put : GcsDb × Result ObjectMeta
second_put = put_object_bytes_meta lab 7 first.0 "vault" (concat "/" "a") "" (2 ∷ 3 ∷ []) no_extras

abbrev octets : ObjectMeta
octets = record kept { content_type = "application/octet-stream" }

first_test : first.1 ≡ ok octets
unfolding put_object_bytes_meta put_target validate_gcs_bucket_name gcs_bucket_name_pattern
    get_bucket check_object_retention next_generation latest fresh_object sanitize_object_path
    slashed clean_parts select_one join_under_root ensure_under_gcs_root check_elements related abs
    rel apart way ups join join_slash clean clean_segments clean_loop clean_step popped split_on
    split_when has_prefix contains trim_space to_lower itoa
first_test = refl

second_test : second_put.1 ≡ ok (record octets { name = "/a"; size = 2 })
unfolding put_object_bytes_meta put_target validate_gcs_bucket_name gcs_bucket_name_pattern
    get_bucket check_object_retention next_generation latest fresh_object sanitize_object_path
    slashed clean_parts select_one join_under_root ensure_under_gcs_root check_elements related abs
    rel apart way ups join join_slash clean clean_segments clean_loop clean_step popped split_on
    split_when has_prefix contains trim_space to_lower itoa
second_test = refl

-- A change of the content type and a composition of a file with itself.
revise_test :
    (patch_object_metadata lab 8 first.0 "vault" "a" 0 (some plain_text)).1
    ≡ ok (record octets { content_type = "text/plain"; metageneration = 2 })
unfolding patch_object_metadata patched_object get_object put_object_bytes_meta put_target
    validate_gcs_bucket_name gcs_bucket_name_pattern get_bucket check_object_retention
    next_generation latest fresh_object sanitize_object_path slashed clean_parts select_one
    join_under_root ensure_under_gcs_root check_elements related abs rel apart way ups join
    join_slash clean clean_segments clean_loop clean_step popped split_on split_when has_prefix
    contains trim_space to_lower itoa
revise_test = refl

compose_test :
    (compose_object lab 8 first.0 "vault" "b" ("a" ∷ "a" ∷ []) "").1
    ≡ ok (record octets { name = "b"; size = 2; blob_path = "vault/1/b" })
unfolding compose_object gather get_object read_object_bytes blob_file put_object_bytes
    put_object_bytes_meta put_target validate_gcs_bucket_name gcs_bucket_name_pattern get_bucket
    check_object_retention next_generation latest fresh_object sanitize_object_path slashed
    clean_parts select_one join_under_root ensure_under_gcs_root check_elements related abs rel
    apart way ups join join_slash clean clean_segments clean_loop clean_step popped split_on
    split_when has_prefix contains trim_space to_lower itoa assign
compose_test = refl

slash_shares_blob_example :
    (◌≡◌ {A = String} "vault/1/a" "vault/1/a")
    × (read_object_bytes lab second_put.0 octets
        ≡ read_object_bytes lab second_put.0 (record octets { name = "/a"; size = 2 }))
slash_shares_blob_example =
    slash_shares_blob lab "vault" "a" open_bucket first.0 second_put.0 6 7 "" "" (1 ∷ [])
      (2 ∷ 3 ∷ []) no_extras no_extras {a = octets} {b = record octets { name = "/a"; size = 2 }}
      first_test second_test refl
