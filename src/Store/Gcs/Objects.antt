-- ===== src/Store/Gcs/Objects.antt =====
-- The methods of internal/store/gcs.go on objects. A write returns the state that it leaves; the
-- deliveries of events that run in the background are left out.
use Prim.Native.Char.{code}
use noctaxris_gcp.Base.{
  ℕ, String, Bool, true, false, not, ◌||◌, ◌==◌, List, [], ◌∷◌, ◌++◌, Option, none, some, Result,
  ok, err, message, annotate, ◌>>=◌, concat, length, trim_space, split_on, exists_row, update_where,
  delete_where, assign, eqb, if◌then◌else◌,
}
use noctaxris_gcp.Store.Numerals.{itoa}
use noctaxris_gcp.Store.PubSub.Types.{StringMap}
use noctaxris_gcp.Store.Kms.Keys.{or_default}
use noctaxris_gcp.Store.Paths.Filepath.{join}
use noctaxris_gcp.Store.Paths.Buckets.{
  validate_gcs_bucket_name, join_under_root, ensure_under_gcs_root,
}
use noctaxris_gcp.Store.Gcs.Types.{Bucket, ObjectMeta, GcsDb, GcsWorld}
use noctaxris_gcp.Store.Gcs.Buckets.{get_bucket}
use noctaxris_gcp.Store.Gcs.Lookup.{
  err_precondition_failed, is_generation, get_object, next_generation, check_object_retention,
}

-- strings.ReplaceAll(name, `\`, "/")
unfoldable pub slashed : String → String
slashed String.[] = ""
slashed (String.◌∷◌ c s) =
    let rest = slashed s in if eqb (code c) b'\\' then concat "/" rest else String.◌∷◌ c rest

unfoldable pub clean_parts : List String → List String
clean_parts [] = []
clean_parts (p ∷ ps) =
    let rest = clean_parts ps in if p == "" || p == "." || p == ".." then rest else p ∷ rest

abbrev pub object_path : List String → String
object_path [] = "_object"
object_path (p ∷ ps) = join (p ∷ ps)

unfoldable pub sanitize_object_path : String → String
unfolding slashed clean_parts
sanitize_object_path name = object_path (clean_parts (split_on b'/' (slashed name)))

-- The fields of the last argument that `PutObjectBytesMeta` reads.
pub record Extras : Type 0 where
  pub content_type : String
  pub metadata : StringMap
  pub cache_control : String
  pub content_disposition : String
  pub content_encoding : String
  pub content_language : String

-- Without the argument.
abbrev pub no_extras : Extras
no_extras = record {
  content_type = "";
  metadata = [];
  cache_control = "";
  content_disposition = "";
  content_encoding = "";
  content_language = "";
}

unfoldable pub fresh_object :
    GcsWorld → ℕ → (bucket name content_type : String) → ℕ → List ℕ → Extras → ObjectMeta
unfolding sanitize_object_path
fresh_object w now bucket name content_type generation bytes meta = record {
  bucket = bucket;
  name = name;
  generation = generation;
  size = length bytes;
  content_type = or_default (or_default "application/octet-stream" content_type) meta.content_type;
  blob_path = join (bucket ∷ itoa generation ∷ sanitize_object_path name ∷ []);
  md5_hash = w.md5_base64 bytes;
  crc32c = w.crc32c_base64 bytes;
  metadata = meta.metadata;
  cache_control = meta.cache_control;
  content_disposition = meta.content_disposition;
  content_encoding = meta.content_encoding;
  content_language = meta.content_language;
  metageneration = 1;
  created_at = w.format_time now;
  updated_at = w.format_time now;
}

abbrev pub found_bucket : Option Bucket → Result (Unit {0})
found_bucket none = err (message "bucket not found")
found_bucket (some b) = ok tt

-- What must hold before a byte is written: the file that the bytes go to.
unfoldable pub put_target : GcsWorld → ℕ → GcsDb → (bucket name : String) → Result String
unfolding check_object_retention sanitize_object_path next_generation
put_target w now db bucket name = do
  _ ← validate_gcs_bucket_name bucket
  _ ← found_bucket (get_bucket db bucket)
  _ ← check_object_retention w now db bucket name 0
  abs ← annotate "object path" (
      join_under_root w.getwd w.data_root
        ("gcs" ∷ bucket ∷ itoa (next_generation db bucket name) ∷ sanitize_object_path name ∷ []))
  _ ← ensure_under_gcs_root w.getwd w.data_root abs
  ok abs

unfoldable pub put_object_bytes_meta :
    GcsWorld
    → ℕ
    → GcsDb
    → (bucket name content_type : String) → List ℕ
    → Extras
    → GcsDb × Result ObjectMeta
unfolding put_target fresh_object
put_object_bytes_meta w now db raw_bucket name content_type bytes meta =
    let bucket = trim_space raw_bucket in
    elim (put_target w now db bucket name) [
      | err e ↦ (db, err e)
      | ok abs ↦
          let o =
            fresh_object w now bucket name content_type (next_generation db bucket name) bytes
              meta in
          (
            record db { objects = db.objects ++ o ∷ []; files = assign db.files abs (some bytes) },
            ok o,
          )
    ]

unfoldable pub put_object_bytes :
    GcsWorld → ℕ → GcsDb → (bucket name content_type : String) → List ℕ → GcsDb × Result ObjectMeta
unfolding put_object_bytes_meta
put_object_bytes w now db bucket name content_type bytes =
    put_object_bytes_meta w now db bucket name content_type bytes no_extras

-- `wantGen`, which is below zero where nothing is asked.
unfoldable pub check_generation_match : GcsDb → String → String → Option ℕ → Result (Unit {0})
unfolding get_object
check_generation_match db bucket name none = ok tt
check_generation_match db bucket name (some want_gen) = elim (get_object db bucket name 0) [
  | none ↦ if eqb want_gen 0 then ok tt else err err_precondition_failed
  | some o ↦
      if eqb want_gen 0 || not (eqb o.generation want_gen)
      then err err_precondition_failed
      else ok tt
]

unfoldable pub blob_file : GcsWorld → ObjectMeta → Result String
blob_file w o = join_under_root w.getwd w.data_root ("gcs" ∷ o.blob_path ∷ [])

unfoldable pub read_object_bytes : GcsWorld → GcsDb → ObjectMeta → Result (List ℕ)
unfolding blob_file
read_object_bytes w db o = blob_file w o >>= λ abs. elim (db.files abs) [
  | none ↦ err (message "no such file")
  | some bytes ↦ ok bytes
]

-- `os.Remove`, where the path is one.
abbrev pub without_file : Result String → (String → Option (List ℕ)) → String → Option (List ℕ)
without_file (err e) files = files
without_file (ok abs) files = assign files abs none

abbrev pub removed_object : GcsWorld → GcsDb → ObjectMeta → GcsDb
removed_object w db o = record db {
  objects = delete_where (is_generation o.bucket o.name o.generation) db.objects;
  files = without_file (blob_file w o) db.files;
}

-- `found`, with the error.
unfoldable pub delete_object :
    GcsWorld → ℕ → GcsDb → String → String → ℕ → GcsDb × Bool × Result (Unit {0})
unfolding get_object check_object_retention blob_file
delete_object w now db bucket name generation = elim (get_object db bucket name generation) [
  | none ↦ (db, false, ok tt)
  | some o ↦ elim (check_object_retention w now db bucket name o.generation) [
    | err e ↦ (db, true, err e)
    | ok _ ↦
        if exists_row (is_generation o.bucket o.name o.generation) db.objects
        then (removed_object w db o, true, ok tt)
        else (db, false, ok tt)
  ]
]

unfoldable pub set_object_created_at :
    GcsDb → String → String → ℕ → String → GcsDb × Result (Unit {0})
unfolding get_object
set_object_created_at db bucket name generation created_at =
    elim (get_object db bucket name generation) [
      | none ↦ (db, err (message "object not found"))
      | some o ↦ (
        record db {
          objects =
              update_where (is_generation o.bucket o.name o.generation)
                (λ r. record r { created_at = created_at }) db.objects;
        },
        ok tt,
      )
    ]
