-- ===== src/Store/Gcs/Types.antt =====
-- The rows of internal/store/gcs.go and what its methods call outside the repository.
use noctaxris_gcp.Base.{ℕ, String, Bool, List, Option, Result}
use noctaxris_gcp.Store.PubSub.Types.{StringMap}

pub record Bucket : Type 0 where
  pub name : String
  pub project_id : String
  pub location : String
  pub storage_class : String
  pub labels : StringMap
  pub metageneration : ℕ
  pub retention_period_seconds : ℕ
  pub retention_is_locked : Bool
  pub retention_effective_time : String
  pub created_at : String
  pub updated_at : String

pub record BucketRetentionPolicy : Type 0 where
  pub retention_period_seconds : ℕ
  pub is_locked : Bool
  pub effective_time : String

pub record ObjectMeta : Type 0 where
  pub bucket : String
  pub name : String
  pub generation : ℕ
  pub size : ℕ
  pub content_type : String
  pub blob_path : String
  pub md5_hash : String
  pub crc32c : String
  pub metadata : StringMap
  pub cache_control : String
  pub content_disposition : String
  pub content_encoding : String
  pub content_language : String
  pub metageneration : ℕ
  pub created_at : String
  pub updated_at : String

-- The two tables, and the files under their absolute paths.
pub record GcsDb : Type 0 where
  pub buckets : List Bucket
  pub objects : List ObjectMeta
  pub files : String → Option (List ℕ)

-- The directory of the store, the answer of `os.Getwd()`, the checksums in base64, and the texts of
-- times, which are numbers of nanoseconds: `Format(time.RFC3339Nano)` and `parseGCSTime`.
pub record GcsWorld : Type 0 where
  pub data_root : String
  pub getwd : Result String
  pub md5_base64 : List ℕ → String
  pub crc32c_base64 : List ℕ → String
  pub format_time : ℕ → String
  pub parse_gcs_time : String → Result ℕ
