-- ===== src/Store/Secrets/Types.antt =====
-- The rows of internal/store/secrets.go. A JSON column of a string map is kept as the map, and one of
-- any JSON value as its text.
use noctaxris_gcp.Base.{ℕ, String, List}
use noctaxris_gcp.Store.Stamps.{Stamp}
use noctaxris_gcp.Store.PubSub.Types.{StringMap}

pub record Secret : Type 0 where
  pub name : String
  pub project_id : String
  pub labels : StringMap
  pub annotations : StringMap
  pub replication : String
  pub cmek_kms_key_name : String
  pub rotation_period : String
  pub next_rotation_time : String
  pub topics_json : String
  pub created_at : Stamp

pub record SecretVersion : Type 0 where
  pub name : String
  pub secret_name : String
  pub version_id : String
  pub payload_ciphertext : List ℕ
  pub state : String
  pub created_at : Stamp

-- The two tables.
pub record SecretDb : Type 0 where
  pub secrets : List Secret
  pub versions : List SecretVersion

abbrev pub secret_version_enabled : String
secret_version_enabled = "ENABLED"

abbrev pub secret_version_disabled : String
secret_version_disabled = "DISABLED"

abbrev pub secret_version_destroyed : String
secret_version_destroyed = "DESTROYED"
