-- ===== src/Store/Kms/Types.antt =====
-- The rows and tables of internal/store/kms.go (internal/store/schema.go has the tables). A time is
-- kept as its text, since the tables only store it.
use noctaxris_gcp.Base.{ℕ, String, List}

pub record KmsKeyRing : Type 0 where
  pub name : String
  pub project_id : String
  pub location : String
  pub created_at : String

pub record KmsCryptoKey : Type 0 where
  pub name : String
  pub key_ring : String
  pub purpose : String
  pub algorithm : String
  pub labels_json : String
  pub created_at : String

pub record KmsKeyVersion : Type 0 where
  pub name : String
  pub crypto_key : String
  pub version_id : String
  pub state : String
  pub key_material_ciphertext : List ℕ
  pub created_at : String

pub record KmsDb : Type 0 where
  pub rings : List KmsKeyRing
  pub keys : List KmsCryptoKey
  pub versions : List KmsKeyVersion

abbrev pub kms_state_enabled : String
kms_state_enabled = "ENABLED"

abbrev pub kms_state_destroyed : String
kms_state_destroyed = "DESTROYED"

abbrev pub kms_purpose_encrypt : String
kms_purpose_encrypt = "ENCRYPT_DECRYPT"

abbrev pub kms_purpose_sign : String
kms_purpose_sign = "ASYMMETRIC_SIGN"

abbrev pub kms_algo_symmetric : String
kms_algo_symmetric = "GOOGLE_SYMMETRIC_ENCRYPTION"

abbrev pub kms_algo_rsa_pss_2048 : String
kms_algo_rsa_pss_2048 = "RSA_SIGN_PSS_2048_SHA256"
