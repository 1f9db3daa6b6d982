-- ===== src/Store/Kms/Tests.antt =====
-- A key ring with one key, whose version is destroyed and restored.
use noctaxris_gcp.Base.{
  String, true, false, ◌≡◌, refl, List, [], ◌∷◌, some, ok, exists_row, select_one, update_where,
}
use noctaxris_gcp.Store.Kms.Types.{
  KmsKeyRing, KmsCryptoKey, KmsKeyVersion, KmsDb, kms_state_enabled, kms_state_destroyed,
}
use noctaxris_gcp.Store.Kms.Keys.{
  create_kms_key_ring, create_kms_crypto_key, get_kms_key_version, primary_kms_key_version,
  destroy_kms_key_version, restore_kms_key_version, in_state,
}
use noctaxris_gcp.Store.Kms.Vault.{
  KmsCall, create_ring, create_key, destroy, restore, primary, created, version_found,
  specified_run,
}
use noctaxris_gcp.Store.Kms.Refinement.{perform_kms, run_kms, contents, run_kms_refines}
use noctaxris_gcp.Store.Kms.Material.{SameVersion, material_kept}

abbrev empty : KmsDb
empty = record { rings = []; keys = []; versions = [] }

abbrev ring : KmsKeyRing
ring = record { name = "r"; project_id = "p"; location = "global"; created_at = "" }

abbrev key : KmsCryptoKey
key = record {
  name = "r/k";
  key_ring = "r";
  purpose = "";
  algorithm = "";
  labels_json = "";
  created_at = "";
}

abbrev version : KmsKeyVersion
version = record {
  name = "r/k/cryptoKeyVersions/1";
  crypto_key = "r/k";
  version_id = "1";
  state = "";
  key_material_ciphertext = 7 ∷ [];
  created_at = "";
}

-- The version as it is stored.
abbrev stored : KmsKeyVersion
stored = record version { state = kms_state_enabled; created_at = "noon" }

abbrev calls : List (String × KmsCall)
calls =
    ("noon", create_ring ring)
    ∷ ("noon", create_ring ring)
    ∷ ("noon", create_key key version)
    ∷ ("one", destroy version.name)
    ∷ ("two", primary "r/k")
    ∷ ("two", restore version.name)
    ∷ []

replies :
    (run_kms empty calls).1
    ≡ created (ok true)
      ∷ created (ok false)
      ∷ created (ok true)
      ∷ version_found (some (in_state kms_state_destroyed stored))
      ∷ version_found (some (in_state kms_state_destroyed stored))
      ∷ version_found (some stored)
      ∷ []
unfolding run_kms perform_kms create_kms_key_ring create_kms_crypto_key primary_kms_key_version
    get_kms_key_version destroy_kms_key_version restore_kms_key_version exists_row select_one
    update_where
replies = refl

run_kms_refines_example :
    (contents (run_kms empty calls).0 ≡ (specified_run (contents empty) calls).0)
    × ((run_kms empty calls).1 ≡ (specified_run (contents empty) calls).1)
run_kms_refines_example = run_kms_refines empty calls

abbrev one_version : KmsDb
one_version = record { rings = []; keys = []; versions = stored ∷ [] }

abbrev later_calls : List (String × KmsCall)
later_calls = ("two", create_key key version) ∷ ("two", destroy version.name) ∷ []

stored_there : get_kms_key_version one_version version.name ≡ some stored
unfolding get_kms_key_version select_one
stored_there = refl

material_kept_example :
    (w : KmsKeyVersion) × (get_kms_key_version (run_kms one_version later_calls).0 version.name
      ≡ some w)
    × SameVersion stored w
material_kept_example = material_kept one_version later_calls version.name stored stored_there
