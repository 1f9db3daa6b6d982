-- ===== src/Store/Kms/Vault.antt =====
-- What the Cloud KMS tables promise, without rows: three maps from names, and what each call of
-- internal/store/kms.go does to them and answers.
use noctaxris_gcp.Base.{
  String, Bool, true, false, ◌||◌, ◌==◌, List, [], ◌∷◌, Option, none, some, Result, ok, err,
  message, wrapped, concat, assign, if◌then◌else◌,
}
use mathlib.Core.Option.{map}
use noctaxris_gcp.Store.Kms.Types.{
  KmsKeyRing, KmsCryptoKey, KmsKeyVersion, kms_state_enabled, kms_state_destroyed,
}
use noctaxris_gcp.Store.Kms.Keys.{
  or_default, is_empty, dated_ring, filled_key, filled_version, labelled, in_state,
}

pub record Vault : Type 0 where
  pub ring : String → Option KmsKeyRing
  pub key : String → Option KmsCryptoKey
  pub version : String → Option KmsKeyVersion

-- The calls that write, and those that read one row.
pub data KmsCall : Type 0 where
  create_ring : KmsKeyRing → KmsCall
  create_key : KmsCryptoKey → KmsKeyVersion → KmsCall
  relabel : (name labels_json : String) → KmsCall
  destroy restore : (name : String) → KmsCall
  get_ring get_key get_version : (name : String) → KmsCall
  primary : (crypto_key : String) → KmsCall

pub data Reply : Type 0 where
  created : Result Bool → Reply
  ring_found : Option KmsKeyRing → Reply
  key_found : Option KmsCryptoKey → Reply
  version_found : Option KmsKeyVersion → Reply

-- A new name is given its value; a name that is there keeps its own.
abbrev pub insert_ring : Vault → KmsKeyRing → Option KmsKeyRing → Vault × Reply
insert_ring vault kr (some old) = (vault, created (ok false))
insert_ring vault kr none =
    (record vault { ring = assign vault.ring kr.name (some kr) }, created (ok true))

-- A key and its first version come together.
abbrev pub insert_key :
    Vault
    → KmsCryptoKey
    → KmsKeyVersion
    → Option KmsCryptoKey
    → Option KmsKeyVersion
    → Vault × Reply
insert_key vault k v (some old) w = (vault, created (ok false))
insert_key vault k v none (some old) = (
  vault,
  created (
      err (
        wrapped "create kms key version"
          (message "UNIQUE constraint failed: kms_key_versions.name"))),
)
insert_key vault k v none none = (
  record vault {
    key = assign vault.key k.name (some k);
    version = assign vault.version v.name (some v);
  },
  created (ok true),
)

-- The version of the name, if it is there, takes the state.
abbrev pub put_state : Vault → String → String → Vault × Reply
put_state vault name state = (
  record vault { version = assign vault.version name (map (in_state state) (vault.version name)) },
  version_found (map (in_state state) (vault.version name)),
)

unfoldable pub specified : String → Vault → KmsCall → Vault × Reply
unfolding filled_key filled_version
specified now vault (create_ring kr) =
    if kr.name == "" || kr.project_id == "" || kr.location == ""
    then (vault, created (err (message "kms key ring requires name, project, and location")))
    else insert_ring vault (dated_ring now kr) (vault.ring kr.name)
specified now vault (create_key k v) =
    if k.name == "" || k.key_ring == ""
    then (vault, created (err (message "kms crypto key requires name and key ring")))
    else if v.name == "" || v.crypto_key == "" || v.version_id == ""
    then (
      vault,
      created (err (message "kms key version requires name, crypto key, and version id")),
    )
    else if is_empty v.key_material_ciphertext
    then (vault, created (err (message "kms key version requires sealed key material")))
    else insert_key vault (filled_key now k) (filled_version (filled_key now k) v)
        (vault.key k.name) (vault.version v.name)
specified now vault (relabel name labels_json) =
    let found = map (labelled (or_default "{}" labels_json)) (vault.key name) in
    (record vault { key = assign vault.key name found }, key_found found)
specified now vault (destroy name) = put_state vault name kms_state_destroyed
specified now vault (restore name) = put_state vault name kms_state_enabled
specified now vault (get_ring name) = (vault, ring_found (vault.ring name))
specified now vault (get_key name) = (vault, key_found (vault.key name))
specified now vault (get_version name) = (vault, version_found (vault.version name))
specified now vault (primary crypto_key) =
    (vault, version_found (vault.version (concat crypto_key "/cryptoKeyVersions/1")))

-- The replies of a sequence of calls, and the vault behind them.
unfoldable pub specified_run : Vault → List (String × KmsCall) → Vault × List Reply
specified_run vault [] = (vault, [])
specified_run vault ((now, call) ∷ calls) =
    let (next, reply) = specified now vault call in
    let (last, replies) = specified_run next calls in (last, reply ∷ replies)
