-- ===== src/Store/Kms/Keys.antt =====
-- The methods of internal/store/kms.go. `now` is the text of the current time. A write returns the
-- tables that it leaves; the SQL engine is taken not to fail.
use noctaxris_gcp.Base.{
  ℕ, String, Bool, true, false, ◌&&◌, ◌||◌, ◌==◌, List, [], ◌∷◌, ◌++◌, Option, none, some, Result,
  ok, err, message, annotate, concat, select_where, select_one, exists_row, update_where, order_by,
  ltb, eqb, if◌then◌else◌,
}
use noctaxris_gcp.Store.Numerals.{cast_integer}
use noctaxris_gcp.Store.PubSub.Topics.{name_le}
use noctaxris_gcp.Store.Kms.Types.{
  KmsKeyRing, KmsCryptoKey, KmsKeyVersion, KmsDb, kms_state_enabled, kms_state_destroyed,
  kms_purpose_encrypt, kms_purpose_sign, kms_algo_symmetric, kms_algo_rsa_pss_2048,
}

-- `if s == "" { s = d }`
abbrev pub or_default : String → String → String
or_default d s = if s == "" then d else s

abbrev pub is_empty : List ℕ → Bool
is_empty [] = true
is_empty (b ∷ bs) = false

abbrev pub ring_named : String → KmsKeyRing → Bool
ring_named name r = r.name == name

abbrev pub key_named : String → KmsCryptoKey → Bool
key_named name k = k.name == name

abbrev pub key_version_named : String → KmsKeyVersion → Bool
key_version_named name v = v.name == name

abbrev pub dated_ring : String → KmsKeyRing → KmsKeyRing
dated_ring now kr = record kr { created_at = or_default now kr.created_at }

-- INSERT OR IGNORE: `false` says that the name is there already.
unfoldable pub create_kms_key_ring : String → KmsDb → KmsKeyRing → KmsDb × Result Bool
create_kms_key_ring now db kr =
    if kr.name == "" || kr.project_id == "" || kr.location == ""
    then (db, err (message "kms key ring requires name, project, and location"))
    else if exists_row (ring_named kr.name) db.rings
    then (db, ok false)
    else (record db { rings = db.rings ++ dated_ring now kr ∷ [] }, ok true)

unfoldable pub get_kms_key_ring : KmsDb → String → Option KmsKeyRing
get_kms_key_ring db name = select_one (ring_named name) db.rings

unfoldable pub list_kms_key_rings : KmsDb → String → String → List KmsKeyRing
list_kms_key_rings db project_id location =
    order_by (λ a b. name_le a.name b.name)
      (select_where (λ r. r.project_id == project_id && r.location == location) db.rings)

-- The defaults that `CreateKMSCryptoKey` fills in.
unfoldable pub filled_key : String → KmsCryptoKey → KmsCryptoKey
filled_key now key =
    let purpose = or_default kms_purpose_encrypt key.purpose in
    record key {
      purpose = purpose;
      algorithm =
          or_default
            (if purpose == kms_purpose_sign then kms_algo_rsa_pss_2048 else kms_algo_symmetric)
            key.algorithm;
      labels_json = or_default "{}" key.labels_json;
      created_at = or_default now key.created_at;
    }

unfoldable pub filled_version : KmsCryptoKey → KmsKeyVersion → KmsKeyVersion
filled_version key version = record version {
  state = or_default kms_state_enabled version.state;
  created_at = or_default key.created_at version.created_at;
}

-- The two INSERTs of the transaction, by whether each name is there already: the first ignores it,
-- and the second fails and takes the first back.
unfoldable pub inserted_key :
    KmsDb → KmsCryptoKey → KmsKeyVersion → Bool → Bool → KmsDb × Result Bool
inserted_key db key version has_key has_version =
    if has_key
    then (db, ok false)
    else if has_version
    then (
      db,
      annotate "create kms key version"
          (err (message "UNIQUE constraint failed: kms_key_versions.name")),
    )
    else (record db { keys = db.keys ++ key ∷ []; versions = db.versions ++ version ∷ [] }, ok true)

-- One transaction: where the version's INSERT fails, the key is not inserted either.
unfoldable pub create_kms_crypto_key :
    String → KmsDb → KmsCryptoKey → KmsKeyVersion → KmsDb × Result Bool
unfolding filled_key filled_version inserted_key
create_kms_crypto_key now db raw_key raw_version =
    let key = filled_key now raw_key in
    let version = filled_version key raw_version in
    if raw_key.name == "" || raw_key.key_ring == ""
    then (db, err (message "kms crypto key requires name and key ring"))
    else if raw_version.name == "" || raw_version.crypto_key == "" || raw_version.version_id == ""
    then (db, err (message "kms key version requires name, crypto key, and version id"))
    else if is_empty raw_version.key_material_ciphertext
    then (db, err (message "kms key version requires sealed key material"))
    else inserted_key db key version (exists_row (key_named key.name) db.keys)
        (exists_row (key_version_named version.name) db.versions)

unfoldable pub get_kms_crypto_key : KmsDb → String → Option KmsCryptoKey
get_kms_crypto_key db name = select_one (key_named name) db.keys

unfoldable pub list_kms_crypto_keys : KmsDb → String → List KmsCryptoKey
list_kms_crypto_keys db key_ring =
    order_by (λ a b. name_le a.name b.name) (select_where (λ k. k.key_ring == key_ring) db.keys)

abbrev pub labelled : String → KmsCryptoKey → KmsCryptoKey
labelled labels_json k = record k { labels_json = labels_json }

unfoldable pub update_kms_crypto_key : KmsDb → String → String → KmsDb × Option KmsCryptoKey
unfolding get_kms_crypto_key
update_kms_crypto_key db name raw =
    let labels_json = or_default "{}" raw in
    let db' = record db { keys = update_where (key_named name) (labelled labels_json) db.keys } in
    (db', get_kms_crypto_key db' name)

unfoldable pub get_kms_key_version : KmsDb → String → Option KmsKeyVersion
get_kms_key_version db name = select_one (key_version_named name) db.versions

unfoldable pub primary_kms_key_version : KmsDb → String → Option KmsKeyVersion
unfolding get_kms_key_version
primary_kms_key_version db crypto_key =
    get_kms_key_version db (concat crypto_key "/cryptoKeyVersions/1")

abbrev pub in_state : String → KmsKeyVersion → KmsKeyVersion
in_state state v = record v { state = state }

unfoldable pub destroy_kms_key_version : KmsDb → String → KmsDb × Option KmsKeyVersion
destroy_kms_key_version db name = elim (get_kms_key_version db name) [
  | none ↦ (db, none)
  | some v ↦ if v.state == kms_state_destroyed then (db, some v) else (
    record db {
      versions = update_where (key_version_named name) (in_state kms_state_destroyed) db.versions;
    },
    some (in_state kms_state_destroyed v),
  )
]

unfoldable pub restore_kms_key_version : KmsDb → String → KmsDb × Option KmsKeyVersion
restore_kms_key_version db name = elim (get_kms_key_version db name) [
  | none ↦ (db, none)
  | some v ↦ if v.state == kms_state_enabled then (db, some v) else (
    record db {
      versions = update_where (key_version_named name) (in_state kms_state_enabled) db.versions;
    },
    some (in_state kms_state_enabled v),
  )
]

-- ORDER BY CAST(version_id AS INTEGER), version_id
abbrev pub version_le : KmsKeyVersion → KmsKeyVersion → Bool
version_le a b =
    let m = cast_integer a.version_id in
    let n = cast_integer b.version_id in ltb m n || eqb m n && name_le a.version_id b.version_id

unfoldable pub list_kms_key_versions : KmsDb → String → List KmsKeyVersion
list_kms_key_versions db crypto_key =
    order_by version_le (select_where (λ v. v.crypto_key == crypto_key) db.versions)
