-- ===== src/Store/Secrets/Versions.antt =====
-- The versions of secrets (internal/store/secrets.go).
use noctaxris_gcp.Base.{
  ℕ, ◌+◌, String, Bool, not, ◌&&◌, ◌||◌, ◌==◌, List, [], ◌∷◌, ◌++◌, Option, none, some, Result, ok,
  err, message, annotate, trim_space, select_where, select_one, exists_row, update_where, order_by,
  one_of, ltb, leb, if◌then◌else◌,
}
use noctaxris_gcp.Store.Stamps.{format}
use noctaxris_gcp.Store.Numerals.{itoa, cast_integer}
use noctaxris_gcp.Store.Seal.{Aead, seal, unseal}
use noctaxris_gcp.Store.Secrets.Types.{
  SecretVersion, SecretDb, secret_version_enabled, secret_version_disabled,
  secret_version_destroyed,
}
use noctaxris_gcp.Store.Secrets.Names.{version_name}
use noctaxris_gcp.Store.Secrets.Catalog.{get_secret}

abbrev pub of_secret : String → SecretVersion → Bool
of_secret secret_name v = v.secret_name == secret_name

abbrev pub version_named : String → SecretVersion → Bool
version_named name v = v.name == name

abbrev pub number : SecretVersion → ℕ
number v = cast_integer v.version_id

-- SELECT COALESCE(MAX(CAST(version_id AS INTEGER)), 0) ... WHERE secret_name = ?
unfoldable pub max_number : String → List SecretVersion → ℕ
max_number secret_name [] = 0
max_number secret_name (v ∷ vs) =
    let rest = max_number secret_name vs in
    if of_secret secret_name v && ltb rest (number v) then number v else rest

-- INSERT INTO secret_versions: `name` is the key.
unfoldable pub insert_version : List SecretVersion → SecretVersion → Result (List SecretVersion)
insert_version rows v =
    if exists_row (version_named v.name) rows
    then err (message "UNIQUE constraint failed: secret_versions.name")
    else ok (rows ++ v ∷ [])

unfoldable pub add_secret_version :
    Aead → List ℕ → ℕ → SecretDb → String → List ℕ → SecretDb × Result SecretVersion
add_secret_version aead nonce now db secret_name plaintext = elim (get_secret db secret_name) [
  | none ↦ (db, err (message "secret not found"))
  | some s ↦
      let version_id = itoa (max_number secret_name db.versions + 1) in
      let v : SecretVersion = record {
        name = version_name secret_name version_id;
        secret_name = secret_name;
        version_id = version_id;
        payload_ciphertext = seal aead nonce plaintext;
        state = secret_version_enabled;
        created_at = format now;
      } in
      elim (insert_version db.versions v) [
        | err e ↦ (db, err e)
        | ok rows ↦ (record db { versions = rows }, ok v)
      ]
]

-- LIMIT 1
abbrev pub first {ℓ} : {A : Type ℓ} → List A → Option A
first [] = none
first (x ∷ xs) = some x

-- ORDER BY CAST(version_id AS INTEGER) DESC
abbrev pub number_ge : SecretVersion → SecretVersion → Bool
number_ge a b = leb (number b) (number a)

unfoldable pub get_secret_version : SecretDb → String → String → Option SecretVersion
get_secret_version db secret_name raw =
    let version_id = trim_space raw in
    if version_id == "" || version_id == "latest"
    then first (order_by number_ge (select_where (of_secret secret_name) db.versions))
    else select_one (λ v. of_secret secret_name v && v.version_id == version_id) db.versions

-- The version that was found goes with an error, too.
unfoldable pub access_secret_version :
    Aead → SecretDb → String → String → Option SecretVersion × Result (List ℕ)
access_secret_version aead db secret_name version_id =
    elim (get_secret_version db secret_name version_id) [
      | none ↦ (none, err (message "version not found"))
      | some v ↦ (
        some v,
        (if v.state == secret_version_destroyed
            then err (message "secret version destroyed")
            else if v.state == secret_version_disabled
            then err (message "secret version disabled")
            else if v.state == secret_version_enabled
            then annotate "unseal secret payload" (unseal aead v.payload_ciphertext)
            else err (message "secret version state")),
      )
    ]

-- The columns that the UPDATE of a state sets; a destroyed version loses its payload.
unfoldable pub with_state : String → SecretVersion → SecretVersion
with_state state v =
    if state == secret_version_destroyed
    then record v { state = state; payload_ciphertext = [] }
    else record v { state = state }

unfoldable pub set_secret_version_state :
    SecretDb → String → String → String → SecretDb × Result SecretVersion
set_secret_version_state db secret_name version_id state =
    elim (get_secret_version db secret_name version_id) [
      | none ↦ (db, err (message "version not found"))
      | some v ↦
          if v.state == secret_version_destroyed
          then (db, err (message "secret version destroyed"))
          else if not (
              one_of state
                (secret_version_enabled ∷ secret_version_disabled ∷ secret_version_destroyed ∷ []))
          then (db, err (message "invalid state"))
          else (
            record db {
              versions = update_where (version_named v.name) (with_state state) db.versions;
            },
            ok (with_state state v),
          )
    ]
