-- ===== src/Store/Secrets/Access.antt =====
-- What access to a version answers (`AccessSecretVersion`).
use noctaxris_gcp.Base.{
  ℕ, ◌+◌, String, false, ◌&&◌, ◌==◌, ◌≡◌, refl, ap, ◌∙◌, inl, inr, List, [], ◌∷◌, ◌++◌, Memᴰ, some,
  ok, arith, eq_iff, eq_refl, trim_space, select_one-snoc, Bool-cases, Option-cases, length,
}
use noctaxris_gcp.Store.Numerals.{
  itoa, cast_integer, cast_integer-itoa, all_digits, all_digits-itoa, trim_space-digits,
}
use noctaxris_gcp.Store.Seal.{Aead, Opens, unseal, unseal-seal}
use noctaxris_gcp.Store.Secrets.Types.{Secret, SecretVersion, SecretDb, secret_version_enabled}
use noctaxris_gcp.Store.Secrets.Catalog.{get_secret}
use noctaxris_gcp.Store.Secrets.Versions.{
  of_secret, number, max_number, add_secret_version, get_secret_version, access_secret_version,
}
use noctaxris_gcp.Store.Secrets.Numbering.{number_below}
use noctaxris_gcp.Store.Secrets.Invariant.{IsCatalog}
use noctaxris_gcp.Store.Secrets.Adding.{new_version, added_version}
use noctaxris_gcp.Store.Secrets.Lifecycle.{found_version}
use noctaxris_gcp.Store.Stamps.{format}

-- No number's text is empty or `latest`.
no_number : cast_integer "" ≡ 0 × (cast_integer "latest" ≡ 0)
unfolding cast_integer
no_number = (refl, refl)

itoa-suc-ne : (n : ℕ) (s : String) → cast_integer s ≡ 0 → itoa (n + 1) == s ≡ false
itoa-suc-ne n s z = elim (Bool-cases (itoa (n + 1) == s)) [
  | inr f ↦ f
  | inl t ↦
      let same = ap cast_integer ((eq_iff (itoa (n + 1)) s).0 t) in
      let value = cast_integer-itoa (n + 1) in absurd (omega arith)
]

-- A version with the next number is found by it.
next_found :
    (db : SecretDb) (v : SecretVersion)
    → v.version_id ≡ itoa (max_number v.secret_name db.versions + 1)
    → get_secret_version (record db { versions = db.versions ++ v ∷ [] }) v.secret_name v.version_id
      ≡ some v
unfolding get_secret_version
next_found db v e =
    let n = max_number v.secret_name db.versions in
    let plain : trim_space v.version_id ≡ v.version_id =
      trim_space-digits v.version_id (ap all_digits e ∙ all_digits-itoa (n + 1)) in
    let not_empty : v.version_id == "" ≡ false = rw e (itoa-suc-ne n "" no_number.0) in
    let not_latest : v.version_id == "latest" ≡ false = rw e (itoa-suc-ne n "latest" no_number.1) in
    let value : number v ≡ n + 1 = ap cast_integer e ∙ cast_integer-itoa (n + 1) in
    rw (plain, not_empty, not_latest)
      (select_one-snoc (λ x. of_secret v.secret_name x && x.version_id == v.version_id) db.versions
        v
        (λ x i. elim (Bool-cases (of_secret v.secret_name x && x.version_id == v.version_id)) [
          | inr f ↦ f
          | inl t ↦
              let mine : x.secret_name ≡ v.secret_name =
                ground (arith, eq_iff x.secret_name v.secret_name) in
              let id : x.version_id ≡ v.version_id =
                ground (arith, eq_iff x.version_id v.version_id) in
              let same : number x ≡ number v = ap cast_integer id in
              let below = number_below v.secret_name db.versions i mine in absurd (omega arith)
        ])
        (rw (eq_refl v.secret_name, eq_refl v.version_id) refl))

-- In valid tables, with a cipher that opens what it sealed and a nonce of its size, a version can be
-- added to a secret that is there, and access by the number that it gets answers what was added.
pub access-add :
    (aead : Aead) (nonce : List ℕ) (now : ℕ) (db : SecretDb) (secret_name : String)
    (plaintext : List ℕ) (s : Secret)
    → IsCatalog db
    → get_secret db secret_name ≡ some s
    → Opens aead
    → length nonce ≡ aead.nonce_size
    → (db' : SecretDb) × (v : SecretVersion) × (add_secret_version aead nonce now db secret_name
          plaintext
        ≡ (db', ok v))
      × (access_secret_version aead db' secret_name v.version_id ≡ (some v, ok plaintext))
unfolding access_secret_version
access-add aead nonce now db secret_name plaintext s c p opens size =
    let v = new_version aead nonce (format now) db secret_name plaintext in
    (
      record db { versions = db.versions ++ v ∷ [] },
      v,
      added_version aead nonce now secret_name plaintext db s c p,
      rw (next_found db v refl, unseal-seal aead nonce plaintext opens size, access_secret_version)
          refl,
    )

-- Access answers a payload only for a version that is found and enabled, and the payload is what
-- its sealed text opens to.
pub access_enabled_only :
    (aead : Aead) (db : SecretDb) (secret_name version_id : String) (plaintext : List ℕ)
    → (access_secret_version aead db secret_name version_id).1 ≡ ok plaintext
    → (v : SecretVersion) × Memᴰ v db.versions
      × (v.secret_name ≡ secret_name)
      × (v.state ≡ secret_version_enabled)
      × (unseal aead v.payload_ciphertext ≡ ok plaintext)
unfolding access_secret_version
access_enabled_only aead db secret_name version_id plaintext h =
    elim (Option-cases (get_secret_version db secret_name version_id)) [
      | inl p ↦ cc (rw (p, access_secret_version) at h)
      | inr (v, p) ↦
          let (i, e) = found_version db secret_name version_id p in
          (v, i, e, ground (arith, eq_iff v.state secret_version_enabled), ground arith)
    ]
