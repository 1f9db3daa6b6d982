-- ===== src/Store/Secrets/Adding.antt =====
-- Adding a version keeps what the tables promise (`AddSecretVersion`).
use mathlib.Core.List.Memᴰ
use noctaxris_gcp.Base.{
  ℕ, ◌+◌, String, ◌≡◌, refl, inl, inr, List, [], ◌∷◌, ◌++◌, some, ok, arith, eq_iff, eq_refl,
  select_one_mem, Unique-snoc, absent-Apart, Option-cases,
}
use noctaxris_gcp.Store.Stamps.{Stamp, format}
use noctaxris_gcp.Store.Numerals.{itoa}
use noctaxris_gcp.Store.Seal.{Aead, seal}
use noctaxris_gcp.Store.Secrets.Types.{Secret, SecretVersion, SecretDb, secret_version_enabled}
use noctaxris_gcp.Store.Secrets.Names.{version_name}
use noctaxris_gcp.Store.Secrets.Catalog.{secret_named, get_secret}
use noctaxris_gcp.Store.Secrets.Versions.{
  version_named, max_number, insert_version, add_secret_version,
}
use noctaxris_gcp.Store.Secrets.Numbering.{next_name_free}
use noctaxris_gcp.Store.Secrets.Invariant.{IsSoundVersion, IsCatalog}

-- The version that a call of `AddSecretVersion` makes.
abbrev pub new_version : Aead → List ℕ → Stamp → SecretDb → String → List ℕ → SecretVersion
new_version aead nonce now db secret_name plaintext =
    let version_id = itoa (max_number secret_name db.versions + 1) in
    record {
      name = version_name secret_name version_id;
      secret_name = secret_name;
      version_id = version_id;
      payload_ciphertext = seal aead nonce plaintext;
      state = secret_version_enabled;
      created_at = now;
    }

module _ (aead : Aead) (nonce : List ℕ) (now : ℕ) (secret_name : String) (plaintext : List ℕ) where
  -- Where the secret is there, a version is added: its name is free.
  pub added_version :
      (db : SecretDb) (s : Secret)
      → IsCatalog db
      → get_secret db secret_name ≡ some s
      → add_secret_version aead nonce now db secret_name plaintext ≡ (
        record db {
          versions =
              db.versions ++ new_version aead nonce (format now) db secret_name plaintext ∷ [];
        },
        ok (new_version aead nonce (format now) db secret_name plaintext),
      )
  unfolding add_secret_version insert_version
  added_version db s c p =
      let free = next_name_free secret_name db.versions (λ v i. (c.sound v i).numbered) in
      rw (p, free, add_secret_version) refl

  new-IsSoundVersion :
      (db : SecretDb) (s : Secret)
      → get_secret db secret_name ≡ some s
      → IsSoundVersion db.secrets (new_version aead nonce (format now) db secret_name plaintext)
  unfolding get_secret
  new-IsSoundVersion db s p =
      let (i, t) = select_one_mem (secret_named secret_name) db.secrets p in
      record {
        numbered = record {
          value = max_number secret_name db.versions + 1;
          text = refl;
          positive = omega arith;
          full_name = refl;
        };
        home = (s, i, (eq_iff s.name secret_name).0 t);
        wiped = λ e. cc;
      }

  grown-IsCatalog :
      (db : SecretDb) (s : Secret)
      → IsCatalog db
      → get_secret db secret_name ≡ some s
      → IsCatalog (record db {
        versions = db.versions ++ new_version aead nonce (format now) db secret_name plaintext ∷ [];
      })
  grown-IsCatalog db s c p =
      let v = new_version aead nonce (format now) db secret_name plaintext in
      let free = next_name_free secret_name db.versions (λ v i. (c.sound v i).numbered) in
      record {
        secret_names = c.secret_names;
        version_names =
            Unique-snoc (λ x. x.name) db.versions v c.version_names
              (absent-Apart (λ x. x.name) (version_named v.name) v db.versions
                (λ y d. rw d (eq_refl v.name)) free);
        sound = λ x i. elim (Memᴰ.append_cases db.versions i) [
          | inl j ↦ c.sound x j
          | inr j ↦ rw (Memᴰ.eq_of_singleton j) (new-IsSoundVersion db s p)
        ];
      }

  pub add_secret_version-IsCatalog :
      (db : SecretDb)
      → IsCatalog db
      → IsCatalog (add_secret_version aead nonce now db secret_name plaintext).0
  add_secret_version-IsCatalog db c = elim (Option-cases (get_secret db secret_name)) [
    | inl p ↦ unfold add_secret_version in rw (p, add_secret_version) c
    | inr (s, p) ↦ rw (added_version db s c p) (grown-IsCatalog db s c p)
  ]
