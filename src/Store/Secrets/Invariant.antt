-- ===== src/Store/Secrets/Invariant.antt =====
-- What the Secret Manager tables promise, and that every operation keeps it (internal/store/secrets.go).
use mathlib.Core.List.Memᴰ
use noctaxris_gcp.Base.{
  ℕ, String, false, ◌||◌, ◌==◌, ◌≡◌, refl, inl, inr, List, [], ◌∷◌, ◌++◌, Memᴰ, eq_refl, exists_row,
  delete_where_mem, mem_delete_where, trim_space, Unique, Unique-snoc, Unique-delete_where,
  absent-Apart, Bool-cases,
}
use noctaxris_gcp.Store.Secrets.Types.{Secret, SecretVersion, SecretDb, secret_version_destroyed}
use noctaxris_gcp.Store.Secrets.Catalog.{
  SecretArgs, TopicsJson, secret_named, secret_row, create_secret_with_rotation, delete_secret,
}
use noctaxris_gcp.Store.Secrets.Versions.{of_secret}
use noctaxris_gcp.Store.Secrets.Numbering.{IsNumbered}

-- What a version satisfies: its number and name, its secret, and no payload once it is destroyed.
pub record IsSoundVersion (secrets : List Secret) (v : SecretVersion) : Type 0 where
  pub numbered : IsNumbered v
  pub home : (s : Secret) × Memᴰ s secrets × (s.name ≡ v.secret_name)
  pub wiped : v.state ≡ secret_version_destroyed → v.payload_ciphertext ≡ []

pub record IsCatalog (db : SecretDb) : Type 0 where
  pub secret_names : Unique (λ s. s.name) db.secrets
  pub version_names : Unique (λ v. v.name) db.versions
  pub sound : (v : SecretVersion) → Memᴰ v db.versions → IsSoundVersion db.secrets v

home_grows :
    (secrets : List Secret) (s : Secret) (v : SecretVersion)
    → IsSoundVersion secrets v
    → IsSoundVersion (secrets ++ s ∷ []) v
home_grows secrets s v x =
    let (h, i, e) = x.home in
    record { numbered = x.numbered; home = (h, Memᴰ.append_left (s ∷ []) i, e); wiped = x.wiped }

added_secret-IsCatalog :
    (db : SecretDb) (s : Secret)
    → exists_row (secret_named s.name) db.secrets ≡ false
    → IsCatalog db
    → IsCatalog (record db { secrets = db.secrets ++ s ∷ [] })
added_secret-IsCatalog db s absent c = record {
  secret_names =
      Unique-snoc (λ t. t.name) db.secrets s c.secret_names
        (absent-Apart (λ t. t.name) (secret_named s.name) s db.secrets
          (λ y d. rw d (eq_refl s.name)) absent);
  version_names = c.version_names;
  sound = λ v i. home_grows db.secrets s v (c.sound v i);
}

-- The effect of a creation: none, or a new secret.
pub data Creation (db db' : SecretDb) : Type 0 where
  kept : db' ≡ db → Creation db db'
  added :
      (s : Secret)
      → exists_row (secret_named s.name) db.secrets ≡ false
      → db' ≡ record db { secrets = db.secrets ++ s ∷ [] }
      → Creation db db'

module _ (json : TopicsJson) where
  pub creation :
      (now : ℕ) (db : SecretDb) (args : SecretArgs)
      → Creation db (create_secret_with_rotation json now db args).0
  unfolding create_secret_with_rotation
  creation now db args =
      elim (Bool-cases (trim_space args.name == "" || trim_space args.project_id == "")) [
        | inl b ↦ kept (rw (b, create_secret_with_rotation) refl)
        | inr b ↦ elim (Bool-cases (exists_row (secret_named (trim_space args.name)) db.secrets)) [
          | inl t ↦ kept (rw (b, t, create_secret_with_rotation) refl)
          | inr t ↦ added (secret_row json now args) t (rw (b, t, create_secret_with_rotation) refl)
        ]
      ]

  pub create_secret_with_rotation-IsCatalog :
      (now : ℕ) (db : SecretDb) (args : SecretArgs)
      → IsCatalog db
      → IsCatalog (create_secret_with_rotation json now db args).0
  create_secret_with_rotation-IsCatalog now db args c = elim (creation now db args) [
    | kept e ↦ rw e c
    | added s absent e ↦ rw e (added_secret-IsCatalog db s absent c)
  ]

pub delete_secret-IsCatalog :
    (db : SecretDb) (name : String) → IsCatalog db → IsCatalog (delete_secret db name).0
unfolding delete_secret
delete_secret-IsCatalog db name c = record {
  secret_names = Unique-delete_where (λ s. s.name) (secret_named name) db.secrets c.secret_names;
  version_names = Unique-delete_where (λ v. v.name) (of_secret name) db.versions c.version_names;
  sound = λ v i.
      let (j, other) = delete_where_mem (of_secret name) db.versions i in
      let sound = c.sound v j in
      let (h, k, e) = sound.home in
      record {
        numbered = sound.numbered;
        home = (h, mem_delete_where (secret_named name) db.secrets k (rw e other), e);
        wiped = sound.wiped;
      };
}
