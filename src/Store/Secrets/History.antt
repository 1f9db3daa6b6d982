-- ===== src/Store/Secrets/History.antt =====
-- The life of the Secret Manager tables: every sequence of calls keeps what they promise, and a
-- destroyed version outlives every call but the deletion of its secret (internal/store/secrets.go).
use mathlib.Core.List.Memᴰ
use noctaxris_gcp.Base.{
  ℕ, String, Bool, true, not, ◌==◌, ◌≡◌, refl, sym, ap, subst, ◌∙◌, inl, inr, List, [], ◌∷◌, Memᴰ,
  arith, mem_delete_where, update_where, mem_update_where, Unique-update_where, Bool-cases,
  Option-cases, if◌then◌else◌, all_pass,
}
use noctaxris_gcp.Store.Seal.{Aead}
use noctaxris_gcp.Store.Secrets.Types.{Secret, SecretVersion, SecretDb, secret_version_destroyed}
use noctaxris_gcp.Store.Secrets.Catalog.{
  SecretArgs, TopicsJson, secret_named, create_secret_with_rotation, get_secret, delete_secret,
  SecretPatch, set_metadata, patch_secret_meta,
}
use noctaxris_gcp.Store.Secrets.Versions.{add_secret_version, set_secret_version_state}
use noctaxris_gcp.Store.Secrets.Invariant.{
  IsSoundVersion, IsCatalog, create_secret_with_rotation-IsCatalog, creation, kept, added,
  delete_secret-IsCatalog,
}
use noctaxris_gcp.Store.Secrets.Adding.{added_version, add_secret_version-IsCatalog}
use noctaxris_gcp.Store.Secrets.Lifecycle.{set_secret_version_state-IsCatalog, destroyed_kept}

-- The calls that write, but for rotation.
pub data SecretCall : Type 0 where
  create : SecretArgs → SecretCall
  patch : (name : String) (u : SecretPatch) → SecretCall
  delete : (name : String) → SecretCall
  add : (nonce : List ℕ) (secret_name : String) (plaintext : List ℕ) → SecretCall
  set_state : (secret_name version_id state : String) → SecretCall

abbrev pub no_versions : SecretDb
no_versions = record { secrets = []; versions = [] }

patched_home :
    (name : String) (new : Secret) (secrets : List Secret) (v : SecretVersion)
    → IsSoundVersion secrets v
    → IsSoundVersion (update_where (secret_named name) (set_metadata new) secrets) v
unfolding set_metadata
patched_home name new secrets v x =
    let (h, i, e) = x.home in
    let same : (if secret_named name h then set_metadata new h else h).name ≡ h.name =
      elim (Bool-cases (h.name == name)) [ inl t ↦ rw t refl | inr t ↦ rw t refl ] in
    record {
      numbered = x.numbered;
      home = (_, mem_update_where (secret_named name) (set_metadata new) secrets i, same ∙ e);
      wiped = x.wiped;
    }

module _ (json : TopicsJson) (aead : Aead) where
  patch_secret_meta-IsCatalog :
      (db : SecretDb) (name : String) (u : SecretPatch)
      → IsCatalog db
      → IsCatalog (patch_secret_meta json db name u).0
  unfolding patch_secret_meta
  patch_secret_meta-IsCatalog db name u c = elim (Option-cases (get_secret db name)) [
    | inl p ↦ rw (p, patch_secret_meta) c
    | inr (secret, p) ↦
        rw (p, patch_secret_meta)
          (record {
            secret_names =
                Unique-update_where (λ s. s.name) (secret_named name) _ db.secrets
                  (λ s. unfold set_metadata in refl) c.secret_names;
            version_names = c.version_names;
            sound = λ v i. patched_home name _ db.secrets v (c.sound v i);
          })
  ]

  -- What a call at a time leaves behind.
  unfoldable pub perform_secret : ℕ → SecretDb → SecretCall → SecretDb
  perform_secret now db (create args) = (create_secret_with_rotation json now db args).0
  perform_secret now db (patch name u) = (patch_secret_meta json db name u).0
  perform_secret now db (delete name) = (delete_secret db name).0
  perform_secret now db (add nonce secret_name plaintext) =
      (add_secret_version aead nonce now db secret_name plaintext).0
  perform_secret now db (set_state secret_name version_id state) =
      (set_secret_version_state db secret_name version_id state).0

  unfoldable pub run_secrets : SecretDb → List (ℕ × SecretCall) → SecretDb
  unfolding perform_secret
  run_secrets db [] = db
  run_secrets db ((now, call) ∷ calls) = run_secrets (perform_secret now db call) calls

  perform_secret-IsCatalog :
      (now : ℕ) (db : SecretDb) (call : SecretCall)
      → IsCatalog db
      → IsCatalog (perform_secret now db call)
  unfolding perform_secret
  perform_secret-IsCatalog now db (create args) c =
      create_secret_with_rotation-IsCatalog json now db args c
  perform_secret-IsCatalog now db (patch name u) c = patch_secret_meta-IsCatalog db name u c
  perform_secret-IsCatalog now db (delete name) c = delete_secret-IsCatalog db name c
  perform_secret-IsCatalog now db (add nonce secret_name plaintext) c =
      add_secret_version-IsCatalog aead nonce now secret_name plaintext db c
  perform_secret-IsCatalog now db (set_state secret_name version_id state) c =
      set_secret_version_state-IsCatalog db secret_name version_id state c

  -- From valid tables on, whatever is called: the names of secrets and versions are unique, every
  -- version has its secret, a positive number and the name that is made of them, and a destroyed
  -- version has no payload.
  pub run_secrets-IsCatalog :
      (db : SecretDb) (calls : List (ℕ × SecretCall))
      → IsCatalog db
      → IsCatalog (run_secrets db calls)
  unfolding run_secrets
  run_secrets-IsCatalog db [] c = c
  run_secrets-IsCatalog db ((now, call) ∷ calls) c =
      run_secrets-IsCatalog (perform_secret now db call) calls
        (perform_secret-IsCatalog now db call c)

  -- Whether a call is not the deletion of the secret.
  unfoldable pub spares : String → ℕ × SecretCall → Bool
  spares secret_name (now, delete name) = not (secret_name == name)
  spares secret_name (now, create args) = true
  spares secret_name (now, patch name u) = true
  spares secret_name (now, add nonce name plaintext) = true
  spares secret_name (now, set_state name version_id state) = true

  created_versions :
      (now : ℕ) (db : SecretDb) (args : SecretArgs)
      → (create_secret_with_rotation json now db args).0.versions ≡ db.versions
  created_versions now db args = elim (creation json now db args) [
    | kept e ↦ ap (λ (d : SecretDb). d.versions) e
    | added s absent e ↦ ap (λ (d : SecretDb). d.versions) e
  ]

  patched_versions :
      (db : SecretDb) (name : String) (u : SecretPatch)
      → (patch_secret_meta json db name u).0.versions ≡ db.versions
  unfolding patch_secret_meta
  patched_versions db name u = elim (Option-cases (get_secret db name)) [
    | inl p ↦ rw (p, patch_secret_meta) refl
    | inr (secret, p) ↦ rw (p, patch_secret_meta) refl
  ]

  added_keeps :
      (now : ℕ) (db : SecretDb) (nonce : List ℕ) (secret_name : String) (plaintext : List ℕ)
      (x : SecretVersion)
      → IsCatalog db
      → Memᴰ x db.versions
      → Memᴰ x (add_secret_version aead nonce now db secret_name plaintext).0.versions
  added_keeps now db nonce secret_name plaintext x c i =
      elim (Option-cases (get_secret db secret_name)) [
        | inl p ↦ unfold add_secret_version in rw (p, add_secret_version) i
        | inr (s, p) ↦
            rw (added_version aead nonce now secret_name plaintext db s c p) (Memᴰ.append_left _ i)
      ]

  destroyed_step :
      (now : ℕ) (db : SecretDb) (call : SecretCall) (x : SecretVersion)
      → IsCatalog db
      → Memᴰ x db.versions
      → x.state ≡ secret_version_destroyed
      → spares x.secret_name (now, call) ≡ true
      → Memᴰ x (perform_secret now db call).versions
  unfolding perform_secret spares
  destroyed_step now db (create args) x c i d s =
      subst (Memᴰ x) (sym (created_versions now db args)) i
  destroyed_step now db (patch name u) x c i d s =
      subst (Memᴰ x) (sym (patched_versions db name u)) i
  destroyed_step now db (delete name) x c i d s =
      unfold delete_secret in
      mem_delete_where (λ v. v.secret_name == name) db.versions i (ground arith)
  destroyed_step now db (add nonce secret_name plaintext) x c i d s =
      added_keeps now db nonce secret_name plaintext x c i
  destroyed_step now db (set_state secret_name version_id state) x c i d s =
      destroyed_kept db secret_name version_id state x c i d

  -- A destroyed version stays as it is, whatever is called from valid tables on, unless its secret
  -- is deleted.
  pub destroyed_forever :
      (db : SecretDb) (calls : List (ℕ × SecretCall)) (x : SecretVersion)
      → IsCatalog db
      → Memᴰ x db.versions
      → x.state ≡ secret_version_destroyed
      → all_pass (spares x.secret_name) calls ≡ true
      → Memᴰ x (run_secrets db calls).versions
  unfolding run_secrets all_pass
  destroyed_forever db [] x c i d s = i
  destroyed_forever db ((now, call) ∷ calls) x c i d s =
      destroyed_forever (perform_secret now db call) calls x
        (perform_secret-IsCatalog now db call c) (destroyed_step now db call x c i d (ground arith))
        d (ground arith)
