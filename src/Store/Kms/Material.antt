-- ===== src/Store/Kms/Material.antt =====
-- What no call of internal/store/kms.go changes: the key material of a version, and what a key is for.
use noctaxris_gcp.Base.{
  String, ◌==◌, ◌≡◌, refl, ap, ◌∙◌, ◌⊎◌, inl, inr, List, [], ◌∷◌, some, arith, eq_iff, assign,
  Bool-cases, Option-cases, ◌||◌,
}
use noctaxris_gcp.Store.Kms.Types.{
  KmsCryptoKey, KmsKeyVersion, KmsDb, kms_state_enabled, kms_state_destroyed,
}
use noctaxris_gcp.Store.Kms.Keys.{
  in_state, filled_key, filled_version, is_empty, get_kms_key_version,
}
use noctaxris_gcp.Store.Kms.Vault.{
  Vault, KmsCall, create_ring, create_key, relabel, destroy, restore, get_ring, get_key,
  get_version, primary, specified, specified_run, insert_key, put_state,
}
use noctaxris_gcp.Store.Kms.Refinement.{run_kms, contents, run_kms_refines}

-- `w` is `v` but for its state, which is the same, enabled or destroyed.
pub record SameVersion (v w : KmsKeyVersion) : Type 0 where
  pub same_key : w.crypto_key ≡ v.crypto_key
  pub same_id : w.version_id ≡ v.version_id
  pub same_material : w.key_material_ciphertext ≡ v.key_material_ciphertext
  pub state_after :
      (w.state ≡ v.state) ⊎ ((w.state ≡ kms_state_enabled) ⊎ (w.state ≡ kms_state_destroyed))

SameVersion-refl : (v : KmsKeyVersion) → SameVersion v v
SameVersion-refl v = record {
  same_key = refl;
  same_id = refl;
  same_material = refl;
  state_after = inl refl;
}

SameVersion-trans : (u v w : KmsKeyVersion) → SameVersion u v → SameVersion v w → SameVersion u w
SameVersion-trans u v w a b = record {
  same_key = b.same_key ∙ a.same_key;
  same_id = b.same_id ∙ a.same_id;
  same_material = b.same_material ∙ a.same_material;
  state_after = elim b.state_after [
    | inr s ↦ inr s
    | inl s ↦ elim a.state_after [
      | inl t ↦ inl (s ∙ t)
      | inr (inl t) ↦ inr (inl (s ∙ t))
      | inr (inr t) ↦ inr (inr (s ∙ t))
    ]
  ];
}

-- The version of a name, after a change.
abbrev Later : Vault → String → KmsKeyVersion → Type 0
Later vault name v = (w : KmsKeyVersion) × (vault.version name ≡ some w) × SameVersion v w

put_state_keeps :
    (vault : Vault) (target state name : String) (v : KmsKeyVersion)
    → (state ≡ kms_state_enabled) ⊎ (state ≡ kms_state_destroyed)
    → vault.version name ≡ some v
    → Later (put_state vault target state).0 name v
unfolding assign
put_state_keeps vault target state name v s h = elim (Bool-cases (target == name)) [
  | inl t ↦ (
    in_state state v,
    rw (t, (eq_iff target name).0 t, h) refl,
    record { same_key = refl; same_id = refl; same_material = refl; state_after = inr s },
  )
  | inr f ↦ (v, rw (f) h, SameVersion-refl v)
]

insert_key_keeps :
    (vault : Vault) (k : KmsCryptoKey) (x : KmsKeyVersion) (name : String) (v : KmsKeyVersion)
    → vault.version name ≡ some v
    → (insert_key vault k x (vault.key k.name) (vault.version x.name)).0.version name ≡ some v
unfolding assign
insert_key_keeps vault k x name v h = elim (Option-cases (vault.key k.name)) [
  | inr (old, p) ↦ rw p h
  | inl n ↦ elim (Option-cases (vault.version x.name)) [
    | inr (old, p) ↦ rw (n, p) h
    | inl m ↦ rw (n, m) (ground (arith, eq_iff x.name name))
  ]
]

specified_keeps :
    (now : String) (vault : Vault) (call : KmsCall) (name : String) (v : KmsKeyVersion)
    → vault.version name ≡ some v
    → Later (specified now vault call).0 name v
unfolding specified
specified_keeps now vault (create_ring kr) name v h = (v, ring_kept, SameVersion-refl v)
  where
    ring_kept : (specified now vault (create_ring kr)).0.version name ≡ some v
    ring_kept = elim (Bool-cases (kr.name == "" || kr.project_id == "" || kr.location == "")) [
      | inl b ↦ rw (b, specified) h
      | inr b ↦ elim (Option-cases (vault.ring kr.name)) [
        | inl n ↦ rw (b, n, specified) h
        | inr (old, p) ↦ rw (b, p, specified) h
      ]
    ]
specified_keeps now vault (create_key k x) name v h = (v, key_kept, SameVersion-refl v)
  where
    key_kept : (specified now vault (create_key k x)).0.version name ≡ some v
    key_kept = elim (Bool-cases (k.name == "" || k.key_ring == "")) [
      | inl b ↦ rw (b, specified) h
      | inr b ↦ elim (Bool-cases (x.name == "" || x.crypto_key == "" || x.version_id == "")) [
        | inl c ↦ rw (b, c, specified) h
        | inr c ↦ elim (Bool-cases (is_empty x.key_material_ciphertext)) [
          | inl d ↦ rw (b, c, d, specified) h
          | inr d ↦
              rw (b, c, d, specified)
                (unfold filled_key in
                  unfold filled_version in
                  insert_key_keeps vault (filled_key now k) (filled_version (filled_key now k) x)
                    name v h)
        ]
      ]
    ]
specified_keeps now vault (relabel target labels_json) name v h = (v, h, SameVersion-refl v)
specified_keeps now vault (destroy target) name v h =
    put_state_keeps vault target kms_state_destroyed name v (inr refl) h
specified_keeps now vault (restore target) name v h =
    put_state_keeps vault target kms_state_enabled name v (inl refl) h
specified_keeps now vault (get_ring target) name v h = (v, h, SameVersion-refl v)
specified_keeps now vault (get_key target) name v h = (v, h, SameVersion-refl v)
specified_keeps now vault (get_version target) name v h = (v, h, SameVersion-refl v)
specified_keeps now vault (primary target) name v h = (v, h, SameVersion-refl v)

run_keeps :
    (vault : Vault) (calls : List (String × KmsCall)) (name : String) (v : KmsKeyVersion)
    → vault.version name ≡ some v
    → Later (specified_run vault calls).0 name v
unfolding specified_run
run_keeps vault [] name v h = (v, h, SameVersion-refl v)
run_keeps vault ((now, call) ∷ calls) name v h =
    let (w, p, s) = specified_keeps now vault call name v h in
    let (x, q, t) = run_keeps (specified now vault call).0 calls name w p in
    (x, q, SameVersion-trans v w x s t)

-- A version that is there is there after every sequence of calls, under the same name, with the key,
-- the identifier and the sealed key material that it had; its state is what it was, or ENABLED or
-- DESTROYED.
pub material_kept :
    (db : KmsDb) (calls : List (String × KmsCall)) (name : String) (v : KmsKeyVersion)
    → get_kms_key_version db name ≡ some v
    → (w : KmsKeyVersion) × (get_kms_key_version (run_kms db calls).0 name ≡ some w)
      × SameVersion v w
unfolding get_kms_key_version
material_kept db calls name v h =
    let (w, p, s) = run_keeps (contents db) calls name v h in
    (w, ap (λ (vault : Vault). vault.version name) (run_kms_refines db calls).0 ∙ p, s)
