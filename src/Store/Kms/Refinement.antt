-- ===== src/Store/Kms/Refinement.antt =====
-- The tables of internal/store/kms.go implement the vault of three maps.
use mathlib.Core.Path.{fun_ext}
use mathlib.Core.Option.{map}
use noctaxris_gcp.Base.{
  String, ◌||◌, ◌==◌, ◌≡◌, refl, ap, ◌∙◌, eq_refl, inl, inr, List, [], ◌∷◌, Option, none, some,
  arith, eq_iff, update_where, is_some, assign, row_at, exists-row_at, row_at-snoc, row_at-update,
  Bool-cases, Option-cases,
}
use noctaxris_gcp.Store.Kms.Types.{
  KmsKeyRing, KmsCryptoKey, KmsKeyVersion, KmsDb, kms_state_enabled, kms_state_destroyed,
}
use noctaxris_gcp.Store.Kms.Keys.{
  or_default, dated_ring, filled_key, filled_version, labelled, in_state, is_empty,
  create_kms_key_ring, get_kms_key_ring, create_kms_crypto_key, get_kms_crypto_key,
  update_kms_crypto_key, get_kms_key_version, primary_kms_key_version, destroy_kms_key_version,
  restore_kms_key_version, inserted_key, key_version_named,
}
use noctaxris_gcp.Store.Kms.Vault.{
  Vault, KmsCall, create_ring, create_key, relabel, destroy, restore, get_ring, get_key,
  get_version, primary, Reply, created, ring_found, key_found, version_found, specified,
  specified_run, insert_key,
}

-- A call on the tables at a time.
unfoldable pub perform_kms : String → KmsDb → KmsCall → KmsDb × Reply
perform_kms now db (create_ring kr) =
    let (db', made) = create_kms_key_ring now db kr in (db', created made)
perform_kms now db (create_key k v) =
    let (db', made) = create_kms_crypto_key now db k v in (db', created made)
perform_kms now db (relabel name labels_json) =
    let (db', found) = update_kms_crypto_key db name labels_json in (db', key_found found)
perform_kms now db (destroy name) =
    let (db', found) = destroy_kms_key_version db name in (db', version_found found)
perform_kms now db (restore name) =
    let (db', found) = restore_kms_key_version db name in (db', version_found found)
perform_kms now db (get_ring name) = (db, ring_found (get_kms_key_ring db name))
perform_kms now db (get_key name) = (db, key_found (get_kms_crypto_key db name))
perform_kms now db (get_version name) = (db, version_found (get_kms_key_version db name))
perform_kms now db (primary crypto_key) =
    (db, version_found (primary_kms_key_version db crypto_key))

unfoldable pub run_kms : KmsDb → List (String × KmsCall) → KmsDb × List Reply
unfolding perform_kms
run_kms db [] = (db, [])
run_kms db ((now, call) ∷ calls) =
    let (next, reply) = perform_kms now db call in
    let (last, replies) = run_kms next calls in (last, reply ∷ replies)

-- What the tables hold.
abbrev pub contents : KmsDb → Vault
contents db = record {
  ring = row_at (λ r. r.name) db.rings;
  key = row_at (λ k. k.name) db.keys;
  version = row_at (λ v. v.name) db.versions;
}

-- Tables and a reply, seen as a vault and the reply.
abbrev seen : KmsDb × Reply → Vault × Reply
seen (db, reply) = (contents db, reply)

assign_self {ℓ} :
    {A : Type ℓ} (f : String → Option A) (k : String) (v : Option A) → f k ≡ v → assign f k v ≡ f
unfolding assign
assign_self f k v h = fun_ext λ n. ground (arith, eq_iff k n)

assign_at {ℓ} :
    {A : Type ℓ} (f : String → Option A) (k : String) (v : Option A) → assign f k v k ≡ v
unfolding assign
assign_at f k v = rw eq_refl refl

ring_refines :
    (now : String) (db : KmsDb) (kr : KmsKeyRing)
    → seen (perform_kms now db (create_ring kr)) ≡ specified now (contents db) (create_ring kr)
unfolding perform_kms create_kms_key_ring specified
ring_refines now db kr =
    elim (Bool-cases (kr.name == "" || kr.project_id == "" || kr.location == "")) [
      | inl b ↦ rw b refl
      | inr b ↦ elim (Option-cases (row_at (λ r. r.name) db.rings kr.name)) [
        | inl n ↦
            rw
              (
                b,
                exists-row_at (λ r. r.name) kr.name db.rings,
                n,
                row_at-snoc (λ r. r.name) (dated_ring now kr) db.rings n,
              )
              refl
        | inr (old, p) ↦ rw (b, exists-row_at (λ r. r.name) kr.name db.rings, p) refl
      ]
    ]

-- The two look-ups that a creation of a key decides by.
key_inserted :
    (now : String) (db : KmsDb) (k : KmsCryptoKey) (v : KmsKeyVersion) (found : Option KmsCryptoKey)
    (taken : Option KmsKeyVersion)
    → row_at (λ k. k.name) db.keys k.name ≡ found
    → row_at (λ v. v.name) db.versions v.name ≡ taken
    → seen (
        let key = filled_key now k in
        let version = filled_version key v in
        let (db', made) = inserted_key db key version (is_some found) (is_some taken) in
        (db', created made))
      ≡ insert_key
          (contents db)
          (filled_key now k)
          (filled_version (filled_key now k) v)
          found
          taken
unfolding filled_key filled_version inserted_key
key_inserted now db k v (some old) taken p q = refl
key_inserted now db k v none (some old) p q = refl
key_inserted now db k v none none p q =
    rw
      (
        row_at-snoc (λ k. k.name) (filled_key now k) db.keys p,
        row_at-snoc (λ v. v.name) (filled_version (filled_key now k) v) db.versions q,
      )
      refl

key_refines :
    (now : String) (db : KmsDb) (k : KmsCryptoKey) (v : KmsKeyVersion)
    → seen (perform_kms now db (create_key k v)) ≡ specified now (contents db) (create_key k v)
unfolding perform_kms create_kms_crypto_key inserted_key specified filled_key filled_version
key_refines now db k v = elim (Bool-cases (k.name == "" || k.key_ring == "")) [
  | inl b ↦ rw b refl
  | inr b ↦ elim (Bool-cases (v.name == "" || v.crypto_key == "" || v.version_id == "")) [
    | inl c ↦ rw (b, c) refl
    | inr c ↦ elim (Bool-cases (is_empty v.key_material_ciphertext)) [
      | inl d ↦ rw (b, c, d) refl
      | inr d ↦
          rw
            (
              b,
              c,
              d,
              exists-row_at (λ k. k.name) k.name db.keys,
              exists-row_at (λ v. v.name) v.name db.versions,
            )
            (key_inserted now db k v _ _ refl refl)
    ]
  ]
]

relabel_refines :
    (now : String) (db : KmsDb) (name labels_json : String)
    → seen (perform_kms now db (relabel name labels_json))
      ≡ specified now (contents db) (relabel name labels_json)
unfolding perform_kms update_kms_crypto_key get_kms_crypto_key specified
relabel_refines now db name labels_json =
    let before = row_at (λ k. k.name) db.keys in
    let found = map (labelled (or_default "{}" labels_json)) (before name) in
    let new =
      row_at-update (λ k. k.name) name (labelled (or_default "{}" labels_json)) db.keys
        (λ k. refl) in
    ap
      (λ (rows : String → Option KmsCryptoKey).
        (record (contents db) { key = rows }, key_found (rows name)))
      new
    ∙ ap
        (λ (k : Option KmsCryptoKey).
          (record (contents db) { key = assign before name found }, key_found k))
        (assign_at before name found)

-- The tables' contents with a row of a version in place, and the reply that shows it.
abbrev with_version : KmsDb → String → Option KmsKeyVersion → Vault × Reply
with_version db name found = (
  record (contents db) { version = assign (row_at (λ v. v.name) db.versions) name found },
  version_found found,
)

module _ (db : KmsDb) (name state : String) where
  state_absent :
      row_at (λ v. v.name) db.versions name ≡ none
      → seen (db, version_found none) ≡ with_version db name none
  state_absent n = rw (assign_self (row_at (λ v. v.name) db.versions) name none n) refl

  state_kept :
      (v : KmsKeyVersion)
      → row_at (λ v. v.name) db.versions name ≡ some v
      → v.state ≡ state
      → seen (db, version_found (some v)) ≡ with_version db name (some (in_state state v))
  state_kept v p e =
      let same : in_state state v ≡ v = rw (← e) refl in
      rw (same, assign_self (row_at (λ v. v.name) db.versions) name (some v) p) refl

  state_written :
      (v : KmsKeyVersion)
      → row_at (λ v. v.name) db.versions name ≡ some v
      → seen (
        record db { versions = update_where (key_version_named name) (in_state state) db.versions },
        version_found (some (in_state state v)),
      )
        ≡ with_version db name (some (in_state state v))
  state_written v p =
      rw (row_at-update (λ v. v.name) name (in_state state) db.versions (λ v. refl), p) refl

destroy_refines :
    (now : String) (db : KmsDb) (name : String)
    → seen (perform_kms now db (destroy name)) ≡ specified now (contents db) (destroy name)
unfolding perform_kms destroy_kms_key_version get_kms_key_version specified
destroy_refines now db name = elim (Option-cases (row_at (λ v. v.name) db.versions name)) [
  | inl n ↦ rw (n, destroy_kms_key_version) (state_absent db name kms_state_destroyed n)
  | inr (v, p) ↦ elim (Bool-cases (v.state == kms_state_destroyed)) [
    | inl d ↦
        rw (p, d, destroy_kms_key_version)
          (state_kept db name kms_state_destroyed v p ((eq_iff _ _).0 d))
    | inr d ↦ rw (p, d, destroy_kms_key_version) (state_written db name kms_state_destroyed v p)
  ]
]

restore_refines :
    (now : String) (db : KmsDb) (name : String)
    → seen (perform_kms now db (restore name)) ≡ specified now (contents db) (restore name)
unfolding perform_kms restore_kms_key_version get_kms_key_version specified
restore_refines now db name = elim (Option-cases (row_at (λ v. v.name) db.versions name)) [
  | inl n ↦ rw (n, restore_kms_key_version) (state_absent db name kms_state_enabled n)
  | inr (v, p) ↦ elim (Bool-cases (v.state == kms_state_enabled)) [
    | inl d ↦
        rw (p, d, restore_kms_key_version)
          (state_kept db name kms_state_enabled v p ((eq_iff _ _).0 d))
    | inr d ↦ rw (p, d, restore_kms_key_version) (state_written db name kms_state_enabled v p)
  ]
]

perform_refines :
    (now : String) (db : KmsDb) (call : KmsCall)
    → seen (perform_kms now db call) ≡ specified now (contents db) call
perform_refines now db (create_ring kr) = ring_refines now db kr
perform_refines now db (create_key k v) = key_refines now db k v
perform_refines now db (relabel name labels_json) = relabel_refines now db name labels_json
perform_refines now db (destroy name) = destroy_refines now db name
perform_refines now db (restore name) = restore_refines now db name
perform_refines now db (get_ring name) =
    unfold perform_kms in unfold specified in unfold get_kms_key_ring in refl
perform_refines now db (get_key name) =
    unfold perform_kms in unfold specified in unfold get_kms_crypto_key in refl
perform_refines now db (get_version name) =
    unfold perform_kms in unfold specified in unfold get_kms_key_version in refl
perform_refines now db (primary crypto_key) =
    unfold perform_kms in
    unfold specified in unfold primary_kms_key_version in unfold get_kms_key_version in refl

-- On any tables, every sequence of calls answers what the vault of three maps answers, and leaves
-- tables that hold what the vault holds.
pub run_kms_refines :
    (db : KmsDb) (calls : List (String × KmsCall))
    → (contents (run_kms db calls).0 ≡ (specified_run (contents db) calls).0)
      × ((run_kms db calls).1 ≡ (specified_run (contents db) calls).1)
unfolding run_kms specified_run
run_kms_refines db [] = (refl, refl)
run_kms_refines db ((now, call) ∷ calls) =
    let step = perform_refines now db call in
    let (vault, replies) = run_kms_refines (perform_kms now db call).0 calls in
    (cc (step, vault), cc (step, replies))
