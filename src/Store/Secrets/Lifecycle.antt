-- ===== src/Store/Secrets/Lifecycle.antt =====
-- The life of a version: what access answers after it is added, and that a destroyed version stays
-- destroyed (`AccessSecretVersion`, `SetSecretVersionState`).
use noctaxris_gcp.Base.{
  String, false, ◌&&◌, ◌||◌, ◌==◌, ◌≡◌, ◌≢◌, refl, sym, ap, subst, ◌∙◌, inl, inr, List, [], ◌∷◌,
  Memᴰ, some, Result, Error, message, ok, err, arith, eq_iff, select_one, select_one_mem,
  select_where, update_where, update_where_mem, mem_update_where, trim_space, Unique-mem,
  Unique-update_where, Bool-cases, Option-cases, if◌then◌else◌, one_of, order_by, order_by_mem,
  select_where_mem,
}
use noctaxris_gcp.Store.Secrets.Types.{
  Secret, SecretVersion, SecretDb, secret_version_enabled, secret_version_disabled,
  secret_version_destroyed,
}
use noctaxris_gcp.Store.Secrets.Versions.{
  of_secret, version_named, first, number_ge, get_secret_version, with_state,
  set_secret_version_state,
}
use noctaxris_gcp.Store.Secrets.Invariant.{IsSoundVersion, IsCatalog}

-- A state change touches one version, and only one that is not destroyed.
state_row-IsSoundVersion :
    (secrets : List Secret) (name state : String) (v : SecretVersion)
    → IsSoundVersion secrets v
    → (v.name ≡ name → v.state ≢ secret_version_destroyed)
    → IsSoundVersion secrets (if version_named name v then with_state state v else v)
unfolding with_state
state_row-IsSoundVersion secrets name state v s alive = elim (Bool-cases (v.name == name)) [
  | inr f ↦ rw f s
  | inl t ↦ elim (Bool-cases (state == secret_version_destroyed)) [
    | inl d ↦
        rw (t, d, with_state)
          (record {
            numbered = record {
              value = s.numbered.value;
              text = s.numbered.text;
              positive = s.numbered.positive;
              full_name = s.numbered.full_name;
            };
            home = s.home;
            wiped = λ e. refl;
          })
    | inr d ↦
        rw (t, d, with_state)
          (record {
            numbered = record {
              value = s.numbered.value;
              text = s.numbered.text;
              positive = s.numbered.positive;
              full_name = s.numbered.full_name;
            };
            home = s.home;
            wiped = λ e. absurd (cc (d, (eq_iff state secret_version_destroyed).1 e));
          })
  ]
]

-- How a state change ends.
data StateChange (db : SecretDb) (secret_name version_id state : String)
    (out : SecretDb × Result SecretVersion) : Type 0 where
  refused : (e : Error) → out ≡ (db, err e) → StateChange db secret_name version_id state out
  changed :
      (v : SecretVersion)
      → get_secret_version db secret_name version_id ≡ some v
      → v.state ≢ secret_version_destroyed
      → out ≡ (
        record db { versions = update_where (version_named v.name) (with_state state) db.versions },
        ok (with_state state v),
      )
      → StateChange db secret_name version_id state out

abbrev states : List String
states = secret_version_enabled ∷ secret_version_disabled ∷ secret_version_destroyed ∷ []

state_change :
    (db : SecretDb) (secret_name version_id state : String)
    → StateChange db secret_name version_id state
        (set_secret_version_state db secret_name version_id state)
unfolding set_secret_version_state
state_change db secret_name version_id state =
    elim (Option-cases (get_secret_version db secret_name version_id)) [
      | inl p ↦ refused (message "version not found") (rw (p, set_secret_version_state) refl)
      | inr (v, p) ↦ elim (Bool-cases (v.state == secret_version_destroyed)) [
        | inl d ↦
            refused (message "secret version destroyed") (rw (p, d, set_secret_version_state) refl)
        | inr d ↦ elim (Bool-cases (one_of state states)) [
          | inr f ↦ refused (message "invalid state") (rw (p, d, f, set_secret_version_state) refl)
          | inl t ↦
              changed v p (λ e. cc (d, (eq_iff v.state secret_version_destroyed).1 e))
                (rw (p, d, t, set_secret_version_state) refl)
        ]
      ]
    ]

first_mem : (xs : List SecretVersion) {v : SecretVersion} → first xs ≡ some v → Memᴰ v xs
first_mem [] h = cc
first_mem (x ∷ xs) h = Memᴰ.head (ground arith)

pub found_version :
    (db : SecretDb) (secret_name version_id : String) {v : SecretVersion}
    → get_secret_version db secret_name version_id ≡ some v
    → Memᴰ v db.versions × (v.secret_name ≡ secret_name)
unfolding get_secret_version
found_version db secret_name version_id {v} h =
    elim (Bool-cases (trim_space version_id == "" || trim_space version_id == "latest")) [
      | inl t ↦
          let latest : first (order_by number_ge (select_where (of_secret secret_name) db.versions))
              ≡ some v =
            rw (t, get_secret_version) at h in
          let (i, p) =
            select_where_mem (of_secret secret_name) db.versions
              (order_by_mem number_ge _ (first_mem _ latest)) in
          (i, (eq_iff v.secret_name secret_name).0 p)
      | inr f ↦
          let one : select_one
                (λ x. of_secret secret_name x && x.version_id == trim_space version_id) db.versions
              ≡ some v =
            rw (f, get_secret_version) at h in
          let (i, p) =
            select_one_mem (λ x. of_secret secret_name x && x.version_id == trim_space version_id)
              db.versions one in
          (i, ground (arith, eq_iff v.secret_name secret_name))
    ]

with_state-name : (state : String) (v : SecretVersion) → (with_state state v).name ≡ v.name
unfolding with_state
with_state-name state v = elim (Bool-cases (state == secret_version_destroyed)) [
  | inl t ↦ rw (t, with_state) refl
  | inr t ↦ rw (t, with_state) refl
]

pub set_secret_version_state-IsCatalog :
    (db : SecretDb) (secret_name version_id state : String)
    → IsCatalog db
    → IsCatalog (set_secret_version_state db secret_name version_id state).0
set_secret_version_state-IsCatalog db secret_name version_id state c =
    elim (state_change db secret_name version_id state) [
      | refused e p ↦ rw p c
      | changed v p alive q ↦
          let (i, mine) = found_version db secret_name version_id p in
          rw q (record {
            secret_names = c.secret_names;
            version_names =
                Unique-update_where (λ x. x.name) (version_named v.name) (with_state state)
                  db.versions (λ x. with_state-name state x) c.version_names;
            sound = λ x j.
                let (y, k, e) =
                  update_where_mem (version_named v.name) (with_state state) db.versions j in
                rw e (
                  state_row-IsSoundVersion db.secrets v.name state y (c.sound y k) (λ same d.
                    alive (
                      ap (λ (z : SecretVersion). z.state)
                        (Unique-mem (λ z. z.name) db.versions c.version_names i k (sym same))
                      ∙ d)));
          })
    ]

-- A destroyed version is in the table after every state change.
pub destroyed_kept :
    (db : SecretDb) (secret_name version_id state : String) (x : SecretVersion)
    → IsCatalog db
    → Memᴰ x db.versions
    → x.state ≡ secret_version_destroyed
    → Memᴰ x (set_secret_version_state db secret_name version_id state).0.versions
destroyed_kept db secret_name version_id state x c i d =
    elim (state_change db secret_name version_id state) [
      | refused e p ↦ rw p i
      | changed v p alive q ↦
          let (j, mine) = found_version db secret_name version_id p in
          let other : version_named v.name x ≡ false = elim (Bool-cases (x.name == v.name)) [
            | inr f ↦ f
            | inl t ↦ absurd (
                alive (
                  ap (λ (z : SecretVersion). z.state)
                    (Unique-mem (λ z. z.name) db.versions c.version_names j i
                      (sym ((eq_iff x.name v.name).0 t)))
                  ∙ d))
          ] in
          rw q (
            subst
              (λ (z : SecretVersion).
                Memᴰ z (update_where (version_named v.name) (with_state state) db.versions))
              (rw other refl)
              (mem_update_where (version_named v.name) (with_state state) db.versions i))
    ]
