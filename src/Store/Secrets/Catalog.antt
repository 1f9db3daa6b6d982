-- ===== src/Store/Secrets/Catalog.antt =====
-- Secrets and their metadata (internal/store/secrets.go). The SQL engine is taken not to fail.
use noctaxris_gcp.Base.{
  ℕ, String, Bool, ◌||◌, ◌==◌, List, [], ◌∷◌, ◌++◌, Option, none, some, Result, ok, err, message,
  trim_space, select_where, select_one, exists_row, delete_where, update_where, order_by,
  if◌then◌else◌,
}
use noctaxris_gcp.Store.Stamps.{format}
use noctaxris_gcp.Store.PubSub.Types.{StringMap, or_empty_map}
use noctaxris_gcp.Store.PubSub.Topics.{name_le}
use noctaxris_gcp.Store.Secrets.Types.{Secret, SecretDb}

abbrev pub secret_named : String → Secret → Bool
secret_named name s = s.name == name

-- The arguments of `CreateSecretWithRotation`; `none` for a nil map.
pub record SecretArgs : Type 0 where
  pub name : String
  pub project_id : String
  pub labels : Option StringMap
  pub annotations : Option StringMap
  pub replication : Option String
  pub cmek_kms_key_name : String
  pub rotation_period : String
  pub next_rotation_time : String
  pub topics : List StringMap

abbrev pub or_automatic : Option String → String
or_automatic none = "{\"automatic\":{}}"
or_automatic (some text) = text

-- `json.Marshal` of a list of string maps.
pub record TopicsJson : Type 0 where
  pub marshal : List StringMap → String

unfoldable pub get_secret : SecretDb → String → Option Secret
get_secret db name = select_one (secret_named name) db.secrets

-- The pointer arguments of `PatchSecretMeta`; a nil pointer leaves its field.
pub record SecretPatch : Type 0 where
  pub labels : Option (Option StringMap)
  pub annotations : Option (Option StringMap)
  pub rotation_period : Option String
  pub next_rotation_time : Option String
  pub topics : Option (List StringMap)

abbrev given {ℓ κ} : {A : Type ℓ} {B : Type κ} → Option A → B → (A → B) → B
given none b f = b
given (some a) b f = f a

-- The columns that the UPDATE of the metadata sets.
unfoldable pub set_metadata : Secret → Secret → Secret
set_metadata new old = record old {
  labels = new.labels;
  annotations = new.annotations;
  rotation_period = new.rotation_period;
  next_rotation_time = new.next_rotation_time;
  topics_json = new.topics_json;
}

module _ (json : TopicsJson) where
  abbrev pub topics_text : List StringMap → String
  topics_text [] = "[]"
  topics_text (t ∷ ts) = json.marshal (t ∷ ts)

  -- The row that is inserted.
  abbrev pub secret_row : ℕ → SecretArgs → Secret
  secret_row now args = record {
    name = trim_space args.name;
    project_id = trim_space args.project_id;
    labels = or_empty_map args.labels;
    annotations = or_empty_map args.annotations;
    replication = or_automatic args.replication;
    cmek_kms_key_name = trim_space args.cmek_kms_key_name;
    rotation_period = trim_space args.rotation_period;
    next_rotation_time = trim_space args.next_rotation_time;
    topics_json = topics_text args.topics;
    created_at = format now;
  }

  -- `none` says that the secret is there already.
  unfoldable pub create_secret_with_rotation :
      ℕ → SecretDb → SecretArgs → SecretDb × Result (Option Secret)
  create_secret_with_rotation now db args =
      let name = trim_space args.name in
      let project_id = trim_space args.project_id in
      if name == "" || project_id == ""
      then (db, err (message "secret name and project required"))
      else let secret = secret_row now args in
        if exists_row (secret_named name) db.secrets
        then (db, ok none)
        else (record db { secrets = db.secrets ++ secret ∷ [] }, ok (some secret))

  unfoldable pub patch_secret_meta : SecretDb → String → SecretPatch → SecretDb × Result Secret
  patch_secret_meta db name u = elim (get_secret db name) [
    | none ↦ (db, err (message "secret not found"))
    | some secret ↦
        let patched = record secret {
          labels = given u.labels secret.labels or_empty_map;
          annotations = given u.annotations secret.annotations or_empty_map;
          rotation_period = given u.rotation_period secret.rotation_period trim_space;
          next_rotation_time = given u.next_rotation_time secret.next_rotation_time trim_space;
          topics_json = given u.topics secret.topics_json topics_text;
        } in
        (
          record db {
            secrets = update_where (secret_named name) (set_metadata patched) db.secrets;
          },
          ok patched,
        )
  ]

unfoldable pub list_secrets : SecretDb → String → List Secret
list_secrets db project_id =
    order_by (λ a b. name_le a.name b.name)
      (select_where (λ s. s.project_id == project_id) db.secrets)

-- The versions go with the secret.
unfoldable pub delete_secret : SecretDb → String → SecretDb × Bool
delete_secret db name = (
  record db {
    versions = delete_where (λ v. v.secret_name == name) db.versions;
    secrets = delete_where (secret_named name) db.secrets;
  },
  exists_row (secret_named name) db.secrets,
)
