-- ===== src/Store/Secrets/Tests.antt =====
-- A concrete secret with a destroyed version.
use mathlib.Core.List.Memᴰ
use noctaxris_gcp.Base.{
  ℕ, ◌≡◌, refl, subst, List, [], ◌∷◌, Memᴰ, none, some, ok, select_one, exists_row, update_where,
  trim_space, one_of, all_pass,
}
use noctaxris_gcp.Store.Stamps.{format}
use noctaxris_gcp.Store.Numerals.{itoa, all_digits, is_digit, cast_integer}
use noctaxris_gcp.Store.Seal.{Aead, Opens, seal, unseal, drop}
use noctaxris_gcp.Store.Secrets.Types.{Secret, SecretVersion, SecretDb, secret_version_enabled}
use noctaxris_gcp.Store.Secrets.Names.{
  version_name, parse_secret_version_name, parse_secret_version_name-version_name,
}
use noctaxris_gcp.Store.Secrets.Catalog.{
  SecretArgs, TopicsJson, create_secret_with_rotation, get_secret,
}
use noctaxris_gcp.Store.Secrets.Versions.{
  max_number, insert_version, add_secret_version, get_secret_version, access_secret_version,
  with_state, set_secret_version_state,
}
use noctaxris_gcp.Store.Secrets.Invariant.{IsCatalog}
use noctaxris_gcp.Store.Secrets.Access.{access-add, access_enabled_only}
use noctaxris_gcp.Store.Secrets.History.{
  SecretCall, create, add, set_state, no_versions, perform_secret, run_secrets,
  run_secrets-IsCatalog, spares, destroyed_forever,
}

abbrev json : TopicsJson
json = record { marshal = λ topics. "[{}]" }

-- A cipher that leaves the text as it is.
abbrev clear : Aead
clear = record { nonce_size = 2; seal = λ nonce text. text; open_sealed = λ nonce text. some text }

clear-Opens : Opens clear
clear-Opens nonce plaintext = refl

abbrev secret_args : SecretArgs
secret_args = record {
  name = "projects/p/secrets/s";
  project_id = "p";
  labels = none;
  annotations = none;
  replication = none;
  cmek_kms_key_name = "";
  rotation_period = "";
  next_rotation_time = "";
  topics = [];
}

abbrev secret : Secret
secret = record {
  name = "projects/p/secrets/s";
  project_id = "p";
  labels = [];
  annotations = [];
  replication = "{\"automatic\":{}}";
  cmek_kms_key_name = "";
  rotation_period = "";
  next_rotation_time = "";
  topics_json = "[]";
  created_at = format 0;
}

abbrev fresh_db : SecretDb
fresh_db = record { secrets = secret ∷ []; versions = [] }

no_versions-IsCatalog : IsCatalog no_versions
no_versions-IsCatalog = record {
  secret_names = tt;
  version_names = tt;
  sound = λ v i. absurd (Memᴰ.not-nil i);
}

fresh_run : run_secrets json clear no_versions ((0, create secret_args) ∷ []) ≡ fresh_db
unfolding run_secrets perform_secret create_secret_with_rotation exists_row trim_space
fresh_run = refl

run_secrets-IsCatalog_example :
    IsCatalog (run_secrets json clear no_versions ((0, create secret_args) ∷ []))
run_secrets-IsCatalog_example =
    run_secrets-IsCatalog json clear no_versions ((0, create secret_args) ∷ [])
      no_versions-IsCatalog

fresh-IsCatalog : IsCatalog fresh_db
fresh-IsCatalog = subst IsCatalog fresh_run run_secrets-IsCatalog_example

found_secret : get_secret fresh_db "projects/p/secrets/s" ≡ some secret
unfolding get_secret select_one
found_secret = refl

access-add_example :
    (db' : SecretDb) × (v : SecretVersion) × (add_secret_version clear
        (1 ∷ 2 ∷ [])
        5
        fresh_db
        "projects/p/secrets/s"
        (7 ∷ [])
      ≡ (db', ok v))
    × (access_secret_version clear db' "projects/p/secrets/s" v.version_id ≡ (some v, ok (7 ∷ [])))
access-add_example =
    access-add clear (1 ∷ 2 ∷ []) 5 fresh_db "projects/p/secrets/s" (7 ∷ []) secret fresh-IsCatalog
      found_secret clear-Opens refl

parse_secret_version_name-version_name_example :
    parse_secret_version_name (version_name "projects/p/secrets/s" "12")
    ≡ some ("projects/p/secrets/s", "12")
parse_secret_version_name-version_name_example =
    parse_secret_version_name-version_name "projects/p/secrets/s" "12"
      (unfold all_digits is_digit in refl) (unfold trim_space in refl)

abbrev one : SecretVersion
one = record {
  name = "projects/p/secrets/s/versions/1";
  secret_name = "projects/p/secrets/s";
  version_id = "1";
  payload_ciphertext = 1 ∷ 2 ∷ 7 ∷ [];
  state = "ENABLED";
  created_at = format 5;
}

abbrev one_db : SecretDb
one_db = record { secrets = secret ∷ []; versions = one ∷ [] }

abbrev wiped : SecretVersion
wiped = record one { payload_ciphertext = []; state = "DESTROYED" }

abbrev wiped_db : SecretDb
wiped_db = record { secrets = secret ∷ []; versions = wiped ∷ [] }

one_answers : (access_secret_version clear one_db "projects/p/secrets/s" "1").1 ≡ ok (7 ∷ [])
unfolding access_secret_version get_secret_version select_one trim_space unseal drop
one_answers = refl

access_enabled_only_example :
    (v : SecretVersion) × Memᴰ v one_db.versions
    × (v.secret_name ≡ "projects/p/secrets/s")
    × (v.state ≡ secret_version_enabled)
    × (unseal clear v.payload_ciphertext ≡ ok (7 ∷ []))
access_enabled_only_example =
    access_enabled_only clear one_db "projects/p/secrets/s" "1" (7 ∷ []) one_answers

abbrev lifecycle : List (ℕ × SecretCall)
lifecycle =
    (5, add (1 ∷ 2 ∷ []) "projects/p/secrets/s" (7 ∷ []))
    ∷ (6, set_state "projects/p/secrets/s" "1" "DESTROYED")
    ∷ []

wiped_run : run_secrets json clear fresh_db lifecycle ≡ wiped_db
unfolding run_secrets perform_secret add_secret_version get_secret select_one insert_version
    exists_row max_number itoa cast_integer seal set_secret_version_state get_secret_version
    trim_space one_of update_where with_state
wiped_run = refl

wiped-IsCatalog : IsCatalog wiped_db
wiped-IsCatalog =
    subst IsCatalog wiped_run (run_secrets-IsCatalog json clear fresh_db lifecycle fresh-IsCatalog)

abbrev revival : List (ℕ × SecretCall)
revival =
    (7, set_state "projects/p/secrets/s" "1" "ENABLED")
    ∷ (8, add (3 ∷ 4 ∷ []) "projects/p/secrets/s" (9 ∷ []))
    ∷ []

destroyed_forever_example : Memᴰ wiped (run_secrets json clear wiped_db revival).versions
destroyed_forever_example =
    destroyed_forever json clear wiped_db revival wiped wiped-IsCatalog (Memᴰ.head refl) refl
      (unfold spares all_pass in refl)
