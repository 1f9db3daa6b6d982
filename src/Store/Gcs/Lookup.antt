-- ===== src/Store/Gcs/Lookup.antt =====
-- How internal/store/gcs.go finds an object, and whether retention holds it.
use noctaxris_gcp.Base.{
  ℕ, ◌+◌, ◌-◌, ◌*◌, ◌%◌, ◌^◌, String, Bool, ◌&&◌, ◌==◌, List, [], ◌∷◌, Option, none, some, Result,
  Error, ok, err, message, annotate, ◌>>=◌, select_one, ltb, eqb, if◌then◌else◌,
}
use noctaxris_gcp.Store.Stamps.{second}
use noctaxris_gcp.Store.Gcs.Types.{Bucket, ObjectMeta, GcsDb, GcsWorld}
use noctaxris_gcp.Store.Gcs.Buckets.{get_bucket}

abbrev pub err_retention_policy_not_met : Error
err_retention_policy_not_met = message "retention policy not met"

abbrev pub err_precondition_failed : Error
err_precondition_failed = message "precondition failed"

abbrev pub is_object : String → String → ObjectMeta → Bool
is_object bucket name o = o.bucket == bucket && o.name == name

abbrev pub is_generation : String → String → ℕ → ObjectMeta → Bool
is_generation bucket name generation o = is_object bucket name o && eqb o.generation generation

abbrev pub newer : ObjectMeta → Option ObjectMeta → Option ObjectMeta
newer o none = some o
newer o (some r) = if ltb o.generation r.generation then some r else some o

-- ORDER BY generation DESC LIMIT 1
unfoldable pub latest : String → String → List ObjectMeta → Option ObjectMeta
latest bucket name [] = none
latest bucket name (o ∷ os) =
    let rest = latest bucket name os in if is_object bucket name o then newer o rest else rest

unfoldable pub get_object : GcsDb → String → String → ℕ → Option ObjectMeta
unfolding latest
get_object db bucket name generation =
    if ltb 0 generation
    then select_one (is_generation bucket name generation) db.objects
    else latest bucket name db.objects

-- COALESCE(MAX(generation), 0) + 1
unfoldable pub next_generation : GcsDb → String → String → ℕ
unfolding latest
next_generation db bucket name = elim (latest bucket name db.objects) [
  | none ↦ 1
  | some o ↦ o.generation + 1
]

-- `time.Since(created) < time.Duration(period) * time.Second`. The product wraps at 64 bits and is
-- negative from 2^63 on; the difference stops at -2^63.
unfoldable pub too_young : (now created period : ℕ) → Bool
too_young now created period =
    let product = period * second % 2 ^ 64 in
    let early = created - now in
    if ltb product (2 ^ 63)
    then ltb now (created + product)
    else ltb (2 ^ 64 - product) (if ltb (2 ^ 63) early then 2 ^ 63 else early)

unfoldable pub check_age : GcsWorld → ℕ → Bucket → ObjectMeta → Result (Unit {0})
check_age w now b o = do
  created ← annotate "parse object created_at" (w.parse_gcs_time o.created_at)
  if too_young now created b.retention_period_seconds
      then err err_retention_policy_not_met
      else ok tt

unfoldable pub check_object_retention :
    GcsWorld → ℕ → GcsDb → String → String → ℕ → Result (Unit {0})
unfolding get_object check_age
check_object_retention w now db bucket name generation = elim (get_bucket db bucket) [
  | none ↦ ok tt
  | some b ↦
      if eqb b.retention_period_seconds 0
      then ok tt
      else elim (get_object db bucket name generation) [
        | none ↦ ok tt
        | some o ↦ check_age w now b o
      ]
]
