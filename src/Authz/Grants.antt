-- ===== src/Authz/Grants.antt =====
-- `roleGrants` of internal/kernel/authz/iam.go and `predefinedServiceRoleGrants` of
-- internal/kernel/authz/predefined_roles.go.
use noctaxris_gcp.Base.{
  String, Bool, true, false, not, ◌||◌, ◌&&◌, ◌==◌, List, [], ◌++◌, concat, Option, none, some,
  Result, ok, has_prefix, drop_prefix, contains, split_at, one_of, if◌then◌else◌, ◌>>=◌,
}
use noctaxris_gcp.Authz.Policy.{Evaluator}
use noctaxris_gcp.Authz.Roles.Switch.{Case, select}
use noctaxris_gcp.Authz.Roles.Basic.{basic_cases}
use noctaxris_gcp.Authz.Roles.Identity.{identity_cases}
use noctaxris_gcp.Authz.Roles.Telemetry.{telemetry_cases}
use noctaxris_gcp.Authz.Roles.Runtime.{runtime_cases}
use noctaxris_gcp.Authz.Roles.Storage.{storage_cases}
use noctaxris_gcp.Authz.Roles.Delivery.{delivery_cases}

unfoldable pub predefined_cases : List Case
unfolding identity_cases telemetry_cases runtime_cases storage_cases delivery_cases
predefined_cases =
    identity_cases ++ (telemetry_cases ++ (runtime_cases ++ (storage_cases ++ delivery_cases)))

-- `(granted, known)`
unfoldable pub predefined_service_role_grants : String → String → Bool × Bool
predefined_service_role_grants role permission = elim (select role predefined_cases) [
  | none ↦ (false, false)
  | some grants ↦ (grants permission, true)
]

unfoldable pub is_custom_role_name : String → Bool
is_custom_role_name role =
    has_prefix role "projects/" && contains role "/roles/"
    || has_prefix role "organizations/" && contains role "/roles/"

-- The keys that the map holds: none.
unfoldable pub lab_predefined_service_prefixes : List String
lab_predefined_service_prefixes = []

-- The last part of the `default` branch: the residual allowlist.
residual_grants : String → String → Bool
unfolding lab_predefined_service_prefixes
residual_grants role permission =
    if has_prefix role "roles/"
    then (elim (split_at b'.' (drop_prefix role "roles/")) [
      | none ↦ false
      | some (svc, rest) ↦
          if not (svc == "") && one_of svc lab_predefined_service_prefixes
          then has_prefix permission (concat svc ".")
          else false
    ])
    else false

unfoldable pub custom_role_grants : Option Evaluator → String → String → Result Bool
custom_role_grants none role permission = ok false
custom_role_grants (some e) role permission = elim e.roles [
  | none ↦ ok false
  | some store ↦ do
    found ← store.get_role_included_permissions role
    ok (elim found [ none ↦ false | some perms ↦ one_of permission perms ])
]

unfoldable pub default_grants : Option Evaluator → String → String → Result Bool
unfolding residual_grants custom_role_grants is_custom_role_name
default_grants e role permission =
    if is_custom_role_name role
    then custom_role_grants e role permission
    else let (granted, known) = predefined_service_role_grants role permission in
      if known then ok granted else ok (residual_grants role permission)

unfoldable pub role_grants : Option Evaluator → String → String → Result Bool
unfolding default_grants
role_grants e role permission = elim (select role basic_cases) [
  | none ↦ default_grants e role permission
  | some grants ↦ ok (grants permission)
]
