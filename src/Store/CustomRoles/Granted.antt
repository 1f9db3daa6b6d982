-- ===== src/Store/CustomRoles/Granted.antt =====
-- What the evaluator's `roleGrants` (internal/kernel/authz/iam.go) answers for a custom role whose
-- store is internal/store/iam_roles.go.
use noctaxris_gcp.Base.{
  String, Bool, true, false, not, ◌≡◌, refl, ◌↔◌, inl, inr, List, Memᴰ, Option, none, some, ok,
  arith, one_of, one_of→mem, mem→one_of, all_pass, all_pass_mem, select_one, Option-cases,
  bind_inverse, if◌then◌else◌, ap, sym, ◌∙◌, has_prefix, contains,
}
use noctaxris_gcp.Authz.Policy.{Evaluator}
use noctaxris_gcp.Authz.Roles.Switch.{Case, select, select_mem}
use noctaxris_gcp.Authz.Roles.Basic.{basic_cases}
use noctaxris_gcp.Authz.Grants.{
  is_custom_role_name, custom_role_grants, default_grants, role_grants,
}
use noctaxris_gcp.Store.CustomRoles.Types.{CustomRole, RoleRow, PermissionCodec}
use noctaxris_gcp.Store.CustomRoles.Roles.{
  row_named, with_permissions, decode_permission_list, read_role, get_custom_role, get_active_role,
  is_disabled, get_role_included_permissions, role_store,
}

names_no_custom_role : Case → Bool
names_no_custom_role c = all_pass (λ n. not (is_custom_role_name n)) c.0

basic_names_no_custom_role : all_pass names_no_custom_role basic_cases ≡ true
unfolding all_pass names_no_custom_role is_custom_role_name has_prefix contains basic_cases
basic_names_no_custom_role = refl

-- No case of the switch lists a custom role.
select_custom : (role : String) → is_custom_role_name role ≡ true → select role basic_cases ≡ none
unfolding names_no_custom_role
select_custom role c = elim (Option-cases (select role basic_cases)) [
  | inl n ↦ n
  | inr (grants, p) ↦
      let (names, i, listed) = select_mem role basic_cases p in
      let none_custom =
        all_pass_mem names_no_custom_role basic_cases basic_names_no_custom_role i in
      let plain =
        all_pass_mem (λ n. not (is_custom_role_name n)) names none_custom
          (one_of→mem role names listed) in
      absurd (cc (rw c at plain))
]

role_grants_custom :
    (e : Option Evaluator) (role permission : String)
    → is_custom_role_name role ≡ true
    → role_grants e role permission ≡ custom_role_grants e role permission
unfolding role_grants default_grants
role_grants_custom e role permission c =
    rw (select_custom role c, role_grants) (rw (c, default_grants) refl)

-- The row of a role that is not deleted and not disabled, and what it lists.
pub record Active (codec : PermissionCodec) (db : List RoleRow) (name : String)
    (perms : List String) : Type 0 where
  pub row : RoleRow
  pub found : select_one (row_named name) db ≡ some row
  pub kept : row.deleted ≡ false
  pub enabled : is_disabled row.stage ≡ false
  pub decoded : decode_permission_list codec row.included_permissions_json ≡ ok perms

if_none :
    (b : Bool) {A : Type 0} {x y : A}
    → (if b then ok none else ok (some x)) ≡ ok (some y)
    → (b ≡ false) × (x ≡ y)
if_none true h = cc
if_none false h = (refl, cc)

module _ (codec : PermissionCodec) (db : List RoleRow) (name : String) where
  get_custom_role_found :
      {r : RoleRow} {perms : List String}
      → select_one (row_named name) db ≡ some r
      → decode_permission_list codec r.included_permissions_json ≡ ok perms
      → get_custom_role codec db name ≡ ok (some (with_permissions r perms))
  unfolding get_custom_role read_role
  get_custom_role_found f d = rw (f, get_custom_role) (rw (d, read_role) refl)

  -- What a row that is not deleted lists, unless it is disabled.
  pub included_row :
      {r : RoleRow} {perms : List String}
      → select_one (row_named name) db ≡ some r
      → r.deleted ≡ false
      → decode_permission_list codec r.included_permissions_json ≡ ok perms
      → get_role_included_permissions codec db name
        ≡ ok (if is_disabled r.stage then none else some perms)
  unfolding get_role_included_permissions get_active_role
  included_row {r} {perms} found kept decoded =
      rw (active, get_role_included_permissions) (ground arith)
    where
      active : get_active_role codec db name ≡ ok (some (with_permissions r perms))
      active = rw (get_custom_role_found found decoded, get_active_role) (rw kept refl)

  Active-included :
      {perms : List String}
      → Active codec db name perms
      → get_role_included_permissions codec db name ≡ ok (some perms)
  Active-included a = included_row a.found a.kept a.decoded ∙ ap ok (rw a.enabled refl)

  custom_role_found :
      {role : CustomRole}
      → get_custom_role codec db name ≡ ok (some role)
      → (r : RoleRow) × (select_one (row_named name) db ≡ some r)
        × (perms : List String) × (decode_permission_list codec r.included_permissions_json
            ≡ ok perms)
        × (with_permissions r perms ≡ role)
  unfolding get_custom_role read_role
  custom_role_found h = elim (Option-cases (select_one (row_named name) db)) [
    | inl n ↦ cc (rw (n, get_custom_role) at h)
    | inr (r, found) ↦
        let (role, p, q) = bind_inverse (read_role codec r) _ (rw (found, get_custom_role) at h) in
        let (perms, d, e) =
          bind_inverse (decode_permission_list codec r.included_permissions_json) _ p in
        (r, found, perms, d, cc)
  ]

  active_read :
      (found : Option CustomRole) {role : CustomRole}
      → get_custom_role codec db name ≡ ok found
      → elim found [ none ↦ ok none | some r ↦ if r.deleted then ok none else ok (some r) ]
        ≡ ok (some role)
      → (get_custom_role codec db name ≡ ok (some role)) × (role.deleted ≡ false)
  active_read none g h = cc
  active_read (some r) g h =
      let (kept, same) = if_none r.deleted h in
      (g ∙ ap ok (ap some same), ap (λ (c : CustomRole). c.deleted) (sym same) ∙ kept)

  pub active_row :
      {role : CustomRole}
      → get_active_role codec db name ≡ ok (some role)
      → (r : RoleRow) × (select_one (row_named name) db ≡ some r) × (r.deleted ≡ false)
  unfolding get_active_role
  active_row g =
      let (found, p, q) = bind_inverse (get_custom_role codec db name) _ g in
      let (p', kept) = active_read found p q in
      let (r, at_name, qs, d, e) = custom_role_found p' in
      (r, at_name, ap (λ (c : CustomRole). c.deleted) e ∙ kept)

  included_read :
      (found : Option CustomRole) {perms : List String}
      → get_active_role codec db name ≡ ok found
      → elim found [
        | none ↦ ok none
        | some r ↦ if is_disabled r.stage then ok none else ok (some r.included_permissions)
      ]
        ≡ ok (some perms)
      → Active codec db name perms
  unfolding get_active_role
  included_read none g h = cc
  included_read (some role) g h =
      let (enabled, listed) = if_none (is_disabled role.stage) h in
      let (found, p, q) = bind_inverse (get_custom_role codec db name) _ g in
      let (p', kept) = active_read found p q in
      let (r, at_name, qs, d, e) = custom_role_found p' in
      record {
        row = r;
        found = at_name;
        kept = ap (λ (c : CustomRole). c.deleted) e ∙ kept;
        enabled = ap (λ (c : CustomRole). is_disabled c.stage) e ∙ enabled;
        decoded = d ∙ ap ok (ap (λ (c : CustomRole). c.included_permissions) e ∙ listed);
      }

  pub included-Active :
      {perms : List String}
      → get_role_included_permissions codec db name ≡ ok (some perms)
      → Active codec db name perms
  unfolding get_role_included_permissions
  included-Active h =
      let (found, p, q) = bind_inverse (get_active_role codec db name) _ h in
      included_read found p q

module _ (e : Evaluator) (codec : PermissionCodec) (db : List RoleRow)
    (has_roles : e.roles ≡ some (role_store codec db)) (role permission : String)
    (custom : is_custom_role_name role ≡ true) where
  -- ... (x)
  pub role_grants_included :
      (found : Option (List String))
      → get_role_included_permissions codec db role ≡ ok found
      → role_grants (some e) role permission
        ≡ ok (elim found [ none ↦ false | some perms ↦ one_of permission perms ])
  unfolding custom_role_grants role_store
  role_grants_included found p =
      rw (role_grants_custom (some e) role permission custom, has_roles, custom_role_grants)
        (rw p refl)

  granted-listed :
      (found : Option (List String))
      → get_role_included_permissions codec db role ≡ ok found
      → ok (elim found [ none ↦ false | some perms ↦ one_of permission perms ]) ≡ ok true
      → (perms : List String) × Active codec db role perms × Memᴰ permission perms
  granted-listed none p q = cc
  granted-listed (some perms) p q =
      (perms, included-Active codec db role p, one_of→mem permission perms (cc))

  -- With the table of custom roles as role store, a role under the name of a custom role grants a
  -- permission exactly when the table finds under this name a role that is not deleted, whose stage
  -- is not DISABLED, and whose permissions are read and list it.
  pub custom_role_grants_iff :
      (role_grants (some e) role permission ≡ ok true)
      ↔ ((perms : List String) × Active codec db role perms × Memᴰ permission perms)
  unfolding custom_role_grants role_store
  custom_role_grants_iff = (
    λ h.
        let (found, p, q) = bind_inverse (get_role_included_permissions codec db role) _ (
          rw (role_grants_custom (some e) role permission custom, has_roles, custom_role_grants) at
            h) in
        granted-listed found p q,
    λ g.
        let (perms, a, m) = g in
        role_grants_included (some perms) (Active-included codec db role a)
        ∙ ap ok (mem→one_of permission perms m),
  )
