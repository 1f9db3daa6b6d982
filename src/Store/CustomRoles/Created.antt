-- ===== src/Store/CustomRoles/Created.antt =====
-- What a role that `CreateCustomRole` of internal/store/iam_roles.go has made grants.
use noctaxris_gcp.Base.{
  String, Bool, true, false, not, ◌≡◌, ◌≢◌, refl, subst, eq_iff, inl, inr, List, [], ◌∷◌, ◌++◌,
  Option, none, some, Result, ok, arith, ap, ◌∙◌, eq_refl, ◌==◌, ◌&&◌, ◌||◌, concat, one_of,
  exists_row, row_at-snoc, select_one, assign, trim_space, has_prefix, contains, has_prefix-append,
  contains-append, has_prefix→contains, Bool-cases, if◌then◌else◌,
}
use noctaxris_gcp.Authz.Policy.{Evaluator}
use noctaxris_gcp.Authz.Grants.{is_custom_role_name, role_grants}
use noctaxris_gcp.Store.CustomRoles.Types.{CustomRole, RoleRow, PermissionCodec}
use noctaxris_gcp.Store.CustomRoles.Roles.{
  row_named, taken, inserted_role, with_permissions, fresh_role, custom_role_name,
  valid_custom_role_id, decode_permission_list, is_disabled, role_store, create_custom_role,
}
use noctaxris_gcp.Store.CustomRoles.Granted.{included_row, role_grants_included}

custom_role_name-IsCustom :
    (project_id role_id : String) → is_custom_role_name (custom_role_name project_id role_id) ≡ true
unfolding is_custom_role_name
custom_role_name-IsCustom project_id role_id =
    let marker : has_prefix (concat "/roles/" role_id) "/roles/" ≡ true =
      has_prefix-append "/roles/" role_id in
    let inner : contains (concat project_id (concat "/roles/" role_id)) "/roles/" ≡ true =
      contains-append project_id _ "/roles/" (has_prefix→contains _ "/roles/" marker) in
    rw
      (
        has_prefix-append "projects/" (concat project_id (concat "/roles/" role_id)),
        contains-append "projects/" (concat project_id (concat "/roles/" role_id)) "/roles/" inner,
      )
      refl

-- A name that no row clashes with is not there.
not_taken :
    (db : List RoleRow) (row : RoleRow)
    → exists_row (taken row) db ≡ false
    → select_one (row_named row.name) db ≡ none
unfolding exists_row select_one
not_taken [] row h = refl
not_taken (r ∷ db) row h = let ih = not_taken db row (ground arith) in ground arith

-- What the evaluator answers for a role that lists `perms`, at a stage.
abbrev pub listed_grant : String → List String → String → Bool
listed_grant stage perms permission = not (is_disabled stage) && one_of permission perms

-- The answer for a row that an INSERT has put behind rows of other names.
inserted_grants :
    (e : Evaluator) (codec : PermissionCodec) (db : List RoleRow) (row : RoleRow)
    (perms : List String) (permission : String)
    → e.roles ≡ some (role_store codec (db ++ row ∷ []))
    → is_custom_role_name row.name ≡ true
    → select_one (row_named row.name) db ≡ none
    → row.deleted ≡ false
    → decode_permission_list codec row.included_permissions_json ≡ ok perms
    → role_grants (some e) row.name permission ≡ ok (listed_grant row.stage perms permission)
unfolding assign
inserted_grants e codec db row perms permission roles custom absent kept decoded =
    role_grants_included e codec (db ++ row ∷ []) roles row.name permission custom _
      (included_row codec (db ++ row ∷ []) row.name found kept decoded)
    ∙ ap ok (by_stage (is_disabled row.stage))
  where
    found : select_one (row_named row.name) (db ++ row ∷ []) ≡ some row
    found =
        ap (λ (m : String → Option RoleRow). m row.name)
          (row_at-snoc (λ (x : RoleRow). x.name) row db absent)
        ∙ rw eq_refl refl

    by_stage :
        (b : Bool)
        → elim (if b then none else some perms) [ none ↦ false | some qs ↦ one_of permission qs ]
          ≡ (not b && one_of permission perms)
    by_stage true = refl
    by_stage false = refl

inserted_lem :
    (db : List RoleRow) (row : RoleRow) (perms : List String) {role : CustomRole}
    → (inserted_role db row perms).1 ≡ ok role
    → (inserted_role db row perms ≡ (db ++ row ∷ [], ok (with_permissions row perms)))
      × (select_one (row_named row.name) db ≡ none)
inserted_lem db row perms h = elim (Bool-cases (exists_row (taken row) db)) [
  | inl t ↦ cc (rw t at h)
  | inr f ↦ (rw f refl, not_taken db row f)
]

module _ (codec : PermissionCodec) (now : String) (db : List RoleRow)
    (project_id role_id title description stage : String) (perms : List String) where
  abbrev created : List RoleRow × Result CustomRole
  created = create_custom_role codec now db project_id role_id title description stage perms

  abbrev fresh : RoleRow
  fresh =
      fresh_role codec now (trim_space project_id) (trim_space role_id) title description stage
        perms

  created_lem :
      {role : CustomRole}
      → created.1 ≡ ok role
      → (created ≡ (db ++ fresh ∷ [], ok (with_permissions fresh perms)))
        × (select_one (row_named fresh.name) db ≡ none)
  unfolding create_custom_role
  created_lem h = elim (Bool-cases (trim_space project_id == "" || trim_space role_id == "")) [
    | inl a ↦ cc (rw (a, create_custom_role) at h)
    | inr a ↦ elim (Bool-cases (valid_custom_role_id (trim_space role_id))) [
      | inr v ↦ cc (rw (a, v, create_custom_role) at h)
      | inl v ↦
          rw (a, v, create_custom_role)
            (inserted_lem db fresh perms (rw (a, v, create_custom_role) at h))
    ]
  ]

  -- A call of CreateCustomRole that succeeds answers a role under the trimmed project and identifier,
  -- whose name no role had; and with the table that it leaves as role store the evaluator grants by
  -- this name exactly the permissions that were given, and none where the stage is DISABLED. This is
  -- where the list of permissions is read back from its text, which is not blank.
  pub created_role_grants :
      (e : Evaluator) (permission : String) {role : CustomRole}
      → codec.unmarshal (codec.marshal perms) ≡ ok perms
      → trim_space (codec.marshal perms) ≢ ""
      → created.1 ≡ ok role
      → e.roles ≡ some (role_store codec created.0)
      → (select_one (row_named role.name) db ≡ none)
        × (role.name ≡ custom_role_name (trim_space project_id) (trim_space role_id))
        × (role_grants (some e) role.name permission
            ≡ ok (listed_grant role.stage perms permission))
  unfolding fresh_role decode_permission_list
  created_role_grants e permission {role} round_trip nonempty h roles =
      let (all, absent) = created_lem h in
      let answer : with_permissions fresh perms ≡ role = cc in
      let decoded : decode_permission_list codec (codec.marshal perms) ≡ ok perms =
        rw round_trip (ground (arith, eq_iff (trim_space (codec.marshal perms)) "")) in
      let custom : is_custom_role_name fresh.name ≡ true =
        custom_role_name-IsCustom (trim_space project_id) (trim_space role_id) in
      let at_rows : e.roles ≡ some (role_store codec (db ++ fresh ∷ [])) =
        roles ∙ ap (λ (c : List RoleRow × Result CustomRole). some (role_store codec c.0)) all in
      subst
        (λ (r : CustomRole).
          (select_one (row_named r.name) db ≡ none)
          × (r.name ≡ custom_role_name (trim_space project_id) (trim_space role_id))
          × (role_grants (some e) r.name permission ≡ ok (listed_grant r.stage perms permission)))
        answer
        (
          absent,
          refl,
          inserted_grants e codec db fresh perms permission at_rows custom absent refl decoded,
        )
