-- ===== src/Store/CustomRoles/Revoked.antt =====
-- What becomes of a deleted role of internal/store/iam_roles.go.
use noctaxris_gcp.Base.{
  String, Bool, true, false, not, ◌≡◌, ◌≢◌, refl, inl, inr, List, [], ◌∷◌, Option, none, some, ok,
  arith, eq_iff, ◌==◌, ◌&&◌, ◌||◌, all_pass, select_one, exists_row, update_where, select_one_front,
  eq_refl, row_at_update_if, assign, Bool-cases, Result-cases, ap, ◌∙◌, trim_space, if◌then◌else◌,
}
use mathlib.Core.Option.{map}
use noctaxris_gcp.Authz.Policy.{Evaluator}
use noctaxris_gcp.Authz.Grants.{is_custom_role_name, role_grants}
use noctaxris_gcp.Store.CustomRoles.Types.{CustomRole, RoleRow, RolePatch, PermissionCodec}
use noctaxris_gcp.Store.CustomRoles.Roles.{
  row_named, taken, inserted_role, active_named, write_role, mark_role, patched_role,
  get_active_role, role_store, create_custom_role, update_custom_role, delete_custom_role,
  undelete_custom_role, fresh_role, valid_custom_role_id,
}
use noctaxris_gcp.Store.CustomRoles.Granted.{active_row, custom_role_grants_iff}

-- The calls that write.
pub data RoleCall : Type 0 where
  create : (project_id role_id title description stage : String) → List String → RoleCall
  update : String → RolePatch → RoleCall
  delete undelete : String → RoleCall

unfoldable pub role_call : PermissionCodec → String → List RoleRow → RoleCall → List RoleRow
unfolding create_custom_role update_custom_role delete_custom_role undelete_custom_role
role_call codec now db (create p r title description stage perms) =
    (create_custom_role codec now db p r title description stage perms).0
role_call codec now db (update name p) = (update_custom_role codec now db name p).0
role_call codec now db (delete name) = (delete_custom_role codec now db name).0
role_call codec now db (undelete name) = (undelete_custom_role codec now db name).0

unfoldable pub run_roles : PermissionCodec → List RoleRow → List (String × RoleCall) → List RoleRow
unfolding role_call
run_roles codec db [] = db
run_roles codec db ((now, call) ∷ calls) = run_roles codec (role_call codec now db call) calls

abbrev pub undeletes : String → String × RoleCall → Bool
undeletes name (now, undelete n) = n == name
undeletes name (now, _) = false

-- The role of a name is there, and deleted.
abbrev Deleted : List RoleRow → String → Type 0
Deleted db name = (r : RoleRow) × (select_one (row_named name) db ≡ some r) × (r.deleted ≡ true)

module _ (name : String) where
  inserted_role-Deleted :
      (db : List RoleRow) (row : RoleRow) (perms : List String)
      → Deleted db name
      → Deleted (inserted_role db row perms).0 name
  inserted_role-Deleted db row perms (r, found, d) = elim (Bool-cases (exists_row (taken row) db)) [
    | inl t ↦ rw t (r, found, d)
    | inr f ↦ rw f (r, select_one_front (row_named name) db (row ∷ []) found, d)
  ]

  update_where-Deleted :
      (db : List RoleRow) (target : String) (q : RoleRow → Bool) (f : RoleRow → RoleRow)
      → ((x : RoleRow) → (f x).name ≡ x.name)
      → ((x : RoleRow) → target == name ≡ true → x.deleted ≡ true → q x ≡ false)
      → Deleted db name
      → Deleted (update_where (λ x. x.name == target && q x) f db) name
  unfolding assign
  update_where-Deleted db target q f kept spared (r, found, d) = (
    r,
    ap (λ (m : String → Option RoleRow). m name)
          (row_at_update_if (λ (x : RoleRow). x.name) target q f db kept)
        ∙ at_name,
    d,
  )
    where
      at_name :
          assign
            (λ n. select_one (row_named n) db)
            target
            (map (λ x. if q x then f x else x) (select_one (row_named target) db))
            name
          ≡ some r
      at_name = elim (Bool-cases (target == name)) [
        | inl t ↦ rw (t, (eq_iff target name).0 t, found) (ap some (rw (spared r t d) refl))
        | inr f ↦ rw f found
      ]

  create_custom_role-Deleted :
      (codec : PermissionCodec) (now : String) (db : List RoleRow)
      (p r title description stage : String) (perms : List String)
      → Deleted db name
      → Deleted (create_custom_role codec now db p r title description stage perms).0 name
  unfolding create_custom_role
  create_custom_role-Deleted codec now db p r title description stage perms h =
      elim (Bool-cases (trim_space p == "" || trim_space r == "")) [
        | inl a ↦ rw (a, create_custom_role) h
        | inr a ↦ elim (Bool-cases (valid_custom_role_id (trim_space r))) [
          | inl v ↦
              rw (a, v, create_custom_role)
                (inserted_role-Deleted db
                  (fresh_role codec now (trim_space p) (trim_space r) title description stage perms)
                  perms h)
          | inr v ↦ rw (a, v, create_custom_role) h
        ]
      ]

  update_custom_role-Deleted :
      (codec : PermissionCodec) (now : String) (db : List RoleRow) (n : String) (p : RolePatch)
      → Deleted db name
      → Deleted (update_custom_role codec now db n p).0 name
  unfolding update_custom_role
  update_custom_role-Deleted codec now db n p h = elim (Result-cases (get_active_role codec db n)) [
    | inr (e, g) ↦ rw (g, update_custom_role) h
    | inl (none, g) ↦ rw (g, update_custom_role) h
    | inl (some r, g) ↦
        rw (g, update_custom_role)
          (update_where-Deleted db n (λ x. not x.deleted) (write_role codec (patched_role now p r))
            (λ x. refl) (λ x t d. ap not d) h)
  ]

  delete_custom_role-Deleted :
      (codec : PermissionCodec) (now : String) (db : List RoleRow) (n : String)
      → Deleted db name
      → Deleted (delete_custom_role codec now db n).0 name
  unfolding delete_custom_role
  delete_custom_role-Deleted codec now db n h = elim (Result-cases (get_active_role codec db n)) [
    | inr (e, g) ↦ rw (g, delete_custom_role) h
    | inl (none, g) ↦ rw (g, delete_custom_role) h
    | inl (some r, g) ↦
        rw (g, delete_custom_role)
          (update_where-Deleted db n (λ x. not x.deleted) (mark_role true now) (λ x. refl)
            (λ x t d. ap not d) h)
  ]

  -- No write but its own restoring brings a deleted role back.
  role_call-Deleted :
      (codec : PermissionCodec) (now : String) (db : List RoleRow) (call : RoleCall)
      → undeletes name (now, call) ≡ false
      → Deleted db name
      → Deleted (role_call codec now db call) name
  unfolding role_call undelete_custom_role
  role_call-Deleted codec now db (create p r title description stage perms) u h =
      create_custom_role-Deleted codec now db p r title description stage perms h
  role_call-Deleted codec now db (update n p) u h = update_custom_role-Deleted codec now db n p h
  role_call-Deleted codec now db (delete n) u h = delete_custom_role-Deleted codec now db n h
  role_call-Deleted codec now db (undelete n) u h =
      update_where-Deleted db n (λ x. x.deleted) (mark_role false now) (λ x. refl) (λ x t d. cc) h

  run_roles-Deleted :
      (codec : PermissionCodec) (db : List RoleRow) (calls : List (String × RoleCall))
      → all_pass (λ c. not (undeletes name c)) calls ≡ true
      → Deleted db name
      → Deleted (run_roles codec db calls) name
  unfolding run_roles all_pass
  run_roles-Deleted codec db [] p h = h
  run_roles-Deleted codec db ((now, call) ∷ calls) p h =
      run_roles-Deleted codec (role_call codec now db call) calls (ground arith)
        (role_call-Deleted codec now db call (ground arith) h)

  -- A deletion that succeeds leaves the role deleted.
  delete_custom_role_lem :
      (codec : PermissionCodec) (now : String) (db : List RoleRow) {role : CustomRole}
      → (delete_custom_role codec now db name).1 ≡ ok (some role)
      → Deleted (delete_custom_role codec now db name).0 name
  unfolding delete_custom_role assign
  delete_custom_role_lem codec now db {role} h =
      elim (Result-cases (get_active_role codec db name)) [
        | inr (e, g) ↦ cc (rw (g, delete_custom_role) at h)
        | inl (none, g) ↦ cc (rw (g, delete_custom_role) at h)
        | inl (some r, g) ↦ rw (g, delete_custom_role) (after (active_row codec db name g))
      ]
    where
      after :
          (r : RoleRow) × (select_one (row_named name) db ≡ some r) × (r.deleted ≡ false)
          → Deleted (update_where (active_named name) (mark_role true now) db) name
      after (r, found, d) = (
        mark_role true now r,
        ap (λ (m : String → Option RoleRow). m name)
              (row_at_update_if (λ (x : RoleRow). x.name) name (λ x. not x.deleted)
                (mark_role true now) db (λ x. refl))
            ∙ at_name,
        refl,
      )
        where
          at_name :
              assign
                (λ n. select_one (row_named n) db)
                name
                (map
                  (λ x. if not x.deleted then mark_role true now x else x)
                  (select_one (row_named name) db))
                name
              ≡ some (mark_role true now r)
          at_name = rw (eq_refl, found) (ap some (rw d refl))

module _ (e : Evaluator) (codec : PermissionCodec) (db : List RoleRow) (name now : String)
    (calls : List (String × RoleCall)) where
  -- After a call that has deleted a custom role, the evaluator does not grant by its name, with the
  -- table as role store, whatever roles are created, changed, deleted or restored after that, as long
  -- as this one is not restored.
  pub deleted_role_silent :
      (permission : String) {role : CustomRole}
      → is_custom_role_name name ≡ true
      → (delete_custom_role codec now db name).1 ≡ ok (some role)
      → all_pass (λ c. not (undeletes name c)) calls ≡ true
      → e.roles
        ≡ some (role_store codec (run_roles codec (delete_custom_role codec now db name).0 calls))
      → role_grants (some e) name permission ≢ ok true
  deleted_role_silent permission custom deleted others roles granted =
      let after = (delete_custom_role codec now db name).0 in
      let (r, found, d) =
        run_roles-Deleted name codec after calls others
          (delete_custom_role_lem name codec now db deleted) in
      let (perms, a, m) =
        (custom_role_grants_iff e codec (run_roles codec after calls) roles name permission
            custom).0
          granted in
      cc (d, a.kept, found, a.found)
