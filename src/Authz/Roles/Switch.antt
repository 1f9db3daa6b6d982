-- ===== src/Authz/Roles/Switch.antt =====
-- A Go `switch role { case a, b: return g(permission) ... }` as a table of its cases.
use noctaxris_gcp.Base.{
  String, Bool, true, ◌≡◌, List, [], ◌∷◌, Memᴰ, Option, none, some, one_of, if◌then◌else◌, inl, inr,
  Bool-cases, arith,
}

-- A case: the role names that it lists, and the test that its body makes of the permission.
abbrev pub Case : Type 0
Case = List String × (String → Bool)

-- The body of the first case that lists the role.
unfoldable pub select : String → List Case → Option (String → Bool)
select role [] = none
select role ((names, grants) ∷ cases) = if one_of role names then some grants else select role cases

-- What is selected is the body of a case that lists the role.
pub select_mem :
    (role : String) (cases : List Case) {grants : String → Bool}
    → select role cases ≡ some grants
    → (names : List String) × Memᴰ (names, grants) cases × (one_of role names ≡ true)
unfolding select
select_mem role [] h = cc
select_mem role ((names, g) ∷ cases) h = elim (Bool-cases (one_of role names)) [
  | inl e ↦ (names, Memᴰ.head (ground arith), e)
  | inr e ↦ let (ns, m, p) = select_mem role cases (rw (e, select) at h) in (ns, Memᴰ.tail m, p)
]
