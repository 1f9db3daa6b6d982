-- ===== src/Authz/Members.antt =====
-- How a principal meets the members of a binding (internal/kernel/authz/iam.go).
use noctaxris_gcp.Base.{
  String, Bool, true, false, ◌||◌, ◌==◌, List, [], ◌∷◌, has_prefix, concat, contains, trim_space,
  if◌then◌else◌,
}

unfoldable pub member_identity : String → String
member_identity email =
    let trimmed = trim_space email in
    if contains trimmed ":" then trimmed else concat "serviceAccount:" trimmed

-- The loop of `memberIn`; `toolkit` is its `toolkitPrincipal`.
unfoldable pub member_among : Bool → String → List String → Bool
member_among toolkit want [] = false
member_among toolkit want (m ∷ ms) =
    let rest = member_among toolkit want ms in
    if m == want
    then true
    else if toolkit
    then rest
    else if m == "allUsers" || m == "allAuthenticatedUsers"
    then true
    else rest

unfoldable pub member_in : List String → String → Bool
member_in members want = member_among (has_prefix want "user:") want members

unfoldable pub exact_member_in : List String → String → Bool
exact_member_in [] want = false
exact_member_in (m ∷ ms) want =
    let rest = exact_member_in ms want in if m == want then true else rest
