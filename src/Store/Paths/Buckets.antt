-- ===== src/Store/Paths/Buckets.antt =====
-- The functions of internal/store/pathsafe.go, but for the directory that `mkdirGCSBucket` makes.
use Prim.Native.Char.{Char, code}
use Prim.Native.String.{len}
use noctaxris_gcp.Base.{
  String, Bool, false, not, ◌&&◌, ◌||◌, ◌==◌, List, [], ◌∷◌, Result, ok, err, message, annotate,
  Error, leb, ltb, eqb, has_prefix, contains, trim_space, to_lower, if◌then◌else◌, ◌>>=◌,
}
use noctaxris_gcp.Store.Paths.Filepath.{is_abs, clean, join, abs, rel}

abbrev pub err_invalid_gcs_bucket_name : Error
err_invalid_gcs_bucket_name = message "invalid bucket name"

-- [a-z0-9]
unfoldable pub is_alnum : Char → Bool
is_alnum c = leb b'a' (code c) && leb (code c) b'z' || leb b'0' (code c) && leb (code c) b'9'

-- [a-z0-9._-]
unfoldable pub is_name_char : Char → Bool
unfolding is_alnum
is_name_char c = is_alnum c || eqb (code c) b'.' || eqb (code c) b'_' || eqb (code c) b'-'

-- [a-z0-9._-]*[a-z0-9]$
unfoldable pub ends_alnum : String → Bool
unfolding is_name_char
ends_alnum String.[] = false
ends_alnum (String.◌∷◌ c String.[]) = is_alnum c
ends_alnum (String.◌∷◌ c (String.◌∷◌ d s)) = is_name_char c && ends_alnum (String.◌∷◌ d s)

-- `^[a-z0-9][a-z0-9._-]{1,61}[a-z0-9]$`, whose texts have one byte per character.
unfoldable pub gcs_bucket_name_pattern : String → Bool
unfolding ends_alnum
gcs_bucket_name_pattern String.[] = false
gcs_bucket_name_pattern (String.◌∷◌ c s) =
    is_alnum c && ends_alnum s && leb 2 (len s) && leb (len s) 62

unfoldable pub validate_gcs_bucket_name : String → Result (Unit {0})
unfolding gcs_bucket_name_pattern trim_space to_lower
validate_gcs_bucket_name raw =
    let name = trim_space raw in
    if ltb (len name) 3 || ltb 63 (len name)
    then err err_invalid_gcs_bucket_name
    else if not (name == to_lower name)
    then err err_invalid_gcs_bucket_name
    else if is_abs name
    then err err_invalid_gcs_bucket_name
    else if contains name "/" || contains name "\\"
    then err err_invalid_gcs_bucket_name
    else if contains name ".."
    then err err_invalid_gcs_bucket_name
    else if not (gcs_bucket_name_pattern name)
    then err err_invalid_gcs_bucket_name
    else ok tt

-- `p == ".." || strings.HasPrefix(p, "../")`
abbrev pub escapes : String → Bool
escapes p = p == ".." || has_prefix p "../"

-- The loop over the elements.
unfoldable pub check_elements : List String → Result (Unit {0})
check_elements [] = ok tt
check_elements (e ∷ es) =
    let rest = check_elements es in
    if e == ""
    then rest
    else if is_abs e
    then err (message "absolute path segment not allowed")
    else if escapes (clean e)
    then err (message "path escapes root")
    else if contains e ".."
    then err (message "path escapes root")
    else rest

-- The comparison of the two absolute paths.
unfoldable pub related : String → String → Result String
related abs_root abs_joined = do
  way ← annotate "relate path to root" (rel abs_root abs_joined)
  if escapes way then err (message "path escapes root") else ok abs_joined

-- `getwd` is the answer of `os.Getwd()`.
unfoldable pub join_under_root : Result String → String → List String → Result String
join_under_root getwd raw elem =
    let root = trim_space raw in
    if root == "" then err (message "root path required") else do
      _ ← check_elements elem
      abs_root ← annotate "resolve root" (abs getwd root)
      abs_joined ← annotate "resolve joined path" (abs getwd (join (abs_root ∷ elem)))
      related abs_root abs_joined

unfoldable pub gcs_bucket_dir : Result String → String → String → Result String
gcs_bucket_dir getwd data_root name = do
  _ ← validate_gcs_bucket_name name
  join_under_root getwd data_root ("gcs" ∷ name ∷ [])

unfoldable pub ensure_under_gcs_root : Result String → String → String → Result (Unit {0})
ensure_under_gcs_root getwd data_root abs_path = do
  root ← abs getwd (join (data_root ∷ "gcs" ∷ []))
  target ← abs getwd abs_path
  way ← rel root target
  if escapes way then err (message "path escapes gcs root") else ok tt
