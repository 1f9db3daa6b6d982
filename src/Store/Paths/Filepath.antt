-- ===== src/Store/Paths/Filepath.antt =====
-- The functions of Go's `path/filepath` that internal/store/pathsafe.go calls, as on Unix.
use mathlib.Core.List.{reverse}
use noctaxris_gcp.Base.{
  String, Bool, true, false, ◌||◌, ◌==◌, List, [], ◌∷◌, Result, ok, err, message, concat,
  has_prefix, split_on, if◌then◌else◌, ◌>>=◌, ◌≡◌, refl,
}

-- `strings.Join(segments, "/")`
unfoldable pub join_slash : List String → String
join_slash [] = ""
join_slash (s ∷ []) = s
join_slash (s ∷ t ∷ ss) = concat s (concat "/" (join_slash (t ∷ ss)))

-- `filepath.IsAbs(path)`
abbrev pub is_abs : String → Bool
is_abs path = has_prefix path "/"

-- `..` takes the last segment back; at the root it does nothing, and before the first segment of a
-- path that is not rooted it stays.
unfoldable pub popped : Bool → List String → List String
popped rooted [] = if rooted then [] else ".." ∷ []
popped rooted (s ∷ out) = if s == ".." then ".." ∷ s ∷ out else out

-- The effect of a segment on the segments so far, the last one first.
unfoldable pub clean_step : Bool → List String → String → List String
clean_step rooted out s =
    if s == "" || s == "." then out else if s == ".." then popped rooted out else s ∷ out

unfoldable pub clean_loop : Bool → List String → List String → List String
clean_loop rooted out [] = out
clean_loop rooted out (s ∷ ss) = clean_loop rooted (clean_step rooted out s) ss

-- The segments of `filepath.Clean(path)`
unfoldable pub clean_segments : String → List String
clean_segments path = reverse (clean_loop (is_abs path) [] (split_on b'/' path))

abbrev pub or_dot : String → String
or_dot s = if s == "" then "." else s

-- `filepath.Clean(path)`
unfoldable pub clean : String → String
clean path =
    let text = join_slash (clean_segments path) in
    if is_abs path then concat "/" text else or_dot text

-- `filepath.Join(elem...)`: the elements from the first that is not empty on.
unfoldable pub join : List String → String
join [] = ""
join (e ∷ es) = let rest = join es in if e == "" then rest else clean (join_slash (e ∷ es))

-- `filepath.Abs(path)`, with the answer of `os.Getwd()`
unfoldable pub abs : Result String → String → Result String
abs getwd path = if is_abs path then ok (clean path) else getwd >>= λ wd. ok (join (wd ∷ path ∷ []))

-- What is left of two lists of segments behind their common beginning.
unfoldable pub apart : List String → List String → List String × List String
apart [] ts = ([], ts)
apart (b ∷ bs) [] = (b ∷ bs, [])
apart (b ∷ bs) (t ∷ ts) = let rest = apart bs ts in if b == t then rest else (b ∷ bs, t ∷ ts)

unfoldable pub ups : List String → List String → List String
ups [] ts = ts
ups (b ∷ bs) ts = ".." ∷ ups bs ts

-- The way from what is left of the base to what is left of the target.
unfoldable pub way : List String × List String → Result String
way ([], []) = ok "."
way ([], t ∷ ts) = ok (join_slash (t ∷ ts))
way (b ∷ bs, ts) =
    if b == ".."
    then err (message "Rel: can't make target relative to base")
    else ok (join_slash (ups (b ∷ bs) ts))

abbrev both_or_neither : Bool → Bool → Bool
both_or_neither true b = b
both_or_neither false true = false
both_or_neither false false = true

-- `filepath.Rel(base, target)`
unfoldable pub rel : String → String → Result String
rel base target =
    if both_or_neither (is_abs base) (is_abs target)
    then way (apart (clean_segments base) (clean_segments target))
    else err (message "Rel: can't make target relative to base")

paths :
    (clean "/a/./b//../c/" ≡ "/a/c")
    × (clean "../../a/.." ≡ "../..")
    × (clean "/.." ≡ "/")
    × (join ("" ∷ "a" ∷ "" ∷ "../b" ∷ []) ≡ "b")
    × (rel "/a/b" "/a/c/d" ≡ ok "../c/d")
    × (rel "/a" "/a/b/c" ≡ ok "b/c")
unfolding clean clean_segments clean_loop clean_step popped join join_slash rel apart way ups
    split_on has_prefix
paths = (refl, refl, refl, refl, refl, refl)
