-- ===== src/Base/Ascii.antt =====
-- More of Go's `strings`: letters without their case, cut-off ends, and texts cut at separators. The
-- case of a letter is that of ASCII.
use Prim.Native.Nat.{ℕ, zero, suc, ◌-◌}
use Prim.Native.Char.{Char, code}
use Prim.Native.String.{String}
use mathlib.Core.Path.{◌≡◌, refl}
use mathlib.Core.Bool.{Bool, true, ◌&&◌}
use mathlib.Core.List.{List, [], ◌∷◌}
use text.Mathlib.Text.{◌==◌}
use noctaxris_gcp.Base.Tests.{leb, eqb, if◌then◌else◌}
use noctaxris_gcp.Base.Texts.{has_prefix, drop_prefix, is_space}

-- The character at a place, or `c` behind the end.
char_or : String → ℕ → Char → Char
char_or String.[] i c = c
char_or (String.◌∷◌ d s) zero c = d
char_or (String.◌∷◌ d s) (suc i) c = char_or s i c

unfoldable pub lower_char : Char → Char
unfolding char_or
lower_char c =
    if leb b'A' (code c) && leb (code c) b'Z'
    then char_or "abcdefghijklmnopqrstuvwxyz" (code c - b'A') c
    else c

-- `strings.ToLower(s)`
unfoldable pub to_lower : String → String
unfolding lower_char
to_lower String.[] = ""
to_lower (String.◌∷◌ c s) = String.◌∷◌ (lower_char c) (to_lower s)

-- `strings.EqualFold(s, t)`
unfoldable pub equal_fold : String → String → Bool
unfolding to_lower
equal_fold s t = to_lower s == to_lower t

-- `strings.TrimPrefix(s, p)`
unfoldable pub trim_prefix : String → String → String
unfolding has_prefix drop_prefix
trim_prefix s p = if has_prefix s p then drop_prefix s p else s

-- `strings.TrimSuffix(s, t)`
unfoldable pub trim_suffix : String → String → String
trim_suffix String.[] t = ""
trim_suffix (String.◌∷◌ c s) t =
    let rest = trim_suffix s t in if String.◌∷◌ c s == t then "" else String.◌∷◌ c rest

-- The first `n` characters: `s[:n]`
unfoldable pub take_text : ℕ → String → String
take_text zero s = ""
take_text (suc n) String.[] = ""
take_text (suc n) (String.◌∷◌ c s) = String.◌∷◌ c (take_text n s)

-- `strings.ReplaceAll(s, b, "")`, for an ASCII code `b`
unfoldable pub without_byte : ℕ → String → String
without_byte b String.[] = ""
without_byte b (String.◌∷◌ c s) =
    let rest = without_byte b s in if eqb (code c) b then rest else String.◌∷◌ c rest

abbrev pub prepend : Char → List String → List String
prepend c [] = String.◌∷◌ c "" ∷ []
prepend c (t ∷ ts) = String.◌∷◌ c t ∷ ts

-- The parts of a text between the characters that pass a test: one more than there are such.
unfoldable pub split_when : (ℕ → Bool) → String → List String
split_when p String.[] = "" ∷ []
split_when p (String.◌∷◌ c s) =
    let rest = split_when p s in if p (code c) then "" ∷ rest else prepend c rest

-- `strings.Split(s, b)`, for an ASCII code `b`
unfoldable pub split_on : ℕ → String → List String
unfolding split_when
split_on b = split_when (λ c. eqb c b)

unfoldable pub drop_blank : List String → List String
drop_blank [] = []
drop_blank (t ∷ ts) = let rest = drop_blank ts in if t == "" then rest else t ∷ rest

-- `strings.Fields(s)`
unfoldable pub fields : String → List String
unfolding split_when drop_blank is_space
fields s = drop_blank (split_when is_space s)

abbrev quote_code : ℕ → Bool
quote_code c = if eqb c 34 then true else eqb c 39

drop_quotes : String → String
drop_quotes String.[] = ""
drop_quotes (String.◌∷◌ c s) =
    let rest = drop_quotes s in if quote_code (code c) then rest else String.◌∷◌ c s

cons_unless_quote : Char → String → String
cons_unless_quote c String.[] = if quote_code (code c) then "" else String.◌∷◌ c ""
cons_unless_quote c (String.◌∷◌ d s) = String.◌∷◌ c (String.◌∷◌ d s)

drop_last_quotes : String → String
unfolding cons_unless_quote
drop_last_quotes String.[] = ""
drop_last_quotes (String.◌∷◌ c s) = cons_unless_quote c (drop_last_quotes s)

-- strings.Trim(s, `"'`)
unfoldable pub trim_quotes : String → String
unfolding drop_quotes drop_last_quotes
trim_quotes s = drop_last_quotes (drop_quotes s)

ascii_tests :
    (to_lower "Ab-Z9" ≡ "ab-z9")
    × (trim_prefix "folders/f" "folders/" ≡ "f")
    × (trim_suffix "a/b/" "/" ≡ "a/b")
    × (fields " a  bc " ≡ "a" ∷ "bc" ∷ [])
    × (split_on b'/' "/a//b" ≡ "" ∷ "a" ∷ "" ∷ "b" ∷ [])
    × (trim_quotes "\"'x\"" ≡ "x")
unfolding to_lower trim_prefix trim_suffix fields split_on trim_quotes
ascii_tests = (refl, refl, refl, refl, refl, refl)
