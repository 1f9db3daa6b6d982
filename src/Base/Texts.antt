-- ===== src/Base/Texts.antt =====
-- Go's `strings` functions over native texts, character by character.
use Prim.Native.Nat.{ℕ}
use Prim.Native.String.append
use Prim.Native.Char.{Char, code}
use Prim.Native.String.{String, ◌++◌}
use mathlib.Core.Path.{◌≡◌, refl, ap}
use mathlib.Core.Logic.{inl, inr}
use mathlib.Core.Bool.{Bool, true, false, ◌&&◌, ◌||◌}
use mathlib.Core.Option.{Option, none, some}
use mathlib.Core.List.{List, [], ◌∷◌, Memᴰ}
use native.Mathlib.Omega.{arith}
use text.Mathlib.Text.{◌==◌}
use text.Mathlib.TextEquality.{eq_iff}
use text.Mathlib.TextPositions.{eq_refl}
use mathlib.Core.List.Memᴰ
use noctaxris_gcp.Base.Tests.{leb, eqb, if◌then◌else◌, Bool-cases}

-- Go's `s + t`
abbrev pub concat : String → String → String
concat s t = s ++ t

abbrev pub char_eqb : Char → Char → Bool
char_eqb c d = eqb (code c) (code d)

-- `strings.HasPrefix(s, p)`
unfoldable pub has_prefix : String → String → Bool
has_prefix s String.[] = true
has_prefix String.[] (String.◌∷◌ d p) = false
has_prefix (String.◌∷◌ c s) (String.◌∷◌ d p) = char_eqb c d && has_prefix s p

-- `strings.TrimPrefix(s, p)`, for an `s` that has the prefix: what stands behind it
unfoldable pub drop_prefix : String → String → String
drop_prefix s String.[] = s
drop_prefix String.[] (String.◌∷◌ d p) = ""
drop_prefix (String.◌∷◌ c s) (String.◌∷◌ d p) = drop_prefix s p

-- `strings.HasSuffix(s, t)`
unfoldable pub has_suffix : String → String → Bool
has_suffix String.[] t = t == ""
has_suffix (String.◌∷◌ c s) t = String.◌∷◌ c s == t || has_suffix s t

-- `strings.Contains(s, t)`
unfoldable pub contains : String → String → Bool
unfolding has_prefix
contains String.[] t = t == ""
contains (String.◌∷◌ c s) t = has_prefix (String.◌∷◌ c s) t || contains s t

-- What stands before and after the first byte `b` of `s`: `s[:i]` and `s[i+1:]` for
-- `i := strings.IndexByte(s, b)`, and `none` where `i < 0`. `b` is an ASCII code.
unfoldable pub split_at : ℕ → String → Option (String × String)
split_at b String.[] = none
split_at b (String.◌∷◌ c s) =
    let rest = split_at b s in
    if eqb (code c) b
    then some ("", s)
    else elim rest [ none ↦ none | some (u, v) ↦ some (String.◌∷◌ c u, v) ]

-- `unicode.IsSpace`
unfoldable pub is_space : ℕ → Bool
is_space c =
    leb 9 c && leb c 13
    || eqb c 32
    || eqb c 0x85
    || eqb c 0xa0
    || eqb c 0x1680
    || leb 0x2000 c && leb c 0x200a
    || eqb c 0x2028
    || eqb c 0x2029
    || eqb c 0x202f
    || eqb c 0x205f
    || eqb c 0x3000

unfoldable pub trim_left : String → String
trim_left String.[] = ""
trim_left (String.◌∷◌ c s) =
    let rest = trim_left s in if is_space (code c) then rest else String.◌∷◌ c s

cons_unless_blank : Char → String → String
cons_unless_blank c String.[] = if is_space (code c) then "" else String.◌∷◌ c ""
cons_unless_blank c (String.◌∷◌ d s) = String.◌∷◌ c (String.◌∷◌ d s)

unfoldable pub trim_right : String → String
unfolding cons_unless_blank
trim_right String.[] = ""
trim_right (String.◌∷◌ c s) = cons_unless_blank c (trim_right s)

-- `strings.TrimSpace(s)`
unfoldable pub trim_space : String → String
unfolding trim_left trim_right is_space
trim_space s = trim_right (trim_left s)

pub trim_right-cons :
    (c : Char) (s : String)
    → is_space (code c) ≡ false
    → trim_right s ≡ s
    → trim_right (String.◌∷◌ c s) ≡ String.◌∷◌ c s
unfolding trim_right cons_unless_blank
trim_right-cons c String.[] b e = rw b refl
trim_right-cons c (String.◌∷◌ d s) b e = ap (cons_unless_blank c) e

-- A Go `switch s { case a, b, ...: return true; default: return false }`.
unfoldable pub one_of : String → List String → Bool
one_of s [] = false
one_of s (t ∷ ts) = s == t || one_of s ts

pub one_of→mem : (s : String) (ts : List String) → one_of s ts ≡ true → Memᴰ s ts
unfolding one_of
one_of→mem s [] h = cc
one_of→mem s (t ∷ ts) h = elim (Bool-cases (s == t)) [
  | inl e ↦ Memᴰ.head ((eq_iff s t).0 e)
  | inr e ↦ Memᴰ.tail (one_of→mem s ts (rw e at h))
]

pub has_prefix-append : (p s : String) → has_prefix (concat p s) p ≡ true
unfolding has_prefix
has_prefix-append String.[] s = refl
has_prefix-append (String.◌∷◌ c p) s =
    rw append.cons (unfold has_prefix in ground (arith, has_prefix-append p s))

pub drop_prefix-append : (p s : String) → drop_prefix (concat p s) p ≡ s
unfolding drop_prefix
drop_prefix-append String.[] s = append.nil s
drop_prefix-append (String.◌∷◌ c p) s = rw append.cons (drop_prefix-append p s)

tests :
    (trim_space " a b\t" ≡ "a b")
    × (split_at b'/' "ab/c/d" ≡ some ("ab", "c/d"))
    × (has_suffix "a.get" ".get" ≡ true)
    × (contains "projects/p/roles/r" "/roles/" ≡ true)
    × (has_prefix "ab" "abc" ≡ false)
unfolding trim_space split_at has_suffix contains has_prefix
tests = (refl, refl, refl, refl, refl)

pub mem→one_of : (s : String) (ts : List String) → Memᴰ s ts → one_of s ts ≡ true
unfolding one_of
mem→one_of s [] m = absurd (Memᴰ.not-nil m)
mem→one_of s (t ∷ ts) (Memᴰ.head e) = rw (← e, eq_refl)
mem→one_of s (t ∷ ts) (Memᴰ.tail m) = rw (mem→one_of s ts m) (ground arith)

-- Two prefixes that part ways have no common text.
pub has_prefix-apart :
    (p q s : String)
    → has_prefix p q ≡ false
    → has_prefix q p ≡ false
    → has_prefix (concat p s) q ≡ false
unfolding has_prefix
has_prefix-apart String.[] String.[] s a b = cc
has_prefix-apart String.[] (String.◌∷◌ d q) s a b = cc
has_prefix-apart (String.◌∷◌ c p) String.[] s a b = cc
has_prefix-apart (String.◌∷◌ c p) (String.◌∷◌ d q) s a b =
    rw append.cons (unfold has_prefix in ground (arith, has_prefix-apart p q s))

pub has_prefix→contains : (s t : String) → has_prefix s t ≡ true → contains s t ≡ true
unfolding has_prefix contains
has_prefix→contains String.[] String.[] h = refl
has_prefix→contains String.[] (String.◌∷◌ d t) h = cc
has_prefix→contains (String.◌∷◌ c s) t h = rw (h) refl

-- What the second part contains is contained in the whole.
pub contains-append : (a s t : String) → contains s t ≡ true → contains (concat a s) t ≡ true
unfolding contains
contains-append String.[] s t h = rw append.nil h
contains-append (String.◌∷◌ c a) s t h =
    rw append.cons (rw (contains-append a s t h) (ground arith))
