-- ===== src/Store/Numerals.antt =====
-- Decimal texts: Go's `strconv.Itoa`, and SQLite's `CAST(... AS INTEGER)` on a text of digits.
use Prim.Native.Char.{Char, code}
use noctaxris_gcp.Base.{
  ℕ, zero, suc, ◌+◌, ◌-◌, ◌*◌, ◌/◌, ◌%◌, ◌<◌, String, Bool, true, false, ◌&&◌, ◌≡◌, refl, ap, ◌∙◌,
  inl, inr, arith, Bool-cases, ltb, leb, eqb, is_space, trim_left, trim_right, trim_right-cons,
  trim_space, if◌then◌else◌,
}

digit : ℕ → Char
digit d =
    if eqb d 0
    then "0"
    else if eqb d 1
    then "1"
    else if eqb d 2
    then "2"
    else if eqb d 3
    then "3"
    else if eqb d 4
    then "4"
    else if eqb d 5
    then "5"
    else if eqb d 6
    then "6"
    else if eqb d 7
    then "7"
    else if eqb d 8
    then "8"
    else "9"

-- The digits of `n` before `rest`, the last one first, on the rounds that are left.
itoa_from : ℕ → ℕ → String → String
unfolding digit
itoa_from zero n rest = rest
itoa_from (suc k) n rest =
    let out = String.◌∷◌ (digit (n % 10)) rest in
    let more = itoa_from k (n / 10) out in if ltb n 10 then out else more

-- `strconv.Itoa` of a number that is not negative.
unfoldable pub itoa : ℕ → String
unfolding itoa_from
itoa n = itoa_from (suc n) n ""

unfoldable pub is_digit : Char → Bool
is_digit c = leb b'0' (code c) && leb (code c) b'9'

cast_from : ℕ → String → ℕ
unfolding is_digit
cast_from n String.[] = n
cast_from n (String.◌∷◌ c s) =
    let rest = cast_from (n * 10 + (code c - b'0')) s in if is_digit c then rest else n

-- The value of the digits that a text begins with.
unfoldable pub cast_integer : String → ℕ
unfolding cast_from
cast_integer = cast_from 0

code-digit : (d : ℕ) → d < 10 → code (digit d) ≡ b'0' + d
unfolding digit
code-digit zero h = refl
code-digit (suc zero) h = refl
code-digit (suc (suc zero)) h = refl
code-digit (suc (suc (suc zero))) h = refl
code-digit (suc (suc (suc (suc zero)))) h = refl
code-digit (suc (suc (suc (suc (suc zero))))) h = refl
code-digit (suc (suc (suc (suc (suc (suc zero)))))) h = refl
code-digit (suc (suc (suc (suc (suc (suc (suc zero))))))) h = refl
code-digit (suc (suc (suc (suc (suc (suc (suc (suc zero)))))))) h = refl
code-digit (suc (suc (suc (suc (suc (suc (suc (suc (suc zero))))))))) h = refl
code-digit (suc (suc (suc (suc (suc (suc (suc (suc (suc (suc d)))))))))) h = absurd (omega arith)

cast_digit :
    (n d : ℕ) (rest : String)
    → d < 10
    → cast_from n (String.◌∷◌ (digit d) rest) ≡ cast_from (n * 10 + d) rest
unfolding cast_from is_digit
cast_digit n d rest h =
    let c = code-digit d h in
    let at_digit : is_digit (digit d) ≡ true = ground arith in
    let value : code (digit d) - b'0' ≡ d = omega (arith, c) in rw (at_digit, value) refl

cast-itoa_from :
    (k n : ℕ) (rest : String) → n < k → cast_from 0 (itoa_from k n rest) ≡ cast_from n rest
unfolding itoa_from
cast-itoa_from zero n rest h = absurd (omega arith)
cast-itoa_from (suc k) n rest h = elim (Bool-cases (ltb n 10)) [
  | inl t ↦
      let same : n % 10 ≡ n = ground arith in
      rw (t, same)
        (cast_digit 0 n rest (ground arith) ∙ ap (λ (m : ℕ). cast_from m rest) (omega arith))
  | inr f ↦
      let step : n / 10 * 10 + n % 10 ≡ n = omega arith in
      rw f (
        cast-itoa_from k (n / 10) (String.◌∷◌ (digit (n % 10)) rest) (ground arith)
        ∙ cast_digit (n / 10) (n % 10) rest (omega arith)
        ∙ ap (λ (m : ℕ). cast_from m rest) step)
]

-- The text of a number is read back.
pub cast_integer-itoa : (n : ℕ) → cast_integer (itoa n) ≡ n
unfolding cast_integer itoa cast_from
cast_integer-itoa n = cast-itoa_from (suc n) n "" (omega arith)

-- A text of digits only.
unfoldable pub all_digits : String → Bool
unfolding is_digit
all_digits String.[] = true
all_digits (String.◌∷◌ c s) = is_digit c && all_digits s

digit-is_digit : (d : ℕ) → d < 10 → is_digit (digit d) ≡ true
unfolding is_digit
digit-is_digit d h = let c = code-digit d h in ground arith

all_digits-itoa_from :
    (k n : ℕ) (rest : String) → all_digits rest ≡ true → all_digits (itoa_from k n rest) ≡ true
unfolding all_digits itoa_from
all_digits-itoa_from zero n rest h = h
all_digits-itoa_from (suc k) n rest h =
    let first = digit-is_digit (n % 10) (omega arith) in
    let out : all_digits (String.◌∷◌ (digit (n % 10)) rest) ≡ true = rw (first, h) refl in
    elim (Bool-cases (ltb n 10)) [
      | inl t ↦ rw t out
      | inr f ↦ rw f (all_digits-itoa_from k (n / 10) (String.◌∷◌ (digit (n % 10)) rest) out)
    ]

pub all_digits-itoa : (n : ℕ) → all_digits (itoa n) ≡ true
unfolding itoa all_digits
all_digits-itoa n = all_digits-itoa_from (suc n) n "" refl

digit_solid : (c : Char) → is_digit c ≡ true → is_space (code c) ≡ false
unfolding is_digit is_space
digit_solid c h = ground arith

trim_left-digits : (s : String) → all_digits s ≡ true → trim_left s ≡ s
unfolding trim_left all_digits is_digit is_space
trim_left-digits String.[] h = refl
trim_left-digits (String.◌∷◌ c s) h = ground arith

trim_right-digits : (s : String) → all_digits s ≡ true → trim_right s ≡ s
unfolding trim_right all_digits
trim_right-digits String.[] h = refl
trim_right-digits (String.◌∷◌ c s) h =
    trim_right-cons c s (digit_solid c (ground arith)) (trim_right-digits s (ground arith))

-- A text of digits has no blanks to trim.
pub trim_space-digits : (s : String) → all_digits s ≡ true → trim_space s ≡ s
unfolding trim_space
trim_space-digits s h = ap trim_right (trim_left-digits s h) ∙ trim_right-digits s h
