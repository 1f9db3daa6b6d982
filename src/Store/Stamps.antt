-- ===== src/Store/Stamps.antt =====
-- The time texts of internal/store: `t.UTC().Format(time.RFC3339Nano)`, compared by SQLite as texts.
-- A time is a number of nanoseconds since the start of the year 1. Of its text, the part up to the
-- seconds has a fixed width, so it is kept as the number of seconds; what follows is kept byte by byte.
use noctaxris_gcp.Base.{
  ℕ, zero, suc, ◌+◌, ◌/◌, ◌%◌, ◌^◌, Bool, true, false, ◌&&◌, ◌||◌, List, [], ◌∷◌, ◌++◌, ◌≡◌, refl,
  ltb, eqb, if◌then◌else◌,
}

pub record Stamp : Type 0 where
  pub secs : ℕ
  pub suffix : List ℕ

abbrev pub second : ℕ
second = 1000000000

-- The digits of `n`, out of `k` places, up to the last that is no zero.
unfoldable pub fraction_digits : ℕ → ℕ → List ℕ
fraction_digits zero n = []
fraction_digits (suc k) n =
    let rest = fraction_digits k (n % 10 ^ k) in if eqb n 0 then [] else (b'0' + n / 10 ^ k) ∷ rest

unfoldable pub fraction : ℕ → List ℕ
unfolding fraction_digits
fraction n = if eqb n 0 then b'Z' ∷ [] else b'.' ∷ fraction_digits 9 n ++ b'Z' ∷ []

unfoldable pub format : ℕ → Stamp
format t = record { secs = t / second; suffix = fraction (t % second) }

unfoldable pub bytes_ltb : List ℕ → List ℕ → Bool
bytes_ltb a [] = false
bytes_ltb [] (d ∷ b) = true
bytes_ltb (c ∷ a) (d ∷ b) = ltb c d || eqb c d && bytes_ltb a b

-- `a < b`, as SQLite compares the texts.
unfoldable pub stamp_ltb : Stamp → Stamp → Bool
stamp_ltb a b = ltb a.secs b.secs || eqb a.secs b.secs && bytes_ltb a.suffix b.suffix

-- 12:00:00.5Z and 12:00:00.25Z
fractions :
    (fraction 500000000 ≡ b'.' ∷ b'5' ∷ b'Z' ∷ [])
    × (fraction 250000000 ≡ b'.' ∷ b'2' ∷ b'5' ∷ b'Z' ∷ [])
unfolding fraction
fractions = (refl, refl)
