-- ===== src/Store/StampOrder.antt =====
-- How far the order of the time texts is the order of the times.
use noctaxris_gcp.Base.{ℕ, ◌+◌, ◌*◌, ◌/◌, ◌%◌, ◌≤◌, ◌<◌, true, false, ◌≡◌, ◌≢◌, arith}
use noctaxris_gcp.Store.Stamps.{second, fraction, format, bytes_ltb, stamp_ltb}

-- A time in an earlier second has the smaller text.
pub earlier_second : (t u : ℕ) → t / second < u / second → stamp_ltb (format t) (format u) ≡ true
unfolding format stamp_ltb
earlier_second t u h = ground arith

-- The text of a time is smaller than that of every time at least a second later, and a time whose
-- text is the smaller one comes less than a second after the other, if it comes after it at all.
pub stamp_order :
    (t u : ℕ)
    → (t + second ≤ u → stamp_ltb (format t) (format u) ≡ true)
      × (stamp_ltb (format t) (format u) ≡ true → t < u + second)
unfolding format stamp_ltb
stamp_order t u = (λ h. earlier_second t u (omega arith), λ h. ground arith)

whole_after :
    (n : ℕ)
    → n ≢ 0
    → bytes_ltb (fraction n) (fraction 0) ≡ true × (bytes_ltb (fraction 0) (fraction n) ≡ false)
unfolding fraction bytes_ltb
whole_after n h = ground arith

-- Within a second the text of the whole second is not smaller than that of any later time, and the
-- text of any later time is smaller than it.
pub whole_second_last :
    (s n : ℕ)
    → 0 < n
    → n < second
    → (stamp_ltb (format (s * second)) (format (s * second + n)) ≡ false)
      × (stamp_ltb (format (s * second + n)) (format (s * second)) ≡ true)
unfolding format stamp_ltb
whole_second_last s n p q =
    let a : s * second / second ≡ s = omega arith in
    let b : s * second % second ≡ 0 = omega arith in
    let c : (s * second + n) / second ≡ s = omega arith in
    let d : (s * second + n) % second ≡ n = omega arith in
    rw (a, b, c, d) (ground (arith, whole_after n (omega arith)))
