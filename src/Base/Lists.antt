-- ===== src/Base/Lists.antt =====
-- Lists measured by native numbers, under the library's names, and predicates by recursion.
use Prim.Native.Nat.{ℕ, zero, suc, ◌+◌}
use mathlib.Core.Path.{◌≡◌}
use mathlib.Core.Bool.{Bool, true, ◌&&◌}
use mathlib.Core.List.{List, [], ◌∷◌, ◌++◌, Memᴰ}
use mathlib.Core.List.Memᴰ
use native.Mathlib.Omega.{arith}

module _ {ℓ} {A : Type ℓ} where
  abbrev pub length : List A → ℕ
  length [] = 0
  length (x ∷ xs) = suc (length xs)

  abbrev pub take : ℕ → List A → List A
  take zero xs = []
  take (suc n) [] = []
  take (suc n) (x ∷ xs) = x ∷ take n xs

  pub length-append : (xs ys : List A) → length (xs ++ ys) ≡ length xs + length ys
  length-append [] ys = omega arith
  length-append (x ∷ xs) ys = omega (arith, length-append xs ys)

  -- Every element passes a Boolean test.
  unfoldable pub all_pass : (A → Bool) → List A → Bool
  all_pass p [] = true
  all_pass p (x ∷ xs) = p x && all_pass p xs

  pub all_pass_mem :
      (p : A → Bool) (xs : List A) {a : A} → all_pass p xs ≡ true → Memᴰ a xs → p a ≡ true
  unfolding all_pass
  all_pass_mem p [] h m = absurd (Memᴰ.not-nil m)
  all_pass_mem p (x ∷ xs) h (Memᴰ.head e) = rw e (ground arith)
  all_pass_mem p (x ∷ xs) h (Memᴰ.tail m) = all_pass_mem p xs (ground arith) m

module _ {ℓ κ} {A : Type ℓ} where
  -- A predicate that holds of every element.
  abbrev pub All : (A → Type κ) → List A → Type κ
  All P [] = Unit
  All P (x ∷ xs) = P x × All P xs

  pub All_mem : (P : A → Type κ) {a : A} (xs : List A) → All P xs → Memᴰ a xs → P a
  All_mem P [] h m = absurd (Memᴰ.not-nil m)
  All_mem P (x ∷ xs) h (Memᴰ.head e) = rw e h.0
  All_mem P (x ∷ xs) h (Memᴰ.tail m) = All_mem P xs h.1 m

  pub All-append : (P : A → Type κ) (xs ys : List A) → All P xs → All P ys → All P (xs ++ ys)
  All-append P [] ys hx hy = hy
  All-append P (x ∷ xs) ys hx hy = (hx.0, All-append P xs ys hx.1 hy)
