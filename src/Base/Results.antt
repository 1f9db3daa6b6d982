-- ===== src/Base/Results.antt =====
-- Go's `(T, error)` pairs as a result type, with the loops that return at the first error.
use mathlib.Core.Path.{◌≡◌, refl}
use mathlib.Core.Logic.{◌⊎◌, inl, inr}
use mathlib.Core.Bool.{Bool, true, false}
use mathlib.Core.List.{List, [], ◌∷◌, Memᴰ}
use mathlib.Core.List.Memᴰ
use native.Mathlib.Omega.{arith}
use Prim.Native.String.{String}

-- `external` stands for an error that code outside the model returns; the others are built here.
pub data Error : Type 0 where
  external : String → Error
  message : String → Error
  wrapped : String → Error → Error

pub data Result {ℓ} (A : Type ℓ) : Type ℓ where
  ok : A → Result A
  err : Error → Result A

pub Result-cases {ℓ} :
    {A : Type ℓ} (r : Result A) → ((a : A) × (r ≡ ok a)) ⊎ ((e : Error) × (r ≡ err e))
Result-cases (ok a) = inl (a, refl)
Result-cases (err e) = inr (e, refl)

-- `if err != nil { return err }`, then the rest.
infixl 5 ◌>>=◌
abbrev pub ◌>>=◌ {ℓ κ} : {T : Type ℓ} {U : Type κ} → Result T → (T → Result U) → Result U
err e >>= next = err e
ok x >>= next = next x

-- A chain answers only where its first part does.
pub bind_inverse {ℓ κ} :
    {T : Type ℓ} {U : Type κ} (r : Result T) (next : T → Result U) {u : U}
    → r >>= next ≡ ok u
    → (t : T) × (r ≡ ok t) × (next t ≡ ok u)
bind_inverse (err e) next h = cc
bind_inverse (ok t) next h = (t, refl, h)

-- The annotation that `fmt.Errorf("...: %w", err)` puts round an error.
abbrev pub annotate {ℓ} : {A : Type ℓ} → String → Result A → Result A
annotate s (ok a) = ok a
annotate s (err e) = err (wrapped s e)

module _ {ℓ} {A : Type ℓ} where
  -- `for _, x := range xs { ok, err := f(x); if err != nil { return false, err }; if ok { return
  -- true, nil } }; return false, nil`
  unfoldable pub first_grant : (A → Result Bool) → List A → Result Bool
  first_grant f [] = ok false
  first_grant f (x ∷ xs) = elim (f x) [
    | err e ↦ err e
    | ok b ↦ elim b [ true ↦ ok true | false ↦ first_grant f xs ]
  ]

  -- The loop answers `true` only because of an element.
  pub first_grant_sound :
      (f : A → Result Bool) (xs : List A)
      → first_grant f xs ≡ ok true
      → (x : A) × Memᴰ x xs × (f x ≡ ok true)
  unfolding first_grant
  first_grant_sound f [] h = cc
  first_grant_sound f (x ∷ xs) h = elim (Result-cases (f x)) [
    | inl (true, e) ↦ (x, Memᴰ.head refl, e)
    | inl (false, e) ↦ let (y, m, p) = first_grant_sound f xs (ground arith) in (y, Memᴰ.tail m, p)
    | inr (e, p) ↦ cc (rw (p, first_grant) at h)
  ]

  -- The loop answers `false` only if every element does.
  pub first_grant_refused :
      (f : A → Result Bool) (xs : List A) {x : A}
      → first_grant f xs ≡ ok false
      → Memᴰ x xs
      → f x ≡ ok false
  unfolding first_grant
  first_grant_refused f [] h m = absurd (Memᴰ.not-nil m)
  first_grant_refused f (x ∷ xs) h (Memᴰ.head e) = rw e (ground arith)
  first_grant_refused f (x ∷ xs) h (Memᴰ.tail m) = first_grant_refused f xs (ground arith) m
