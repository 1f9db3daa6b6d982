-- ===== src/Base/Maps.antt =====
-- A table as a map from its keys to rows, and the statements on it as changes of the map.
use Prim.Native.String.{String}
use mathlib.Core.Path.{◌≡◌, refl, fun_ext}
use mathlib.Core.Bool.{Bool, true, false, ◌&&◌}
use mathlib.Core.Option.{Option, none, some, map}
use mathlib.Core.List.{List, [], ◌∷◌, ◌++◌}
use mathlib.Core.Logic.{inl, inr}
use native.Mathlib.Omega.{arith}
use text.Mathlib.Text.{◌==◌}
use text.Mathlib.TextEquality.{eq_iff}
use noctaxris_gcp.Base.Tests.{if◌then◌else◌, Bool-cases}
use noctaxris_gcp.Base.Tables.{select_one, exists_row, update_where, delete_where}

module _ {ℓ} {A : Type ℓ} where
  abbrev pub is_some : Option A → Bool
  is_some none = false
  is_some (some a) = true

  -- A map, changed at one key.
  unfoldable pub assign : (String → Option A) → String → Option A → String → Option A
  assign f k v n = if k == n then v else f n

  update_where_and :
      (p q : A → Bool) (f : A → A) (xs : List A)
      → update_where (λ x. p x && q x) f xs ≡ update_where p (λ x. if q x then f x else x) xs
  unfolding update_where
  update_where_and p q f [] = refl
  update_where_and p q f (x ∷ xs) = ground (arith, update_where_and p q f xs)

module _ {ℓ} {A : Type ℓ} (key : A → String) where
  -- The row of a key.
  abbrev pub row_at : List A → String → Option A
  row_at xs name = select_one (λ x. key x == name) xs

  pub exists-row_at :
      (name : String) (xs : List A) → exists_row (λ x. key x == name) xs ≡ is_some (row_at xs name)
  unfolding exists_row select_one
  exists-row_at name [] = refl
  exists-row_at name (x ∷ xs) = elim (Bool-cases (key x == name)) [
    | inl t ↦ rw t refl
    | inr f ↦ rw f (exists-row_at name xs)
  ]

  pub key-row_at : (name : String) (xs : List A) {x : A} → row_at xs name ≡ some x → key x ≡ name
  unfolding select_one
  key-row_at name [] h = cc
  key-row_at name (x ∷ xs) h = elim (Bool-cases (key x == name)) [
    | inl t ↦ ground (arith, eq_iff (key x) name)
    | inr f ↦ key-row_at name xs (ground arith)
  ]

  snoc_at :
      (x : A) (n : String) (xs : List A)
      → row_at xs (key x) ≡ none
      → row_at (xs ++ x ∷ []) n ≡ assign (row_at xs) (key x) (some x) n
  unfolding select_one assign
  snoc_at x n [] h = refl
  snoc_at x n (y ∷ ys) h = elim (Bool-cases (key y == n)) [
    | inl t ↦ ground (arith, eq_iff (key y) n, eq_iff (key x) n, eq_iff (key y) (key x))
    | inr f ↦ ground (arith, snoc_at x n ys, eq_iff (key y) (key x))
  ]

  -- An INSERT under a key that is not there.
  pub row_at-snoc :
      (x : A) (xs : List A)
      → row_at xs (key x) ≡ none
      → row_at (xs ++ x ∷ []) ≡ assign (row_at xs) (key x) (some x)
  row_at-snoc x xs h = fun_ext λ n. snoc_at x n xs h

  update_at :
      (k : String) (f : A → A) (n : String) (xs : List A)
      → ((x : A) → key (f x) ≡ key x)
      → row_at (update_where (λ x. key x == k) f xs) n
        ≡ assign (row_at xs) k (map f (row_at xs k)) n
  unfolding select_one update_where assign
  update_at k f n [] kept = ground arith
  update_at k f n (x ∷ xs) kept = ground (
    arith,
    update_at k f n xs kept,
    kept x,
    eq_iff (key x) k,
    eq_iff (key x) n,
    eq_iff k n,
    eq_iff (key (f x)) n,
  )

  -- An UPDATE of the row of a key.
  pub row_at-update :
      (k : String) (f : A → A) (xs : List A)
      → ((x : A) → key (f x) ≡ key x)
      → row_at (update_where (λ x. key x == k) f xs) ≡ assign (row_at xs) k (map f (row_at xs k))
  row_at-update k f xs kept = fun_ext λ n. update_at k f n xs kept

  -- An UPDATE of the row of a key, where the row passes a test.
  pub row_at_update_if :
      (k : String) (q : A → Bool) (f : A → A) (xs : List A)
      → ((x : A) → key (f x) ≡ key x)
      → row_at (update_where (λ x. key x == k && q x) f xs)
        ≡ assign (row_at xs) k (map (λ x. if q x then f x else x) (row_at xs k))
  row_at_update_if k q f xs kept =
      rw (update_where_and (λ x. key x == k) q f xs)
        (row_at-update k (λ x. if q x then f x else x) xs (λ x. ground (arith, kept x)))

  delete_at :
      (k n : String) (xs : List A)
      → row_at (delete_where (λ x. key x == k) xs) n ≡ assign (row_at xs) k none n
  unfolding select_one delete_where assign
  delete_at k n [] = ground arith
  delete_at k n (x ∷ xs) =
      ground (arith, delete_at k n xs, eq_iff (key x) k, eq_iff (key x) n, eq_iff k n)

  -- A DELETE of the row of a key.
  pub row_at-delete :
      (k : String) (xs : List A)
      → row_at (delete_where (λ x. key x == k) xs) ≡ assign (row_at xs) k none
  row_at-delete k xs = fun_ext λ n. delete_at k n xs
