-- ===== src/Base/Tables.antt =====
-- SQL tables as lists of rows in the order of their insertion, and the statements on them. A
-- statement's WHERE clause is a Boolean test of a row.
use Prim.Native.Nat.{ℕ, zero, suc}
use mathlib.Core.Path.{◌≡◌, refl}
use mathlib.Core.Logic.{◌⊎◌, inl, inr}
use mathlib.Core.Bool.{Bool, true, false, ◌||◌}
use mathlib.Core.Option.{Option, none, some}
use mathlib.Core.List.{List, [], ◌∷◌, ◌++◌, Memᴰ}
use mathlib.Core.List.Memᴰ
use native.Mathlib.Omega.{arith}
use noctaxris_gcp.Base.Tests.{if◌then◌else◌, Bool-cases}
use noctaxris_gcp.Base.Lists.{take}

module _ {ℓ} {A : Type ℓ} where
  -- SELECT ... WHERE
  unfoldable pub select_where : (A → Bool) → List A → List A
  select_where p [] = []
  select_where p (x ∷ xs) = let rest = select_where p xs in if p x then x ∷ rest else rest

  -- The row that a SELECT on a key finds.
  unfoldable pub select_one : (A → Bool) → List A → Option A
  select_one p [] = none
  select_one p (x ∷ xs) = let rest = select_one p xs in if p x then some x else rest

  unfoldable pub exists_row : (A → Bool) → List A → Bool
  exists_row p [] = false
  exists_row p (x ∷ xs) = p x || exists_row p xs

  -- DELETE ... WHERE
  unfoldable pub delete_where : (A → Bool) → List A → List A
  delete_where p [] = []
  delete_where p (x ∷ xs) = let rest = delete_where p xs in if p x then rest else x ∷ rest

  -- UPDATE ... SET ... WHERE
  unfoldable pub update_where : (A → Bool) → (A → A) → List A → List A
  update_where p f [] = []
  update_where p f (x ∷ xs) = (if p x then f x else x) ∷ update_where p f xs

  -- ORDER BY, for the test of a key that may not stand behind another.
  unfoldable pub insert_by : (A → A → Bool) → A → List A → List A
  insert_by le x [] = x ∷ []
  insert_by le x (y ∷ ys) = let rest = insert_by le x ys in if le x y then x ∷ y ∷ ys else y ∷ rest

  unfoldable pub order_by : (A → A → Bool) → List A → List A
  unfolding insert_by
  order_by le [] = []
  order_by le (x ∷ xs) = insert_by le x (order_by le xs)

  pub select_where_mem :
      (p : A → Bool) (xs : List A) {x : A} → Memᴰ x (select_where p xs) → Memᴰ x xs × (p x ≡ true)
  unfolding select_where
  select_where_mem p [] m = absurd (Memᴰ.not-nil m)
  select_where_mem p (y ∷ ys) {x} m = elim (Bool-cases (p y)) [
    | inl t ↦ elim (Memᴰ.cases_cons (rw (t, select_where) at m)) [
      | inl e ↦ (Memᴰ.head e, rw e t)
      | inr i ↦ let (j, q) = select_where_mem p ys i in (Memᴰ.tail j, q)
    ]
    | inr f ↦ let (j, q) = select_where_mem p ys (rw (f, select_where) at m) in (Memᴰ.tail j, q)
  ]

  pub mem_select_where :
      (p : A → Bool) (xs : List A) {x : A} → Memᴰ x xs → p x ≡ true → Memᴰ x (select_where p xs)
  unfolding select_where
  mem_select_where p [] m t = absurd (Memᴰ.not-nil m)
  mem_select_where p (y ∷ ys) (Memᴰ.head e) t = rw (← e, t) (Memᴰ.head refl)
  mem_select_where p (y ∷ ys) (Memᴰ.tail m) t = elim (Bool-cases (p y)) [
    | inl b ↦ rw b (Memᴰ.tail (mem_select_where p ys m t))
    | inr b ↦ rw b (mem_select_where p ys m t)
  ]

  pub delete_where_mem :
      (p : A → Bool) (xs : List A) {x : A} → Memᴰ x (delete_where p xs) → Memᴰ x xs × (p x ≡ false)
  unfolding delete_where
  delete_where_mem p [] m = absurd (Memᴰ.not-nil m)
  delete_where_mem p (y ∷ ys) {x} m = elim (Bool-cases (p y)) [
    | inl t ↦ let (j, q) = delete_where_mem p ys (rw (t, delete_where) at m) in (Memᴰ.tail j, q)
    | inr f ↦ elim (Memᴰ.cases_cons (rw (f, delete_where) at m)) [
      | inl e ↦ (Memᴰ.head e, rw e f)
      | inr i ↦ let (j, q) = delete_where_mem p ys i in (Memᴰ.tail j, q)
    ]
  ]

  pub mem_delete_where :
      (p : A → Bool) (xs : List A) {x : A} → Memᴰ x xs → p x ≡ false → Memᴰ x (delete_where p xs)
  unfolding delete_where
  mem_delete_where p [] m t = absurd (Memᴰ.not-nil m)
  mem_delete_where p (y ∷ ys) (Memᴰ.head e) t = rw (← e, t) (Memᴰ.head refl)
  mem_delete_where p (y ∷ ys) (Memᴰ.tail m) t = elim (Bool-cases (p y)) [
    | inl b ↦ rw b (mem_delete_where p ys m t)
    | inr b ↦ rw b (Memᴰ.tail (mem_delete_where p ys m t))
  ]

  pub select_one_mem :
      (p : A → Bool) (xs : List A) {x : A} → select_one p xs ≡ some x → Memᴰ x xs × (p x ≡ true)
  unfolding select_one
  select_one_mem p [] h = cc
  select_one_mem p (y ∷ ys) h = elim (Bool-cases (p y)) [
    | inl t ↦ (Memᴰ.head (ground arith), ground arith)
    | inr f ↦ let (m, q) = select_one_mem p ys (ground arith) in (Memᴰ.tail m, q)
  ]

  pub insert_by_mem :
      (le : A → A → Bool) (x : A) (ys : List A) {z : A}
      → Memᴰ z (insert_by le x ys)
      → (z ≡ x) ⊎ Memᴰ z ys
  unfolding insert_by
  insert_by_mem le x [] m = Memᴰ.cases_cons m
  insert_by_mem le x (y ∷ ys) m = elim (Bool-cases (le x y)) [
    | inl t ↦ Memᴰ.cases_cons (rw (t, insert_by) at m)
    | inr f ↦ elim (Memᴰ.cases_cons (rw (f, insert_by) at m)) [
      | inl e ↦ inr (Memᴰ.head e)
      | inr i ↦ elim (insert_by_mem le x ys i) [ inl e ↦ inl e | inr j ↦ inr (Memᴰ.tail j) ]
    ]
  ]

  pub order_by_mem : (le : A → A → Bool) (xs : List A) {z : A} → Memᴰ z (order_by le xs) → Memᴰ z xs
  unfolding order_by
  order_by_mem le [] m = m
  order_by_mem le (x ∷ xs) m = elim (insert_by_mem le x (order_by le xs) m) [
    | inl e ↦ Memᴰ.head e
    | inr i ↦ Memᴰ.tail (order_by_mem le xs i)
  ]

  pub take_mem : (n : ℕ) (xs : List A) {z : A} → Memᴰ z (take n xs) → Memᴰ z xs
  take_mem zero xs m = absurd (Memᴰ.not-nil m)
  take_mem (suc n) [] m = m
  take_mem (suc n) (x ∷ xs) (Memᴰ.head e) = Memᴰ.head e
  take_mem (suc n) (x ∷ xs) (Memᴰ.tail m) = Memᴰ.tail (take_mem n xs m)

  pub update_where_mem :
      (p : A → Bool) (f : A → A) (xs : List A) {z : A}
      → Memᴰ z (update_where p f xs)
      → (x : A) × Memᴰ x xs × (z ≡ (if p x then f x else x))
  unfolding update_where
  update_where_mem p f [] m = absurd (Memᴰ.not-nil m)
  update_where_mem p f (x ∷ xs) (Memᴰ.head e) = (x, Memᴰ.head refl, e)
  update_where_mem p f (x ∷ xs) (Memᴰ.tail m) =
      let (y, i, e) = update_where_mem p f xs m in (y, Memᴰ.tail i, e)

  pub mem_update_where :
      (p : A → Bool) (f : A → A) (xs : List A) {x : A}
      → Memᴰ x xs
      → Memᴰ (if p x then f x else x) (update_where p f xs)
  unfolding update_where
  mem_update_where p f [] m = absurd (Memᴰ.not-nil m)
  mem_update_where p f (x ∷ xs) (Memᴰ.head e) = rw e (Memᴰ.head refl)
  mem_update_where p f (x ∷ xs) (Memᴰ.tail m) = Memᴰ.tail (mem_update_where p f xs m)

  pub exists_row_mem :
      (p : A → Bool) (xs : List A) → exists_row p xs ≡ true → (x : A) × Memᴰ x xs × (p x ≡ true)
  unfolding exists_row
  exists_row_mem p [] h = cc
  exists_row_mem p (x ∷ xs) h = elim (Bool-cases (p x)) [
    | inl t ↦ (x, Memᴰ.head refl, t)
    | inr f ↦ let (y, m, q) = exists_row_mem p xs (rw (f, exists_row) at h) in (y, Memᴰ.tail m, q)
  ]

  -- The last row is found where no row before it fits.
  pub select_one-snoc :
      (p : A → Bool) (xs : List A) (x : A)
      → ((y : A) → Memᴰ y xs → p y ≡ false)
      → p x ≡ true
      → select_one p (xs ++ x ∷ []) ≡ some x
  unfolding select_one
  select_one-snoc p [] x none_before t = rw t refl
  select_one-snoc p (y ∷ ys) x none_before t =
      rw (none_before y (Memᴰ.head refl))
        (select_one-snoc p ys x (λ z i. none_before z (Memᴰ.tail i)) t)

  -- A row that is found is found in front of further rows.
  pub select_one_front :
      (p : A → Bool) (xs ys : List A) {x : A}
      → select_one p xs ≡ some x
      → select_one p (xs ++ ys) ≡ some x
  unfolding select_one
  select_one_front p [] ys h = cc
  select_one_front p (z ∷ xs) ys {x} h = elim (Bool-cases (p z)) [
    | inl t ↦ ground arith
    | inr f ↦ rw f (select_one_front p xs ys (ground arith))
  ]

  -- Where no row is found, none fits.
  pub select_one-none :
      (p : A → Bool) (xs : List A) {x : A} → select_one p xs ≡ none → Memᴰ x xs → p x ≡ false
  unfolding select_one
  select_one-none p [] h m = absurd (Memᴰ.not-nil m)
  select_one-none p (y ∷ ys) {x} h m = elim (Bool-cases (p y)) [
    | inl t ↦ cc (rw (t, select_one) at h)
    | inr f ↦ elim (Memᴰ.cases_cons m) [
      | inl e ↦ rw e f
      | inr i ↦ select_one-none p ys (rw (f, select_one) at h) i
    ]
  ]

  pub exists_row_none :
      (p : A → Bool) (xs : List A) {x : A} → exists_row p xs ≡ false → Memᴰ x xs → p x ≡ false
  unfolding exists_row
  exists_row_none p [] f m = absurd (Memᴰ.not-nil m)
  exists_row_none p (y ∷ ys) f (Memᴰ.head e) = rw e (ground arith)
  exists_row_none p (y ∷ ys) f (Memᴰ.tail m) = exists_row_none p ys (ground arith) m
