-- ===== src/Base/Keys.antt =====
-- Primary keys: tables in which no two rows have one key, and what the statements keep of that.
use Prim.Native.String.{String}
use mathlib.Core.Path.{◌≡◌, refl, sym, ap, ◌∙◌}
use mathlib.Core.Logic.{inl, inr, ◌≢◌}
use mathlib.Core.Bool.{Bool, true, false}
use mathlib.Core.List.{List, [], ◌∷◌, ◌++◌, Memᴰ}
use mathlib.Core.List.Memᴰ
use native.Mathlib.Omega.{arith}
use noctaxris_gcp.Base.Tests.{if◌then◌else◌, Bool-cases}
use Prim.Native.Nat.{ℕ, zero, suc}
use noctaxris_gcp.Base.Tables.{
  exists_row, delete_where, update_where, insert_by, order_by, select_where, select_where_mem,
  delete_where_mem, update_where_mem, insert_by_mem, order_by_mem, take_mem,
}
use noctaxris_gcp.Base.Lists.{take}

module _ {ℓ} {A : Type ℓ} (key : A → String) where
  -- No row of the table has the key of `x`.
  abbrev pub Apart : A → List A → Type ℓ
  Apart x xs = (y : A) → Memᴰ y xs → key y ≢ key x

  abbrev pub Unique : List A → Type ℓ
  Unique [] = Unit
  Unique (x ∷ xs) = Apart x xs × Unique xs

  -- A look-up by key that finds nothing.
  pub absent-Apart :
      (p : A → Bool) (x : A) (xs : List A)
      → ((y : A) → key y ≡ key x → p y ≡ true)
      → exists_row p xs ≡ false
      → Apart x xs
  unfolding exists_row
  absent-Apart p x [] f h y m e = Memᴰ.not-nil m
  absent-Apart p x (z ∷ zs) f h y (Memᴰ.head d) e = cc (f z (ap key (sym d) ∙ e), fails_first)
    where
      fails_first : p z ≡ false
      fails_first = ground arith
  absent-Apart p x (z ∷ zs) f h y (Memᴰ.tail m) e = absent-Apart p x zs f (ground arith) y m e

  pub Unique-snoc : (xs : List A) (x : A) → Unique xs → Apart x xs → Unique (xs ++ x ∷ [])
  Unique-snoc [] x u a = (λ y m. absurd (Memᴰ.not-nil m), tt)
  Unique-snoc (z ∷ zs) x u a = (
    λ y m e. elim (Memᴰ.append_cases zs m) [
      | inl i ↦ u.0 y i e
      | inr i ↦ a z (Memᴰ.head refl) (sym e ∙ ap key (Memᴰ.eq_of_singleton i))
    ],
    Unique-snoc zs x u.1 (λ y m. a y (Memᴰ.tail m)),
  )

  pub Unique-delete_where : (p : A → Bool) (xs : List A) → Unique xs → Unique (delete_where p xs)
  unfolding delete_where
  Unique-delete_where p [] u = u
  Unique-delete_where p (x ∷ xs) u = elim (Bool-cases (p x)) [
    | inl b ↦ rw b (Unique-delete_where p xs u.1)
    | inr b ↦ rw b (λ y m. u.0 y (delete_where_mem p xs m).0, Unique-delete_where p xs u.1)
  ]

  pub Unique-select_where : (p : A → Bool) (xs : List A) → Unique xs → Unique (select_where p xs)
  unfolding select_where
  Unique-select_where p [] u = u
  Unique-select_where p (x ∷ xs) u = elim (Bool-cases (p x)) [
    | inl b ↦ rw b (λ y m. u.0 y (select_where_mem p xs m).0, Unique-select_where p xs u.1)
    | inr b ↦ rw b (Unique-select_where p xs u.1)
  ]

  pub Unique-update_where :
      (p : A → Bool) (f : A → A) (xs : List A)
      → ((x : A) → key (f x) ≡ key x)
      → Unique xs
      → Unique (update_where p f xs)
  unfolding update_where
  Unique-update_where p f [] k u = u
  Unique-update_where p f (x ∷ xs) k u = (
    λ y m e.
        let (z, i, d) = update_where_mem p f xs m in
        u.0 z i (sym (kept z) ∙ ap key (sym d) ∙ e ∙ kept x),
    Unique-update_where p f xs k u.1,
  )
    where
      kept : (z : A) → key (if p z then f z else z) ≡ key z
      kept z = ground (arith, k z)

  pub Unique-insert_by :
      (le : A → A → Bool) (x : A) (ys : List A)
      → Unique ys
      → Apart x ys
      → Unique (insert_by le x ys)
  unfolding insert_by
  Unique-insert_by le x [] u a = (a, u)
  Unique-insert_by le x (y ∷ ys) u a = elim (Bool-cases (le x y)) [
    | inl b ↦ rw b (a, u)
    | inr b ↦ rw b (
      λ z m e. elim (insert_by_mem le x ys m) [
        | inl d ↦ a y (Memᴰ.head refl) (sym e ∙ ap key d)
        | inr i ↦ u.0 z i e
      ],
      Unique-insert_by le x ys u.1 (λ z m. a z (Memᴰ.tail m)),
    )
  ]

  pub Unique-order_by : (le : A → A → Bool) (xs : List A) → Unique xs → Unique (order_by le xs)
  unfolding order_by
  Unique-order_by le [] u = u
  Unique-order_by le (x ∷ xs) u =
      Unique-insert_by le x (order_by le xs) (Unique-order_by le xs u.1)
        (λ y m. u.0 y (order_by_mem le xs m))

  pub Unique-take : (n : ℕ) (xs : List A) → Unique xs → Unique (take n xs)
  Unique-take zero xs u = tt
  Unique-take (suc n) [] u = u
  Unique-take (suc n) (x ∷ xs) u = (λ y m. u.0 y (take_mem n xs m), Unique-take n xs u.1)

  -- A key has one row.
  pub Unique-mem :
      (xs : List A) {x y : A} → Unique xs → Memᴰ x xs → Memᴰ y xs → key x ≡ key y → x ≡ y
  Unique-mem [] u m n e = absurd (Memᴰ.not-nil m)
  Unique-mem (z ∷ zs) {x} {y} u (Memᴰ.head d) n e = elim (Memᴰ.cases_cons n) [
    | inl c ↦ d ∙ sym c
    | inr j ↦ absurd (u.0 y j (sym e ∙ ap key d))
  ]
  Unique-mem (z ∷ zs) {x} {y} u (Memᴰ.tail m) n e = elim (Memᴰ.cases_cons n) [
    | inl c ↦ absurd (u.0 x m (e ∙ ap key c))
    | inr j ↦ Unique-mem zs u.1 m j e
  ]
