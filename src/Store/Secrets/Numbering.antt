-- ===== src/Store/Secrets/Numbering.antt =====
-- The numbers of versions: a new one is above all that the secret has, so its name is free.
use mathlib.Core.List.Memᴰ
use noctaxris_gcp.Base.{
  ℕ, ◌+◌, ◌≤◌, ◌<◌, String, true, false, ◌≡◌, sym, ap, ◌∙◌, inl, inr, List, [], ◌∷◌, Memᴰ, Option,
  some, arith, eq_iff, exists_row, exists_row_mem, Bool-cases,
}
use noctaxris_gcp.Store.Numerals.{
  itoa, cast_integer, cast_integer-itoa, all_digits, all_digits-itoa,
}
use noctaxris_gcp.Store.Secrets.Types.{SecretVersion}
use noctaxris_gcp.Store.Secrets.Names.{
  versions_marker, split_last, split_last-version_name, version_name,
}
use noctaxris_gcp.Store.Secrets.Versions.{version_named, number, max_number}

-- A version's number is the text of a positive number, and its name is made of it.
pub record IsNumbered (v : SecretVersion) : Type 0 where
  pub value : ℕ
  pub text : v.version_id ≡ itoa value
  pub positive : 0 < value
  pub full_name : v.name ≡ version_name v.secret_name v.version_id

pub number-IsNumbered : {v : SecretVersion} (n : IsNumbered v) → number v ≡ n.value
number-IsNumbered n = ap cast_integer n.text ∙ cast_integer-itoa n.value

pub number_below :
    (secret_name : String) (rows : List SecretVersion) {v : SecretVersion}
    → Memᴰ v rows
    → v.secret_name ≡ secret_name
    → number v ≤ max_number secret_name rows
unfolding max_number
number_below secret_name [] m e = absurd (Memᴰ.not-nil m)
number_below secret_name (x ∷ rows) {v} (Memᴰ.head h) e =
    let at_head : number v ≡ number x = ap number h in
    let mine : x.secret_name ≡ secret_name =
      ap (λ (y : SecretVersion). y.secret_name) (sym h) ∙ e in
    ground (arith, eq_iff x.secret_name secret_name)
number_below secret_name (x ∷ rows) (Memᴰ.tail i) e =
    let below = number_below secret_name rows i e in ground arith

-- Names tell secrets and numbers apart.
pub version_name-injective :
    (s t a b : String)
    → all_digits a ≡ true
    → all_digits b ≡ true
    → version_name s a ≡ version_name t b
    → (s ≡ t) × (a ≡ b)
version_name-injective s t a b p q e =
    let left = split_last-version_name s a p in
    let right = split_last-version_name t b q in
    let both : ◌≡◌ {A = Option (String × String)} (some (s, a)) (some (t, b)) =
      sym left ∙ ap (split_last versions_marker) e ∙ right in
    (ground arith, ground arith)

pub itoa-injective : (m n : ℕ) → itoa m ≡ itoa n → m ≡ n
itoa-injective m n e = sym (cast_integer-itoa m) ∙ ap cast_integer e ∙ cast_integer-itoa n

-- The name of the next version is free.
pub next_name_free :
    (secret_name : String) (rows : List SecretVersion)
    → ((v : SecretVersion) → Memᴰ v rows → IsNumbered v)
    → exists_row
        (version_named (version_name secret_name (itoa (max_number secret_name rows + 1))))
        rows
      ≡ false
next_name_free secret_name rows ok_rows =
    let next = max_number secret_name rows + 1 in
    let name = version_name secret_name (itoa next) in
    elim (Bool-cases (exists_row (version_named name) rows)) [
      | inr f ↦ f
      | inl t ↦
          let (v, m, p) = exists_row_mem (version_named name) rows t in
          let n = ok_rows v m in
          let same : version_name v.secret_name v.version_id ≡ name =
            sym n.full_name ∙ (eq_iff v.name name).0 p in
          let digits : all_digits v.version_id ≡ true =
            ap all_digits n.text ∙ all_digits-itoa n.value in
          let (e, f) =
            version_name-injective v.secret_name secret_name v.version_id (itoa next) digits
              (all_digits-itoa next) same in
          let equal = itoa-injective n.value next (sym n.text ∙ f) in
          let below = number_below secret_name rows m e in
          let its = number-IsNumbered n in absurd (omega arith)
    ]
