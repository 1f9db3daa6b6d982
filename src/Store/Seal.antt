-- ===== src/Store/Seal.antt =====
-- Sealing (`Seal`, `Unseal` of internal/store/seal.go). The cipher is ChaCha20-Poly1305 at the master
-- key; the nonce that a call draws is an argument.
use noctaxris_gcp.Base.{
  ℕ, zero, suc, false, ◌≡◌, refl, ap, List, [], ◌∷◌, ◌++◌, Option, none, some, Result, ok, err,
  message, length, take, arith, ltb, if◌then◌else◌, length-append,
}

-- `cipher.AEAD` at a key: `Seal(nil, nonce, plaintext, nil)` and `Open(nil, nonce, sealed, nil)`, with
-- `none` for the error.
pub record Aead : Type 0 where
  pub nonce_size : ℕ
  pub seal : List ℕ → List ℕ → List ℕ
  pub open_sealed : List ℕ → List ℕ → Option (List ℕ)

-- What the cipher promises: it opens what it sealed under the same nonce.
abbrev pub Opens : Aead → Type 0
Opens aead =
    (nonce plaintext : List ℕ) → aead.open_sealed nonce (aead.seal nonce plaintext) ≡ some plaintext

-- `xs[n:]`
unfoldable pub drop {ℓ} : {A : Type ℓ} → ℕ → List A → List A
drop zero xs = xs
drop (suc n) [] = []
drop (suc n) (x ∷ xs) = drop n xs

unfoldable pub seal : Aead → List ℕ → List ℕ → List ℕ
seal aead nonce plaintext = nonce ++ aead.seal nonce plaintext

unfoldable pub unseal : Aead → List ℕ → Result (List ℕ)
unseal aead ciphertext =
    if ltb (length ciphertext) aead.nonce_size
    then err (message "ciphertext too short")
    else elim (aead.open_sealed (take aead.nonce_size ciphertext)
        (drop aead.nonce_size ciphertext)) [
          | none ↦ err (message "chacha20poly1305: message authentication failed")
          | some plaintext ↦ ok plaintext
        ]

take-append {ℓ} : {A : Type ℓ} (xs ys : List A) → take (length xs) (xs ++ ys) ≡ xs
take-append [] ys = refl
take-append (x ∷ xs) ys = ap (◌∷◌ x) (take-append xs ys)

drop-append {ℓ} : {A : Type ℓ} (xs ys : List A) → drop (length xs) (xs ++ ys) ≡ ys
unfolding drop
drop-append [] ys = refl
drop-append (x ∷ xs) ys = drop-append xs ys

-- With a nonce of the cipher's size, what is sealed is unsealed as it was.
pub unseal-seal :
    (aead : Aead) (nonce plaintext : List ℕ)
    → Opens aead
    → length nonce ≡ aead.nonce_size
    → unseal aead (seal aead nonce plaintext) ≡ ok plaintext
unfolding unseal seal
unseal-seal aead nonce plaintext opens size =
    let sealed = aead.seal nonce plaintext in
    let front = take-append nonce sealed in
    let back = drop-append nonce sealed in
    let opened = opens nonce plaintext in
    let long : ltb (length (nonce ++ sealed)) (length nonce) ≡ false =
      ground (arith, length-append nonce sealed) in
    rw (← size, long, front, back, opened) refl
