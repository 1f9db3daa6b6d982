-- ===== src/Egress/Public.antt =====
-- The addresses that `rejectUnsafeIP` of internal/kernel/httpegress/egress.go lets through.
use noctaxris_gcp.Base.{
  ℕ, ◌≤◌, ◌<◌, ◌/◌, ◌%◌, Bool, true, false, ◌&&◌, ◌||◌, ◌≡◌, refl, sym, subst, ◌∙◌, ◌≢◌, ◌↔◌, inl,
  inr, [], ◌∷◌, none, some, ok, err, arith, eqb, Option-cases, if◌then◌else◌,
}
use noctaxris_gcp.Egress.Addresses.{
  Ip, to4, head16, bytes_eqb, by_version, ip6_loopback, ip6_unspecified, is_loopback, is_private,
  is_link_local_unicast, is_link_local_multicast, is_multicast, is_unspecified, is_metadata_range,
  reject_unsafe_ip, err_not_allowed,
}

-- The IPv4 addresses outside the loopback, private, link-local, multicast and null ranges.
pub record IsPublic4 (a b c d : ℕ) : Type 0 where
  pub no_loopback : a ≢ 127
  pub no_class_a : a ≢ 10
  pub no_class_b : ¬ ((a ≡ 172) × (16 ≤ b) × (b < 32))
  pub no_class_c : ¬ ((a ≡ 192) × (b ≡ 168))
  pub no_link_local : ¬ ((a ≡ 169) × (b ≡ 254))
  pub no_multicast : ¬ ((224 ≤ a) × (a < 240))
  pub no_null : ¬ ((a ≡ 0) × (b ≡ 0) × (c ≡ 0) × (d ≡ 0))

-- The same for IPv6, by the first two bytes.
pub record IsPublic6 (a b : ℕ) : Type 0 where
  pub no_private : ¬ ((252 ≤ a) × (a < 254))
  pub no_link_local : ¬ ((a ≡ 254) × (128 ≤ b) × (b < 192))
  pub no_multicast : a ≢ 255

pub record IsPublic (ip : Ip) : Type 0 where
  pub some_bytes : ip ≢ []
  pub four : (a b c d : ℕ) → to4 ip ≡ some (a, b, c, d) → IsPublic4 a b c d
  pub six :
      to4 ip ≡ none
      → (ip ≢ ip6_loopback)
        × (ip ≢ ip6_unspecified)
        × ((a b : ℕ) → head16 ip ≡ some (a, b) → IsPublic6 a b)

bytes_eqb_iff : (a b : Ip) → (bytes_eqb a b ≡ true) ↔ (a ≡ b)
unfolding bytes_eqb
bytes_eqb_iff [] [] = (λ h. refl, λ h. refl)
bytes_eqb_iff [] (d ∷ b) = (λ h. cc, λ h. cc)
bytes_eqb_iff (c ∷ a) [] = (λ h. cc, λ h. cc)
bytes_eqb_iff (c ∷ a) (d ∷ b) =
    let ih = bytes_eqb_iff a b in (λ h. ground (arith, ih.0), λ h. ground (arith, ih.1))

-- The tests of an IPv4 address, in the order of the code.
abbrev unsafe4 : ℕ → ℕ → ℕ → ℕ → Bool
unsafe4 a b c d =
    eqb a 127
    || (eqb a 10 || eqb a 172 && eqb (b / 16) 1 || eqb a 192 && eqb b 168)
    || eqb a 169 && eqb b 254
    || eqb a 224 && eqb b 0 && eqb c 0
    || eqb (a / 16) 14
    || eqb a 0 && eqb b 0 && eqb c 0 && eqb d 0

rejected4 :
    (x : ℕ) (bytes : Ip) (a b c d : ℕ)
    → to4 (x ∷ bytes) ≡ some (a, b, c, d)
    → reject_unsafe_ip (x ∷ bytes) ≡ (
        if unsafe4 a b c d
        then err err_not_allowed
        else if eqb a 169 && eqb b 254
        then err err_not_allowed
        else ok tt)
unfolding reject_unsafe_ip is_loopback is_private is_link_local_unicast is_link_local_multicast
    is_multicast is_unspecified is_metadata_range by_version
rejected4 x bytes a b c d p =
    rw
      (
        p, is_loopback, is_private, is_link_local_unicast, is_link_local_multicast, is_multicast,
        is_unspecified, is_metadata_range, by_version,
      )
      refl

IsPublic4-iff :
    (a b c d : ℕ)
    → ((if unsafe4 a b c d
          then err err_not_allowed
          else if eqb a 169 && eqb b 254
          then err err_not_allowed
          else ok (tt {0}))
        ≡ ok tt)
      ↔ IsPublic4 a b c d
IsPublic4-iff a b c d = (
  λ h. record {
    no_loopback = ground arith;
    no_class_a = ground arith;
    no_class_b = ground arith;
    no_class_c = ground arith;
    no_link_local = ground arith;
    no_multicast = ground arith;
    no_null = ground arith;
  },
  λ h. ground arith,
)

-- The same for an address of sixteen bytes that is no IPv4 address.
rejected6 :
    (x : ℕ) (bytes : Ip) (a b : ℕ)
    → to4 (x ∷ bytes) ≡ none
    → head16 (x ∷ bytes) ≡ some (a, b)
    → reject_unsafe_ip (x ∷ bytes) ≡ (
        if bytes_eqb (x ∷ bytes) ip6_loopback
          || eqb (a / 2) 126
          || eqb a 254 && eqb (b / 64) 2
          || eqb a 255 && eqb (b % 16) 2
          || eqb a 255
          || bytes_eqb (x ∷ bytes) ip6_unspecified
        then err err_not_allowed
        else ok tt)
unfolding reject_unsafe_ip is_loopback is_private is_link_local_unicast is_link_local_multicast
    is_multicast is_unspecified is_metadata_range by_version
rejected6 x bytes a b p q =
    rw
      (
        p, q, is_loopback, is_private, is_link_local_unicast, is_link_local_multicast, is_multicast,
        is_unspecified, is_metadata_range, by_version,
      )
      refl

-- The same for bytes of any other number.
rejected_odd :
    (x : ℕ) (bytes : Ip)
    → to4 (x ∷ bytes) ≡ none
    → head16 (x ∷ bytes) ≡ none
    → reject_unsafe_ip (x ∷ bytes) ≡ (
        if bytes_eqb (x ∷ bytes) ip6_loopback || bytes_eqb (x ∷ bytes) ip6_unspecified
        then err err_not_allowed
        else ok tt)
unfolding reject_unsafe_ip is_loopback is_private is_link_local_unicast is_link_local_multicast
    is_multicast is_unspecified is_metadata_range by_version
rejected_odd x bytes p q =
    rw
      (
        p, q, is_loopback, is_private, is_link_local_unicast, is_link_local_multicast, is_multicast,
        is_unspecified, is_metadata_range, by_version,
      )
      (ground arith)

public4 :
    (x : ℕ) (bytes : Ip) (quad : ℕ × ℕ × ℕ × ℕ)
    → to4 (x ∷ bytes) ≡ some quad
    → (reject_unsafe_ip (x ∷ bytes) ≡ ok tt) ↔ IsPublic (x ∷ bytes)
public4 x bytes (a, b, c, d) p = (
  λ h. record {
    some_bytes = λ e. cc;
    four = λ a' b' c' d' q.
        let same : (a, b, c, d) ≡ (a', b', c', d') = cc in
        subst (λ (t : ℕ × ℕ × ℕ × ℕ). IsPublic4 t.0 t.1 t.2 t.3) same
          ((IsPublic4-iff a b c d).0 (sym (rejected4 x bytes a b c d p) ∙ h));
    six = λ n. cc;
  },
  λ h. rejected4 x bytes a b c d p ∙ (IsPublic4-iff a b c d).1 (h.four a b c d p),
)

-- What neither range of the ends refuses, in the terms of the statement.
ends_apart :
    (ip : Ip)
    → ip ≢ ip6_loopback
    → ip ≢ ip6_unspecified
    → (bytes_eqb ip ip6_loopback ≡ false) × (bytes_eqb ip ip6_unspecified ≡ false)
ends_apart ip l u = (
  ground (arith, bytes_eqb_iff ip ip6_loopback, l),
  ground (arith, bytes_eqb_iff ip ip6_unspecified, u),
)

public6 :
    (x : ℕ) (bytes : Ip) (a b : ℕ)
    → to4 (x ∷ bytes) ≡ none
    → head16 (x ∷ bytes) ≡ some (a, b)
    → (reject_unsafe_ip (x ∷ bytes) ≡ ok tt) ↔ IsPublic (x ∷ bytes)
public6 x bytes a b p q =
    let ip : Ip = x ∷ bytes in
    (
      λ h.
          let passed = sym (rejected6 x bytes a b p q) ∙ h in
          record {
            some_bytes = λ e. cc;
            four = λ a' b' c' d' r. cc;
            six = λ n. (
              λ e. ground (arith, bytes_eqb_iff ip ip6_loopback),
              λ e. ground (arith, bytes_eqb_iff ip ip6_unspecified),
              λ a' b' r.
                  let same : (a, b) ≡ (a', b') = cc in
                  subst (λ (t : ℕ × ℕ). IsPublic6 t.0 t.1) same
                    (record {
                      no_private = ground arith;
                      no_link_local = ground arith;
                      no_multicast = ground arith;
                    }),
            );
          },
      λ h.
          let (l, u, r) = h.six p in
          let e = ends_apart ip l u in
          let six = r a b q in rejected6 x bytes a b p q ∙ ground (arith, e.0, e.1),
    )

IsPublic-odd :
    (x : ℕ) (bytes : Ip)
    → to4 (x ∷ bytes) ≡ none
    → head16 (x ∷ bytes) ≡ none
    → (reject_unsafe_ip (x ∷ bytes) ≡ ok tt) ↔ IsPublic (x ∷ bytes)
IsPublic-odd x bytes p q =
    let ip : Ip = x ∷ bytes in
    (
      λ h.
          let passed = sym (rejected_odd x bytes p q) ∙ h in
          record {
            some_bytes = λ e. cc;
            four = λ a' b' c' d' r. cc;
            six = λ n. (
              λ e. ground (arith, bytes_eqb_iff ip ip6_loopback),
              λ e. ground (arith, bytes_eqb_iff ip ip6_unspecified),
              λ a' b' r. cc,
            );
          },
      λ h.
          let (l, u, r) = h.six p in
          let e = ends_apart ip l u in rejected_odd x bytes p q ∙ ground (arith, e.0, e.1),
    )

-- The addresses that are let through are the public ones.
pub reject_unsafe_ip_iff : (ip : Ip) → (reject_unsafe_ip ip ≡ ok tt) ↔ IsPublic ip
unfolding reject_unsafe_ip
reject_unsafe_ip_iff [] = (λ h. cc, λ h. absurd (h.some_bytes refl))
reject_unsafe_ip_iff (x ∷ bytes) = elim (Option-cases (to4 (x ∷ bytes))) [
  | inr (quad, p) ↦ public4 x bytes quad p
  | inl p ↦ elim (Option-cases (head16 (x ∷ bytes))) [
    | inl q ↦ IsPublic-odd x bytes p q
    | inr ((a, b), q) ↦ public6 x bytes a b p q
  ]
]
