-- ===== src/Egress/Addresses.antt =====
-- Addresses: Go's `net.IP` with the tests that `rejectUnsafeIP` of
-- internal/kernel/httpegress/egress.go asks, and that function.
use noctaxris_gcp.Base.{
  ℕ, ◌/◌, ◌%◌, Bool, true, false, ◌&&◌, ◌||◌, List, [], ◌∷◌, Option, none, some, Result, ok, err,
  message, Error, eqb, ◌≡◌, refl, ◌++◌, if◌then◌else◌,
}

-- A `net.IP`: no bytes for nil, four or sixteen otherwise.
abbrev pub Ip : Type 0
Ip = List ℕ

unfoldable pub bytes_eqb : Ip → Ip → Bool
bytes_eqb [] [] = true
bytes_eqb [] (d ∷ b) = false
bytes_eqb (c ∷ a) [] = false
bytes_eqb (c ∷ a) (d ∷ b) = eqb c d && bytes_eqb a b

-- The bytes before a mapped address.
abbrev pub mapped_prefix : Ip
mapped_prefix = 0 ∷ 0 ∷ 0 ∷ 0 ∷ 0 ∷ 0 ∷ 0 ∷ 0 ∷ 0 ∷ 0 ∷ 255 ∷ 255 ∷ []

-- The four bytes that stand behind `prefix`.
unfoldable pub four_behind : Ip → Ip → Option (ℕ × ℕ × ℕ × ℕ)
four_behind [] (a ∷ b ∷ c ∷ d ∷ []) = some (a, b, c, d)
four_behind [] bytes = none
four_behind (p ∷ prefix) [] = none
four_behind (p ∷ prefix) (q ∷ bytes) =
    let rest = four_behind prefix bytes in if eqb p q then rest else none

-- `ip.To4()`
unfoldable pub to4 : Ip → Option (ℕ × ℕ × ℕ × ℕ)
unfolding four_behind
to4 ip = elim (four_behind [] ip) [ some bytes ↦ some bytes | none ↦ four_behind mapped_prefix ip ]

abbrev pub ip6_loopback : Ip
ip6_loopback = 0 ∷ 0 ∷ 0 ∷ 0 ∷ 0 ∷ 0 ∷ 0 ∷ 0 ∷ 0 ∷ 0 ∷ 0 ∷ 0 ∷ 0 ∷ 0 ∷ 0 ∷ 1 ∷ []

abbrev pub ip6_unspecified : Ip
ip6_unspecified = 0 ∷ 0 ∷ 0 ∷ 0 ∷ 0 ∷ 0 ∷ 0 ∷ 0 ∷ 0 ∷ 0 ∷ 0 ∷ 0 ∷ 0 ∷ 0 ∷ 0 ∷ 0 ∷ []

-- The first two bytes of an address of sixteen.
unfoldable pub head16 : Ip → Option (ℕ × ℕ)
head16 (a ∷ b ∷ _ ∷ _ ∷ _ ∷ _ ∷ _ ∷ _ ∷ _ ∷ _ ∷ _ ∷ _ ∷ _ ∷ _ ∷ _ ∷ _ ∷ []) = some (a, b)
head16 _ = none

-- A test of the four bytes of an IPv4 address, or else of the first two of an IPv6 address.
unfoldable pub by_version : Ip → (ℕ × ℕ × ℕ × ℕ → Bool) → (ℕ → ℕ → Bool) → Bool
by_version ip four six = elim (to4 ip) [
  | some bytes ↦ four bytes
  | none ↦ elim (head16 ip) [ some (a, b) ↦ six a b | none ↦ false ]
]

-- `ip.IsLoopback()`
unfoldable pub is_loopback : Ip → Bool
is_loopback ip = elim (to4 ip) [ some (a, b, c, d) ↦ eqb a 127 | none ↦ bytes_eqb ip ip6_loopback ]

-- `ip.IsPrivate()`: 10/8, 172.16/12, 192.168/16 and fc00::/7
unfoldable pub is_private : Ip → Bool
unfolding by_version
is_private ip =
    by_version ip
      (λ (a, b, c, d). eqb a 10 || eqb a 172 && eqb (b / 16) 1 || eqb a 192 && eqb b 168)
      (λ a b. eqb (a / 2) 126)

-- `ip.IsLinkLocalUnicast()`: 169.254/16 and fe80::/10
unfoldable pub is_link_local_unicast : Ip → Bool
unfolding by_version
is_link_local_unicast ip =
    by_version ip (λ (a, b, c, d). eqb a 169 && eqb b 254) (λ a b. eqb a 254 && eqb (b / 64) 2)

-- `ip.IsLinkLocalMulticast()`: 224.0.0/24 and ff02::/16, whatever the flags
unfoldable pub is_link_local_multicast : Ip → Bool
unfolding by_version
is_link_local_multicast ip =
    by_version ip (λ (a, b, c, d). eqb a 224 && eqb b 0 && eqb c 0)
      (λ a b. eqb a 255 && eqb (b % 16) 2)

-- `ip.IsMulticast()`: 224/4 and ff00::/8
unfoldable pub is_multicast : Ip → Bool
unfolding by_version
is_multicast ip = by_version ip (λ (a, b, c, d). eqb (a / 16) 14) (λ a b. eqb a 255)

-- `ip.IsUnspecified()`: 0.0.0.0 and ::
unfoldable pub is_unspecified : Ip → Bool
is_unspecified ip = elim (to4 ip) [
  | some (a, b, c, d) ↦ eqb a 0 && eqb b 0 && eqb c 0 && eqb d 0
  | none ↦ bytes_eqb ip ip6_unspecified
]

abbrev pub err_not_allowed : Error
err_not_allowed = message "http egress: destination not allowed"

-- The last test of `rejectUnsafeIP`.
unfoldable pub is_metadata_range : Ip → Bool
is_metadata_range ip = elim (to4 ip) [ some (a, b, c, d) ↦ eqb a 169 && eqb b 254 | none ↦ false ]

abbrev is_nil : Ip → Bool
is_nil [] = true
is_nil (b ∷ bytes) = false

unfoldable pub reject_unsafe_ip : Ip → Result (Unit {0})
unfolding is_loopback is_private is_link_local_unicast is_link_local_multicast is_multicast
    is_unspecified is_metadata_range
reject_unsafe_ip ip =
    if is_nil ip
    then err err_not_allowed
    else if is_loopback ip
        || is_private ip
        || is_link_local_unicast ip
        || is_link_local_multicast ip
        || is_multicast ip
        || is_unspecified ip
    then err err_not_allowed
    else if is_metadata_range ip
    then err err_not_allowed
    else ok tt

addresses :
    (reject_unsafe_ip (8 ∷ 8 ∷ 8 ∷ 8 ∷ []) ≡ ok tt)
    × (reject_unsafe_ip (172 ∷ 31 ∷ 0 ∷ 1 ∷ []) ≡ err err_not_allowed)
    × (reject_unsafe_ip (mapped_prefix ++ 169 ∷ 254 ∷ 169 ∷ 254 ∷ []) ≡ err err_not_allowed)
    × (reject_unsafe_ip ip6_loopback ≡ err err_not_allowed)
unfolding reject_unsafe_ip to4 head16 bytes_eqb
addresses = (refl, refl, refl, refl)
