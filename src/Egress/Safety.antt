-- ===== src/Egress/Safety.antt =====
-- What the gate of internal/kernel/httpegress/egress.go lets through, and what it dials.
use mathlib.Core.List.Memᴰ
use noctaxris_gcp.Base.{
  String, true, false, ◌||◌, ◌==◌, ◌≡◌, refl, ◌≢◌, ◌⊎◌, inl, inr, List, [], ◌∷◌, Memᴰ, Option, none,
  some, Result, ok, err, Error, arith, eq_iff, trim_space, to_lower, split_on, has_prefix,
  Bool-cases, Option-cases, Result-cases,
}
use noctaxris_gcp.Egress.Addresses.{Ip, reject_unsafe_ip}
use noctaxris_gcp.Egress.Validate.{
  Url, Network, Settings, lab_listen_port, lab_oidc_lab_well_known_prefix, is_loopback_host,
  is_host_docker_internal, port_or_default, is_lab_catcher, is_lab_local, is_lab_oidc,
  egress_enabled, allowlisted, entry_among, all_safe, resolved_safe, reject_unsafe_host,
  validate_url, validate,
}
use noctaxris_gcp.Egress.Dial.{
  Target, host, address, Dialer, dial_loop, dial_resolved, pinned_dial_context,
}
use noctaxris_gcp.Egress.Public.{IsPublic, reject_unsafe_ip_iff}

-- All that a host resolves to is public, or else its text is a public address.
abbrev pub ResolvesPublic : Network → String → Type 0
ResolvesPublic net name =
    ((ips : List Ip) × (net.lookup_ip name ≡ ok ips)
      × (ips ≢ [])
      × ((ip : Ip) → Memᴰ ip ips → IsPublic ip))
    ⊎ ((ip : Ip) × (net.parse_ip name ≡ some ip) × IsPublic ip)

-- Where a request may go: on this machine to the lab port, or on any port to the lab's OIDC paths; to
-- the lab port of the container host; or, with egress switched on, to an endpoint of the allowlist
-- whose host resolves to public addresses.
pub data MayGo (net : Network) (s : Settings) (endpoint : String) (u : Url) : Type 0 where
  lab_port :
      is_loopback_host u.hostname ≡ true
      → port_or_default u (to_lower u.scheme) ≡ lab_listen_port
      → MayGo net s endpoint u
  lab_oidc :
      is_loopback_host u.hostname ≡ true
      → has_prefix u.path lab_oidc_lab_well_known_prefix ≡ true
      → MayGo net s endpoint u
  container_host :
      is_host_docker_internal u.hostname ≡ true
      → port_or_default u (to_lower u.scheme) ≡ lab_listen_port
      → MayGo net s endpoint u
  outside :
      (entry : String)
      → egress_enabled s ≡ true
      → Memᴰ entry (split_on b',' (trim_space s.http_allowlist))
      → trim_space entry ≡ trim_space endpoint
      → ResolvesPublic net (trim_space u.hostname)
      → MayGo net s endpoint u

all_safe_mem :
    (net : Network) (ips : List Ip) (ip : Ip) → all_safe net ips ≡ ok tt → Memᴰ ip ips → IsPublic ip
unfolding all_safe
all_safe_mem net [] ip h m = absurd (Memᴰ.not-nil m)
all_safe_mem net (x ∷ xs) ip h m = elim (Result-cases (reject_unsafe_ip x)) [
  | inr (e, p) ↦ cc (rw (p, all_safe) at h)
  | inl (tt, p) ↦ elim (Memᴰ.cases_cons m) [
    | inl e ↦ rw e ((reject_unsafe_ip_iff x).0 p)
    | inr i ↦ all_safe_mem net xs ip (rw (p, all_safe) at h) i
  ]
]

resolved_public :
    (net : Network) (name : String) (answer : Result (List Ip))
    → net.lookup_ip name ≡ answer
    → resolved_safe net name answer ≡ ok tt
    → ResolvesPublic net name
unfolding resolved_safe
resolved_public net name (err e) q h = elim (Option-cases (net.parse_ip name)) [
  | inl p ↦ cc (rw (p, resolved_safe) at h)
  | inr (ip, p) ↦ inr (ip, p, (reject_unsafe_ip_iff ip).0 (rw (p, resolved_safe) at h))
]
resolved_public net name (ok []) q h = cc
resolved_public net name (ok (ip ∷ ips)) q h =
    inl (ip ∷ ips, q, λ e. cc, λ x m. all_safe_mem net (ip ∷ ips) x h m)

host_public :
    (net : Network) (name : String)
    → reject_unsafe_host net name ≡ ok tt
    → ResolvesPublic net (trim_space name)
unfolding reject_unsafe_host
host_public net name h =
    resolved_public net (trim_space name) (net.lookup_ip (trim_space name)) refl (ground arith)

entry_listed :
    (want : String) (entries : List String)
    → entry_among want entries ≡ true
    → (entry : String) × Memᴰ entry entries × (trim_space entry ≡ want)
unfolding entry_among
entry_listed want [] h = cc
entry_listed want (x ∷ xs) h = elim (Bool-cases (trim_space x == want)) [
  | inl t ↦ (x, Memᴰ.head refl, (eq_iff _ _).0 t)
  | inr f ↦
      let (entry, m, e) = entry_listed want xs (rw (f, entry_among) at h) in (entry, Memᴰ.tail m, e)
]

lab-MayGo :
    (net : Network) (s : Settings) (endpoint : String) (u : Url)
    → is_lab_catcher u (to_lower u.scheme) || is_lab_local u (to_lower u.scheme) || is_lab_oidc u
      ≡ true
    → MayGo net s endpoint u
unfolding is_lab_catcher is_lab_local is_lab_oidc
lab-MayGo net s endpoint u h =
    elim (Bool-cases (port_or_default u (to_lower u.scheme) == lab_listen_port)) [
      | inl port ↦
          let at_port : port_or_default u (to_lower u.scheme) ≡ lab_listen_port =
            (eq_iff _ _).0 port in
          elim (Bool-cases (is_loopback_host u.hostname)) [
            | inl t ↦ lab_port t at_port
            | inr f ↦ container_host (ground arith) at_port
          ]
      | inr other ↦ lab_oidc (ground arith) (ground arith)
    ]

outside-MayGo :
    (net : Network) (s : Settings) (endpoint : String) (u : Url)
    → egress_enabled s ≡ true
    → allowlisted s endpoint ≡ true
    → reject_unsafe_host net u.hostname ≡ ok tt
    → MayGo net s endpoint u
unfolding allowlisted
outside-MayGo net s endpoint u enabled listed h =
    let (entry, m, e) =
      entry_listed (trim_space endpoint) (split_on b',' (trim_space s.http_allowlist))
        (ground arith) in
    outside entry enabled m e (host_public net u.hostname h)

-- The tests that an endpoint passes which is not of the lab.
outside_parts :
    (net : Network) (s : Settings) (endpoint : String) (u : Url)
    → is_lab_catcher u (to_lower u.scheme) || is_lab_local u (to_lower u.scheme) || is_lab_oidc u
      ≡ false
    → validate_url net s endpoint u ≡ ok tt
    → (egress_enabled s ≡ true)
      × (allowlisted s endpoint ≡ true)
      × (reject_unsafe_host net u.hostname ≡ ok tt)
unfolding validate_url
outside_parts net s endpoint u f h = (ground arith, ground arith, ground arith)

scheme_accepted :
    (net : Network) (s : Settings) (endpoint : String) (u : Url)
    → validate_url net s endpoint u ≡ ok tt
    → (to_lower u.scheme ≡ "http") ⊎ (to_lower u.scheme ≡ "https")
unfolding validate_url
scheme_accepted net s endpoint u g = elim (Bool-cases (to_lower u.scheme == "http")) [
  | inl t ↦ inl ((eq_iff _ _).0 t)
  | inr f ↦ inr (ground (arith, eq_iff (to_lower u.scheme) "https"))
]

-- An endpoint that is accepted parses, with the scheme http or https. It is on the lab port of this
-- machine or of the container host, or under the lab's OIDC path on any port of this machine, or else
-- egress is switched on, it is on the allowlist, and its host resolves to public addresses only (or,
-- where the resolver fails, is a public address).
pub validate_sound :
    (net : Network) (s : Settings) (endpoint : String)
    → validate net s endpoint ≡ ok tt
    → (u : Url) × (net.parse_url endpoint ≡ some u)
      × ((to_lower u.scheme ≡ "http") ⊎ (to_lower u.scheme ≡ "https"))
      × MayGo net s endpoint u
unfolding validate
validate_sound net s endpoint h = elim (Option-cases (net.parse_url endpoint)) [
  | inl n ↦ cc (rw (n, validate) at h)
  | inr (u, p) ↦
      let g : validate_url net s endpoint u ≡ ok tt = rw (p, validate) at h in
      (u, p, scheme_accepted net s endpoint u g, accepted u g)
]
  where
    accepted : (u : Url) → validate_url net s endpoint u ≡ ok tt → MayGo net s endpoint u
    accepted u g =
        let scheme = to_lower u.scheme in
        elim (Bool-cases (is_lab_catcher u scheme || is_lab_local u scheme || is_lab_oidc u)) [
          | inl t ↦ lab-MayGo net s endpoint u t
          | inr f ↦
              let (a, b, c) = outside_parts net s endpoint u f g in
              outside-MayGo net s endpoint u a b c
        ]

-- Where a connection is tried: a loopback name as it was given, or a public address among those that
-- the name resolves to.
abbrev pub MayDial : Network → Dialer → String → Target → Type 0
MayDial net dialer addr (host name) =
    (port : String) × (dialer.split_host_port addr ≡ ok (name, port))
    × (is_loopback_host name ≡ true)
MayDial net dialer addr (address ip) =
    (name : String) × (port : String) × (ips : List Ip) × (dialer.split_host_port addr
      ≡ ok (name, port))
    × (net.lookup_ip name ≡ ok ips)
    × Memᴰ ip ips
    × IsPublic ip

-- A target that is one of the public addresses of a list.
abbrev PublicAmong : List Ip → Target → Type 0
PublicAmong ips (host name) = ⊥
PublicAmong ips (address ip) = Memᴰ ip ips × IsPublic ip

later : (ip : Ip) (ips : List Ip) (t : Target) → PublicAmong ips t → PublicAmong (ip ∷ ips) t
later ip ips (host name) p = p
later ip ips (address x) (m, p) = (Memᴰ.tail m, p)

this_one :
    (ip : Ip) (ips : List Ip) (t : Target) → IsPublic ip → t ≡ address ip → PublicAmong (ip ∷ ips) t
this_one ip ips t p e = rw e (Memᴰ.head refl, p)

module _ (net : Network) (dialer : Dialer) (port : String) where
  loop_targets :
      (last : Option Error) (ips : List Ip) (t : Target)
      → Memᴰ t (dial_loop net dialer port last ips).0
      → PublicAmong ips t
  unfolding dial_loop
  loop_targets none [] t m = absurd (Memᴰ.not-nil m)
  loop_targets (some e) [] t m = absurd (Memᴰ.not-nil m)
  loop_targets last (ip ∷ ips) t m = elim (Result-cases (reject_unsafe_ip ip)) [
    | inr (e, p) ↦ later ip ips t (loop_targets (some e) ips t (rw (p, dial_loop) at m))
    | inl (_, p) ↦ elim (Result-cases (dialer.dial (address ip) port)) [
      | inl (conn, q) ↦
          this_one ip ips t ((reject_unsafe_ip_iff ip).0 p)
            (Memᴰ.eq_of_singleton (rw (p, q, dial_loop) at m))
      | inr (e, q) ↦ elim (Memᴰ.cases_cons (rw (p, q, dial_loop) at m)) [
        | inl d ↦ this_one ip ips t ((reject_unsafe_ip_iff ip).0 p) d
        | inr i ↦ later ip ips t (loop_targets (some e) ips t i)
      ]
    ]
  ]

  resolved_targets :
      (answer : Result (List Ip)) (t : Target)
      → Memᴰ t (dial_resolved net dialer port answer).0
      → (ips : List Ip) × (answer ≡ ok ips) × PublicAmong ips t
  unfolding dial_resolved
  resolved_targets (err e) t m = absurd (Memᴰ.not-nil m)
  resolved_targets (ok []) t m = absurd (Memᴰ.not-nil m)
  resolved_targets (ok (ip ∷ ips)) t m = (ip ∷ ips, refl, loop_targets none (ip ∷ ips) t m)

-- A call of the dialler tries only what it may: the host itself where it is a loopback name, and
-- otherwise public addresses among those that the host resolves to.
pub dials_public :
    (net : Network) (dialer : Dialer) (addr : String) (t : Target)
    → Memᴰ t (pinned_dial_context net dialer addr).0
    → MayDial net dialer addr t
unfolding pinned_dial_context
dials_public net dialer addr t m = elim (Result-cases (dialer.split_host_port addr)) [
  | inr (e, p) ↦ absurd (Memᴰ.not-nil (rw (p, pinned_dial_context) at m))
  | inl ((name, port), p) ↦ elim (Bool-cases (is_loopback_host name)) [
    | inl b ↦ named t name port p b (Memᴰ.eq_of_singleton (rw (p, b, pinned_dial_context) at m))
    | inr b ↦
        let (ips, q, a) =
          resolved_targets net dialer port (net.lookup_ip name) t
            (rw (p, b, pinned_dial_context) at m) in
        resolved t name port ips p q a
  ]
]
  where
    named :
        (t : Target) (name port : String)
        → dialer.split_host_port addr ≡ ok (name, port)
        → is_loopback_host name ≡ true
        → t ≡ host name
        → MayDial net dialer addr t
    named t name port p b e = rw e (port, p, b)

    resolved :
        (t : Target) (name port : String) (ips : List Ip)
        → dialer.split_host_port addr ≡ ok (name, port)
        → net.lookup_ip name ≡ ok ips
        → PublicAmong ips t
        → MayDial net dialer addr t
    resolved (host x) name port ips p q a = absurd a
    resolved (address ip) name port ips p q (m, a) = (name, port, ips, p, q, m, a)
