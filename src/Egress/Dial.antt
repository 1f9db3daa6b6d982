-- ===== src/Egress/Dial.antt =====
-- `PinnedDialContext` of internal/kernel/httpegress/egress.go. The connections that a call tries are
-- kept in their order, each with its address; whether one is made is up to the network.
use noctaxris_gcp.Base.{
  String, List, [], ◌∷◌, Option, none, some, Result, ok, err, wrapped, Error, if◌then◌else◌,
}
use noctaxris_gcp.Egress.Addresses.{Ip, err_not_allowed, reject_unsafe_ip}
use noctaxris_gcp.Egress.Validate.{Network, is_loopback_host}

-- The target of an attempt: a host by its name, or an address.
pub data Target : Type 0 where
  host : String → Target
  address : Ip → Target

-- `net.SplitHostPort`, and what `d.DialContext` answers for a target and a port.
pub record Dialer : Type 0 where
  pub split_host_port : String → Result (String × String)
  pub dial : Target → String → Result String

module _ (net : Network) (dialer : Dialer) where
  -- The loop over the addresses, over the last error: the attempts, and the connection.
  unfoldable pub dial_loop : String → Option Error → List Ip → List Target × Result String
  dial_loop port none [] = ([], err err_not_allowed)
  dial_loop port (some last) [] = ([], err last)
  dial_loop port last (ip ∷ ips) = elim (reject_unsafe_ip ip) [
    | err e ↦ dial_loop port (some e) ips
    | ok _ ↦ elim (dialer.dial (address ip) port) [
      | ok conn ↦ (address ip ∷ [], ok conn)
      | err e ↦ let (tried, conn) = dial_loop port (some e) ips in (address ip ∷ tried, conn)
    ]
  ]

  -- The answer of the resolver.
  unfoldable pub dial_resolved : String → Result (List Ip) → List Target × Result String
  unfolding dial_loop
  dial_resolved port (err e) =
      ([], err (wrapped "http egress: destination not allowed: resolve dial host" e))
  dial_resolved port (ok []) = ([], err err_not_allowed)
  dial_resolved port (ok (ip ∷ ips)) = dial_loop port none (ip ∷ ips)

  unfoldable pub pinned_dial_context : String → List Target × Result String
  unfolding dial_resolved is_loopback_host
  pinned_dial_context addr = elim (dialer.split_host_port addr) [
    | err e ↦ ([], err (wrapped "http egress: dial addr" e))
    | ok (name, port) ↦
        if is_loopback_host name
        then (host name ∷ [], dialer.dial (host name) port)
        else dial_resolved port (net.lookup_ip name)
  ]
