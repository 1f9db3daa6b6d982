-- ===== src/Egress/Validate.antt =====
-- `Validate` of internal/kernel/httpegress/egress.go and the tests it asks. The parser of URLs, the
-- resolver and the parser of addresses are Go's `net/url` and `net`; letters have their ASCII case.
use noctaxris_gcp.Base.{
  String, Bool, true, false, not, ◌&&◌, ◌||◌, ◌==◌, List, [], ◌∷◌, Option, none, some, Result, ok,
  err, wrapped, concat, has_prefix, has_suffix, contains, trim_space, to_lower, equal_fold,
  split_on, if◌then◌else◌,
}
use noctaxris_gcp.Egress.Addresses.{Ip, err_not_allowed, reject_unsafe_ip}

-- What is read of a `url.URL`: `u.Hostname()` and `u.Port()` are parts of `u.Host`.
pub record Url : Type 0 where
  pub scheme : String
  pub host : String
  pub hostname : String
  pub port : String
  pub path : String

-- `url.Parse`, `net.LookupIP` and `net.ParseIP`, with `none` for nil.
pub record Network : Type 0 where
  pub parse_url : String → Option Url
  pub lookup_ip : String → Result (List Ip)
  pub parse_ip : String → Option Ip

-- The environment variables NOCTAXRIS_GCP_HTTP_EGRESS and NOCTAXRIS_GCP_HTTP_ALLOWLIST.
pub record Settings : Type 0 where
  pub http_egress : String
  pub http_allowlist : String

abbrev pub lab_http_catcher_path : String
lab_http_catcher_path = "/_noctaxris-gcp/http-catcher"

abbrev pub lab_oidc_lab_well_known_prefix : String
lab_oidc_lab_well_known_prefix = "/_noctaxris-gcp/oidc-lab/.well-known/"

abbrev pub lab_listen_port : String
lab_listen_port = "4588"

unfoldable pub is_loopback_host : String → Bool
unfolding trim_space to_lower
is_loopback_host host =
    let lower = to_lower (trim_space host) in
    lower == "127.0.0.1" || lower == "localhost" || lower == "::1"

unfoldable pub is_host_docker_internal : String → Bool
unfolding equal_fold trim_space
is_host_docker_internal host = equal_fold (trim_space host) "host.docker.internal"

unfoldable pub port_or_default : Url → String → String
port_or_default u scheme =
    if not (u.port == "") then u.port else if scheme == "https" then "443" else "80"

unfoldable pub is_lab_catcher : Url → String → Bool
unfolding is_loopback_host port_or_default
is_lab_catcher u scheme =
    if not (is_loopback_host u.hostname)
    then false
    else if not (port_or_default u scheme == lab_listen_port)
    then false
    else u.path == lab_http_catcher_path || has_prefix u.path (concat lab_http_catcher_path "/")

unfoldable pub is_lab_oidc : Url → Bool
unfolding is_loopback_host
is_lab_oidc u =
    if not (is_loopback_host u.hostname)
    then false
    else has_prefix u.path lab_oidc_lab_well_known_prefix

unfoldable pub is_lab_local : Url → String → Bool
unfolding is_loopback_host is_host_docker_internal port_or_default
is_lab_local u scheme =
    if not (port_or_default u scheme == lab_listen_port)
    then false
    else if is_loopback_host u.hostname
    then true
    else is_host_docker_internal u.hostname

unfoldable pub egress_enabled : Settings → Bool
unfolding trim_space equal_fold
egress_enabled s = let v = trim_space s.http_egress in v == "1" || equal_fold v "true"

-- The loop over the entries.
unfoldable pub entry_among : String → List String → Bool
entry_among want [] = false
entry_among want (entry ∷ entries) = trim_space entry == want || entry_among want entries

unfoldable pub allowlisted : Settings → String → Bool
unfolding entry_among split_on trim_space
allowlisted s endpoint =
    let raw = trim_space s.http_allowlist in
    if raw == "" then false else entry_among (trim_space endpoint) (split_on b',' raw)

module _ (net : Network) where
  -- The loop over the addresses of a host.
  unfoldable pub all_safe : List Ip → Result (Unit {0})
  all_safe [] = ok tt
  all_safe (ip ∷ ips) = elim (reject_unsafe_ip ip) [ err e ↦ err e | ok _ ↦ all_safe ips ]

  -- The answer of the resolver.
  unfoldable pub resolved_safe : String → Result (List Ip) → Result (Unit {0})
  resolved_safe host (err e) = elim (net.parse_ip host) [
    | some ip ↦ reject_unsafe_ip ip
    | none ↦ err (wrapped "http egress: destination not allowed: resolve HTTP endpoint host" e)
  ]
  resolved_safe host (ok []) = err err_not_allowed
  resolved_safe host (ok (ip ∷ ips)) = all_safe (ip ∷ ips)

  unfoldable pub reject_unsafe_host : String → Result (Unit {0})
  reject_unsafe_host raw =
      let host = trim_space raw in
      let lower = to_lower host in
      if lower == "localhost" || has_suffix lower ".localhost"
      then err err_not_allowed
      else if lower == "metadata.google.internal" || contains lower "metadata"
      then err err_not_allowed
      else resolved_safe host (net.lookup_ip host)

  -- The tests of a parsed endpoint.
  unfoldable pub validate_url : Settings → String → Url → Result (Unit {0})
  validate_url s endpoint u =
      let scheme = to_lower u.scheme in
      if u.scheme == "" || u.host == ""
      then err (wrapped "invalid HTTP endpoint" err_not_allowed)
      else if not (scheme == "http") && not (scheme == "https")
      then err (wrapped "protocol must be http or https" err_not_allowed)
      else if is_lab_catcher u scheme || is_lab_local u scheme || is_lab_oidc u
      then ok tt
      else if not (egress_enabled s) || not (allowlisted s endpoint)
      then err err_not_allowed
      else reject_unsafe_host u.hostname

  unfoldable pub validate : Settings → String → Result (Unit {0})
  validate s endpoint = elim (net.parse_url endpoint) [
    | none ↦ err (wrapped "invalid HTTP endpoint" err_not_allowed)
    | some u ↦ validate_url s endpoint u
  ]
