-- ===== src/Egress/Tests.antt =====
-- A network with one public and one private name.
use noctaxris_gcp.Base.{
  ◌==◌, ◌≡◌, refl, ◌⊎◌, [], ◌∷◌, Memᴰ, none, some, ok, err, message, trim_space, to_lower,
  has_prefix, has_suffix, contains, split_on, equal_fold, if◌then◌else◌,
}
use noctaxris_gcp.Egress.Addresses.{reject_unsafe_ip, err_not_allowed, to4, head16, bytes_eqb}
use noctaxris_gcp.Egress.Validate.{
  Url, Network, Settings, is_lab_catcher, is_lab_local, is_lab_oidc, egress_enabled, allowlisted,
  all_safe, resolved_safe, reject_unsafe_host, validate_url, validate,
}
use noctaxris_gcp.Egress.Dial.{address, Dialer, pinned_dial_context}
use noctaxris_gcp.Egress.Safety.{MayGo, MayDial, validate_sound, dials_public}

abbrev hook : Url
hook = record {
  scheme = "HTTPS";
  host = "hooks.test";
  hostname = "hooks.test";
  port = "";
  path = "/in";
}

abbrev inner : Url
inner = record {
  scheme = "http";
  host = "inner.test";
  hostname = "inner.test";
  port = "";
  path = "/";
}

abbrev api : Url
api = record {
  scheme = "http";
  host = "host.docker.internal:4588";
  hostname = "host.docker.internal";
  port = "4588";
  path = "/";
}

abbrev network : Network
network = record {
  parse_url = λ s.
      if s == "https://hooks.test/in"
      then some hook
      else if s == "http://inner.test/"
      then some inner
      else if s == "http://host.docker.internal:4588/"
      then some api
      else none;
  lookup_ip = λ name.
      if name == "hooks.test"
      then ok ((169 ∷ 254 ∷ 169 ∷ 254 ∷ []) ∷ (93 ∷ 184 ∷ 216 ∷ 34 ∷ []) ∷ [])
      else if name == "public.test"
      then ok ((93 ∷ 184 ∷ 216 ∷ 34 ∷ []) ∷ [])
      else ok ((10 ∷ 0 ∷ 0 ∷ 7 ∷ []) ∷ []);
  parse_ip = λ name. none;
}

abbrev settings : Settings
settings = record {
  http_egress = " TRUE ";
  http_allowlist = "https://hooks.test/in, http://inner.test/";
}

accepted : validate network settings "http://host.docker.internal:4588/" ≡ ok tt
unfolding validate validate_url is_lab_catcher is_lab_local is_lab_oidc to_lower trim_space
    equal_fold has_prefix
accepted = refl

-- A listed endpoint whose host is private, one that is listed but resolves to a metadata address too,
-- and one that is no endpoint.
refused :
    (validate network settings "http://inner.test/" ≡ err err_not_allowed)
    × (validate network settings "https://hooks.test/in" ≡ err err_not_allowed)
    × (validate network (record settings { http_egress = "0" }) "http://inner.test/"
        ≡ err err_not_allowed)
unfolding validate validate_url is_lab_catcher is_lab_local is_lab_oidc egress_enabled allowlisted
    reject_unsafe_host resolved_safe all_safe reject_unsafe_ip to4 head16 bytes_eqb to_lower
    trim_space equal_fold split_on has_suffix contains
refused = (refl, refl, refl)

validate_sound_example :
    (u : Url) × (network.parse_url "http://host.docker.internal:4588/" ≡ some u)
    × ((to_lower u.scheme ≡ "http") ⊎ (to_lower u.scheme ≡ "https"))
    × MayGo network settings "http://host.docker.internal:4588/" u
validate_sound_example =
    validate_sound network settings "http://host.docker.internal:4588/" accepted

abbrev dialer : Dialer
dialer = record {
  split_host_port = λ addr. ok (addr, "443");
  dial = λ target port. err (message "refused");
}

-- The metadata address is passed over.
tried :
    (pinned_dial_context network dialer "hooks.test").0 ≡ address (93 ∷ 184 ∷ 216 ∷ 34 ∷ []) ∷ []
unfolding pinned_dial_context reject_unsafe_ip to4 head16 bytes_eqb to_lower trim_space
tried = refl

dials_public_example : MayDial network dialer "hooks.test" (address (93 ∷ 184 ∷ 216 ∷ 34 ∷ []))
dials_public_example =
    dials_public network dialer "hooks.test" (address (93 ∷ 184 ∷ 216 ∷ 34 ∷ []))
      (rw tried (Memᴰ.head refl))
