-- ===== src/Profile/Parse.antt =====
-- `OrganizationProfile.load` of profile.py, behind the reading of the file.
pub mod Clean
pub mod Tests
use meraki_openconnect.Prelude.{
  ℕ, ◌≡◌, Bool, true, false, not, ◌&&◌, ◌||◌, Option, none, some, List, [], ◌∷◌, Text, codes,
  text_eq, Result, ok, err, ◌>>=◌, ◌>>◌, require, raise_if, length, any, leb, ltb, ◌==◌,
  if◌then◌else◌, one_of,
}
use meraki_openconnect.Json.{Json, int, Fields, keys}
use meraki_openconnect.Settings.Machine.{is_secret_like}
use meraki_openconnect.Profile.Model.{
  Organization, Gateway, AuthenticationPolicy, SplitDnsRule, RecordType, a, aaaa, srv, HealthCheck,
  route, dns, tcp, OrganizationProfile,
}
use meraki_openconnect.Profile.Checks.{
  ProfileError, unsupported_authentication, invalid_identity_provider, invalid_dns_rule,
  invalid_record_type, invalid_port, unsupported_check, unsupported_schema, secret_like_field,
  Library, as_object, as_array, require_keys, value_of, check_string, check_hostname,
  check_cookie_name, check_https_url, check_display_name, check_address, check_path,
}

-- `f(x) for x in xs`, up to the first error.
pub traverse {ℓ κ} :
    {A : Type ℓ} {B : Type κ} → (A → Result ProfileError B) → List A → Result ProfileError (List B)
traverse f [] = ok []
traverse f (x ∷ xs) = let rest = traverse f xs in do y ← f x; ys ← rest; ok (y ∷ ys)

abbrev record_type_of : Text → Result ProfileError RecordType
record_type_of s =
    if text_eq s (codes "A")
    then ok a
    else if text_eq s (codes "AAAA")
    then ok aaaa
    else if text_eq s (codes "SRV")
    then ok srv
    else err invalid_record_type

abbrev check_port : Json → Result ProfileError ℕ
check_port (int n) = if leb 1 n && leb n 65535 then ok n else err invalid_port
check_port _ = err invalid_port

-- `try: _ip_address(host) except ProfileError: _canonical_hostname(host)`
abbrev or_else {ℓ} :
    {A : Type ℓ} → Result ProfileError A → Result ProfileError A → Result ProfileError A
or_else (ok x) other = ok x
or_else (err e) other = other

-- A check of a kind that is not supported.
abbrev unsupported : Fields → ProfileError
unsupported fs =
    if any (λ k. not (text_eq k (codes "type")) && is_secret_like k) (keys fs)
    then secret_like_field
    else unsupported_check

-- The part of `OrganizationProfile.load` that reads the gateway.
pub parse_gateway : Json → Result ProfileError Text
parse_gateway v = do
  raw ← as_object v
  require_keys raw (codes "host" ∷ [])
  check_hostname false (value_of raw (codes "host"))

module _ (library : Library) where
  -- `_authentication`
  unfoldable pub parse_authentication : Json → Result ProfileError AuthenticationPolicy
  parse_authentication v = do
    raw ← as_object v
    require_keys raw (
        codes "type"
        ∷ codes "idp_host"
        ∷ codes "issuer"
        ∷ codes "destination"
        ∷ codes "login_path"
        ∷ codes "final_path"
        ∷ codes "token_cookie_name"
        ∷ [])
    type ← check_string (value_of raw (codes "type"))
    require (text_eq type (codes "meraki-entra-saml")) unsupported_authentication
    idp_host ← check_hostname false (value_of raw (codes "idp_host"))
    issuer ← check_https_url (value_of raw (codes "issuer"))
    destination ← check_https_url (value_of raw (codes "destination"))
    require (text_eq destination.1 idp_host) invalid_identity_provider
    login_path ← check_path library (value_of raw (codes "login_path"))
    final_path ← check_path library (value_of raw (codes "final_path"))
    cookie ← check_cookie_name (value_of raw (codes "token_cookie_name"))
    ok (record {
      idp_host = idp_host;
      issuer = issuer.0;
      destination = destination.0;
      login_path = login_path;
      final_path = final_path;
      token_cookie_name = cookie;
    })

  -- One rule of `_split_dns`.
  unfoldable pub parse_rule : Json → Result ProfileError SplitDnsRule
  unfolding traverse
  parse_rule v = do
    raw ← as_object v
    require_keys raw (codes "domain" ∷ codes "nameservers" ∷ [])
    servers ← as_array 3 (value_of raw (codes "nameservers"))
    raise_if (length servers == 0) invalid_dns_rule
    domain ← check_hostname false (value_of raw (codes "domain"))
    nameservers ← traverse (λ s. check_address library s) servers
    ok (record { domain = domain; nameservers = nameservers })

  -- `_split_dns`
  unfoldable pub parse_split_dns : Json → Result ProfileError (List SplitDnsRule)
  unfolding traverse
  parse_split_dns v = do items ← as_array 16 v; traverse (λ item. parse_rule item) items

  parse_route : Fields → Result ProfileError HealthCheck
  parse_route raw = do
    require_keys raw (codes "type" ∷ codes "target" ∷ [])
    target ← check_address library (value_of raw (codes "target"))
    ok (route target)

  parse_dns : Fields → Result ProfileError HealthCheck
  parse_dns raw = do
    require_keys raw (codes "type" ∷ codes "name" ∷ codes "record_type" ∷ [])
    type ← check_string (value_of raw (codes "record_type"))
    record_type ← record_type_of type
    name ← check_hostname true (value_of raw (codes "name"))
    ok (dns name record_type)

  parse_tcp : Fields → Result ProfileError HealthCheck
  parse_tcp raw = do
    require_keys raw (codes "type" ∷ codes "host" ∷ codes "port" ∷ [])
    _ ← check_string (value_of raw (codes "host"))
    host ←
        or_else (check_address library (value_of raw (codes "host")))
          (check_hostname false (value_of raw (codes "host")))
    port ← check_port (value_of raw (codes "port"))
    ok (tcp host port)

  -- One check of `_health_checks`.
  pub parse_check : Json → Result ProfileError HealthCheck
  unfolding parse_route parse_dns parse_tcp
  parse_check v = do
    raw ← as_object v
    type ← check_string (value_of raw (codes "type"))
    if text_eq type (codes "route")
        then parse_route raw
        else if text_eq type (codes "dns")
        then parse_dns raw
        else if text_eq type (codes "tcp")
        then parse_tcp raw
        else err (unsupported raw)

  -- `_health_checks`
  pub parse_health_checks : Json → Result ProfileError (List HealthCheck)
  unfolding traverse parse_check
  parse_health_checks v = do items ← as_array 32 v; traverse (λ item. parse_check item) items

  abbrev is_one : Json → Bool
  is_one (int n) = n == 1
  is_one _ = false

  -- `OrganizationProfile.load`, of the file's JSON value.
  unfoldable pub load : Json → Result ProfileError OrganizationProfile
  unfolding parse_health_checks
  load v = do
    payload ← as_object v
    require_keys payload (
        codes "schema_version"
        ∷ codes "organization"
        ∷ codes "gateway"
        ∷ codes "authentication"
        ∷ codes "split_dns"
        ∷ codes "health_checks"
        ∷ [])
    require (is_one (value_of payload (codes "schema_version"))) unsupported_schema
    organization ← as_object (value_of payload (codes "organization"))
    require_keys organization (codes "display_name" ∷ [])
    display_name ← check_display_name library (value_of organization (codes "display_name"))
    host ← parse_gateway (value_of payload (codes "gateway"))
    authentication ← parse_authentication (value_of payload (codes "authentication"))
    split_dns ← parse_split_dns (value_of payload (codes "split_dns"))
    health_checks ← parse_health_checks (value_of payload (codes "health_checks"))
    ok (record {
      organization = record { display_name = display_name };
      gateway = record { host = host };
      authentication = authentication;
      split_dns = split_dns;
      health_checks = health_checks;
    })
