-- ===== src/Exchange/Permission.antt =====
-- ExtensionSetupCallback of extension_setup.py: its constructor and the messages of `_serve`.
use meraki_openconnect.Prelude.{
  ◌≡◌, refl, ap, ◌∙◌, Bool, true, false, not, ◌&&◌, Option, none, some, [], ◌∷◌, ◌++◌, Text, codes,
  length, map, text_eq, text_eq_iff, text_eq_refl, ◌==◌, if◌then◌else◌, Result, ok, err, ◌>>=◌,
  ◌>>◌, require, arith,
}
use meraki_openconnect.Json.{
  Json, null, int, negative, float, array, object, text, boolean, Fields, end, field, get,
}
use meraki_openconnect.Url.{
  SplitResult, urlsplit, hostname, port, has_username, has_password, lower,
}
use meraki_openconnect.Settings.Checks.{SettingsError, is_digest, check_string}
use meraki_openconnect.Settings.Origin.{
  check_hostname, check_gateway_origin, check_gateway_origin-IsOrigin, same_origin, origin_named,
  origin_of, is_default,
}
use meraki_openconnect.Setup.Steps.{ExtensionPermissionReceipt}
use meraki_openconnect.Exchange.Server.{Protocol}
use meraki_openconnect.Exchange.Token.{has_keys, is_only_type, holds}

-- `ExtensionSetupError` of the constructor
pub data ExtensionSetupError : Type 0 where
  invalid_origin invalid_profile_digest : ExtensionSetupError

-- The test of `_validate_gateway_origin`, where the host is named
abbrev named_validly : Text → SplitResult → Text → Bool
named_validly origin parsed name =
    text_eq parsed.scheme (codes "https")
    && text_eq name (map lower name)
    && not (has_username parsed)
    && not (has_password parsed)
    && is_default (port parsed)
    && length parsed.path == 0
    && length parsed.query == 0
    && length parsed.fragment == 0
    && text_eq origin (codes "https://" ++ name)

abbrev validly : Text → Option SplitResult → Bool
validly origin none = false
validly origin (some parsed) = elim (hostname parsed) [
  | none ↦ false
  | some name ↦ named_validly origin parsed name
]

-- `_validate_gateway_origin`
unfoldable pub validate_gateway_origin : Text → Result ExtensionSetupError Text
validate_gateway_origin origin =
    if validly origin (urlsplit origin) then ok origin else err invalid_origin

abbrev as_receipt : Text → Text → Option Json → Option ExtensionPermissionReceipt
as_receipt origin digest (some (boolean granted)) =
    some (record { gateway_origin = origin; profile_digest = digest; granted = granted })
as_receipt origin digest v = none

-- The receipt of a setup result
pub accept_result : Text → Text → Fields → Option ExtensionPermissionReceipt
accept_result origin digest fs =
    if has_keys fs
        (codes "type" ∷ codes "gatewayOrigin" ∷ codes "profileDigest" ∷ codes "granted" ∷ [])
      && holds fs (codes "type") (codes "setup-result")
      && holds fs (codes "gatewayOrigin") origin
      && holds fs (codes "profileDigest") digest
    then as_receipt origin digest (get (codes "granted") fs)
    else none

-- `ExtensionSetupCallback`, whose constructor checks the origin and the digest
unfoldable pub setup_protocol :
    Text → Text → Result ExtensionSetupError (Protocol ExtensionPermissionReceipt)
unfolding accept_result
setup_protocol gateway_origin profile_digest = do
  origin ← validate_gateway_origin gateway_origin
  require (is_digest profile_digest) invalid_profile_digest
  ok (record {
    is_request = is_only_type (codes "setup-bootstrap");
    reply = field (codes "type") (text (codes "setup-bootstrap")) (
        field (codes "gatewayOrigin") (text origin)
          (field (codes "profileDigest") (text profile_digest) end));
    accept = accept_result origin profile_digest;
  })

as_receipt-IsFor :
    (origin digest : Text) (v : Option Json) (r : ExtensionPermissionReceipt)
    → as_receipt origin digest v ≡ some r
    → (r.gateway_origin ≡ origin) × (r.profile_digest ≡ digest)
as_receipt-IsFor origin digest (some (boolean granted)) r h = (cc, cc)
as_receipt-IsFor origin digest none r h = cc
as_receipt-IsFor origin digest (some null) r h = cc
as_receipt-IsFor origin digest (some (int n)) r h = cc
as_receipt-IsFor origin digest (some (negative n)) r h = cc
as_receipt-IsFor origin digest (some (float t)) r h = cc
as_receipt-IsFor origin digest (some (text t)) r h = cc
as_receipt-IsFor origin digest (some (array xs)) r h = cc
as_receipt-IsFor origin digest (some (object fs)) r h = cc

-- An accepted receipt is for the origin and the digest of the exchange.
pub accept_result-IsFor :
    (origin digest : Text) (fs : Fields) (r : ExtensionPermissionReceipt)
    → accept_result origin digest fs ≡ some r
    → (r.gateway_origin ≡ origin) × (r.profile_digest ≡ digest)
unfolding accept_result
accept_result-IsFor origin digest fs r h =
    as_receipt-IsFor origin digest (get (codes "granted") fs) r (ground (arith, h))

check_hostname-lower :
    (value host : Text)
    → check_hostname value ≡ ok host
    → (text_eq value host ≡ true) × (text_eq value (map lower value) ≡ true)
unfolding check_hostname check_string
check_hostname-lower value host h = (ground (arith, h, text_eq_refl value), ground (arith, h))

same_origin-lower :
    (origin checked name : Text) (r : Result SettingsError Text)
    → check_hostname name ≡ r
    → same_origin origin r ≡ ok checked
    → (text_eq name (map lower name) ≡ true) × (text_eq origin (codes "https://" ++ name) ≡ true)
same_origin-lower origin checked name (err e) c h = cc
same_origin-lower origin checked name (ok host) c h =
    let l = check_hostname-lower name host c in
    let same = (text_eq_iff name host).0 l.0 in
    let e : text_eq origin (codes "https://" ++ host) ≡ true = ground (arith, h) in
    (l.1, ap (λ t. text_eq origin (codes "https://" ++ t)) same ∙ e)

origin_named-validly :
    (origin checked name : Text) (parsed : SplitResult)
    → origin_named origin parsed (some name) ≡ ok checked
    → named_validly origin parsed name ≡ true
origin_named-validly origin checked name parsed h =
    let s = same_origin-lower origin checked name (check_hostname name) refl (ground (arith, h)) in
    ground (arith, h, s.0, s.1)

origin_of-validly :
    (origin checked : Text) (parsed : SplitResult) (name : Option Text)
    → origin_named origin parsed name ≡ ok checked
    → (elim name [ none ↦ false | some n ↦ named_validly origin parsed n ]) ≡ true
origin_of-validly origin checked parsed none h = cc
origin_of-validly origin checked parsed (some name) h =
    origin_named-validly origin checked name parsed h

validly_lem :
    (origin checked : Text) (split : Option SplitResult)
    → origin_of origin split ≡ ok checked
    → validly origin split ≡ true
validly_lem origin checked none h = cc
validly_lem origin checked (some parsed) h =
    origin_of-validly origin checked parsed (hostname parsed) h

-- The origin that the settings accept is accepted by the setup exchange and stays as it is.
pub validate_gateway_origin-check_gateway_origin :
    (value origin : Text)
    → check_gateway_origin value ≡ ok origin
    → validate_gateway_origin origin ≡ ok origin
unfolding validate_gateway_origin check_gateway_origin check_string
validate_gateway_origin-check_gateway_origin value origin h =
    let same = (check_gateway_origin-IsOrigin value origin h).0 in
    let again = ap check_gateway_origin same ∙ h in
    let valid = validly_lem origin origin (urlsplit origin) (ground (arith, again)) in
    ground (arith, valid)
