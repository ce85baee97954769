-- ===== src/Authentication/Service.antt =====
-- The authentication through the browser: service.py. What the package's authenticator does with the
-- hooks is a parameter.
use meraki_openconnect.Prelude.{
  ℕ, Bool, true, not, ◌&&◌, Option, none, some, List, [], ◌∷◌, ◌++◌, Text, codes, text_eq, Result,
  ok, err, ◌>>=◌, ◌>>◌, require, length, map, ◌==◌,
}
use meraki_openconnect.Json.{Json, boolean, text, array, object, Fields, of_list, of_pairs}
use meraki_openconnect.Url.{SplitResult, urlsplit, hostname, port, has_username, has_password}
use meraki_openconnect.Profile.Model.{OrganizationProfile}
use meraki_openconnect.Profile.Canonical.{profile_digest}
use meraki_openconnect.Settings.Checks.{BrowserSettings}
use meraki_openconnect.Saml.{SamlPolicy, is_text, is_https_port}
use meraki_openconnect.TlsPin.{PinError, TlsPeerEvidence}
use meraki_openconnect.Chrome.{build_extension_start_url, open_in_chrome}
use meraki_openconnect.Exchange.Message.{Codec}
use meraki_openconnect.Exchange.Server.{Event, start, serve_all, wait}
use meraki_openconnect.Exchange.Endpoint.{HandoffError}
use meraki_openconnect.Exchange.Token.{token_protocol}
use meraki_openconnect.Authentication.{
  AuthenticationError, invalid_request, pin_changed, pin_changed_meanwhile, pinning, handing,
  opening, exchanging, GatewayCookie, BrowserAuthRequest, split_url, Capture,
}

pub record AuthenticationResult : Type 0 where
  pub session_token : Text
  pub server_cert_pin : Text

abbrev pub https : Text → Text → Text
https host path = codes "https://" ++ host ++ path

-- `OrganizationProfile.saml_policy`
unfoldable pub saml_policy : OrganizationProfile → SamlPolicy
saml_policy profile = record {
  entra_host = profile.authentication.idp_host;
  issuer = profile.authentication.issuer;
  destination = profile.authentication.destination;
}

-- The tests of `_validate_browser_request` on the parts of the two URLs
abbrev pub is_expected_request :
    OrganizationProfile → BrowserAuthRequest → SplitResult → SplitResult → Bool
is_expected_request profile request destination login =
    text_eq login.scheme (codes "https")
    && is_text profile.authentication.idp_host (hostname login)
    && is_https_port (port login)
    && not (has_username login)
    && not (has_password login)
    && text_eq login.path destination.path
    && length login.fragment == 0
    && text_eq request.final_url (https profile.gateway.host profile.authentication.final_path)
    && text_eq request.token_cookie_name profile.authentication.token_cookie_name

-- A `ValueError` of the login URL or its port is made an `AuthenticationError`.
abbrev pub check_login :
    OrganizationProfile
    → BrowserAuthRequest
    → SplitResult
    → Option SplitResult
    → Result AuthenticationError (Unit {0})
check_login profile request destination none = err invalid_request
check_login profile request destination (some login) =
    require (is_expected_request profile request destination login) invalid_request

-- `_validate_browser_request`
unfoldable pub validate_browser_request :
    OrganizationProfile → BrowserAuthRequest → Result AuthenticationError (Unit {0})
validate_browser_request profile request = do
  destination ← split_url profile.authentication.destination
  check_login profile request destination (urlsplit request.login_url)

cookie_json : GatewayCookie → Json
cookie_json cookie = object (
    of_pairs (
      (codes "name", text cookie.name)
      ∷ (codes "value", text cookie.value)
      ∷ (codes "domain", text cookie.domain)
      ∷ (codes "path", text cookie.path)
      ∷ (codes "secure", boolean cookie.secure)
      ∷ (codes "expires", cookie.expires)
      ∷ (codes "host_only", boolean cookie.host_only)
      ∷ []))

-- The bootstrap that the extension asks for
pub bootstrap : (List ℕ → Text) → OrganizationProfile → BrowserAuthRequest → Fields
unfolding cookie_json
bootstrap sha256_hex profile request = of_pairs (
    (codes "gatewayOrigin", text (https profile.gateway.host []))
    ∷ (codes "profileDigest", text (profile_digest sha256_hex profile))
    ∷ (codes "loginOrigin", text (https profile.authentication.idp_host []))
    ∷ (codes "loginUrl", text request.login_url)
    ∷ (codes "finalUrl", text request.final_url)
    ∷ (codes "cookieName", text request.token_cookie_name)
    ∷ (codes "cookies", array (of_list (map cookie_json request.cookies)))
    ∷ [])

-- What an authentication meets: the evidence of the gateway before and after it, whether the callback
-- can be entered, whether Chrome is opened, and what the thread of the callback meets until `wait`
-- ends.
pub record Surroundings : Type 0 where
  pub sha256_hex : List ℕ → Text
  pub evidence_before : Result PinError TlsPeerEvidence
  pub evidence_after : Result PinError TlsPeerEvidence
  pub entering : Option HandoffError
  pub run : List Text → Bool
  pub codec : Codec
  pub events : List Event

abbrev pub raised {ℓ} :
    {E A : Type ℓ} → (E → AuthenticationError) → Result E A → Result AuthenticationError A
raised f (ok a) = ok a
raised f (err e) = err (f e)

abbrev pub entered : Option HandoffError → Result AuthenticationError (Unit {0})
entered none = ok tt
entered (some e) = err (handing e)

abbrev pub is_pin : Option Text → Text → Bool
is_pin none pin = true
is_pin (some expected) pin = text_eq expected pin

module _ (here : Surroundings) (profile : OrganizationProfile) (browser : BrowserSettings) where
  -- `browser_authenticate`, with the pin that was found before it
  unfoldable pub browser_authenticate : Text → BrowserAuthRequest → Result AuthenticationError Text
  unfolding validate_browser_request bootstrap
  browser_authenticate server_cert_pin request = do
    validate_browser_request profile request
    entered here.entering
    start_url ← raised opening (build_extension_start_url browser.extension_id)
    raised opening (open_in_chrome here.run start_url)
    token ←
        raised exchanging
          (wait (
            serve_all here.codec (token_protocol (bootstrap here.sha256_hex profile request))
              here.events start)).0
    evidence ← raised pinning here.evidence_after
    require (text_eq evidence.spki_pin server_cert_pin) pin_changed_meanwhile
    ok token

  -- `_authenticate_in_browser`, the hook that is given a request of the gateway, of which the cookies are those of the session.
  unfoldable pub authenticate_in_browser :
      (Text → SamlPolicy → Text → Capture)
      → Text
      → BrowserAuthRequest
      → Result AuthenticationError Text
  unfolding browser_authenticate saml_policy
  authenticate_in_browser capture server_cert_pin asked = do
    captured ←
        (capture asked.login_url (saml_policy profile)
          (https profile.gateway.host profile.authentication.login_path)).result
    browser_authenticate server_cert_pin
        (record asked { login_url = captured.login_url; cookies = captured.cookies })

  -- `authenticate`, where the parameter makes a session token of the hook, or raises
  unfoldable pub authenticate :
      (Text → SamlPolicy → Text → Capture)
      → ((BrowserAuthRequest → Result AuthenticationError Text) → Result AuthenticationError Text)
      → Option Text
      → Result AuthenticationError AuthenticationResult
  unfolding authenticate_in_browser
  authenticate capture upstream expected_server_cert_pin = do
    evidence ← raised pinning here.evidence_before
    require (is_pin expected_server_cert_pin evidence.spki_pin) pin_changed
    session_token ← upstream (authenticate_in_browser capture evidence.spki_pin)
    ok (record { session_token = session_token; server_cert_pin = evidence.spki_pin })
