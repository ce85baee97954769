-- ===== src/Authentication/Tests.antt =====
-- An authentication of the example profile, the opening of a page, and a captured pin.
use meraki_openconnect.Prelude.{
  ◌≡◌, refl, Bool, true, false, Option, none, some, List, [], ◌∷◌, Text, codes, ok, ◌>>=◌, require,
  replicate, Result,
}
use meraki_openconnect.Json.{null}
use meraki_openconnect.Url.{
  SplitResult, urlsplit, urlunsplit, hostname, port, has_username, has_password,
}
use meraki_openconnect.Query.{parse_qsl, urlencode}
use meraki_openconnect.Query.Utf8.{encode_utf8, decode_utf8}
use meraki_openconnect.Ip.{parts, split, decimal_value}
use meraki_openconnect.Settings.Base64.{encode, decode}
use meraki_openconnect.Settings.Checks.{BrowserSettings}
use meraki_openconnect.Saml.{rewrite_force_authn}
use meraki_openconnect.Saml.Tests.{
  policy, stored, parsed_request, request_url, rewritten_url, url_accepted,
}
use meraki_openconnect.Saml.Redirect.{IsRewritten, rewrite_force_authn-IsRewritten}
use meraki_openconnect.Exchange.Message.{read_message, utf8_length}
use meraki_openconnect.Exchange.Server.{wait, serve_all, serve}
use meraki_openconnect.Exchange.Token.{token_protocol}
use meraki_openconnect.Tests.Data.{example_profile, example_settings, constant_digest}
use meraki_openconnect.Tests.Exchange.{codec, session}
use meraki_openconnect.Chrome.{build_extension_start_url, build_extension_setup_url, open_in_chrome}
use meraki_openconnect.Chrome.Laws.{opened, build-open_in_chrome}
use meraki_openconnect.TlsPin.{Bytes, TlsPeerEvidence, gateway_tls_evidence}
use meraki_openconnect.TlsPin.Laws.{IsEvidence, IsDigest, gateway_tls_evidence-IsEvidence}
use meraki_openconnect.Authentication.{
  AuthenticationError, Cookie, Response, BrowserAuthRequest, BrowserBootstrap, belongs_to_gateway,
  invalid_request, capture_meraki_redirect,
}
use meraki_openconnect.Authentication.Service.{
  saml_policy, Surroundings, validate_browser_request, browser_authenticate,
  authenticate_in_browser, authenticate, AuthenticationResult,
}
use meraki_openconnect.Authentication.Admitted.{
  is_expected_path, validate_browser_request-rewritten,
}
use meraki_openconnect.Authentication.Session.{
  IsSession, UsesHook, Hook, capture, authenticate-IsSession,
}

abbrev browser : BrowserSettings
browser = record { extension_id = example_settings.extension_id }

abbrev opens : List Text → Bool
opens command = true

build-open_in_chrome_example :
    (build_extension_start_url browser.extension_id >>= open_in_chrome opens
      ≡ opened opens browser.extension_id (codes "/start.html"))
    × (build_extension_setup_url browser.extension_id >>= open_in_chrome opens
        ≡ opened opens browser.extension_id (codes "/setup.html"))
build-open_in_chrome_example = build-open_in_chrome opens browser.extension_id

abbrev zeros : Bytes → Bytes
zeros bs = replicate 32 0

zeros-IsDigest : (bs : Bytes) → IsDigest (zeros bs)
zeros-IsDigest bs = record { size = refl; bytes = refl }

abbrev echo : List Text → Bytes → Option Bytes
echo command input = some (1 ∷ [])

abbrev zero_evidence : TlsPeerEvidence
zero_evidence = record {
  spki_pin = codes "pin-sha256:AAAAAAAAAAAAAAAAAAAAAAAAAAAAAAAAAAAAAAAAAAA=";
  leaf_sha256 = replicate 64 b'0';
}

evidence_given : gateway_tls_evidence zeros echo example_profile.gateway.host ≡ ok zero_evidence
unfolding gateway_tls_evidence encode
evidence_given = refl

gateway_tls_evidence-IsEvidence_example : IsEvidence zero_evidence
gateway_tls_evidence-IsEvidence_example =
    gateway_tls_evidence-IsEvidence zeros echo example_profile.gateway.host zero_evidence
      zeros-IsDigest evidence_given

abbrev cookie : Cookie
cookie = record {
  name = codes "webvpnlogin";
  value = codes "1";
  domain = codes ".example.com";
  path = none;
  secure = true;
  expires = null;
  domain_specified = true;
}

abbrev answer : Text → Option Response × List Cookie
answer url = (
  some (record { status_code = 303; url = url; location = some request_url }),
  cookie ∷ record cookie { domain = codes "example.org" } ∷ [],
)

abbrev absolute : Text → Text → Option Text
absolute base url = some url

abbrev login_url : Text
login_url = codes "https://vpn.example.com/saml/login"

abbrev given : BrowserBootstrap
given = record {
  login_url = rewritten_url;
  cookies =
      (record {
        name = codes "webvpnlogin";
        value = codes "1";
        domain = codes ".example.com";
        path = codes "/";
        secure = true;
        expires = null;
        host_only = false;
      })
      ∷ [];
}

abbrev asked : BrowserAuthRequest
asked = record {
  login_url = login_url;
  final_url = codes "https://vpn.example.com/saml/final";
  token_cookie_name = codes "token";
  cookies = [];
}

abbrev found : BrowserAuthRequest
found = record asked { login_url = rewritten_url; cookies = given.cookies }

abbrev around : Surroundings
around = record {
  sha256_hex = constant_digest;
  evidence_before = ok zero_evidence;
  evidence_after = ok zero_evidence;
  entering = none;
  run = opens;
  codec = codec;
  events = session;
}

-- An authenticator that asks its hook once, and keeps what it gives.
abbrev asks_once : Hook → Result AuthenticationError Text
asks_once hook = hook asked

asks_once-UsesHook : UsesHook asks_once
asks_once-UsesHook hook token h = (asked, token, h)

abbrev result : AuthenticationResult
result = record { session_token = codes "secret"; server_cert_pin = zero_evidence.spki_pin }

session_completes :
    authenticate around example_profile browser
      (capture stored parsed_request absolute answer around example_profile browser)
      asks_once
      none
    ≡ ok result
unfolding authenticate authenticate_in_browser browser_authenticate validate_browser_request
    capture_meraki_redirect saml_policy rewrite_force_authn urlsplit urlunsplit hostname port
    has_username has_password parse_qsl urlencode encode decode parts split encode_utf8 decode_utf8
    decimal_value belongs_to_gateway build_extension_start_url open_in_chrome wait serve_all serve
    token_protocol read_message utf8_length
session_completes = refl

authenticate-IsSession_example :
    IsSession stored parsed_request absolute answer around example_profile browser none result
authenticate-IsSession_example =
    authenticate-IsSession stored parsed_request absolute answer around example_profile browser
      asks_once none result asks_once-UsesHook session_completes

abbrev destination : SplitResult
destination = record {
  scheme = codes "https";
  netloc = codes "login.example.com";
  path = codes "/saml";
  query = [];
  fragment = [];
}

destination_split : urlsplit example_profile.authentication.destination ≡ some destination
unfolding urlsplit
destination_split = refl

rewritten :
    IsRewritten stored parsed_request (saml_policy example_profile) request_url found.login_url
unfolding saml_policy
rewritten =
    rewrite_force_authn-IsRewritten stored parsed_request policy request_url rewritten_url
      url_accepted

validate_browser_request-rewritten_example :
    validate_browser_request example_profile found
    ≡ require (is_expected_path example_profile found destination rewritten.parsed) invalid_request
validate_browser_request-rewritten_example =
    validate_browser_request-rewritten stored parsed_request example_profile found request_url
      destination destination_split rewritten
