-- ===== src/Authentication.antt =====
-- The redirect of the gateway and its cookies: authenticator.py. The base class of the authenticator
-- and the HTTP session are a package's; what they give is a parameter, and so is `urljoin`.
pub mod Laws
pub mod Admitted
pub mod Session
pub mod Service
pub mod Tests
use meraki_openconnect.Prelude.{
  ℕ, ◌-◌, Bool, true, false, not, ◌&&◌, ◌||◌, Option, none, some, List, [], ◌∷◌, ◌++◌, Text, codes,
  text_eq, Result, ok, err, ◌>>=◌, ◌>>◌, require, raise_if, length, drop, map, leb, ◌==◌,
  if◌then◌else◌,
}
use meraki_openconnect.Json.{Json}
use meraki_openconnect.Url.{
  SplitResult, urlsplit, hostname, Port, default, number, invalid, port, has_username, has_password,
  lower,
}
use meraki_openconnect.Saml.{Bytes, SamlError, SamlPolicy, Zlib, Root, rewrite_force_authn}
use meraki_openconnect.TlsPin.{PinError}
use meraki_openconnect.Chrome.{ChromeError}
use meraki_openconnect.Exchange.Server.{ExchangeError}
use meraki_openconnect.Exchange.Endpoint.{HandoffError}

pub data AuthenticationError : Type 0 where
  -- `MerakiAuthenticationError`, by its message
  wrong_login_url login_not_https unexpected_status no_location probe_moved : AuthenticationError
  -- the rewriting; its `ValueError` is not made a `MerakiAuthenticationError`
  rewriting : SamlError → AuthenticationError
  -- `AuthenticationError` of service.py, by its message
  invalid_request pin_changed pin_changed_meanwhile : AuthenticationError
  -- the `ValueError` of urllib.parse, and an error of the HTTP session
  invalid_url request_failed : AuthenticationError
  pinning : PinError → AuthenticationError
  handing : HandoffError → AuthenticationError
  opening : ChromeError → AuthenticationError
  exchanging : ExchangeError → AuthenticationError

-- A cookie of the session; the expiry is `null` or a number.
pub record Cookie : Type 0 where
  pub name : Text
  pub value : Text
  pub domain : Text
  pub path : Option Text
  pub secure : Bool
  pub expires : Json
  pub domain_specified : Bool

pub record GatewayCookie : Type 0 where
  pub name : Text
  pub value : Text
  pub domain : Text
  pub path : Text
  pub secure : Bool
  pub expires : Json
  pub host_only : Bool

pub record BrowserBootstrap : Type 0 where
  pub login_url : Text
  pub cookies : List GatewayCookie

pub record BrowserAuthRequest : Type 0 where
  pub login_url : Text
  pub final_url : Text
  pub token_cookie_name : Text
  pub cookies : List GatewayCookie

-- `_Response`; there is no location if the header is missing or no text.
pub record Response : Type 0 where
  pub status_code : ℕ
  pub url : Text
  pub location : Option Text

pub lstrip_dots : Text → Text
lstrip_dots [] = []
lstrip_dots (c ∷ s) = let rest = lstrip_dots s in if c == b'.' then rest else c ∷ s

-- `s.endswith(suffix)`
pub ends_with : Text → Text → Bool
ends_with s suffix =
    leb (length suffix) (length s) && text_eq (drop (length s - length suffix) s) suffix

-- `_belongs_to_gateway`
unfoldable pub belongs_to_gateway : Text → Text → Bool
unfolding lstrip_dots ends_with
belongs_to_gateway cookie_domain gateway_host =
    let domain = map lower (lstrip_dots cookie_domain) in
    text_eq gateway_host domain || ends_with gateway_host (b'.' ∷ domain)

-- `cookie.path or "/"`
abbrev pub path_or_root : Option Text → Text
path_or_root none = codes "/"
path_or_root (some []) = codes "/"
path_or_root (some (c ∷ s)) = c ∷ s

pub gateway_cookie : Cookie → GatewayCookie
gateway_cookie cookie = record {
  name = cookie.name;
  value = cookie.value;
  domain = cookie.domain;
  path = path_or_root cookie.path;
  secure = cookie.secure;
  expires = cookie.expires;
  host_only = not cookie.domain_specified;
}

-- `_gateway_cookies`
pub gateway_cookies : List Cookie → Text → List GatewayCookie
unfolding gateway_cookie belongs_to_gateway
gateway_cookies [] gateway_host = []
gateway_cookies (cookie ∷ cookies) gateway_host =
    let rest = gateway_cookies cookies gateway_host in
    if belongs_to_gateway cookie.domain gateway_host then gateway_cookie cookie ∷ rest else rest

abbrev same_text : Option Text → Option Text → Bool
same_text none none = true
same_text (some s) (some t) = text_eq s t
same_text _ _ = false

-- `parsed.port or 443`, where a port 0 counts as none
abbrev or_443 : ℕ → ℕ
or_443 n = if n == 0 then 443 else n

abbrev same_port : Port → Port → Bool
same_port default default = true
same_port default (number n) = or_443 n == 443
same_port (number n) default = or_443 n == 443
same_port (number m) (number n) = or_443 m == or_443 n
same_port _ _ = false

abbrev same_origin : Option SplitResult → Option SplitResult → Bool
same_origin (some left) (some right) =
    text_eq left.scheme (codes "https")
    && text_eq right.scheme (codes "https")
    && same_text (hostname left) (hostname right)
    && same_port (port left) (port right)
    && not (has_username left)
    && not (has_password left)
    && not (has_username right)
    && not (has_password right)
same_origin _ _ = false

-- `_same_https_origin`, which is false where a URL cannot be parsed
unfoldable pub same_https_origin : Text → Text → Bool
same_https_origin first second = same_origin (urlsplit first) (urlsplit second)

abbrev pub split_or_fail : Option SplitResult → Result AuthenticationError SplitResult
split_or_fail none = err invalid_url
split_or_fail (some parsed) = ok parsed

abbrev pub split_url : Text → Result AuthenticationError SplitResult
split_url url = split_or_fail (urlsplit url)

abbrev nonempty_or {ℓ} : {E : Type ℓ} → E → Option Text → Result E Text
nonempty_or e none = err e
nonempty_or e (some []) = err e
nonempty_or e (some (c ∷ s)) = ok (c ∷ s)

abbrev pub received : Option Response → Result AuthenticationError Response
received none = err request_failed
received (some response) = ok response

abbrev pub raised_rewriting : Result SamlError Text → Result AuthenticationError Text
raised_rewriting (ok url) = ok url
raised_rewriting (err e) = err (rewriting e)

abbrev pub joined_or_fail : Option Text → Result AuthenticationError Text
joined_or_fail none = err invalid_url
joined_or_fail (some url) = ok url

-- What a capture did: whether it sent its request, and whether it closed the response; and its result.
pub record Capture : Type 0 where
  pub requested : Bool
  pub closed : Bool
  pub result : Result AuthenticationError BrowserBootstrap

module _ (zlib : Zlib) (parse_xml : Bytes → Option Root) (urljoin : Text → Text → Option Text) where
  -- The checks of the login URL, and the host of the gateway
  pub check_login_url : Text → Text → Result AuthenticationError Text
  check_login_url login_url expected_login_url = do
    require (text_eq login_url expected_login_url) wrong_login_url
    parsed ← split_url login_url
    gateway_host ← nonempty_or login_not_https (hostname parsed)
    require (text_eq parsed.scheme (codes "https")) login_not_https
    ok gateway_host

  -- What is made of a response
  pub read_redirect :
      SamlPolicy → Text → List Cookie → Response → Result AuthenticationError BrowserBootstrap
  unfolding gateway_cookies
  read_redirect policy gateway_host cookies response = do
    require (response.status_code == 303) unexpected_status
    location ← nonempty_or no_location response.location
    url ← joined_or_fail (urljoin response.url location)
    rewritten_url ← raised_rewriting (rewrite_force_authn zlib parse_xml policy url)
    ok (record { login_url = rewritten_url; cookies = gateway_cookies cookies gateway_host })

  -- The `finally` that closes a response
  abbrev pub answered : SamlPolicy → Text → Option Response × List Cookie → Capture
  answered policy gateway_host (none, cookies) = record {
    requested = true;
    closed = false;
    result = err request_failed;
  }
  answered policy gateway_host (some response, cookies) = record {
    requested = true;
    closed = true;
    result = read_redirect policy gateway_host cookies response;
  }

  abbrev pub captured :
      SamlPolicy
      → (Text → Option Response × List Cookie)
      → Text
      → Result AuthenticationError Text
      → Capture
  captured policy get login_url (err e) = record {
    requested = false;
    closed = false;
    result = err e;
  }
  captured policy get login_url (ok gateway_host) = answered policy gateway_host (get login_url)

  -- `capture_meraki_redirect`, where a session gives a response, or none if it raises, and has its cookies then.
  unfoldable pub capture_meraki_redirect :
      (Text → Option Response × List Cookie) → Text → SamlPolicy → Text → Capture
  unfolding check_login_url read_redirect
  capture_meraki_redirect get login_url policy expected_login_url =
      captured policy get login_url (check_login_url login_url expected_login_url)

-- `_detect_authentication_target_url`: the new address of the host. A status of 400 or more raises.
unfoldable pub detect_authentication_target_url :
    (Text → Option Response) → Text → Result AuthenticationError Text
unfolding same_https_origin
detect_authentication_target_url get gateway_url = do
  response ← received (get gateway_url)
  raise_if (leb 400 response.status_code && leb response.status_code 599) request_failed
  require (same_https_origin gateway_url response.url) probe_moved
  ok response.url
