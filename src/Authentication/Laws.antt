-- ===== src/Authentication/Laws.antt =====
-- What a captured redirect and an authentication have shown.
use mathlib.Core.Path.{subst}
use meraki_openconnect.Prelude.{
  ◌≡◌, refl, ap, sym, true, Option, none, some, List, [], ◌∷◌, Text, text_eq, text_eq_iff, Result,
  ok, err, all, ◌==◌, ==_iff, bind_ok, require_ok, ok_injective, Bool-cases, inl, inr,
}
use meraki_openconnect.Saml.{Bytes, SamlError, SamlPolicy, Zlib, Root, rewrite_force_authn}
use meraki_openconnect.Saml.Redirect.{IsRewritten, rewrite_force_authn-IsRewritten}
use meraki_openconnect.Authentication.{
  AuthenticationError, wrong_login_url, unexpected_status, no_location, Cookie, BrowserBootstrap,
  Response, belongs_to_gateway, gateway_cookie, gateway_cookies, nonempty_or, raised_rewriting,
  joined_or_fail, check_login_url, read_redirect, answered, captured, capture_meraki_redirect,
  Capture,
}

cookies_belong :
    (cookies : List Cookie) (host : Text)
    → all (λ c. belongs_to_gateway c.domain host) (gateway_cookies cookies host) ≡ true
unfolding gateway_cookies gateway_cookie
cookies_belong [] host = refl
cookies_belong (cookie ∷ cookies) host = elim (Bool-cases (belongs_to_gateway cookie.domain host)) [
  | inl e ↦ rw (e, e) (cookies_belong cookies host)
  | inr e ↦ rw e (cookies_belong cookies host)
]

raised_rewriting_lem :
    (r : Result SamlError Text) (url : Text) → raised_rewriting r ≡ ok url → r ≡ ok url
raised_rewriting_lem (ok x) url h = ap ok (ok_injective x url h)
raised_rewriting_lem (err e) url h = cc

joined_or_fail_lem : (o : Option Text) (url : Text) → joined_or_fail o ≡ ok url → o ≡ some url
joined_or_fail_lem none url h = cc
joined_or_fail_lem (some x) url h = ap some (ok_injective x url h)

module _ (zlib : Zlib) (parse_xml : Bytes → Option Root) (urljoin : Text → Text → Option Text) where
  -- What a capture has shown of its result: the login URL is the one of the profile, the response was a 303 and is closed, what it names was rewritten under the policy, and every cookie belongs to the host of the gateway.
  pub record IsCaptured (policy : SamlPolicy) (login_url expected : Text) (capture : Capture)
      (bootstrap : BrowserBootstrap) : Type 0 where
    pub is_expected : login_url ≡ expected
    pub gateway_host : Text
    pub response : Response
    pub location : Text
    pub url : Text
    pub is_requested : capture.requested ≡ true
    pub is_closed : capture.closed ≡ true
    pub is_see_other : response.status_code ≡ 303
    pub is_joined : urljoin response.url location ≡ some url
    pub is_rewritten : IsRewritten zlib parse_xml policy url bootstrap.login_url
    pub belong : all (λ c. belongs_to_gateway c.domain gateway_host) bootstrap.cookies ≡ true

  read_redirect_lem :
      (policy : SamlPolicy) (host : Text) (cookies : List Cookie) (response : Response)
      (bootstrap : BrowserBootstrap)
      → read_redirect zlib parse_xml urljoin policy host cookies response ≡ ok bootstrap
      → (response.status_code ≡ 303)
        × (location : Text) × (url : Text) × (urljoin response.url location ≡ some url)
        × IsRewritten zlib parse_xml policy url bootstrap.login_url
        × (all (λ c. belongs_to_gateway c.domain host) bootstrap.cookies ≡ true)
  unfolding read_redirect
  read_redirect_lem policy host cookies response bootstrap h =
      let (a, rest) = require_ok (response.status_code == 303) unexpected_status _ bootstrap h in
      let (location, b, join) =
        bind_ok (nonempty_or no_location response.location) _ bootstrap rest in
      let (url, c, rewrite) =
        bind_ok (joined_or_fail (urljoin response.url location)) _ bootstrap join in
      let (new, d, end) =
        bind_ok (raised_rewriting (rewrite_force_authn zlib parse_xml policy url)) _ bootstrap
          rewrite in
      let e = ok_injective _ bootstrap end in
      (
        (==_iff _ 303).0 a,
        location,
        url,
        joined_or_fail_lem _ url c,
        subst (λ b. IsRewritten zlib parse_xml policy url b.login_url) e
            (rewrite_force_authn-IsRewritten zlib parse_xml policy url new
              (raised_rewriting_lem _ new d)),
        subst (λ b. all (λ c. belongs_to_gateway c.domain host) b.cookies ≡ true) e
            (cookies_belong cookies host),
      )

  answered-IsCaptured :
      (policy : SamlPolicy) (login_url expected host : Text)
      (answer : Option Response × List Cookie) (bootstrap : BrowserBootstrap)
      → login_url ≡ expected
      → (answered zlib parse_xml urljoin policy host answer).result ≡ ok bootstrap
      → IsCaptured policy login_url expected
          (answered zlib parse_xml urljoin policy host answer)
          bootstrap
  answered-IsCaptured policy login_url expected host (none, cookies) bootstrap e h = cc
  answered-IsCaptured policy login_url expected host (some response, cookies) bootstrap e h =
      let (a, location, url, b, c, d) =
        read_redirect_lem policy host cookies response bootstrap h in
      record {
        is_expected = e;
        gateway_host = host;
        response = response;
        location = location;
        url = url;
        is_requested = refl;
        is_closed = refl;
        is_see_other = a;
        is_joined = b;
        is_rewritten = c;
        belong = d;
      }

  captured-IsCaptured :
      (policy : SamlPolicy) (get : Text → Option Response × List Cookie) (login_url expected : Text)
      (checked : Result AuthenticationError Text) (bootstrap : BrowserBootstrap)
      → checked ≡ check_login_url zlib parse_xml urljoin login_url expected
      → (captured zlib parse_xml urljoin policy get login_url checked).result ≡ ok bootstrap
      → IsCaptured policy login_url expected
          (captured zlib parse_xml urljoin policy get login_url checked)
          bootstrap
  unfolding check_login_url
  captured-IsCaptured policy get login_url expected (err e) bootstrap c h = cc
  captured-IsCaptured policy get login_url expected (ok host) bootstrap c h =
      let (a, rest) = require_ok (text_eq login_url expected) wrong_login_url _ host (sym c) in
      answered-IsCaptured policy login_url expected host (get login_url) bootstrap
        ((text_eq_iff login_url expected).0 a) h

  -- A capture that succeeds asked for the login URL of the profile, was answered with a 303 and has
  -- closed the response; its login URL is the redirect's, rewritten under the policy, and its cookies
  -- belong to the host of the gateway.
  pub capture_meraki_redirect-IsCaptured :
      (policy : SamlPolicy) (get : Text → Option Response × List Cookie) (login_url expected : Text)
      (bootstrap : BrowserBootstrap)
      → (capture_meraki_redirect zlib parse_xml urljoin get login_url policy expected).result
        ≡ ok bootstrap
      → IsCaptured policy login_url expected
          (capture_meraki_redirect zlib parse_xml urljoin get login_url policy expected)
          bootstrap
  unfolding capture_meraki_redirect
  capture_meraki_redirect-IsCaptured policy get login_url expected bootstrap h =
      captured-IsCaptured policy get login_url expected
        (check_login_url zlib parse_xml urljoin login_url expected) bootstrap refl h
