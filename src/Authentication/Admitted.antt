-- ===== src/Authentication/Admitted.antt =====
-- What the service admits of a captured login URL, and what an authentication has shown.
use meraki_openconnect.Prelude.{
  ◌≡◌, refl, ap, ◌∙◌, Bool, true, false, not, ◌&&◌, ◌||◌, Option, some, [], Text, codes, text_eq,
  text_eq_iff, text_eq_refl, Result, ok, err, ◌>>=◌, require, arith, bind_ok, require_ok,
  ok_injective,
}
use meraki_openconnect.Url.{SplitResult, urlsplit, hostname, port, has_username, has_password}
use meraki_openconnect.Profile.Model.{OrganizationProfile}
use meraki_openconnect.Settings.Checks.{BrowserSettings}
use meraki_openconnect.Saml.{Bytes, Zlib, Root, is_text, is_https_port}
use meraki_openconnect.Saml.Redirect.{IsRewritten}
use meraki_openconnect.TlsPin.{TlsPeerEvidence}
use meraki_openconnect.Chrome.{build_extension_start_url, open_in_chrome}
use meraki_openconnect.Exchange.Server.{start, serve_all, wait}
use meraki_openconnect.Exchange.Token.{token_protocol}
use meraki_openconnect.Authentication.{
  AuthenticationError, BrowserAuthRequest, invalid_request, split_or_fail, pin_changed_meanwhile,
  pinning, opening, exchanging,
}
use meraki_openconnect.Authentication.Service.{
  https, saml_policy, is_expected_request, check_login, validate_browser_request, Surroundings,
  entered, browser_authenticate, raised, bootstrap,
}

-- What is left to check of a login URL that was rewritten under the policy of the profile
abbrev pub is_expected_path :
    OrganizationProfile → BrowserAuthRequest → SplitResult → SplitResult → Bool
is_expected_path profile request destination login =
    text_eq login.path destination.path
    && text_eq request.final_url (https profile.gateway.host profile.authentication.final_path)
    && text_eq request.token_cookie_name profile.authentication.token_cookie_name

-- The netloc alone decides on the host, the port and the user.
with_query : SplitResult → Text → SplitResult
with_query login query = record login { query = query; fragment = [] }

netloc-decides :
    (login : SplitResult) (query : Text)
    → (hostname (with_query login query) ≡ hostname login)
      × (port (with_query login query) ≡ port login)
      × (has_username (with_query login query) ≡ has_username login)
      × (has_password (with_query login query) ≡ has_password login)
unfolding with_query hostname port has_username has_password
netloc-decides login query = (refl, refl, refl, refl)

no_user_lem : (a b : Bool) → (a || b) ≡ false → (a ≡ false) × (b ≡ false)
no_user_lem a b h = (ground arith, ground arith)

path-left :
    (s h p u w path fragment final cookie : Bool)
    → s ≡ true
    → h ≡ true
    → p ≡ true
    → u ≡ false
    → w ≡ false
    → fragment ≡ true
    → (s && h && p && not u && not w && path && fragment && final && cookie)
      ≡ (path && final && cookie)
path-left s h p u w path fragment final cookie a b c d e f = rw (a, b, c, d, e, f) (ground arith)

expected_lem :
    (profile : OrganizationProfile) (request : BrowserAuthRequest) (destination login : SplitResult)
    (query : Text)
    → login.scheme ≡ codes "https"
    → hostname login ≡ some profile.authentication.idp_host
    → is_https_port (port login) ≡ true
    → (has_username login || has_password login) ≡ false
    → is_expected_request profile request destination (with_query login query)
      ≡ is_expected_path profile request destination login
unfolding with_query
expected_lem profile request destination login query a b c d =
    let (host, gate, user, password) = netloc-decides login query in
    let (no_name, no_password) = no_user_lem (has_username login) (has_password login) d in
    path-left _ _ _ _ _ _ _ _ _ (ap (λ s. text_eq s (codes "https")) a)
      (ap (is_text profile.authentication.idp_host) (host ∙ b)
        ∙ text_eq_refl profile.authentication.idp_host)
      (ap is_https_port gate ∙ c) (user ∙ no_name) (password ∙ no_password) refl

-- A login URL that was rewritten under the policy of the profile has the scheme, the host, the port
-- and the user that `_validate_browser_request` asks for, and no fragment: what it then still checks
-- is the path, the final URL and the name of the cookie.
pub validate_browser_request-rewritten :
    (zlib : Zlib) (parse_xml : Bytes → Option Root) (profile : OrganizationProfile)
    (request : BrowserAuthRequest) (url : Text) (destination : SplitResult)
    → urlsplit profile.authentication.destination ≡ some destination
    → (r : IsRewritten zlib parse_xml (saml_policy profile) url request.login_url)
    → validate_browser_request profile request
      ≡ require (is_expected_path profile request destination r.parsed) invalid_request
unfolding validate_browser_request saml_policy with_query
validate_browser_request-rewritten zlib parse_xml profile request url destination d r =
    ap (λ o. split_or_fail o >>= λ p. check_login profile request p (urlsplit request.login_url)) d
    ∙ ap (check_login profile request destination) r.new_url
    ∙ ap (λ b. require b invalid_request)
        (expected_lem profile request destination r.parsed r.query r.is_https r.is_host r.is_port
          r.no_user)

pub raised_lem :
    {E A : Type 0} (f : E → AuthenticationError) (r : Result E A) (a : A)
    → raised f r ≡ ok a
    → r ≡ ok a
raised_lem f (ok x) a h = ap ok (ok_injective x a h)
raised_lem f (err e) a h = cc

module _ (here : Surroundings) (profile : OrganizationProfile) (browser : BrowserSettings) where
  -- What a token has shown: the request was the expected one, the start page was opened, the callback gave the token for the bootstrap of the request, and the gateway had the pin still.
  pub record IsAuthenticated (pin : Text) (request : BrowserAuthRequest) (token : Text)
      : Type 0 where
    pub is_valid : validate_browser_request profile request ≡ ok tt
    pub start_url : Text
    pub is_built : build_extension_start_url browser.extension_id ≡ ok start_url
    pub is_opened : open_in_chrome here.run start_url ≡ ok tt
    pub is_delivered :
        (wait (
          serve_all here.codec
            (token_protocol (bootstrap here.sha256_hex profile request))
            here.events
            start)).0
        ≡ ok token
    pub evidence : TlsPeerEvidence
    pub is_measured : here.evidence_after ≡ ok evidence
    pub is_kept : evidence.spki_pin ≡ pin

  pub browser_authenticate-IsAuthenticated :
      (pin : Text) (request : BrowserAuthRequest) (token : Text)
      → browser_authenticate here profile browser pin request ≡ ok token
      → IsAuthenticated pin request token
  unfolding browser_authenticate
  browser_authenticate-IsAuthenticated pin request token h =
      let (t, a, entering) = bind_ok (validate_browser_request profile request) _ token h in
      let (u, b, building) = bind_ok (entered here.entering) _ token entering in
      let (start_url, c, opened) =
        bind_ok (raised opening (build_extension_start_url browser.extension_id)) _ token
          building in
      let (v, d, waiting) =
        bind_ok (raised opening (open_in_chrome here.run start_url)) _ token opened in
      let (given, e, measuring) = bind_ok (raised exchanging (wait _).0) _ token waiting in
      let (evidence, f, comparing) =
        bind_ok (raised pinning here.evidence_after) _ token measuring in
      let (g, end) =
        require_ok (text_eq evidence.spki_pin pin) pin_changed_meanwhile _ token comparing in
      record {
        is_valid = a;
        start_url = start_url;
        is_built = raised_lem opening _ start_url c;
        is_opened = raised_lem opening _ tt d;
        is_delivered = raised_lem exchanging _ token (e ∙ end);
        evidence = evidence;
        is_measured = raised_lem pinning _ evidence f;
        is_kept = (text_eq_iff evidence.spki_pin pin).0 g;
      }
