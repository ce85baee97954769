-- ===== src/Authentication/Session.antt =====
-- What a session has shown: the capture, the browser and the two measurements of the pin together.
use mathlib.Core.Path.{subst}
use meraki_openconnect.Prelude.{
  ◌≡◌, refl, true, Option, List, Text, Result, ok, bind_ok, require_ok, ok_injective,
}
use meraki_openconnect.Profile.Model.{OrganizationProfile}
use meraki_openconnect.Settings.Checks.{BrowserSettings}
use meraki_openconnect.Saml.{Bytes, SamlPolicy, Zlib, Root}
use meraki_openconnect.TlsPin.{TlsPeerEvidence}
use meraki_openconnect.Authentication.{
  AuthenticationError, BrowserAuthRequest, BrowserBootstrap, Response, Capture, Cookie,
  capture_meraki_redirect, pin_changed, pinning,
}
use meraki_openconnect.Authentication.Laws.{IsCaptured, capture_meraki_redirect-IsCaptured}
use meraki_openconnect.Authentication.Service.{
  https, saml_policy, Surroundings, authenticate_in_browser, authenticate, AuthenticationResult,
  raised, is_pin,
}
use meraki_openconnect.Authentication.Admitted.{
  IsAuthenticated, browser_authenticate-IsAuthenticated, raised_lem,
}

abbrev pub Hook : Type 0
Hook = BrowserAuthRequest → Result AuthenticationError Text

-- An authenticator that completes has had a token of the hook that the browser is behind.
abbrev pub UsesHook : (Hook → Result AuthenticationError Text) → Type 0
UsesHook upstream =
    (hook : Hook) (session_token : Text)
    → upstream hook ≡ ok session_token
    → (request : BrowserAuthRequest) × (token : Text) × (hook request ≡ ok token)

module _ (zlib : Zlib) (parse_xml : Bytes → Option Root) (urljoin : Text → Text → Option Text)
    (get : Text → Option Response × List Cookie) (here : Surroundings)
    (profile : OrganizationProfile) (browser : BrowserSettings) where
  abbrev pub capture : Text → SamlPolicy → Text → Capture
  capture login_url policy expected =
      capture_meraki_redirect zlib parse_xml urljoin get login_url policy expected

  abbrev pub login_page : Text
  login_page = https profile.gateway.host profile.authentication.login_path

  -- A browser request of which the login URL was captured, and which the browser has answered.
  pub record IsAnswered (pin : Text) (asked : BrowserAuthRequest) (token : Text) : Type 0 where
    pub bootstrap : BrowserBootstrap
    pub is_captured :
        IsCaptured zlib parse_xml urljoin
          (saml_policy profile)
          asked.login_url
          login_page
          (capture asked.login_url (saml_policy profile) login_page)
          bootstrap
    pub is_authenticated :
        IsAuthenticated here profile browser pin
          (record asked { login_url = bootstrap.login_url; cookies = bootstrap.cookies })
          token

  authenticate_in_browser-IsAnswered :
      (pin : Text) (asked : BrowserAuthRequest) (token : Text)
      → authenticate_in_browser here profile browser capture pin asked ≡ ok token
      → IsAnswered pin asked token
  unfolding authenticate_in_browser
  authenticate_in_browser-IsAnswered pin asked token h =
      let (bootstrap, a, rest) =
        bind_ok (capture asked.login_url (saml_policy profile) login_page).result _ token h in
      record {
        bootstrap = bootstrap;
        is_captured =
            capture_meraki_redirect-IsCaptured zlib parse_xml urljoin (saml_policy profile) get
              asked.login_url login_page bootstrap a;
        is_authenticated =
            browser_authenticate-IsAuthenticated here profile browser pin _ token rest;
      }

  -- The pin of a result was measured before the browser was opened, is the expected one if there is one, and is the one of the browser's request.
  pub record IsSession (expected : Option Text) (result : AuthenticationResult) : Type 0 where
    pub evidence : TlsPeerEvidence
    pub is_measured : here.evidence_before ≡ ok evidence
    pub is_kept : result.server_cert_pin ≡ evidence.spki_pin
    pub is_expected : is_pin expected result.server_cert_pin ≡ true
    pub asked : BrowserAuthRequest
    pub token : Text
    pub is_answered : IsAnswered result.server_cert_pin asked token

  -- An authentication that completes found the pin that was expected, if one was, captured a redirect
  -- from the login page of the profile and rewrote it under the profile's policy, had a token of the
  -- callback for that login URL, and found the same pin again behind it, where the package's
  -- authenticator completes only with a token of its hook.
  pub authenticate-IsSession :
      (upstream : Hook → Result AuthenticationError Text) (expected : Option Text)
      (result : AuthenticationResult)
      → UsesHook upstream
      → authenticate here profile browser capture upstream expected ≡ ok result
      → IsSession expected result
  unfolding authenticate
  authenticate-IsSession upstream expected result uses h =
      let (evidence, a, comparing) = bind_ok (raised pinning here.evidence_before) _ result h in
      let (b, rest) =
        require_ok (is_pin expected evidence.spki_pin) pin_changed _ result comparing in
      let (session_token, c, end) =
        bind_ok (upstream (authenticate_in_browser here profile browser capture evidence.spki_pin))
          _ result rest in
      let (asked, token, d) = uses _ session_token c in
      subst (IsSession expected) (ok_injective _ result end) (record {
        evidence = evidence;
        is_measured = raised_lem pinning _ evidence a;
        is_kept = refl;
        is_expected = b;
        asked = asked;
        token = token;
        is_answered = authenticate_in_browser-IsAnswered evidence.spki_pin asked token d;
      })
