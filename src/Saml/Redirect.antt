-- ===== src/Saml/Redirect.antt =====
-- What a rewritten redirect says to whoever reads it.
use mathlib.Core.Path.{subst}
use meraki_openconnect.Prelude.{
  ℕ, ◌+◌, ◌≡◌, refl, ap, sym, ◌∙◌, true, false, not, ◌||◌, Option, none, some, List, [], ◌∷◌, Text,
  codes, text_eq, text_eq_iff, ok, ok_injective, bind_ok, require_ok, raise_if_ok, arith, all, any,
  ◌==◌, ==_iff, all-map, ◌*◌, ◌/◌, ◌%◌,
}
use meraki_openconnect.Url.{
  SplitResult, urlsplit, urlunsplit, hostname, Port, default, number, invalid, port, has_username,
  has_password,
}
use meraki_openconnect.Url.Parts.{is_break, urlsplit-IsSplit}
use meraki_openconnect.Url.Unsplit.{IsScheme, https-IsScheme, hostname-netloc, urlsplit-urlunsplit}
use meraki_openconnect.Query.{Pair, parse_qsl, urlencode}
use meraki_openconnect.Query.Utf8.{is_scalar}
use meraki_openconnect.Query.Laws.{
  parse_qsl-urlencode, parse_qsl-IsScalar, urlencode-safe, is_url_char,
}
use meraki_openconnect.Settings.Base64.{encode, sign}
use meraki_openconnect.Saml.{
  Bytes, ambiguous, invalid_url, check_port, is_text, is_https_port, wrong_endpoint, only,
  signed_redirect, SamlError, SamlPolicy, Zlib, Root, of_option, subn, is_signed, request_indexes,
  value_at, check_endpoint, inflate_raw_deflate, validate_xml, rewrite_request, rewrite_pairs,
  rewrite_force_authn,
}
use meraki_openconnect.Saml.Request.{IsRequest, one-request, placed, request-scalar}
use meraki_openconnect.Saml.Laws.{IsOneChange, one-changed}

-- A request that the policy admits, and that its successor differs from in one `ForceAuthn`.
pub record IsAdmitted (zlib : Zlib) (parse_xml : Bytes → Option Root) (policy : SamlPolicy)
    (request rewritten : Text) : Type 0 where
  pub xml : Bytes
  pub new_xml : Bytes
  pub is_read : inflate_raw_deflate zlib parse_xml request ≡ ok xml
  pub is_valid : validate_xml zlib parse_xml policy xml ≡ ok tt
  pub is_changed : IsOneChange xml new_xml
  pub is_printed : rewritten ≡ encode (zlib.compress new_xml)

-- The parts of a URL and of the URL that it is rewritten to, which differ in the request.
pub record IsRewritten (zlib : Zlib) (parse_xml : Bytes → Option Root) (policy : SamlPolicy)
    (url new : Text) : Type 0 where
  pub parsed : SplitResult
  pub pairs : List Pair
  pub query : Text
  pub new_pairs : List Pair
  pub request : Text
  pub rewritten : Text
  pub is_url : urlsplit url ≡ some parsed
  pub is_https : parsed.scheme ≡ codes "https"
  pub is_host : hostname parsed ≡ some policy.entra_host
  pub is_port : is_https_port (port parsed) ≡ true
  pub no_user : (has_username parsed || has_password parsed) ≡ false
  pub is_query : parse_qsl parsed.query ≡ some pairs
  pub is_request : IsRequest pairs new_pairs request rewritten
  pub is_admitted : IsAdmitted zlib parse_xml policy request rewritten
  pub new_url : urlsplit new ≡ some (record parsed { query = query; fragment = [] })
  pub new_query : parse_qsl query ≡ some new_pairs

module _ (zlib : Zlib) (parse_xml : Bytes → Option Root) (policy : SamlPolicy) where
  rewrite_request-IsAdmitted :
      (request new : Text)
      → rewrite_request zlib parse_xml policy request ≡ ok new
      → IsAdmitted zlib parse_xml policy request new
  unfolding rewrite_request
  rewrite_request-IsAdmitted request new h =
      let (xml, a, after) = bind_ok (inflate_raw_deflate zlib parse_xml request) _ new h in
      let (u, b, rest) = bind_ok (validate_xml zlib parse_xml policy xml) _ new after in
      let (c, d) = require_ok ((subn false 0 xml).1 == 1) ambiguous _ new rest in
      record {
        xml = xml;
        new_xml = (subn false 0 xml).0;
        is_read = a;
        is_valid = b;
        is_changed = one-changed false 0 xml ((==_iff _ 1).0 c);
        is_printed = sym (ok_injective _ new d);
      }

is_text_lem : (t : Text) (o : Option Text) → is_text t o ≡ true → o ≡ some t
is_text_lem t none h = cc
is_text_lem t (some s) h = ap some ((text_eq_iff s t).0 h)

of_option_lem :
    {A : Type 0} (e : SamlError) (o : Option A) (a : A) → of_option e o ≡ ok a → o ≡ some a
of_option_lem e none a h = cc
of_option_lem e (some x) a h = ap some (ok_injective x a h)

check_port_lem : (p : Port) (u : Unit {0}) → check_port p ≡ ok u → is_https_port p ≡ true
check_port_lem default u h = refl
check_port_lem (number n) u h = ground arith
check_port_lem invalid u h = cc

-- Parts that pass the checks of the endpoint
record IsEndpoint (policy : SamlPolicy) (parsed : SplitResult) : Type 0 where
  is_https : parsed.scheme ≡ codes "https"
  is_host : hostname parsed ≡ some policy.entra_host
  is_port : is_https_port (port parsed) ≡ true
  no_user : (has_username parsed || has_password parsed) ≡ false

check_endpoint-IsEndpoint :
    (policy : SamlPolicy) (parsed : SplitResult) (u : Unit {0})
    → check_endpoint policy parsed ≡ ok u
    → IsEndpoint policy parsed
unfolding check_endpoint
check_endpoint-IsEndpoint policy parsed u h =
    let (a, rest) = require_ok (text_eq parsed.scheme (codes "https")) wrong_endpoint _ u h in
    let (b, more) =
      require_ok (is_text policy.entra_host (hostname parsed)) wrong_endpoint _ u rest in
    let (v, c, last) = bind_ok (check_port (port parsed)) _ u more in
    record {
      is_https = (text_eq_iff _ _).0 a;
      is_host = is_text_lem _ _ b;
      is_port = check_port_lem (port parsed) v c;
      no_user = ground arith;
    }

only_lem : (is : List ℕ) (i : ℕ) → only is ≡ ok i → is ≡ i ∷ []
only_lem [] i h = cc
only_lem (j ∷ []) i h = ap (λ x. x ∷ []) (ok_injective j i h)
only_lem (j ∷ k ∷ is) i h = cc

sign-scalar : (v : ℕ) → is_scalar (sign v) ≡ true
unfolding sign
sign-scalar v = ground arith

encode-scalar : (bs : Bytes) → all is_scalar (encode bs) ≡ true
unfolding encode
encode-scalar [] = refl
encode-scalar (a ∷ []) = ground (arith, sign-scalar (a / 4), sign-scalar (a % 4 * 16))
encode-scalar (a ∷ b ∷ []) =
    rw (sign-scalar (a / 4), sign-scalar (a % 4 * 16 + b / 16), sign-scalar (b % 16 * 4)) refl
encode-scalar (a ∷ b ∷ c ∷ bs) =
    rw
      (
        sign-scalar (a / 4),
        sign-scalar (a % 4 * 16 + b / 16),
        sign-scalar (b % 16 * 4 + c / 64),
        sign-scalar (c % 64),
      )
      (encode-scalar bs)

module _ (zlib : Zlib) (parse_xml : Bytes → Option Root) (policy : SamlPolicy) where
  abbrev Pairs : List Pair → List Pair → Type 0
  Pairs pairs new =
      (request rewritten : Text) × IsRequest pairs new request rewritten
      × IsAdmitted zlib parse_xml policy request rewritten

  rewrite_pairs-IsRequest :
      (pairs new : List Pair) → rewrite_pairs zlib parse_xml policy pairs ≡ ok new → Pairs pairs new
  unfolding rewrite_pairs
  rewrite_pairs-IsRequest pairs new h =
      let (s, rest) = raise_if_ok (any is_signed pairs) signed_redirect _ new h in
      let (i, a, then_) = bind_ok (only (request_indexes 0 pairs)) _ new rest in
      let (text, b, c) =
        bind_ok (rewrite_request zlib parse_xml policy (value_at i pairs)) _ new then_ in
      let found = placed pairs i text (one-request 0 i pairs text (only_lem _ i a) s) in
      (
        value_at i pairs,
        text,
        subst (λ n. IsRequest pairs n (value_at i pairs) text) (ok_injective _ new c) found,
        rewrite_request-IsAdmitted zlib parse_xml policy (value_at i pairs) text b,
      )

  -- Parts that pass the checks of the endpoint, with a query that is rewritten.
  joined-IsRewritten :
      (url : Text) (parsed : SplitResult) (pairs new : List Pair)
      → urlsplit url ≡ some parsed
      → check_endpoint policy parsed ≡ ok tt
      → parse_qsl parsed.query ≡ some pairs
      → rewrite_pairs zlib parse_xml policy pairs ≡ ok new
      → IsRewritten zlib parse_xml policy url
          (urlunsplit parsed.scheme parsed.netloc parsed.path (urlencode new))
  joined-IsRewritten url parsed pairs new a b c d =
      let endpoint = check_endpoint-IsEndpoint policy parsed tt b in
      let (request, rewritten, r, admitted) = rewrite_pairs-IsRequest pairs new d in
      let scalar =
        request-scalar pairs new request rewritten r
          (ap (all is_scalar) admitted.is_printed ∙ encode-scalar _)
          (parse_qsl-IsScalar parsed.query pairs c) in
      record {
        parsed = parsed;
        pairs = pairs;
        query = urlencode new;
        new_pairs = new;
        request = request;
        rewritten = rewritten;
        is_url = a;
        is_https = endpoint.is_https;
        is_host = endpoint.is_host;
        is_port = endpoint.is_port;
        no_user = endpoint.no_user;
        is_query = c;
        is_request = r;
        is_admitted = admitted;
        new_url =
            urlsplit-urlunsplit parsed (urlencode new)
              (subst IsScheme (sym endpoint.is_https) https-IsScheme)
              (urlsplit-IsSplit url parsed a
                (hostname-netloc parsed policy.entra_host endpoint.is_host))
              (all-map is_url_char (λ x. not (x == b'#')) (urlencode new) (λ x m. ground arith)
                (urlencode-safe new scalar))
              (all-map is_url_char (λ x. not (is_break x)) (urlencode new) (λ x m. ground arith)
                (urlencode-safe new scalar));
        new_query = parse_qsl-urlencode new scalar;
      }

  -- A redirect that is accepted goes to the host of the policy by `https`, and has one request, no
  -- signature, and in the request an XML text that passes the checks of the policy. What it is
  -- rewritten to is split to the same scheme, netloc and path, and read as the same pairs but for
  -- the request, which encodes a text that differs in `ForceAuthn` alone, `true` in the one and
  -- `false` in the other.
  pub rewrite_force_authn-IsRewritten :
      (url new : Text)
      → rewrite_force_authn zlib parse_xml policy url ≡ ok new
      → IsRewritten zlib parse_xml policy url new
  unfolding rewrite_force_authn
  rewrite_force_authn-IsRewritten url new h =
      let (parsed, a, rest) = bind_ok (of_option invalid_url (urlsplit url)) _ new h in
      let (u, b, query) = bind_ok (check_endpoint policy parsed) _ new rest in
      let (pairs, c, more) = bind_ok (of_option invalid_url (parse_qsl parsed.query)) _ new query in
      let (pairs', d, e) = bind_ok (rewrite_pairs zlib parse_xml policy pairs) _ new more in
      subst (IsRewritten zlib parse_xml policy url) (ok_injective _ new e) (
        joined-IsRewritten url parsed pairs pairs' (of_option_lem _ _ parsed a) b
          (of_option_lem _ _ pairs c) d)
