-- ===== src/Saml.antt =====
-- The rewriting of the redirect to the identity provider: saml.py. The decompressor and the XML
-- parser are parameters.
pub mod Laws
pub mod Redirect
pub mod Request
pub mod Tests
use meraki_openconnect.Prelude.{
  ℕ, suc, zero, ◌+◌, ◌-◌, Bool, true, false, not, ◌&&◌, ◌||◌, Option, none, some, List, [], ◌∷◌,
  ◌++◌, Text, codes, text_eq, one_of, Result, ok, err, ◌>>=◌, ◌>>◌, require, raise_if, length, any,
  all, ltb, ◌==◌, is_digit, is_lower, is_upper, starts_with, drop, take, if◌then◌else◌,
}
use meraki_openconnect.Url.{
  SplitResult, urlsplit, urlunsplit, hostname, Port, default, number, invalid, port, has_username,
  has_password,
}
use meraki_openconnect.Query.{Pair, parse_qsl, urlencode}
use meraki_openconnect.Settings.Base64.{encode, decode}

abbrev pub Bytes : Type 0
Bytes = List ℕ

pub data SamlError : Type 0 where
  -- `SamlRewriteError`, by its message
  too_large not_encoded not_xml not_authn_request wrong_destination wrong_issuer signed_request :
      SamlError
  no_force_authn wrong_endpoint signed_redirect not_one_request ambiguous : SamlError
  -- the `ValueError` of urllib.parse
  invalid_url : SamlError

pub record SamlPolicy : Type 0 where
  pub entra_host : Text
  pub issuer : Text
  pub destination : Text

-- What a call of `zlib.decompressobj(wbits=-15)` gives: the data, and whether `unconsumed_tail`, `eof` and `unused_data` hold something then.
pub record Inflated : Type 0 where
  pub data_of : Bytes
  pub has_tail : Bool
  pub eof : Bool
  pub has_unused : Bool

-- The two calls of the decompressor, `none` where it raises, and what the compressor makes of a text.
pub record Zlib : Type 0 where
  pub decompress : Bytes → ℕ → Option Inflated
  pub flush : Bytes → ℕ → ℕ → Option Inflated
  pub compress : Bytes → Bytes

abbrev pub max_inflated_bytes : ℕ
max_inflated_bytes = 262144

-- What the code reads of an XML document: the tag of the root and its `Destination`, the text of its first `Issuer` if it has one, whether there is a `Signature`, and the values of `ForceAuthn`.
pub record Root : Type 0 where
  pub tag : Text
  pub destination : Option Text
  pub issuer : Option (Option Text)
  pub has_signature : Bool
  pub force_authn : List Text

abbrev pub authn_request_tag : Text
authn_request_tag = codes "{urn:oasis:names:tc:SAML:2.0:protocol}AuthnRequest"

abbrev pub is_text : Text → Option Text → Bool
is_text t none = false
is_text t (some s) = text_eq s t

abbrev is_issuer : Text → Option (Option Text) → Bool
is_issuer t none = false
is_issuer t (some s) = is_text t s

abbrev is_one : Text → List Text → Bool
is_one t (s ∷ []) = text_eq s t
is_one t _ = false

abbrev pub of_option {ℓ} : {A : Type ℓ} → SamlError → Option A → Result SamlError A
of_option e none = err e
of_option e (some a) = ok a

-- The checks of `_validate_xml` on the root
pub check_root : SamlPolicy → Root → Result SamlError (Unit {0})
check_root policy root = do
  require (text_eq root.tag authn_request_tag) not_authn_request
  require (is_text policy.destination root.destination) wrong_destination
  require (is_issuer policy.issuer root.issuer) wrong_issuer
  raise_if root.has_signature signed_request
  require (is_one (codes "true") root.force_authn) no_force_authn

-- `\b` before a word: the byte before it is none of `[a-zA-Z0-9_]`.
abbrev pub is_word : ℕ → Bool
is_word c = is_lower c || is_upper c || is_digit c || c == b'_'

abbrev pub attribute : Text
attribute = codes "ForceAuthn="

-- `ForceAuthn=(?P<quote>["'])true(?P=quote)` at the start of a text: the quote
pub quote_of : Bytes → Option ℕ
quote_of [] = none
quote_of (q ∷ s) =
    if (q == 0x22 || q == 0x27) && starts_with s (codes "true" ++ q ∷ []) then some q else none

pub match_at : Bytes → Option ℕ
unfolding quote_of
match_at s = if starts_with s attribute then quote_of (drop 11 s) else none

-- `ForceAuthn=` and a value in quotes
abbrev pub set_to : Text → ℕ → Bytes
set_to value q = attribute ++ q ∷ value ++ q ∷ []

-- What a substitution adds to what it makes of the rest.
abbrev pub substitute : Option ℕ → ℕ → Bytes × ℕ → Bytes × ℕ
substitute none c (out, count) = (c ∷ out, count)
substitute (some q) c (out, count) = (set_to (codes "false") q ++ out, suc count)

abbrev pub rest_of : Option ℕ → ℕ
rest_of none = 0
rest_of (some q) = 16

-- `_FORCE_AUTHN.subn`, where the first argument tells that a word ends before the text, and the second counts the bytes of a match that are left.
pub subn : Bool → ℕ → Bytes → Bytes × ℕ
unfolding match_at
subn word n [] = ([], 0)
subn word (suc n) (c ∷ s) = subn (is_word c) n s
subn word zero (c ∷ s) =
    let found = if word then none else match_at (c ∷ s) in
    substitute found c (subn (is_word c) (rest_of found) s)

-- Where the query has its requests
abbrev pub is_request : Pair → Bool
is_request (key, value) = text_eq key (codes "SAMLRequest")

abbrev pub is_signed : Pair → Bool
is_signed (key, value) = one_of key (codes "Signature" ∷ codes "SigAlg" ∷ [])

pub request_indexes : ℕ → List Pair → List ℕ
request_indexes n [] = []
request_indexes n (p ∷ ps) =
    let more = request_indexes (suc n) ps in if is_request p then n ∷ more else more

abbrev pub value_at : ℕ → List Pair → Text
value_at i [] = []
value_at zero ((key, value) ∷ ps) = value
value_at (suc i) (p ∷ ps) = value_at i ps

-- `pairs[index] = …`
abbrev pub set_at : ℕ → Pair → List Pair → List Pair
set_at i p [] = []
set_at zero p (q ∷ ps) = p ∷ ps
set_at (suc i) p (q ∷ ps) = q ∷ set_at i p ps

abbrev pub only : List ℕ → Result SamlError ℕ
only (i ∷ []) = ok i
only _ = err not_one_request

abbrev pub is_https_port : Port → Bool
is_https_port default = true
is_https_port (number n) = n == 443
is_https_port invalid = false

abbrev pub check_port : Port → Result SamlError (Unit {0})
check_port default = ok tt
check_port (number n) = require (n == 443) wrong_endpoint
check_port invalid = err invalid_url

-- The checks of `rewrite_force_authn` on the parts of the URL
pub check_endpoint : SamlPolicy → SplitResult → Result SamlError (Unit {0})
check_endpoint policy parsed = do
  require (text_eq parsed.scheme (codes "https")) wrong_endpoint
  require (is_text policy.entra_host (hostname parsed)) wrong_endpoint
  check_port (port parsed)
  raise_if (has_username parsed || has_password parsed || not (length parsed.fragment == 0))
      wrong_endpoint

module _ (zlib : Zlib) (parse_xml : Bytes → Option Root) where
  -- `_inflate_raw_deflate`. The first test on the size is inside the `try`, whose handler takes its error, a `ValueError`, for one of the encoding.
  pub inflate_raw_deflate : Text → Result SamlError Bytes
  inflate_raw_deflate encoded = do
    compressed ← of_option not_encoded (decode encoded)
    first ← of_option not_encoded (zlib.decompress compressed (suc max_inflated_bytes))
    raise_if (ltb max_inflated_bytes (length first.data_of) || first.has_tail) not_encoded
    rest ← of_option not_encoded (
        zlib.flush compressed (suc max_inflated_bytes)
          (suc max_inflated_bytes - length first.data_of))
    raise_if (ltb max_inflated_bytes (length (first.data_of ++ rest.data_of)) || rest.has_tail)
        too_large
    require (rest.eof && not rest.has_unused) not_encoded
    ok (first.data_of ++ rest.data_of)

  -- `_validate_xml`
  pub validate_xml : SamlPolicy → Bytes → Result SamlError (Unit {0})
  unfolding check_root
  validate_xml policy xml = do root ← of_option not_xml (parse_xml xml); check_root policy root

  -- The substitution in the request, and its encoding
  pub rewrite_request : SamlPolicy → Text → Result SamlError Text
  unfolding inflate_raw_deflate validate_xml subn
  rewrite_request policy request = do
    xml ← inflate_raw_deflate request
    validate_xml policy xml
    require ((subn false 0 xml).1 == 1) ambiguous
    ok (encode (zlib.compress (subn false 0 xml).0))

  -- The pairs of the query, rewritten
  pub rewrite_pairs : SamlPolicy → List Pair → Result SamlError (List Pair)
  unfolding rewrite_request request_indexes
  rewrite_pairs policy pairs = do
    raise_if (any is_signed pairs) signed_redirect
    index ← only (request_indexes 0 pairs)
    request ← rewrite_request policy (value_at index pairs)
    ok (set_at index (codes "SAMLRequest", request) pairs)

  -- `rewrite_force_authn`
  unfoldable pub rewrite_force_authn : SamlPolicy → Text → Result SamlError Text
  unfolding check_endpoint rewrite_pairs
  rewrite_force_authn policy url = do
    parsed ← of_option invalid_url (urlsplit url)
    check_endpoint policy parsed
    pairs ← of_option invalid_url (parse_qsl parsed.query)
    rewritten ← rewrite_pairs policy pairs
    ok (urlunsplit parsed.scheme parsed.netloc parsed.path (urlencode rewritten))
