-- ===== src/Profile/Checks.antt =====
-- The checks that profile.py makes of single values, and its errors.
use meraki_openconnect.Prelude.{
  ℕ, Bool, true, false, not, ◌&&◌, ◌||◌, Option, none, some, List, [], ◌∷◌, ◌++◌, Text, codes,
  text_eq, Result, ok, err, ◌>>=◌, ◌>>◌, require, raise_if, length, map, all, any, leb, ltb, ◌==◌,
  is_digit, is_lower, is_upper, one_of, starts_with, if◌then◌else◌,
}
use meraki_openconnect.Ip.{parts, is_ipv4, is_ipv6}
use meraki_openconnect.Url.{
  SplitResult, urlsplit, hostname, Port, default, number, invalid, port, has_username, has_password,
  lower,
}
use meraki_openconnect.Json.{Json, text, array, object, Fields, keys, to_list, get, null}
use meraki_openconnect.Settings.Checks.{is_control}
use meraki_openconnect.Settings.Machine.{contains, is_secret_like}
use meraki_openconnect.Settings.Origin.{is_label}

-- `value_error` is a `ValueError` of `urlsplit` that is not turned into a `ProfileError`.
pub data ProfileError : Type 0 where
  invalid_object invalid_collection secret_like_field unknown_or_missing_field : ProfileError
  invalid_string invalid_name invalid_hostname invalid_address invalid_endpoint : ProfileError
  invalid_path invalid_cookie unsupported_authentication invalid_identity_provider : ProfileError
  invalid_dns_rule invalid_record_type invalid_port unsupported_check : ProfileError
  unsupported_schema value_error : ProfileError

-- What profile.py takes from Python: `str(ipaddress.ip_address(s))`, `urllib.parse.unquote` and
-- `str.isprintable`.
pub record Library : Type 0 where
  pub canonical_address : Text → Option Text
  pub unquote : Text → Text
  pub is_printable : Text → Bool

-- `_object` and `_array`
abbrev pub as_object : Json → Result ProfileError Fields
as_object (object fs) = ok fs
as_object _ = err invalid_object

abbrev pub as_array : ℕ → Json → Result ProfileError (List Json)
as_array maximum (array xs) =
    if leb (length (to_list xs)) maximum then ok (to_list xs) else err invalid_collection
as_array maximum _ = err invalid_collection

-- The keys that are not allowed.
pub unknown : List Text → List Text → List Text
unknown allowed [] = []
unknown allowed (k ∷ ks) =
    let rest = unknown allowed ks in if one_of k allowed then rest else k ∷ rest

-- `_require_keys`
unfoldable pub require_keys : Fields → List Text → Result ProfileError (Unit {0})
unfolding unknown
require_keys fs allowed = do
  raise_if (any (λ k. is_secret_like k) (unknown allowed (keys fs))) secret_like_field
  raise_if
      (ltb 0 (length (unknown allowed (keys fs))) || not (all (λ k. one_of k (keys fs)) allowed))
      unknown_or_missing_field

-- `value[key]` behind `_require_keys`, and `value.get(key)`
abbrev pub value_of : Fields → Text → Json
value_of fs key = elim (get key fs) [ none ↦ null | some v ↦ v ]

-- `_string`
unfoldable pub check_string : Json → Result ProfileError Text
check_string (text s) = if length s == 0 || any is_control s then err invalid_string else ok s
check_string _ = err invalid_string

-- `_?` and a label with at most 60 characters between its ends
pub is_dns_label : Text → Bool
is_dns_label [] = false
is_dns_label (c ∷ s) =
    if c == b'_' then is_label s && leb (length s) 62 else is_label (c ∷ s) && leb (length s) 61

ends_with_dot : Text → Bool
ends_with_dot [] = false
ends_with_dot (c ∷ []) = c == b'.'
ends_with_dot (c ∷ d ∷ s) = ends_with_dot (d ∷ s)

abbrev is_label_of : Bool → Text → Bool
is_label_of true s = is_dns_label s
is_label_of false s = is_label s

-- The tests of `_canonical_hostname`. A character beyond ASCII fails the test on the labels.
unfoldable pub is_hostname : Bool → Text → Bool
unfolding ends_with_dot
is_hostname underscores host =
    leb (length host) 253
    && text_eq host (map lower host)
    && not (ends_with_dot host)
    && not (is_ipv4 host || is_ipv6 host)
    && leb 2 (length (parts b'.' host))
    && all (λ l. is_label_of underscores l) (parts b'.' host)

-- `_canonical_hostname`
unfoldable pub check_hostname : Bool → Json → Result ProfileError Text
check_hostname underscores v = check_string v >>= λ host.
    if is_hostname underscores host then ok host else err invalid_hostname

-- `[A-Za-z0-9!#$%&'*+.^_`|~-]{1,127}\Z`
unfoldable pub is_cookie_name : Text → Bool
is_cookie_name s =
    leb 1 (length s)
    && leb (length s) 127
    && all
        (λ c. is_lower c || is_upper c || is_digit c || any (λ x. x == c) (codes "!#$%&'*+.^_`|~-"))
        s

-- `_cookie_name`
unfoldable pub check_cookie_name : Json → Result ProfileError Text
check_cookie_name v =
    check_string v >>= λ name. if is_cookie_name name then ok name else err invalid_cookie

abbrev is_https_port : Port → Bool
is_https_port default = true
is_https_port (number n) = n == 443
is_https_port invalid = false

-- The host of an endpoint that passes the tests of `_https_url`.
abbrev endpoint_of : Text → Option SplitResult → Result ProfileError (Text × Text)
endpoint_of url none = err invalid_endpoint
endpoint_of url (some parsed) = elim (hostname parsed) [
  | none ↦ err invalid_endpoint
  | some name ↦ do
    require
        (text_eq parsed.scheme (codes "https")
          && leb 1 (length parsed.netloc)
          && not (has_username parsed)
          && not (has_password parsed)
          && is_https_port (port parsed)
          && length parsed.fragment == 0
          && starts_with parsed.path (codes "/"))
        invalid_endpoint
    host ← check_hostname false (text name)
    require (text_eq parsed.netloc host || text_eq parsed.netloc (host ++ codes ":443"))
        invalid_endpoint
    ok (url, host)
]

-- `_https_url`
unfoldable pub check_https_url : Json → Result ProfileError (Text × Text)
check_https_url v = check_string v >>= λ url. endpoint_of url (urlsplit url)

abbrev pub address_of : Option Text → Result ProfileError Text
address_of none = err invalid_address
address_of (some address) = ok address

module _ (library : Library) where
  -- `_display_name`
  unfoldable pub check_display_name : Json → Result ProfileError Text
  check_display_name v = check_string v >>= λ name.
      if leb (length name) 80 && library.is_printable name then ok name else err invalid_name

  -- `_ip_address`
  unfoldable pub check_address : Json → Result ProfileError Text
  check_address v = check_string v >>= λ s. address_of (library.canonical_address s)

  -- The tests of `_absolute_path` on a path that `urlsplit` takes apart.
  unfoldable pub is_absolute_path : Text → SplitResult → Bool
  is_absolute_path path parsed =
      starts_with path (codes "/")
      && not (starts_with path (codes "//"))
      && length parsed.scheme == 0
      && length parsed.netloc == 0
      && length parsed.query == 0
      && length parsed.fragment == 0
      && not (contains path (codes "\\"))
      && text_eq (library.unquote path) path
      && not (contains path (codes "//"))
      && not (any (λ p. one_of p (codes "." ∷ codes ".." ∷ [])) (parts b'/' path))

  -- `_absolute_path`
  unfoldable pub check_path : Json → Result ProfileError Text
  check_path v = check_string v >>= λ path. elim (urlsplit path) [
    | none ↦ err value_error
    | some parsed ↦ if is_absolute_path path parsed then ok path else err invalid_path
  ]
