-- ===== src/Settings/Origin.antt =====
-- `_hostname` and `_gateway_origin` of settings.py.
use meraki_openconnect.Prelude.{
  ℕ, ◌≡◌, refl, ap, ◌∙◌, Bool, true, false, not, ◌&&◌, ◌||◌, Option, none, some, [], ◌∷◌, ◌++◌,
  Text, codes, text_eq, text_eq_iff, Result, ok, err, ◌>>=◌, ◌>>◌, require, raise_if, arith, length,
  map, all, leb, ltb, ◌==◌, is_digit, is_lower,
}
use meraki_openconnect.Ip.{parts, is_ipv4, is_ipv6}
use meraki_openconnect.Url.{
  SplitResult, urlsplit, hostname, Port, default, invalid, port, has_username, has_password, lower,
}
use meraki_openconnect.Settings.Checks.{SettingsError, invalid_gateway_origin, check_string}

abbrev is_label_end : ℕ → Bool
is_label_end c = is_lower c || is_digit c

last_is_end : Text → Bool
last_is_end [] = false
last_is_end (c ∷ []) = is_label_end c
last_is_end (c ∷ d ∷ s) = last_is_end (d ∷ s)

-- `[a-z0-9](?:[a-z0-9-]{0,61}[a-z0-9])?\Z`
unfoldable pub is_label : Text → Bool
unfolding last_is_end
is_label [] = false
is_label (c ∷ s) =
    is_label_end c
    && all (λ x. is_label_end x || x == b'-') s
    && leb (length s) 62
    && last_is_end (c ∷ s)

ends_with_dot : Text → Bool
ends_with_dot [] = false
ends_with_dot (c ∷ []) = c == b'.'
ends_with_dot (c ∷ d ∷ s) = ends_with_dot (d ∷ s)

-- `_hostname`. A character beyond ASCII fails the test on the labels, with the same error.
unfoldable pub check_hostname : Text → Result SettingsError Text
unfolding check_string parts is_label ends_with_dot
check_hostname value = do
  host ← check_string value
  raise_if (ltb 253 (length host) || not (text_eq host (map lower host)) || ends_with_dot host)
      invalid_gateway_origin
  raise_if (is_ipv4 host || is_ipv6 host) invalid_gateway_origin
  raise_if (ltb (length (parts b'.' host)) 2 || not (all (λ l. is_label l) (parts b'.' host)))
      invalid_gateway_origin
  ok host

abbrev pub is_default : Port → Bool
is_default default = true
is_default _ = false

abbrev pub is_invalid : Port → Bool
is_invalid invalid = true
is_invalid _ = false

-- The parts of `_gateway_origin`, the last first.
abbrev pub same_origin : Text → Result SettingsError Text → Result SettingsError Text
same_origin origin checked = do
  host ← checked
  require (text_eq origin (codes "https://" ++ host)) invalid_gateway_origin
  ok origin

abbrev pub origin_named : Text → SplitResult → Option Text → Result SettingsError Text
origin_named origin parsed none = err invalid_gateway_origin
origin_named origin parsed (some name) = do
  raise_if (is_invalid (port parsed)) invalid_gateway_origin
  require
      (text_eq parsed.scheme (codes "https")
        && not (has_username parsed)
        && not (has_password parsed)
        && is_default (port parsed)
        && length parsed.path == 0
        && length parsed.query == 0
        && length parsed.fragment == 0)
      invalid_gateway_origin
  same_origin origin (check_hostname name)

abbrev pub origin_of : Text → Option SplitResult → Result SettingsError Text
origin_of origin none = err invalid_gateway_origin
origin_of origin (some parsed) = origin_named origin parsed (hostname parsed)

-- `_gateway_origin`
unfoldable pub check_gateway_origin : Text → Result SettingsError Text
check_gateway_origin value = do origin ← check_string value; origin_of origin (urlsplit origin)

-- An accepted origin is `https://` and a host that passes `_hostname`.
abbrev pub IsOrigin : Text → Type 0
IsOrigin origin =
    (host : Text) × (origin ≡ codes "https://" ++ host) × (check_hostname host ≡ ok host)

check_hostname-id : (value host : Text) → check_hostname value ≡ ok host → host ≡ value
unfolding check_hostname check_string
check_hostname-id value host h = ground arith

same_origin-IsOrigin :
    (value name origin : Text) (r : Result SettingsError Text)
    → check_hostname name ≡ r
    → same_origin value r ≡ ok origin
    → (origin ≡ value) × IsOrigin origin
same_origin-IsOrigin value name origin (err e) c h = cc
same_origin-IsOrigin value name origin (ok host) c h =
    let k = check_hostname-id name host c in
    let e = text_eq_iff value (codes "https://" ++ host) in
    (ground arith, (host, ground (arith, e), ap check_hostname k ∙ c))

origin_named-IsOrigin :
    (value origin : Text) (parsed : SplitResult) (name : Option Text)
    → origin_named value parsed name ≡ ok origin
    → (origin ≡ value) × IsOrigin origin
origin_named-IsOrigin value origin parsed none h = cc
origin_named-IsOrigin value origin parsed (some name) h =
    same_origin-IsOrigin value name origin (check_hostname name) refl (ground arith)

origin_of-IsOrigin :
    (value : Text) (split : Option SplitResult) (origin : Text)
    → origin_of value split ≡ ok origin
    → (origin ≡ value) × IsOrigin origin
origin_of-IsOrigin value none origin h = cc
origin_of-IsOrigin value (some parsed) origin h =
    origin_named-IsOrigin value origin parsed (hostname parsed) h

-- An origin that `_gateway_origin` accepts is returned unchanged, and it is `https://` and a host
-- that passes `_hostname`.
pub check_gateway_origin-IsOrigin :
    (value origin : Text)
    → check_gateway_origin value ≡ ok origin
    → (origin ≡ value) × IsOrigin origin
unfolding check_gateway_origin check_string
check_gateway_origin-IsOrigin value origin h =
    origin_of-IsOrigin value (urlsplit value) origin (ground arith)
