-- ===== src/Query.antt =====
-- `parse_qsl`, `urlencode` and `urlunsplit` of urllib.parse.
pub mod Utf8
pub mod Quote
pub mod Laws
use meraki_openconnect.Prelude.{
  ℕ, ◌+◌, ◌-◌, ◌*◌, ◌/◌, ◌%◌, Bool, ◌&&◌, ◌||◌, Option, none, some, List, [], ◌∷◌, ◌++◌, Text,
  codes, Result, ok, err, ◌>>=◌, map, ltb, ◌==◌, is_digit, is_lower, is_upper, if◌then◌else◌,
  starts_with, length,
}
use meraki_openconnect.Ip.{is_hex, parts}
use meraki_openconnect.Url.{partition}
use meraki_openconnect.Query.Utf8.{encode_utf8, decode_utf8}

-- The value of a hexadecimal digit, and the digit of a value.
pub hex_value : ℕ → ℕ
hex_value c = if is_digit c then c - b'0' else if is_upper c then c - 55 else c - 87

pub hex_digit : ℕ → ℕ
hex_digit v = if ltb v 10 then b'0' + v else 55 + v

-- `unquote_to_bytes` of an ASCII text: a `%` that two hexadecimal digits follow is a byte. The first argument counts the digits that have been read.
pub unquote_from : ℕ → Text → List ℕ
unfolding hex_value
unquote_from skip [] = []
unquote_from (ℕ.suc skip) (c ∷ s) = unquote_from skip s
unquote_from ℕ.zero (c ∷ []) = c ∷ []
unquote_from ℕ.zero (c ∷ d ∷ []) = c ∷ d ∷ []
unquote_from ℕ.zero (c ∷ d ∷ e ∷ s) =
    let found = c == b'%' && is_hex d && is_hex e in
    let rest = unquote_from (if found then 2 else 0) (d ∷ e ∷ s) in
    (if found then hex_value d * 16 + hex_value e else c) ∷ rest

plus_to_space : ℕ → ℕ
plus_to_space c = if c == b'+' then 0x20 else c

-- `unquote_plus` of an ASCII text
pub unquote_plus : Text → Text
unfolding unquote_from plus_to_space
unquote_plus s = decode_utf8 (unquote_from 0 (map plus_to_space s))

abbrev pub Pair : Type 0
Pair = Text × Text

-- One field, with `keep_blank_values` and `strict_parsing`; `none` is the `ValueError`.
pub parse_field : Text → Option Pair
unfolding unquote_plus partition
parse_field s =
    let (name, behind) = partition b'=' s in
    elim behind [ none ↦ none | some value ↦ some (unquote_plus name, unquote_plus value) ]

pub parse_fields : List Text → Option (List Pair)
unfolding parse_field
parse_fields [] = some []
parse_fields (s ∷ more) = elim (parse_field s) [
  | none ↦ none
  | some pair ↦ elim (parse_fields more) [ none ↦ none | some pairs ↦ some (pair ∷ pairs) ]
]

-- `parse_qsl(qs, keep_blank_values=True, strict_parsing=True)` of an ASCII text
unfoldable pub parse_qsl : Text → Option (List Pair)
unfolding parse_fields parts
parse_qsl [] = some []
parse_qsl (c ∷ s) = parse_fields (parts b'&' (c ∷ s))

-- `_ALWAYS_SAFE`
abbrev is_safe : ℕ → Bool
is_safe c =
    is_upper c || is_lower c || is_digit c || c == b'_' || c == b'.' || c == b'-' || c == b'~'

pub quote_byte : ℕ → Text
unfolding hex_digit
quote_byte b =
    if is_safe b
    then b ∷ []
    else if b == 0x20
    then b'+' ∷ []
    else b'%' ∷ hex_digit (b / 16) ∷ hex_digit (b % 16) ∷ []

pub quote_bytes : List ℕ → Text
unfolding quote_byte
quote_bytes [] = []
quote_bytes (b ∷ bs) = quote_byte b ++ quote_bytes bs

-- `quote_plus(value)`
pub quote_plus : Text → Text
unfolding quote_bytes encode_utf8
quote_plus s = quote_bytes (encode_utf8 s)

pub quote_pair : Pair → Text
unfolding quote_plus
quote_pair (name, value) = quote_plus name ++ b'=' ∷ quote_plus value

-- `urlencode(pairs)`
unfoldable pub urlencode : List Pair → Text
unfolding quote_pair
urlencode [] = []
urlencode (pair ∷ []) = quote_pair pair
urlencode (pair ∷ next ∷ more) = quote_pair pair ++ b'&' ∷ urlencode (next ∷ more)
