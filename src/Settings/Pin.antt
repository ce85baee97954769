-- ===== src/Settings/Pin.antt =====
-- `normalize_server_cert_pin` of settings.py.
pub mod Laws
pub mod Encoded
use meraki_openconnect.Prelude.{
  ℕ, ◌+◌, Bool, true, false, ◌&&◌, ◌||◌, Option, none, some, List, [], ◌∷◌, ◌++◌, Text, codes,
  text_eq, Result, ok, err, ◌>>=◌, length, map, all, leb, ltb, ◌==◌, is_digit, is_lower, is_upper,
  if◌then◌else◌,
}
use meraki_openconnect.Settings.Checks.{SettingsError, invalid_pin, check_string}
use meraki_openconnect.Settings.Base64.{encode, decode}

-- `s.partition(":")`: what stands before the first colon, and behind it if there is one.
pub partition : Text → Text × Option Text
partition [] = ([], none)
partition (c ∷ s) =
    let (before, behind) = partition s in if c == b':' then ([], some s) else (c ∷ before, behind)

-- ASCII letters only. No other character has a lower case that occurs in the three prefixes.
pub lower : ℕ → ℕ
lower c = if is_upper c then c + 32 else c

abbrev pub is_hex : ℕ → Bool
is_hex c = is_digit c || leb b'A' c && leb c b'F' || leb b'a' c && leb c b'f'

-- `_HEX_SHA1` and `_HEX_SHA256`
abbrev pub is_sha1 : Text → Bool
is_sha1 s = length s == 40 && all is_hex s

abbrev pub is_sha256 : Text → Bool
is_sha256 s = length s == 64 && all is_hex s

-- `_BASE64`: `[A-Za-z0-9+/]+={0,2}\Z`, on a text whose first sign is no padding.
is_base64_sign : ℕ → Bool
is_base64_sign c = is_upper c || is_lower c || is_digit c || c == b'+' || c == b'/'

base64_tail : Text → Bool
base64_tail [] = true
base64_tail (c ∷ s) =
    is_base64_sign c && base64_tail s || text_eq (c ∷ s) (codes "=") || text_eq (c ∷ s) (codes "==")

pub is_base64 : Text → Bool
unfolding is_base64_sign base64_tail
is_base64 [] = false
is_base64 (c ∷ s) = is_base64_sign c && base64_tail s

-- 32 bytes, in their one encoding.
pub is_spki : Text → Bool
unfolding is_base64
is_spki encoded = is_base64 encoded && (elim (decode encoded) [
  | none ↦ false
  | some decoded ↦ length decoded == 32 && text_eq (encode decoded) encoded
])

-- The three prefixed forms.
normalize_prefixed : Text → Text → Result SettingsError Text
normalize_prefixed prefix encoded =
    if text_eq prefix (codes "sha1") && is_sha1 encoded
    then ok (codes "sha1:" ++ encoded)
    else if text_eq prefix (codes "sha256") && is_sha256 encoded
    then ok (codes "sha256:" ++ encoded)
    else if text_eq prefix (codes "pin-sha256") && is_spki encoded
    then ok (codes "pin-sha256:" ++ encoded)
    else err invalid_pin

abbrev after_partition : Text × Option Text → Result SettingsError Text
after_partition (prefix, none) = err invalid_pin
after_partition (prefix, some encoded) = normalize_prefixed (map lower prefix) encoded

-- `normalize_server_cert_pin`
unfoldable pub normalize_server_cert_pin : Text → Result SettingsError Text
unfolding normalize_prefixed partition lower
normalize_server_cert_pin server_cert_pin = do
  pin ← check_string server_cert_pin
  if is_sha1 pin then ok (codes "sha1:" ++ pin) else after_partition (partition pin)
