-- ===== src/Settings/Checks.antt =====
-- The checks that settings.py makes of single values, and its errors.
use meraki_openconnect.Prelude.{
  ℕ, Bool, false, ◌&&◌, ◌||◌, [], ◌∷◌, Text, codes, text_eq, Result, ok, ◌>>=◌, ◌>>◌, require,
  raise_if, length, all, any, leb, ltb, ◌==◌, is_digit,
}

pub data SettingsError : Type 0 where
  invalid_string invalid_extension_id invalid_gateway_origin invalid_digest : SettingsError
  invalid_pin unsupported_schema not_an_object secret_like_field : SettingsError
  unknown_or_missing_field unreadable not_saved : SettingsError

pub record BrowserSettings : Type 0 where
  pub extension_id : Text

pub record MachineSettings : Type 0 where
  pub schema_version : ℕ
  pub extension_id : Text
  pub extension_gateway_origin : Text
  pub extension_profile_digest : Text
  pub server_cert_pin : Text
  pub installed_policy_digest : Text

pub browser_settings : MachineSettings → BrowserSettings
browser_settings settings = record { extension_id = settings.extension_id }

-- `unicodedata.category(character) == "Cc"`: the control characters of ASCII and of Latin-1.
abbrev pub is_control : ℕ → Bool
is_control c = ltb c 0x20 || leb 0x7f c && leb c 0x9f

-- `_string`, of a value that is a text.
unfoldable pub check_string : Text → Result SettingsError Text
check_string value = do
  raise_if (length value == 0) invalid_string
  raise_if (any is_control value) invalid_string
  ok value

-- `[a-p]{32}\Z`
abbrev pub is_extension_id : Text → Bool
is_extension_id s = length s == 32 && all (λ c. leb b'a' c && leb c b'p') s

unfoldable pub check_extension_id : Text → Result SettingsError Text
unfolding check_string
check_extension_id value = do
  extension_id ← check_string value
  require (is_extension_id extension_id) invalid_extension_id
  ok extension_id

abbrev pub is_lower_hex : ℕ → Bool
is_lower_hex c = is_digit c || leb b'a' c && leb c b'f'

-- `_DIGEST`: `sha256:[0-9a-f]{64}\Z`
abbrev pub is_digest : Text → Bool
is_digest (a ∷ b ∷ c ∷ d ∷ e ∷ f ∷ g ∷ hex) =
    text_eq (a ∷ b ∷ c ∷ d ∷ e ∷ f ∷ g ∷ []) (codes "sha256:")
    && length hex == 64
    && all is_lower_hex hex
is_digest _ = false

unfoldable pub check_digest : Text → Result SettingsError Text
unfolding check_string
check_digest value = do
  digest ← check_string value
  require (is_digest digest) invalid_digest
  ok digest

-- `validate_browser_settings`
unfoldable pub validate_browser_settings : BrowserSettings → Result SettingsError BrowserSettings
unfolding check_extension_id
validate_browser_settings settings = do
  extension_id ← check_extension_id settings.extension_id
  ok (record { extension_id = extension_id })
