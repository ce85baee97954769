-- ===== src/Settings/Machine.antt =====
-- `_validated`, `_require_keys`, `_from_payload` and `_payload` of settings.py.
pub mod Laws
use meraki_openconnect.Prelude.{
  ℕ, Bool, true, false, not, ◌&&◌, ◌||◌, Option, none, some, List, [], ◌∷◌, Text, codes, text_eq,
  Result, ok, err, ◌>>=◌, ◌>>◌, require, raise_if, length, map, any, all, ltb, ◌==◌, one_of,
  starts_with, is_upper, if◌then◌else◌, ◌+◌,
}
use meraki_openconnect.Json.{Json, int, text, object, Fields, keys, get, of_pairs}
use meraki_openconnect.Settings.Checks.{
  SettingsError, unsupported_schema, invalid_string, not_an_object, secret_like_field,
  unknown_or_missing_field, MachineSettings, check_extension_id, check_digest,
}
use meraki_openconnect.Settings.Pin.{normalize_server_cert_pin}
use meraki_openconnect.Settings.Origin.{check_gateway_origin}

-- `isinstance(value, str)`
abbrev pub as_text : Json → Result SettingsError Text
as_text (text s) = ok s
as_text _ = err invalid_string

-- `type(value) is int and value == 1`
abbrev pub is_one : Json → Bool
is_one (int n) = n == 1
is_one _ = false

-- The fields of a `MachineSettings` as `_validated` finds them, which may be any values.
pub record RawSettings : Type 0 where
  pub schema_version : Json
  pub extension_id : Json
  pub extension_gateway_origin : Json
  pub extension_profile_digest : Json
  pub server_cert_pin : Json
  pub installed_policy_digest : Json

-- `_validated`
unfoldable pub validated : RawSettings → Result SettingsError MachineSettings
validated raw = do
  require (is_one raw.schema_version) unsupported_schema
  extension_id ← as_text raw.extension_id >>= λ s. check_extension_id s
  origin ← as_text raw.extension_gateway_origin >>= λ s. check_gateway_origin s
  profile_digest ← as_text raw.extension_profile_digest >>= λ s. check_digest s
  pin ← as_text raw.server_cert_pin >>= λ s. normalize_server_cert_pin s
  policy_digest ← as_text raw.installed_policy_digest >>= λ s. check_digest s
  ok (record {
    schema_version = 1;
    extension_id = extension_id;
    extension_gateway_origin = origin;
    extension_profile_digest = profile_digest;
    server_cert_pin = pin;
    installed_policy_digest = policy_digest;
  })

abbrev pub raw : MachineSettings → RawSettings
raw settings = record {
  schema_version = int settings.schema_version;
  extension_id = text settings.extension_id;
  extension_gateway_origin = text settings.extension_gateway_origin;
  extension_profile_digest = text settings.extension_profile_digest;
  server_cert_pin = text settings.server_cert_pin;
  installed_policy_digest = text settings.installed_policy_digest;
}

-- `validate_machine_settings`
unfoldable pub validate_machine_settings : MachineSettings → Result SettingsError MachineSettings
unfolding validated
validate_machine_settings settings = validated (raw settings)

-- `_SECRET_LIKE`
abbrev secret_like : List Text
secret_like =
    codes "assertion"
    ∷ codes "cookie"
    ∷ codes "credential"
    ∷ codes "password"
    ∷ codes "secret"
    ∷ codes "token"
    ∷ codes "totp"
    ∷ []

-- `_SETTINGS_KEYS`
abbrev pub settings_keys : List Text
settings_keys =
    codes "schema_version"
    ∷ codes "extension_id"
    ∷ codes "extension_gateway_origin"
    ∷ codes "extension_profile_digest"
    ∷ codes "server_cert_pin"
    ∷ codes "installed_policy_digest"
    ∷ []

-- `fragment in text`
unfoldable pub contains : Text → Text → Bool
contains [] fragment = length fragment == 0
contains (c ∷ s) fragment = starts_with (c ∷ s) fragment || contains s fragment

-- `str.lower`, as far as it yields letters of ASCII: U+212A, the Kelvin sign, yields one too.
abbrev key_lower : ℕ → ℕ
key_lower c = if c == 0x212a then b'k' else if is_upper c then c + 32 else c

abbrev pub is_secret_like : Text → Bool
is_secret_like key = any (λ fragment. contains (map key_lower key) fragment) secret_like

-- `_SETTINGS_KEYS`, and a key of an older version that is passed over.
abbrev pub is_known : Text → Bool
is_known key = one_of key settings_keys || text_eq key (codes "chrome_profile_directory")

pub unknown_keys : List Text → List Text
unknown_keys [] = []
unknown_keys (k ∷ ks) = let rest = unknown_keys ks in if is_known k then rest else k ∷ rest

-- `_require_keys`
pub require_keys : Fields → Result SettingsError (Unit {0})
unfolding unknown_keys contains
require_keys payload = do
  raise_if (any (λ k. is_secret_like k) (unknown_keys (keys payload))) secret_like_field
  raise_if
      (ltb 0 (length (unknown_keys (keys payload)))
        || not (all (λ k. one_of k (keys payload)) settings_keys))
      unknown_or_missing_field

abbrev pub value : Fields → Text → Result SettingsError Json
value fs key = elim (get key fs) [ none ↦ err unknown_or_missing_field | some v ↦ ok v ]

-- `_from_payload`. No `value` fails behind `_require_keys`.
unfoldable pub from_payload : Json → Result SettingsError MachineSettings
unfolding require_keys validated
from_payload (object fs) = do
  require_keys fs
  schema_version ← value fs (codes "schema_version")
  extension_id ← value fs (codes "extension_id")
  origin ← value fs (codes "extension_gateway_origin")
  profile_digest ← value fs (codes "extension_profile_digest")
  pin ← value fs (codes "server_cert_pin")
  policy_digest ← value fs (codes "installed_policy_digest")
  validated (record {
    schema_version = schema_version;
    extension_id = extension_id;
    extension_gateway_origin = origin;
    extension_profile_digest = profile_digest;
    server_cert_pin = pin;
    installed_policy_digest = policy_digest;
  })
from_payload _ = err not_an_object

-- `_payload`
unfoldable pub payload : MachineSettings → Json
payload settings = object (
    of_pairs (
      (codes "schema_version", int settings.schema_version)
      ∷ (codes "extension_id", text settings.extension_id)
      ∷ (codes "extension_gateway_origin", text settings.extension_gateway_origin)
      ∷ (codes "extension_profile_digest", text settings.extension_profile_digest)
      ∷ (codes "server_cert_pin", text settings.server_cert_pin)
      ∷ (codes "installed_policy_digest", text settings.installed_policy_digest)
      ∷ []))
