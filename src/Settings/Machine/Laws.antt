-- ===== src/Settings/Machine/Laws.antt =====
-- Validated settings are normal, and survive their way through the settings file.
use meraki_openconnect.Prelude.{
  ◌≡◌, refl, ap, ◌∙◌, true, false, List, [], ◌∷◌, Text, ok, arith, length, all, any, ◌↔◌,
  Bool-cases, inl, inr, one_of,
}
use meraki_openconnect.Json.{Fields, keys}
use meraki_openconnect.Settings.Checks.{
  MachineSettings, check_extension_id, check_digest, check_string,
}
use meraki_openconnect.Settings.Pin.{normalize_server_cert_pin}
use meraki_openconnect.Settings.Pin.Laws.{IsCanonical, normalize_server_cert_pin-IsCanonical}
use meraki_openconnect.Settings.Origin.{
  check_gateway_origin, IsOrigin, check_gateway_origin-IsOrigin,
}
use meraki_openconnect.Settings.Machine.{
  validate_machine_settings, from_payload, is_known, is_secret_like, settings_keys, payload,
  require_keys, unknown_keys, contains,
}

-- Loading what `_payload` wrote validates it.
from_payload-payload :
    (settings : MachineSettings)
    → from_payload (payload settings) ≡ validate_machine_settings settings
unfolding from_payload payload validate_machine_settings require_keys unknown_keys contains
from_payload-payload settings = refl

check_extension_id-id : (v u : Text) → check_extension_id v ≡ ok u → u ≡ v
unfolding check_extension_id check_string
check_extension_id-id v u h = ground arith

check_digest-id : (v u : Text) → check_digest v ≡ ok u → u ≡ v
unfolding check_digest check_string
check_digest-id v u h = ground arith

-- What the checks of all fields gave.
abbrev Passed : MachineSettings → MachineSettings → Type 0
Passed settings t =
    (settings.schema_version ≡ 1)
    × (check_extension_id settings.extension_id ≡ ok t.extension_id)
    × (check_gateway_origin settings.extension_gateway_origin ≡ ok t.extension_gateway_origin)
    × (check_digest settings.extension_profile_digest ≡ ok t.extension_profile_digest)
    × (normalize_server_cert_pin settings.server_cert_pin ≡ ok t.server_cert_pin)
    × (check_digest settings.installed_policy_digest ≡ ok t.installed_policy_digest)
    × (t.schema_version ≡ 1)

validate-Passed :
    (settings t : MachineSettings) → validate_machine_settings settings ≡ ok t → Passed settings t
unfolding validate_machine_settings
validate-Passed settings t h = ground arith

Passed-validate :
    (settings t : MachineSettings) → Passed settings t → validate_machine_settings settings ≡ ok t
unfolding validate_machine_settings
Passed-validate settings t h = ground arith

-- The fields of validated settings: those of the settings but for the pin, which is canonical, and
-- an origin of `https://` and a host name.
abbrev pub IsValid : MachineSettings → Type 0
IsValid t = IsOrigin t.extension_gateway_origin × IsCanonical t.server_cert_pin

-- Settings that pass the validation have an origin and a pin in their canonical forms. Validated
-- again they are unchanged, and loading what is saved of them gives them back.
pub validate_machine_settings-IsValid :
    (settings t : MachineSettings)
    → validate_machine_settings settings ≡ ok t
    → IsValid t × (validate_machine_settings t ≡ ok t) × (from_payload (payload t) ≡ ok t)
validate_machine_settings-IsValid settings t h =
    let (schema, extension, origin, profile, pin, policy, one) = validate-Passed settings t h in
    let (same, is_origin) = check_gateway_origin-IsOrigin _ _ origin in
    let (canonical, normal) = normalize_server_cert_pin-IsCanonical _ _ pin in
    let again = Passed-validate t t (
      one,
      ap check_extension_id (check_extension_id-id _ _ extension) ∙ extension,
      ap check_gateway_origin same ∙ origin,
      ap check_digest (check_digest-id _ _ profile) ∙ profile,
      normal,
      ap check_digest (check_digest-id _ _ policy) ∙ policy,
      one,
    ) in
    ((is_origin, canonical), again, from_payload-payload t ∙ again)

unknown_keys_iff :
    (ks : List Text) → (length (unknown_keys ks) ≡ 0) ↔ (all (λ k. is_known k) ks ≡ true)
unfolding unknown_keys
unknown_keys_iff [] = (λ h. refl, λ h. refl)
unknown_keys_iff (k ∷ ks) = elim (Bool-cases (is_known k)) [
  | inl y ↦ ground (arith, y, unknown_keys_iff ks)
  | inr n ↦ ground (arith, n)
]

secrets-nil : (ks : List Text) → length ks ≡ 0 → any (λ k. is_secret_like k) ks ≡ false
secrets-nil [] h = refl
secrets-nil (k ∷ ks) h = ground arith

-- `_require_keys` returns exactly where each expected key is there, and no key but those and the
-- one of an older version.
pub require_keys_lem :
    (fs : Fields)
    → (require_keys fs ≡ ok tt) ↔ (
        (all (λ k. one_of k (keys fs)) settings_keys ≡ true)
        × (all (λ k. is_known k) (keys fs) ≡ true))
unfolding require_keys
require_keys_lem fs =
    ground (arith, unknown_keys_iff (keys fs), secrets-nil (unknown_keys (keys fs)))
