-- ===== src/Settings/Tests.antt =====
-- The theorems on settings, applied to the settings of one machine.
use meraki_openconnect.Prelude.{◌≡◌, refl, [], ◌∷◌, codes, Text, ok}
use meraki_openconnect.Json.{Fields, of_pairs, null, text}
use meraki_openconnect.Ip.{parts, split, is_ipv4, is_ipv6}
use meraki_openconnect.Url.{urlsplit, hostname, port, has_username, has_password}
use meraki_openconnect.Settings.Checks.{
  MachineSettings, check_string, check_extension_id, check_digest,
}
use meraki_openconnect.Settings.Pin.{normalize_server_cert_pin}
use meraki_openconnect.Settings.Origin.{check_hostname, check_gateway_origin}
use meraki_openconnect.Settings.Machine.{validate_machine_settings, from_payload, payload}
use meraki_openconnect.Settings.Store.{save, absent, done, IsReplaced, save-IsReplaced}
use meraki_openconnect.Settings.Machine.Laws.{IsValid, validate_machine_settings-IsValid}

abbrev given_pin : Text
given_pin = codes "SHA1:0123456789abcdef0123456789ABCDEF01234567"

abbrev pub normal_pin : Text
normal_pin = codes "sha1:0123456789abcdef0123456789ABCDEF01234567"

abbrev pub digest : Text
digest = codes "sha256:0123456789abcdef0123456789abcdef0123456789abcdef0123456789abcdef"

abbrev pub settings : Text → MachineSettings
settings pin = record {
  schema_version = 1;
  extension_id = codes "abcdefghijklmnopabcdefghijklmnop";
  extension_gateway_origin = codes "https://vpn.example.com";
  extension_profile_digest = digest;
  server_cert_pin = pin;
  installed_policy_digest = digest;
}

accepted : validate_machine_settings (settings given_pin) ≡ ok (settings normal_pin)
unfolding validate_machine_settings check_extension_id check_digest normalize_server_cert_pin
    check_gateway_origin check_string check_hostname urlsplit hostname port has_username
    has_password parts split is_ipv4 is_ipv6
accepted = refl

validate_machine_settings-IsValid_example :
    IsValid (settings normal_pin)
    × (validate_machine_settings (settings normal_pin) ≡ ok (settings normal_pin))
    × (from_payload (payload (settings normal_pin)) ≡ ok (settings normal_pin))
validate_machine_settings-IsValid_example =
    validate_machine_settings-IsValid (settings given_pin) (settings normal_pin) accepted

abbrev with_token : Fields
with_token = of_pairs ((codes "schema_version", null) ∷ (codes "api_token", text digest) ∷ [])

pub saved_and_loaded : from_payload (payload (settings normal_pin)) ≡ ok (settings normal_pin)
unfolding from_payload payload check_extension_id check_digest normalize_server_cert_pin
    check_gateway_origin check_string check_hostname urlsplit hostname port has_username
    has_password parts split is_ipv4 is_ipv6
saved_and_loaded = refl

save-IsReplaced_example :
    IsReplaced
      (settings given_pin)
      absent
      (save done (settings given_pin) absent).0
      (save done (settings given_pin) absent).1
save-IsReplaced_example = save-IsReplaced done (settings given_pin) absent
