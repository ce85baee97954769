-- ===== src/Profile/Parse/Tests.antt =====
-- The theorems on loaded profiles, applied to the payload of a profile.
use meraki_openconnect.Prelude.{
  ℕ, ◌≡◌, refl, arith, err, true, some, List, [], ◌∷◌, ◌++◌, codes, ok, Text,
}
use meraki_openconnect.Ip.{parts, split, is_ipv4, is_ipv6}
use meraki_openconnect.Url.{urlsplit, hostname, port, has_username, has_password}
use meraki_openconnect.Settings.Origin.{is_label}
use meraki_openconnect.Settings.Machine.{contains}
use meraki_openconnect.Settings.Pin.{normalize_server_cert_pin}
use meraki_openconnect.Settings.Checks.{check_string as check_setting}
use meraki_openconnect.Profile.Canonical.{payload}
use meraki_openconnect.Profile.Checks.{
  Library, require_keys, check_string, check_hostname, is_hostname, check_cookie_name,
  is_cookie_name, check_https_url, check_display_name, check_address, is_absolute_path, check_path,
}
use meraki_openconnect.Profile.Parse.{
  parse_gateway, parse_authentication, parse_rule, parse_split_dns, parse_check,
  parse_health_checks, load, traverse,
}
use meraki_openconnect.Profile.Parse.Clean.{
  IsPlainProfile, AddressesArePlain, IsPlain, load-IsPlainProfile,
}
use meraki_openconnect.RootPolicy.{
  RenderedRootPolicy, render_root_policy, policy_lines, compute_policy_digest,
}
use meraki_openconnect.RootPolicy.Lines.{render_root_policy-parts}
use meraki_openconnect.Tests.Data.{example_profile, constant_digest}

-- Addresses are taken as they are, and nothing is quoted.
abbrev pub library : Library
library = record { canonical_address = λ s. some s; unquote = λ s. s; is_printable = λ s. true }

AddressesArePlain-library : AddressesArePlain library
AddressesArePlain-library s t h e = ground (arith, h, e)

pub loads : load library (payload example_profile) ≡ ok example_profile
unfolding load payload parse_gateway parse_authentication parse_rule parse_split_dns parse_check
    parse_health_checks traverse require_keys check_string check_hostname is_hostname
    check_cookie_name is_cookie_name check_https_url check_display_name check_address
    is_absolute_path check_path is_label contains urlsplit hostname port has_username has_password
    parts split is_ipv4 is_ipv6
loads = refl

load-IsPlainProfile_example : IsPlainProfile example_profile
load-IsPlainProfile_example =
    load-IsPlainProfile library AddressesArePlain-library (payload example_profile) example_profile
      loads

abbrev pin : Text
pin = codes "sha1:0123456789012345678901234567890123456789"

abbrev rendered : RenderedRootPolicy
rendered = elim (render_root_policy constant_digest example_profile pin) [
  | ok r ↦ r
  | err e ↦ record { text = []; digest = [] }
]

renders : render_root_policy constant_digest example_profile pin ≡ ok rendered
unfolding render_root_policy compute_policy_digest normalize_server_cert_pin check_setting
renders = refl

digest-IsPlain : (bytes : List ℕ) → IsPlain (constant_digest bytes)
digest-IsPlain bytes = refl

render_root_policy-parts_example :
    (normal : Text) × (normalize_server_cert_pin pin ≡ ok normal)
    × (parts 0x0a rendered.text ≡ policy_lines example_profile normal rendered.digest ++ [] ∷ [])
render_root_policy-parts_example =
    render_root_policy-parts constant_digest digest-IsPlain library AddressesArePlain-library
      (payload example_profile) example_profile pin rendered loads renders
