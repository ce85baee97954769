-- ===== src/Readiness.antt =====
-- src/meraki_openconnect/readiness.py: the receipts that setup leaves, and the readiness report.
pub mod Collect
use meraki_openconnect.Prelude.{
  ℕ, Bool, true, false, ◌&&◌, Option, none, some, List, ◌++◌, Text, codes, text_eq, Result, ok, err,
  ◌>>=◌,
}
use meraki_openconnect.Profile.Model.{OrganizationProfile}
use meraki_openconnect.Profile.Canonical.{profile_digest}
use meraki_openconnect.Settings.Checks.{SettingsError, MachineSettings}
use meraki_openconnect.RootPolicy.{compute_policy_digest}

abbrev pub gateway_origin : OrganizationProfile → Text
gateway_origin profile = codes "https://" ++ profile.gateway.host

-- `helper_digest == expected`, where no digest is `None`.
abbrev pub digest_is : Option Text → Text → Bool
digest_is none expected = false
digest_is (some digest) expected = text_eq digest expected

module _ (sha256_hex : List ℕ → Text) where
  unfoldable pub extension_receipt_matches : OrganizationProfile → MachineSettings → Bool
  extension_receipt_matches profile settings =
      text_eq settings.extension_gateway_origin (gateway_origin profile)
      && text_eq settings.extension_profile_digest (profile_digest sha256_hex profile)

  unfoldable pub policy_receipts_match :
      OrganizationProfile → MachineSettings → Option Text → Result SettingsError Bool
  policy_receipts_match profile settings helper_digest = do
    expected ← compute_policy_digest sha256_hex profile settings.server_cert_pin
    ok (text_eq settings.installed_policy_digest expected && digest_is helper_digest expected)
