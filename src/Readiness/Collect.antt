-- ===== src/Readiness/Collect.antt =====
-- `collect_readiness` and `Readiness.ready` of readiness.py. The probes of the machine are parameters.
pub mod Ready
mod Tests
use meraki_openconnect.Prelude.{
  ℕ, Bool, true, false, not, ◌&&◌, ◌||◌, Option, none, some, List, [], ◌∷◌, Text, codes, Result, ok,
  err, is_some, if◌then◌else◌,
}
use meraki_openconnect.Json.{Json}
use meraki_openconnect.Profile.Model.{OrganizationProfile}
use meraki_openconnect.Profile.Checks.{ProfileError, Library}
use meraki_openconnect.Profile.Parse.{load}
use meraki_openconnect.Settings.Checks.{SettingsError, MachineSettings}
use meraki_openconnect.Settings.Machine.{from_payload, contains}
use meraki_openconnect.Readiness.{extension_receipt_matches, policy_receipts_match}
use meraki_openconnect.Tunnel.Session.{TunnelSession}

-- `_cisco_connected`: the binary is there, its statistics are read, and say so.
pub cisco_connected : Bool → Option Text → Bool
cisco_connected found none = false
cisco_connected found (some stdout) =
    found && contains stdout (codes "Connection State:            Connected")

-- What `collect_readiness` finds: a file's JSON value, or none where it is absent or unreadable; and
-- the answers of `ReadinessDependencies`.
pub record Probes : Type 0 where
  pub profile_file : Option Json
  pub settings_file : Option Json
  pub openconnect_available : Bool
  pub openconnect_saml_available : Bool
  pub chrome_status : Bool
  pub native_host_configured : Text → Bool
  pub helper_installed : Bool
  pub native_installed : Bool
  pub installed_policy_digest : Option Text
  pub cisco_found : Bool
  pub cisco_statistics : Option Text
  -- `load_tunnel`, where every exception counts as none
  pub tunnel : Option TunnelSession

pub record Readiness : Type 0 where
  pub openconnect : Bool
  pub openconnect_saml : Bool
  pub chrome_available : Bool
  pub chrome_profile_available : Bool
  pub profile_configured : Bool
  pub settings_configured : Bool
  pub extension_configured : Bool
  pub native_messaging_configured : Bool
  pub extension_permission_granted : Bool
  pub certificate_pinned : Bool
  pub privileged_helper_installed : Bool
  pub native_worker_installed : Bool
  pub policy_digest_matches : Bool
  pub cisco_connected : Bool
  -- `connected`, `pid`, `interface` and `transport`
  pub connected : Option TunnelSession

-- `Readiness.ready`
pub ready : Readiness → Bool
ready report =
    report.openconnect
    && report.openconnect_saml
    && report.chrome_available
    && report.profile_configured
    && report.settings_configured
    && report.extension_configured
    && report.native_messaging_configured
    && report.extension_permission_granted
    && report.certificate_pinned
    && report.privileged_helper_installed
    && report.native_worker_installed
    && report.policy_digest_matches
    && not report.cisco_connected

abbrev pub or_none {ℓ} : {E A : Type ℓ} → Result E A → Option A
or_none (ok a) = some a
or_none (err e) = none

-- A file that is there and loads.
abbrev pub loaded {ℓ} : {E A : Type ℓ} → (Json → Result E A) → Option Json → Option A
loaded f none = none
loaded f (some v) = or_none (f v)

-- A test on both the profile and the settings.
abbrev pub with_both :
    Option OrganizationProfile
    → Option MachineSettings
    → (OrganizationProfile → MachineSettings → Bool)
    → Bool
with_both none s f = false
with_both (some p) none f = false
with_both (some p) (some s) f = f p s

abbrev pub or_false : Result SettingsError Bool → Bool
or_false (ok b) = b
or_false (err e) = false

module _ (sha256_hex : List ℕ → Text) (library : Library) (probes : Probes) where
  -- `collect_readiness`, of the profile and the settings that were loaded
  pub report_of : Option OrganizationProfile → Option MachineSettings → Readiness
  unfolding cisco_connected
  report_of profile settings = record {
    openconnect = probes.openconnect_available;
    openconnect_saml = probes.openconnect_saml_available;
    chrome_available = probes.chrome_status;
    chrome_profile_available = probes.chrome_status;
    profile_configured = is_some profile;
    settings_configured = is_some settings;
    extension_configured = is_some settings;
    native_messaging_configured = (elim settings [
      | none ↦ false
      | some s ↦ probes.native_host_configured s.extension_id
    ]);
    extension_permission_granted =
        with_both profile settings (λ p s. extension_receipt_matches sha256_hex p s);
    certificate_pinned = is_some settings;
    privileged_helper_installed = probes.helper_installed;
    native_worker_installed = probes.native_installed;
    policy_digest_matches =
        with_both profile settings
          (λ p s. or_false (policy_receipts_match sha256_hex p s probes.installed_policy_digest));
    cisco_connected = cisco_connected probes.cisco_found probes.cisco_statistics;
    connected = probes.tunnel;
  }

  pub collect_readiness : Readiness
  unfolding report_of
  collect_readiness =
      report_of (loaded (λ v. load library v) probes.profile_file)
        (loaded (λ v. from_payload v) probes.settings_file)
