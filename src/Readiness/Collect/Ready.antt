-- ===== src/Readiness/Collect/Ready.antt =====
-- What the report that calls a machine ready promises to a connection.
use meraki_openconnect.Prelude.{ℕ, ◌≡◌, Bool, true, Option, none, some, List, Text, Result, arith}
use meraki_openconnect.Profile.Model.{OrganizationProfile}
use meraki_openconnect.Profile.Checks.{Library}
use meraki_openconnect.Profile.Parse.{load}
use meraki_openconnect.Settings.Checks.{MachineSettings}
use meraki_openconnect.Settings.Machine.{from_payload}
use meraki_openconnect.Readiness.Collect.{Probes, ready, loaded, report_of, collect_readiness}
use meraki_openconnect.Tunnel.Errors.{Exn}
use meraki_openconnect.Tunnel.Run.Startup.{Machine, is_ready}

module _ (sha256_hex : List ℕ → Text) (library : Library) (probes : Probes) where
  -- The part of the machine that the tests before a connection look at.
  abbrev pub machine_of : (Text → Result Exn Text) → Bool → Machine
  machine_of tls_pin starts = record {
    helper_digest = probes.installed_policy_digest;
    helper_installed = probes.helper_installed;
    native_installed = probes.native_installed;
    tls_pin = tls_pin;
    starts = starts;
  }

  -- The profile and the settings that a connection on the machine would use.
  abbrev pub IsUsable : Machine → Option OrganizationProfile → Option MachineSettings → Type 0
  IsUsable machine (some p) (some s) = is_ready sha256_hex machine p s ≡ true
  IsUsable machine _ _ = ⊥

  report_of-IsUsable :
      (profile : Option OrganizationProfile) (settings : Option MachineSettings)
      (tls_pin : Text → Result Exn Text) (starts : Bool)
      → ready (report_of sha256_hex library probes profile settings) ≡ true
      → IsUsable (machine_of tls_pin starts) profile settings
  unfolding ready report_of is_ready
  report_of-IsUsable (some p) (some s) tls_pin starts h = ground arith
  report_of-IsUsable none s tls_pin starts h = ground arith
  report_of-IsUsable (some p) none tls_pin starts h = ground arith

  -- If the report is ready, then the profile and the settings were loaded, and the tests that a
  -- connection makes of the installation on that machine are passed.
  pub collect_readiness-IsUsable :
      (tls_pin : Text → Result Exn Text) (starts : Bool)
      → ready (collect_readiness sha256_hex library probes) ≡ true
      → IsUsable
          (machine_of tls_pin starts)
          (loaded (λ v. load library v) probes.profile_file)
          (loaded (λ v. from_payload v) probes.settings_file)
  unfolding collect_readiness
  collect_readiness-IsUsable tls_pin starts h = report_of-IsUsable _ _ tls_pin starts h
