-- ===== src/Tests/Setup.antt =====
-- The theorems on setup, applied to a setup in which every dependency works.
use meraki_openconnect.Prelude.{true, false, none, [], codes, ok}
use meraki_openconnect.Settings.Checks.{BrowserSettings}
use meraki_openconnect.Profile.Canonical.{profile_digest}
use meraki_openconnect.Readiness.{gateway_origin}
use meraki_openconnect.Setup.Run.{SetupDependencies, run_setup}
use meraki_openconnect.Setup.Run.Order.{IsOrdered, run_setup-IsOrdered}
use meraki_openconnect.Setup.Run.Complete.{Completed, run_setup-Completed}
use meraki_openconnect.Tests.Data.{example_profile, constant_digest}

abbrev dependencies : SetupDependencies
dependencies = record {
  load_profile = λ path. ok example_profile;
  confirm = λ h summary. ok true;
  load_existing_settings = λ h. ok none;
  privileged_policy_present = λ h. false;
  probe_server_pin = λ h host. ok (codes "sha1:0123456789012345678901234567890123456789");
  configure_native_host = λ h id. ok tt;
  grant_extension_origin = λ h profile browser. ok (record {
    gateway_origin = gateway_origin profile;
    profile_digest = profile_digest constant_digest profile;
    granted = true;
  });
  authenticate_and_pin = λ h profile browser pin. ok pin;
  install_privileged = λ h profile settings. ok tt;
  save_profile = λ h profile. ok tt;
  save_settings = λ h settings. ok tt;
  doctor = λ h. ok true;
}

abbrev browser : BrowserSettings
browser = record { extension_id = codes "abcdefghijklmnopabcdefghijklmnop" }

run_setup-IsOrdered_example :
    IsOrdered constant_digest
      (run_setup constant_digest dependencies (codes "/profile.json") browser []).1
run_setup-IsOrdered_example =
    run_setup-IsOrdered constant_digest dependencies (codes "/profile.json") browser [] tt

run_setup-Completed_example :
    Completed
      (run_setup constant_digest dependencies (codes "/profile.json") browser []).0
      (run_setup constant_digest dependencies (codes "/profile.json") browser []).1
run_setup-Completed_example =
    run_setup-Completed constant_digest dependencies (codes "/profile.json") browser []
