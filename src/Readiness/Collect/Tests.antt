-- ===== src/Readiness/Collect/Tests.antt =====
-- The theorem on the report, applied to a machine that is ready.
use meraki_openconnect.Prelude.{
  ℕ, ◌≡◌, refl, ap, ◌∙◌, true, false, none, some, List, Text, ok, drop, Result,
}
use meraki_openconnect.Profile.Canonical.{payload, profile_digest}
use meraki_openconnect.Profile.Checks.{ProfileError}
use meraki_openconnect.Profile.Model.{OrganizationProfile}
use meraki_openconnect.Profile.Parse.{load}
use meraki_openconnect.Profile.Parse.Tests.{library, loads}
use meraki_openconnect.Settings.Checks.{SettingsError, MachineSettings, check_string}
use meraki_openconnect.Settings.Machine.{from_payload, payload as settings_payload}
use meraki_openconnect.Settings.Pin.{normalize_server_cert_pin}
use meraki_openconnect.Settings.Tests.{settings, normal_pin, digest, saved_and_loaded}
use meraki_openconnect.RootPolicy.{compute_policy_digest}
use meraki_openconnect.Readiness.{extension_receipt_matches, policy_receipts_match}
use meraki_openconnect.Readiness.Collect.{
  Probes, ready, report_of, loaded, or_none, collect_readiness, cisco_connected,
}
use meraki_openconnect.Readiness.Collect.Ready.{IsUsable, machine_of, collect_readiness-IsUsable}
use meraki_openconnect.Tests.Data.{example_profile}

abbrev one_digest : List ℕ → Text
one_digest bytes = drop 7 digest

abbrev probes : Probes
probes = record {
  profile_file = some (payload example_profile);
  settings_file = some (settings_payload (settings normal_pin));
  openconnect_available = true;
  openconnect_saml_available = true;
  chrome_status = true;
  native_host_configured = λ id. true;
  helper_installed = true;
  native_installed = true;
  installed_policy_digest = some digest;
  cisco_found = false;
  cisco_statistics = none;
  tunnel = none;
}

loaded_ready :
    ready (report_of one_digest library probes (some example_profile) (some (settings normal_pin)))
    ≡ true
unfolding ready report_of cisco_connected extension_receipt_matches policy_receipts_match
    profile_digest compute_policy_digest normalize_server_cert_pin check_string
loaded_ready = refl

is_ready_now : ready (collect_readiness one_digest library probes) ≡ true
unfolding collect_readiness
is_ready_now =
    ap
      (λ (r : Result ProfileError OrganizationProfile). ready (
        report_of one_digest library probes (or_none r)
          (or_none (from_payload (settings_payload (settings normal_pin))))))
      loads
    ∙ ap
        (λ (r : Result SettingsError MachineSettings).
          ready (report_of one_digest library probes (some example_profile) (or_none r)))
        saved_and_loaded
    ∙ loaded_ready

collect_readiness-IsUsable_example :
    IsUsable one_digest library probes
      (machine_of one_digest library probes (λ host. ok normal_pin) true)
      (loaded (λ v. load library v) probes.profile_file)
      (loaded (λ v. from_payload v) probes.settings_file)
collect_readiness-IsUsable_example =
    collect_readiness-IsUsable one_digest library probes (λ host. ok normal_pin) true is_ready_now
