-- ===== src/Setup/Run.antt =====
-- `run_setup` of setup.py, with its production dependencies: those that are code of the client
-- are called, the others are an environment whose answers may depend on the steps so far.
pub mod Order
pub mod Complete
use meraki_openconnect.Prelude.{
  ℕ, Bool, true, false, not, ◌&&◌, ◌||◌, Option, none, some, List, [], ◌∷◌, ◌++◌, map, Text, codes,
  text_eq, Result, ok, err, starts_with, is_some, length, if◌then◌else◌, ◌==◌, take,
}
use meraki_openconnect.Json.Decimal.{decimal}
use meraki_openconnect.Url.{SplitResult, urlsplit}
use meraki_openconnect.Profile.Model.{
  OrganizationProfile, SplitDnsRule, HealthCheck, route, dns, tcp,
}
use meraki_openconnect.Profile.Canonical.{profile_digest, record_type_text}
use meraki_openconnect.Readiness.{gateway_origin}
use meraki_openconnect.RootPolicy.{RenderedRootPolicy, render_root_policy}
use meraki_openconnect.Settings.Checks.{
  BrowserSettings, MachineSettings, validate_browser_settings, SettingsError,
}
use meraki_openconnect.Settings.Machine.{validate_machine_settings}
use meraki_openconnect.Setup.Summary.{setup_summary, pin_change_summary}
use meraki_openconnect.Setup.Steps.{
  ExtensionPermissionReceipt, Step, asked, probed, configured_native_host, received, authenticated,
  installed, saved_profile, saved_settings, examined, Failure, relative_path, stale_policy,
  cancelled, pin_not_approved, not_granted, pin_changed, not_ready, raised, M, pure, fail, lift,
  perform, attempt, look, settings_result, ◌>>=◌, ◌>>◌, guarded,
}

pub record SetupDependencies : Type 0 where
  pub load_profile : Text → Result Failure OrganizationProfile
  -- the `confirm` argument
  pub confirm : List Step → Text → Result Failure Bool
  pub load_existing_settings : List Step → Result Failure (Option MachineSettings)
  pub privileged_policy_present : List Step → Bool
  pub probe_server_pin : List Step → Text → Result Failure Text
  pub configure_native_host : List Step → Text → Result Failure (Unit {0})
  pub grant_extension_origin :
      List Step → OrganizationProfile → BrowserSettings → Result Failure ExtensionPermissionReceipt
  -- the pin of the `AuthenticationResult`
  pub authenticate_and_pin :
      List Step → OrganizationProfile → BrowserSettings → Text → Result Failure Text
  pub install_privileged :
      List Step → OrganizationProfile → MachineSettings → Result Failure (Unit {0})
  pub save_profile : List Step → OrganizationProfile → Result Failure (Unit {0})
  pub save_settings : List Step → MachineSettings → Result Failure (Unit {0})
  -- whether the report is ready
  pub doctor : List Step → Result Failure Bool

abbrev of_option {ℓ} : {A : Type ℓ} → Option A → Result Failure A
of_option none = err raised
of_option (some a) = ok a

abbrev assert : Bool → Failure → M (Unit {0})
assert true e = pure tt
assert false e = fail e

module _ (env : SetupDependencies) where
  -- `confirm`
  pub confirm : Text → M Bool
  confirm summary = perform (λ answer. asked summary answer) (λ h. env.confirm h summary)

  -- `save_profile`, and `save_settings`, which validates the settings again; then the report.
  pub save_state : OrganizationProfile → MachineSettings → M (Unit {0})
  save_state profile settings = do
    attempt (λ done. saved_profile profile done) (λ h. env.save_profile h profile)
    normalized ← lift (settings_result (validate_machine_settings settings))
    attempt (λ done. saved_settings normalized done) (λ h. env.save_settings h normalized)

  -- The end of `run_setup`.
  pub examine : MachineSettings → M MachineSettings
  examine settings = do
    ready ← perform (λ answer. examined answer) (λ h. env.doctor h)
    assert ready not_ready
    pure settings

  -- `run_setup` from the installation on.
  pub commit : OrganizationProfile → MachineSettings → M MachineSettings
  commit profile settings = do
    attempt (λ done. installed profile settings done)
        (λ h. env.install_privileged h profile settings)
    guarded (save_state profile settings)
    examine settings

  -- The confirmation of a pin other than the one of the existing settings.
  pub approve_pin : OrganizationProfile → Option MachineSettings → Text → M (Unit {0})
  approve_pin profile none pin = pure tt
  approve_pin profile (some existing) pin =
      let summary = pin_change_summary profile existing.server_cert_pin pin in
      let approval = confirm summary >>= λ approved. assert approved pin_not_approved in
      if text_eq existing.server_cert_pin pin then pure tt else approval

-- The settings that setup installs, from the receipt of the extension, the pin and the policy.
abbrev pub settings_of :
    BrowserSettings
    → ExtensionPermissionReceipt
    → Text
    → Result SettingsError RenderedRootPolicy
    → Result Failure MachineSettings
settings_of browser receipt pin (err e) = err (Failure.settings_invalid e)
settings_of browser receipt pin (ok rendered) = settings_result (
    validate_machine_settings (record {
      schema_version = 1;
      extension_id = browser.extension_id;
      extension_gateway_origin = receipt.gateway_origin;
      extension_profile_digest = receipt.profile_digest;
      server_cert_pin = pin;
      installed_policy_digest = rendered.digest;
    }))

module _ (sha256_hex : List ℕ → Text) where
  pub new_settings :
      OrganizationProfile
      → BrowserSettings
      → ExtensionPermissionReceipt
      → Text
      → Result Failure MachineSettings
  new_settings profile browser receipt pin =
      settings_of browser receipt pin (render_root_policy sha256_hex profile pin)

  -- The tests on the receipt.
  abbrev pub is_granted : OrganizationProfile → ExtensionPermissionReceipt → Bool
  is_granted profile receipt =
      receipt.granted
      && text_eq receipt.gateway_origin (gateway_origin profile)
      && text_eq receipt.profile_digest (profile_digest sha256_hex profile)

module _ (sha256_hex : List ℕ → Text) (env : SetupDependencies) where
  -- `run_setup` from the authentication on.
  pub enrol :
      OrganizationProfile → BrowserSettings → Text → ExtensionPermissionReceipt → M MachineSettings
  enrol profile browser pin receipt = do
    observed ←
        perform (λ observed. authenticated observed)
          (λ h. env.authenticate_and_pin h profile browser pin)
    assert (text_eq observed pin) pin_changed
    settings ← lift (new_settings sha256_hex profile browser receipt pin)
    commit env profile settings

  -- `run_setup` from the native host on.
  pub connect_extension : OrganizationProfile → BrowserSettings → Text → M MachineSettings
  connect_extension profile browser pin = do
    attempt (λ done. configured_native_host browser.extension_id done)
        (λ h. env.configure_native_host h browser.extension_id)
    receipt ←
        perform (λ receipt. received receipt) (λ h. env.grant_extension_origin h profile browser)
    assert (is_granted sha256_hex profile receipt) not_granted
    enrol profile browser pin receipt

  -- `run_setup` from the existing settings on.
  pub proceed : OrganizationProfile → BrowserSettings → M MachineSettings
  proceed profile browser = do
    existing ← look (λ h. env.load_existing_settings h)
    present ← look (λ h. ok (env.privileged_policy_present h))
    assert (is_some existing || not present) stale_policy
    pin ← perform (λ pin. probed pin) (λ h. env.probe_server_pin h profile.gateway.host)
    approve_pin env profile existing pin
    connect_extension profile browser pin

  -- `run_setup`. The result of the source also holds the profile and the report.
  pub run_setup : Text → BrowserSettings → M MachineSettings
  run_setup profile_path browser = do
    assert (starts_with profile_path (codes "/")) relative_path
    profile ← lift (env.load_profile profile_path)
    browser ← lift (settings_result (validate_browser_settings browser))
    summary ← lift (of_option (setup_summary profile))
    confirmed ← confirm env summary
    assert confirmed cancelled
    proceed profile browser
