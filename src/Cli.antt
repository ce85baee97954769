-- ===== src/Cli.antt =====
-- The commands of the program: cli.py. What the other modules do is an environment, argparse a parameter.
pub mod Calls
pub mod Ensures
pub mod Justified
pub mod Tests
use meraki_openconnect.Prelude.{
  ℕ, Bool, true, false, not, ◌&&◌, Option, none, some, List, [], ◌∷◌, ◌++◌, Text, codes, text_eq,
  Result, ok, err, map, is_some, if◌then◌else◌, one_of, is_upper,
}
use meraki_openconnect.Json.{Json, null, boolean, int, text, Fields, of_pairs}
use meraki_openconnect.Profile.Model.{OrganizationProfile}
use meraki_openconnect.Settings.Checks.{MachineSettings, BrowserSettings, browser_settings}
use meraki_openconnect.Settings.Machine.{contains}
use meraki_openconnect.Tunnel.Session.{TunnelSession}
use meraki_openconnect.Authentication.Service.{AuthenticationResult}
use meraki_openconnect.Cli.Calls.{
  Failure, listed, called_process, uncaught, Command, doctor, status, auth, connect, disconnect,
  install, uninstall, validate, setup, configure, Call, validating, setting_up, loading_settings,
  loading_profile, examining, verifying, disconnecting, asking_cisco, installing, uninstalling,
  tunnelling, configuring, authenticating, reporting, saying, complaining, Modules, Action,
  continue, ◌>>=◌, ◌>>◌, give, fail, call, tell, present, refuse_if,
}

abbrev pub or_null : Option Text → Json
or_null none = null
or_null (some t) = text t

-- The report of `status`
abbrev pub session_report : Option TunnelSession → Fields
session_report none = of_pairs (
    (codes "connected", boolean false)
    ∷ (codes "pid", null)
    ∷ (codes "interface", null)
    ∷ (codes "transport", null)
    ∷ [])
session_report (some session) = of_pairs (
    (codes "connected", boolean true)
    ∷ (codes "pid", int session.pid)
    ∷ (codes "interface", or_null session.interface)
    ∷ (codes "transport", or_null session.transport)
    ∷ [])

abbrev pub is_extension : Text → Option MachineSettings → Bool
is_extension id none = false
is_extension id (some settings) = text_eq id settings.extension_id

abbrev pub says_connected : Option Text → Bool
says_connected none = false
says_connected (some stdout) = contains stdout (codes "Connection State:            Connected")

module _ (env : Modules) where
  -- `_load_runtime`
  pub load_runtime : Action (OrganizationProfile × MachineSettings)
  load_runtime = do
    loaded ← call loading_settings env.load_settings
    settings ← present (codes "machine settings are not configured; run setup") loaded
    profile ← call loading_profile env.load_profile
    give (profile, settings)

  -- `_cisco_connected`
  pub cisco_connected : Action Bool
  cisco_connected = call asking_cisco (ok (says_connected env.cisco_statistics))

  -- The branches of `main`, each with its exit status
  pub run_validate : Text → Action ℕ
  run_validate path = do
    report ← call (validating path) (env.validate_profile_command path)
    tell (reporting false report)
    give 0

  pub run_setup_command : Text → Text → Action ℕ
  run_setup_command path extension_id = do
    settings ←
        call (setting_up path (record { extension_id = extension_id }))
          (env.run_setup path (record { extension_id = extension_id }))
    tell (saying (codes "Meraki OpenConnect setup completed: " ++ settings.installed_policy_digest))
    give 0

  pub run_install : Action ℕ
  unfolding load_runtime
  run_install = do
    runtime ← load_runtime
    call (installing runtime.0 runtime.1) (env.install_privileged runtime.0 runtime.1)
    tell (saying (codes "Meraki OpenConnect privileged helper installed"))
    give 0

  pub run_uninstall : Action ℕ
  unfolding load_runtime
  run_uninstall = do
    runtime ← load_runtime
    call (uninstalling runtime.0 runtime.1) (env.uninstall_privileged runtime.0 runtime.1)
    tell (saying (codes "Meraki OpenConnect privileged helper removed"))
    give 0

  pub run_configure : Text → Action ℕ
  run_configure extension_id = do
    settings ← call loading_settings env.load_settings
    refuse_if (not (is_extension extension_id settings))
        (codes "Chrome extension changes require setup")
    call (configuring extension_id) (env.configure_native_host extension_id)
    tell (saying (codes "Meraki OpenConnect Chrome extension configured"))
    give 0

  pub run_doctor : Bool → Action ℕ
  run_doctor as_json = do
    found ← call examining env.collect_readiness
    tell (reporting as_json found.0)
    give (if found.1 then 0 else 4)

  pub run_status : Bool → Action ℕ
  run_status as_json = do
    session ← call verifying env.load_verified
    tell (reporting as_json (session_report session))
    give 0

  pub run_disconnect : Action ℕ
  run_disconnect = do
    call disconnecting env.disconnect_tunnel
    tell (saying (codes "Meraki OpenConnect tunnel disconnected"))
    give 0

  pub connect_unless : Bool → Action ℕ
  unfolding load_runtime
  connect_unless connected = do
    refuse_if connected
        (codes "Cisco is connected; disconnect it explicitly before using meraki-openconnect")
    runtime ← load_runtime
    call (tunnelling runtime.0 runtime.1) (env.run_tunnel runtime.0 runtime.1)
    tell (saying (codes "Meraki OpenConnect tunnel disconnected"))
    give 0

  pub run_connect : Action ℕ
  unfolding cisco_connected connect_unless
  run_connect = do connected ← cisco_connected; connect_unless connected

  pub run_auth : Action ℕ
  unfolding load_runtime
  run_auth = do
    runtime ← load_runtime
    result ←
        call
          (authenticating runtime.0 (browser_settings runtime.1) (some runtime.1.server_cert_pin))
          (env.authenticate runtime.0 (browser_settings runtime.1) (some runtime.1.server_cert_pin))
    refuse_if (not (text_eq runtime.1.server_cert_pin result.server_cert_pin))
        (codes "gateway certificate pin changed; refusing authentication")
    tell (saying (codes "Meraki OpenConnect authentication completed; token discarded"))
    give 0

  unfoldable pub run_command : Command → Action ℕ
  unfolding run_validate run_setup_command run_install run_uninstall run_configure run_doctor
      run_status run_disconnect run_connect run_auth
  run_command (validate path) = run_validate path
  run_command (setup path extension_id) = run_setup_command path extension_id
  run_command install = run_install
  run_command uninstall = run_uninstall
  run_command (configure extension_id) = run_configure extension_id
  run_command (doctor as_json) = run_doctor as_json
  run_command (status as_json) = run_status as_json
  run_command disconnect = run_disconnect
  run_command connect = run_connect
  run_command auth = run_auth

  -- The `except` clauses
  abbrev pub handle : Result Failure ℕ × List Call → Result Failure ℕ × List Call
  handle (ok exit_status, h) = (ok exit_status, h)
  handle (err (listed message), h) =
      (ok 3, complaining (codes "meraki-openconnect: " ++ message) ∷ h)
  handle (err called_process, h) = (
    ok 3,
    complaining (
          codes
            "meraki-openconnect: privileged helper installation did not complete; run it in a visible Terminal")
        ∷ h,
  )
  handle (err uncaught, h) = (err uncaught, h)

  abbrev pub parsed : Result ℕ Command → Result Failure ℕ × List Call
  parsed (err exit_status) = (ok exit_status, [])
  parsed (ok command) = handle (run_command command [])

  -- `main`, where the parameter reads the arguments or exits with a status
  unfoldable pub main : (List Text → Result ℕ Command) → List Text → Result Failure ℕ × List Call
  main parse [] = (ok 2, complaining (codes "usage") ∷ [])
  main parse (arg ∷ args) = parsed (parse (arg ∷ args))
