-- ===== src/Cli/Tests.antt =====
-- The commands on modules that all succeed.
use meraki_openconnect.Prelude.{ℕ, refl, true, none, some, [], ◌∷◌, List, Text, codes, Result, ok}
use meraki_openconnect.Json.{end}
use meraki_openconnect.Tests.Data.{example_profile, example_settings}
use meraki_openconnect.Cli.Calls.{Modules, Command}
use meraki_openconnect.Cli.{main}
use meraki_openconnect.Cli.Justified.{Ended, main-Ended}

abbrev modules : Modules
modules = record {
  validate_profile_command = λ path. ok end;
  run_setup = λ path browser. ok example_settings;
  load_settings = ok (some example_settings);
  load_profile = ok example_profile;
  install_privileged = λ profile settings. ok tt;
  uninstall_privileged = λ profile settings. ok tt;
  configure_native_host = λ id. ok tt;
  collect_readiness = ok (end, true);
  load_verified = ok none;
  disconnect_tunnel = ok tt;
  cisco_statistics = none;
  run_tunnel = λ profile settings. ok tt;
  authenticate = λ profile browser pin. ok (record {
    session_token = codes "secret";
    server_cert_pin = example_settings.server_cert_pin;
  });
}

abbrev read_auth : List Text → Result ℕ Command
read_auth args = ok Command.auth

main-Ended_example : Ended modules Command.auth (main modules read_auth (codes "auth" ∷ []))
main-Ended_example = main-Ended modules read_auth (codes "auth") [] Command.auth refl
