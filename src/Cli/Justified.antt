-- ===== src/Cli/Justified.antt =====
-- What a command has done, and what its exit status says.
use mathlib.Core.Path.{subst, Path}
use meraki_openconnect.Prelude.{
  ℕ, ◌≡◌, refl, sym, ◌∙◌, Bool, false, not, ◌⊎◌, inl, inr, Option, none, some, List, [], ◌∷◌, Text,
  text_eq, text_eq_iff, Result, ok, err, All, arith, ok_injective,
}
use meraki_openconnect.Settings.Checks.{MachineSettings}
use meraki_openconnect.Cli.Calls.{Failure, listed, called_process, uncaught, Command, Call, Modules}
use meraki_openconnect.Cli.{
  session_report, is_extension, says_connected, cisco_connected, connect_unless, run_validate,
  run_setup_command, run_install, run_uninstall, run_configure, run_doctor, run_status,
  run_disconnect, run_connect, run_auth, run_command, handle, parsed, main,
}
use meraki_openconnect.Cli.Ensures.{
  IsAllowed, IsDone, Ends, Ensures, bind-Ensures, call-Ensures, refuse_if-Ensures,
  load_runtime-Ensures, told-Ensures,
}

module _ (env : Modules) where
  run_validate-Ensures :
      (path : Text) → Ensures env (run_validate env path) (IsDone env (Command.validate path))
  unfolding run_validate
  run_validate-Ensures path =
      bind-Ensures env _ _ _ _ (call-Ensures env (Call.validating path) _ tt)
        (λ report a. told-Ensures env (Call.reporting false report) 0 _ tt (refl, report, a))

  run_setup-Ensures :
      (path id : Text)
      → Ensures env (run_setup_command env path id) (IsDone env (Command.setup path id))
  unfolding run_setup_command
  run_setup-Ensures path id =
      bind-Ensures env _ _ _ _ (call-Ensures env (Call.setting_up path _) _ tt)
        (λ settings a. told-Ensures env (Call.saying _) 0 _ tt (refl, settings, a))

  run_install-Ensures : Ensures env (run_install env) (IsDone env Command.install)
  unfolding run_install
  run_install-Ensures = bind-Ensures env _ _ _ _ (load_runtime-Ensures env) (λ runtime a.
      bind-Ensures env _ _ _ _ (call-Ensures env (Call.installing runtime.0 runtime.1) _ a)
        (λ u b. told-Ensures env (Call.saying _) 0 _ tt (refl, runtime.0, runtime.1, a, b)))

  run_uninstall-Ensures : Ensures env (run_uninstall env) (IsDone env Command.uninstall)
  unfolding run_uninstall
  run_uninstall-Ensures = bind-Ensures env _ _ _ _ (load_runtime-Ensures env) (λ runtime a.
      bind-Ensures env _ _ _ _ (call-Ensures env (Call.uninstalling runtime.0 runtime.1) _ a)
        (λ u b. told-Ensures env (Call.saying _) 0 _ tt (refl, runtime.0, runtime.1, a, b)))

  is_extension_lem :
      (id : Text) (loaded : Option MachineSettings)
      → not (is_extension id loaded) ≡ false
      → env.load_settings ≡ ok loaded
      → IsAllowed env (Call.configuring id)
  is_extension_lem id none h e = cc
  is_extension_lem id (some settings) h e =
      (settings, e, (text_eq_iff id settings.extension_id).0 (ground arith))

  run_configure-Ensures :
      (id : Text) → Ensures env (run_configure env id) (IsDone env (Command.configure id))
  unfolding run_configure
  run_configure-Ensures id =
      bind-Ensures env _ _ _ _ (call-Ensures env Call.loading_settings env.load_settings tt)
        (λ loaded a. bind-Ensures env _ _ _ _ (refuse_if-Ensures env _ _) (λ u b.
          bind-Ensures env _ _ _ _
            (call-Ensures env (Call.configuring id) _ (is_extension_lem id loaded b a))
            (λ v c. told-Ensures env (Call.saying _) 0 _ tt (refl, c))))

  run_doctor-Ensures :
      (as_json : Bool) → Ensures env (run_doctor env as_json) (IsDone env (Command.doctor as_json))
  unfolding run_doctor
  run_doctor-Ensures as_json =
      bind-Ensures env _ _ _ _ (call-Ensures env Call.examining env.collect_readiness tt)
        (λ found a. told-Ensures env (Call.reporting as_json found.0) _ _ tt (found, a, refl))

  run_status-Ensures :
      (as_json : Bool) → Ensures env (run_status env as_json) (IsDone env (Command.status as_json))
  unfolding run_status
  run_status-Ensures as_json =
      bind-Ensures env _ _ _ _ (call-Ensures env Call.verifying env.load_verified tt) (λ session a.
        told-Ensures env (Call.reporting as_json (session_report session)) 0 _ tt
          (refl, session, a))

  run_disconnect-Ensures : Ensures env (run_disconnect env) (IsDone env Command.disconnect)
  unfolding run_disconnect
  run_disconnect-Ensures =
      bind-Ensures env _ _ _ _ (call-Ensures env Call.disconnecting env.disconnect_tunnel tt)
        (λ u a. told-Ensures env (Call.saying _) 0 _ tt (refl, a))

  cisco_connected-Ensures :
      Ensures env
        (cisco_connected env)
        (λ b. Path (Result Failure Bool) (ok (says_connected env.cisco_statistics)) (ok b))
  unfolding cisco_connected
  cisco_connected-Ensures =
      call-Ensures env Call.asking_cisco (ok (says_connected env.cisco_statistics)) tt

  connect_unless-Ensures :
      (connected : Bool)
      → connected ≡ says_connected env.cisco_statistics
      → Ensures env (connect_unless env connected) (IsDone env Command.connect)
  unfolding connect_unless
  connect_unless-Ensures connected a =
      bind-Ensures env _ _ _ _ (refuse_if-Ensures env connected _) (λ u b.
        bind-Ensures env _ _ _ _ (load_runtime-Ensures env) (λ runtime c.
          bind-Ensures env _ _ _ _
            (call-Ensures env (Call.tunnelling runtime.0 runtime.1) _ (c, sym a ∙ b))
            (λ v d. told-Ensures env (Call.saying _) 0 _ tt (refl, runtime.0, runtime.1, c, d))))

  run_connect-Ensures : Ensures env (run_connect env) (IsDone env Command.connect)
  unfolding run_connect
  run_connect-Ensures =
      bind-Ensures env _ _ (cisco_connected env) (connect_unless env) cisco_connected-Ensures
        (λ connected a. connect_unless-Ensures connected (sym (ok_injective _ connected a)))

  run_auth-Ensures : Ensures env (run_auth env) (IsDone env Command.auth)
  unfolding run_auth
  run_auth-Ensures = bind-Ensures env _ _ _ _ (load_runtime-Ensures env) (λ runtime a.
      bind-Ensures env _ _ _ _
        (call-Ensures env (Call.authenticating runtime.0 _ _) _ (runtime.1, a, refl, refl))
        (λ result b.
          bind-Ensures env _ _ _ _
            (refuse_if-Ensures env (not (text_eq runtime.1.server_cert_pin result.server_cert_pin))
              _)
            (λ u c. told-Ensures env (Call.saying _) 0 _ tt (
              refl,
              runtime.0,
              runtime.1,
              result,
              a,
              b,
              (text_eq_iff runtime.1.server_cert_pin result.server_cert_pin).0 (ground arith),
            ))))

  run_command-Ensures :
      (command : Command) → Ensures env (run_command env command) (IsDone env command)
  unfolding run_command
  run_command-Ensures (Command.validate path) = run_validate-Ensures path
  run_command-Ensures (Command.setup path id) = run_setup-Ensures path id
  run_command-Ensures Command.install = run_install-Ensures
  run_command-Ensures Command.uninstall = run_uninstall-Ensures
  run_command-Ensures (Command.configure id) = run_configure-Ensures id
  run_command-Ensures (Command.doctor as_json) = run_doctor-Ensures as_json
  run_command-Ensures (Command.status as_json) = run_status-Ensures as_json
  run_command-Ensures Command.disconnect = run_disconnect-Ensures
  run_command-Ensures Command.connect = run_connect-Ensures
  run_command-Ensures Command.auth = run_auth-Ensures

  -- What `main` ends with: a status of a command that is done, 3, or an error that it does not catch; and it made allowed calls only.
  abbrev pub Ended : Command → Result Failure ℕ × List Call → Type 0
  Ended command (ok n, h) = (IsDone env command n ⊎ (n ≡ 3)) × All (IsAllowed env) h
  Ended command (err e, h) = (e ≡ uncaught) × All (IsAllowed env) h

  handle-Ended :
      (command : Command) (r : Result Failure ℕ × List Call)
      → Ends env (IsDone env command) r
      → Ended command (handle env r)
  handle-Ended command (ok n, h) (d, k) = (inl d, k)
  handle-Ended command (err (listed message), h) k = (inr refl, (tt, k))
  handle-Ended command (err called_process, h) k = (inr refl, (tt, k))
  handle-Ended command (err uncaught, h) k = (refl, k)

  -- A command installs, removes, connects and authenticates with the loaded profile and settings
  -- alone, connects only while Cisco is not connected, and configures only the extension of the
  -- settings; its status is 3, or that of a command that has done its work, which for `auth` includes
  -- that the pin was the one of the settings, and for `doctor` tells whether the machine is ready;
  -- otherwise it raises an error that `main` does not catch.
  pub main-Ended :
      (parse : List Text → Result ℕ Command) (arg : Text) (args : List Text) (command : Command)
      → parse (arg ∷ args) ≡ ok command
      → Ended command (main env parse (arg ∷ args))
  unfolding main Ensures
  main-Ended parse arg args command h =
      subst (λ p. Ended command (parsed env p)) (sym h)
        (handle-Ended command (run_command env command []) (run_command-Ensures command [] tt))
