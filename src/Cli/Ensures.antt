-- ===== src/Cli/Ensures.antt =====
-- What a call of a command needs, what a command does, and rules for its steps.
use meraki_openconnect.Prelude.{
  ℕ, ◌≡◌, refl, ap, ◌∙◌, Bool, true, false, Option, none, some, List, Text, Result, ok, err, All,
  if◌then◌else◌,
}
use meraki_openconnect.Json.{Fields}
use meraki_openconnect.Profile.Model.{OrganizationProfile}
use meraki_openconnect.Settings.Checks.{MachineSettings, browser_settings}
use meraki_openconnect.Tunnel.Session.{TunnelSession}
use meraki_openconnect.Authentication.Service.{AuthenticationResult}
use meraki_openconnect.Cli.Calls.{
  Failure, Command, Call, Modules, Action, continue, ◌>>=◌, ◌>>◌, give, call, tell, present,
  refuse_if,
}
use meraki_openconnect.Cli.{says_connected, load_runtime}

module _ (env : Modules) where
  -- The profile and the settings are those that are loaded.
  abbrev pub IsRuntime : OrganizationProfile → MachineSettings → Type 0
  IsRuntime profile settings =
      (env.load_settings ≡ ok (some settings)) × (env.load_profile ≡ ok profile)

  -- What a call needs
  abbrev pub IsAllowed : Call → Type 0
  IsAllowed (Call.installing profile settings) = IsRuntime profile settings
  IsAllowed (Call.uninstalling profile settings) = IsRuntime profile settings
  IsAllowed (Call.tunnelling profile settings) =
      IsRuntime profile settings × (says_connected env.cisco_statistics ≡ false)
  IsAllowed (Call.configuring id) =
      (settings : MachineSettings) × (env.load_settings ≡ ok (some settings))
      × (id ≡ settings.extension_id)
  IsAllowed (Call.authenticating profile browser pin) =
      (settings : MachineSettings) × IsRuntime profile settings
      × (browser ≡ browser_settings settings)
      × (pin ≡ some settings.server_cert_pin)
  IsAllowed _ = Unit

  -- What a command has done that gives an exit status
  abbrev pub IsDone : Command → ℕ → Type 0
  IsDone (Command.validate path) n =
      (n ≡ 0) × (report : Fields) × (env.validate_profile_command path ≡ ok report)
  IsDone (Command.setup path id) n =
      (n ≡ 0)
      × (settings : MachineSettings) × (env.run_setup path (record { extension_id = id })
          ≡ ok settings)
  IsDone Command.install n =
      (n ≡ 0)
      × (profile : OrganizationProfile) × (settings : MachineSettings) × IsRuntime profile settings
      × (env.install_privileged profile settings ≡ ok tt)
  IsDone Command.uninstall n =
      (n ≡ 0)
      × (profile : OrganizationProfile) × (settings : MachineSettings) × IsRuntime profile settings
      × (env.uninstall_privileged profile settings ≡ ok tt)
  IsDone (Command.configure id) n = (n ≡ 0) × (env.configure_native_host id ≡ ok tt)
  IsDone (Command.doctor as_json) n =
      (found : Fields × Bool) × (env.collect_readiness ≡ ok found)
      × (n ≡ (if found.1 then 0 else 4))
  IsDone (Command.status as_json) n =
      (n ≡ 0) × (session : Option TunnelSession) × (env.load_verified ≡ ok session)
  IsDone Command.disconnect n = (n ≡ 0) × (env.disconnect_tunnel ≡ ok tt)
  IsDone Command.connect n =
      (n ≡ 0)
      × (profile : OrganizationProfile) × (settings : MachineSettings) × IsRuntime profile settings
      × (env.run_tunnel profile settings ≡ ok tt)
  IsDone Command.auth n =
      (n ≡ 0)
      × (profile : OrganizationProfile) × (settings : MachineSettings)
      × (result : AuthenticationResult) × IsRuntime profile settings
      × (env.authenticate profile (browser_settings settings) (some settings.server_cert_pin)
          ≡ ok result)
      × (settings.server_cert_pin ≡ result.server_cert_pin)

  abbrev pub Ends {ℓ} : {A : Type ℓ} → (A → Type 0) → Result Failure A × List Call → Type 0
  Ends Q (ok a, h) = Q a × All IsAllowed h
  Ends Q (err e, h) = All IsAllowed h

  -- An action that adds allowed calls only, and gives what has a property.
  unfoldable pub Ensures : {A : Type 0} → Action A → (A → Type 0) → Type 0
  Ensures m Q = (h : List Call) → All IsAllowed h → Ends Q (m h)

  module _ {A : Type 0} where
    continue-Ends :
        {B : Type 0} (P : A → Type 0) (Q : B → Type 0) (r : Result Failure A × List Call)
        (f : A → Action B)
        → Ends P r
        → ((a : A) → P a → Ensures (f a) Q)
        → Ends Q (continue f r)
    unfolding Ensures
    continue-Ends P Q (ok a, h) f (p, k) step = step a p h k
    continue-Ends P Q (err e, h) f k step = k

    pub bind-Ensures :
        {B : Type 0} (P : A → Type 0) (Q : B → Type 0) (m : Action A) (f : A → Action B)
        → Ensures m P
        → ((a : A) → P a → Ensures (f a) Q)
        → Ensures (m >>= f) Q
    unfolding Ensures
    bind-Ensures P Q m f first step h k = continue-Ends P Q (m h) f (first h k) step

    pub call-Ensures :
        (c : Call) (r : Result Failure A) → IsAllowed c → Ensures (call c r) (λ a. r ≡ ok a)
    unfolding Ensures
    call-Ensures c (ok a) i h k = (refl, (i, k))
    call-Ensures c (err e) i h k = (i, k)

    give-Ensures : (Q : A → Type 0) (a : A) → Q a → Ensures (give a) Q
    unfolding Ensures
    give-Ensures Q a q h k = (q, k)

    present-Ensures :
        (message : Text) (o : Option A) → Ensures (present message o) (λ a. o ≡ some a)
    unfolding Ensures
    present-Ensures message none h k = k
    present-Ensures message (some a) h k = (refl, k)

  pub refuse_if-Ensures :
      (test : Bool) (message : Text) → Ensures (refuse_if test message) (λ _. test ≡ false)
  unfolding Ensures
  refuse_if-Ensures true message h k = k
  refuse_if-Ensures false message h k = (refl, k)

  pub load_runtime-Ensures : Ensures (load_runtime env) (λ r. IsRuntime r.0 r.1)
  unfolding load_runtime
  load_runtime-Ensures =
      bind-Ensures _ _ _ _ (call-Ensures Call.loading_settings env.load_settings tt) (λ loaded a.
        bind-Ensures _ _ _ _ (present-Ensures _ loaded) (λ settings b.
          bind-Ensures _ _ _ _ (call-Ensures Call.loading_profile env.load_profile tt) (λ profile c.
            give-Ensures (λ r. IsRuntime r.0 r.1) (profile, settings) (a ∙ ap ok b, c))))

  -- The last steps of a branch
  pub told-Ensures :
      (c : Call) (n : ℕ) (Q : ℕ → Type 0) → IsAllowed c → Q n → Ensures (tell c >> give n) Q
  unfolding Ensures
  told-Ensures c n Q i q h k = (q, (i, k))
