-- ===== src/Cli/Calls.antt =====
-- What the commands call, and actions that keep what was called: cli.py.
use meraki_openconnect.Prelude.{
  Bool, true, false, Option, none, some, List, ◌∷◌, Text, Result, ok, err,
}
use meraki_openconnect.Json.{Fields}
use meraki_openconnect.Profile.Model.{OrganizationProfile}
use meraki_openconnect.Settings.Checks.{MachineSettings, BrowserSettings}
use meraki_openconnect.Tunnel.Session.{TunnelSession}
use meraki_openconnect.Authentication.Service.{AuthenticationResult}

-- What a call may raise: one of the errors that `main` lists, with its message; a `CalledProcessError`; or another error, which `main` does not catch.
pub data Failure : Type 0 where
  listed : Text → Failure
  called_process uncaught : Failure

-- `parsed.command` with its arguments
pub data Command : Type 0 where
  doctor status : (as_json : Bool) → Command
  auth connect disconnect install uninstall : Command
  validate : Text → Command
  setup : Text → Text → Command
  configure : Text → Command

-- What `main` does, in order.
pub data Call : Type 0 where
  validating : Text → Call
  setting_up : Text → BrowserSettings → Call
  loading_settings loading_profile examining verifying disconnecting asking_cisco : Call
  installing uninstalling tunnelling : OrganizationProfile → MachineSettings → Call
  configuring : Text → Call
  authenticating : OrganizationProfile → BrowserSettings → Option Text → Call
  reporting : (as_json : Bool) → Fields → Call
  saying complaining : Text → Call

-- The other modules. What `vpn -s stats` prints is none if the binary is not there.
pub record Modules : Type 0 where
  pub validate_profile_command : Text → Result Failure Fields
  pub run_setup : Text → BrowserSettings → Result Failure MachineSettings
  pub load_settings : Result Failure (Option MachineSettings)
  pub load_profile : Result Failure OrganizationProfile
  pub install_privileged : OrganizationProfile → MachineSettings → Result Failure (Unit {0})
  pub uninstall_privileged : OrganizationProfile → MachineSettings → Result Failure (Unit {0})
  pub configure_native_host : Text → Result Failure (Unit {0})
  pub collect_readiness : Result Failure (Fields × Bool)
  pub load_verified : Result Failure (Option TunnelSession)
  pub disconnect_tunnel : Result Failure (Unit {0})
  pub cisco_statistics : Option Text
  pub run_tunnel : OrganizationProfile → MachineSettings → Result Failure (Unit {0})
  pub authenticate :
      OrganizationProfile → BrowserSettings → Option Text → Result Failure AuthenticationResult

-- What was done, the latest first, and what is then given or raised.
abbrev pub Action {ℓ} : Type ℓ → Type ℓ
Action A = List Call → Result Failure A × List Call

infixl 5 ◌>>=◌ ◌>>◌
abbrev pub continue {ℓ κ} :
    {A : Type ℓ} {B : Type κ}
    → (A → Action B)
    → Result Failure A × List Call
    → Result Failure B × List Call
continue f (ok a, h) = f a h
continue f (err e, h) = (err e, h)

abbrev pub ◌>>=◌ {ℓ κ} : {A : Type ℓ} {B : Type κ} → Action A → (A → Action B) → Action B
(m >>= f) h = continue f (m h)

abbrev pub ◌>>◌ {κ} : {B : Type κ} → Action (Unit {0}) → Action B → Action B
m >> k = m >>= λ _. k

abbrev pub give {ℓ} : {A : Type ℓ} → A → Action A
give a h = (ok a, h)

abbrev pub fail {ℓ} : {A : Type ℓ} → Text → Action A
fail message h = (err (listed message), h)

-- A call, and what it gives.
abbrev pub call {ℓ} : {A : Type ℓ} → Call → Result Failure A → Action A
call c r h = (r, c ∷ h)

abbrev pub tell : Call → Action (Unit {0})
tell c h = (ok tt, c ∷ h)

-- A value, or the error for its absence
abbrev pub present {ℓ} : {A : Type ℓ} → Text → Option A → Action A
present message none = fail message
present message (some a) = give a

abbrev pub refuse_if : Bool → Text → Action (Unit {0})
refuse_if true message = fail message
refuse_if false message = give tt
