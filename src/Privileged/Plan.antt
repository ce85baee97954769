-- ===== src/Privileged/Plan.antt =====
-- `build_install_plan`, `_sudoers_text`, `installed_policy_digest` and the wrapped payload of
-- `_installation_input`. The texts of the helper and of the uninstaller stand for the resolver rules
-- in them.
pub mod Receipts
pub mod Wrapped
pub mod Tests
use meraki_openconnect.Prelude.{
  ℕ, zero, suc, ◌-◌, Bool, true, false, not, ◌&&◌, ◌||◌, Option, none, some, List, [], ◌∷◌, ◌++◌,
  Text, codes, text_eq, Result, ok, err, ◌>>=◌, ◌>>◌, require, raise_if, length, take, drop, all,
  leb, ◌==◌, is_digit, is_lower, if◌then◌else◌,
}
use meraki_openconnect.Profile.Model.{OrganizationProfile}
use meraki_openconnect.Profile.Canonical.{profile_digest}
use meraki_openconnect.Settings.Checks.{SettingsError, MachineSettings, is_digest}
use meraki_openconnect.RootPolicy.{RenderedRootPolicy, render_root_policy}
use meraki_openconnect.Privileged.Shell.{
  PrivilegedError, wrong_gateway, wrong_profile, invalid_username, shell_literal,
}
use meraki_openconnect.Privileged.Resolver.{Rule, resolver_rules}

-- What `build_install_plan` raises: its own errors, and those of the settings.
pub data PlanError : Type 0 where
  privileged : PrivilegedError → PlanError
  settings_error : SettingsError → PlanError

abbrev pub of_privileged : {A : Type 0} → Result PrivilegedError A → Result PlanError A
of_privileged (ok a) = ok a
of_privileged (err e) = err (privileged e)

abbrev pub of_settings : {A : Type 0} → Result SettingsError A → Result PlanError A
of_settings (ok a) = ok a
of_settings (err e) = err (settings_error e)

abbrev pub is_username_start : ℕ → Bool
is_username_start c = is_lower c || c == b'_'

-- `_USERNAME`: `[a-z_][a-z0-9_-]{0,31}\Z`
abbrev pub is_username : Text → Bool
is_username [] = false
is_username (c ∷ s) =
    is_username_start c
    && leb (length s) 31
    && all (λ x. is_username_start x || is_digit x || x == b'-') s

abbrev pub helper_path : Text
helper_path = codes "/Library/PrivilegedHelperTools/io.github.k0nkupa.meraki-openconnect.root"

abbrev operations : List Text
operations =
    codes "vpn-connect"
    ∷ codes "vpn-disconnect"
    ∷ codes "dns-connect"
    ∷ codes "dns-disconnect"
    ∷ codes "policy-digest"
    ∷ []

abbrev commands : List Text → Text
commands [] = []
commands (operation ∷ []) = helper_path ++ b' ' ∷ operation
commands (operation ∷ next ∷ rest) =
    (helper_path ++ b' ' ∷ operation) ++ b',' ∷ b' ' ∷ commands (next ∷ rest)

-- The rule of the sudoers file, without its user
abbrev pub permission : Text
permission = codes " ALL=(root) NOPASSWD: " ++ commands operations

-- `_sudoers_text`
unfoldable pub sudoers_text : Text → Text
sudoers_text username = username ++ (permission ++ 0x0a ∷ [])

pub record InstallPlan : Type 0 where
  pub rules : List Rule
  pub policy_text : Text
  pub sudoers_text : Text
  pub digest : Text

module _ (sha256_hex : List ℕ → Text) where
  -- `build_install_plan`
  unfoldable pub build_install_plan :
      OrganizationProfile → MachineSettings → Text → Result PlanError InstallPlan
  build_install_plan profile settings username = do
    require (text_eq settings.extension_gateway_origin (codes "https://" ++ profile.gateway.host))
        (privileged wrong_gateway)
    require (text_eq settings.extension_profile_digest (profile_digest sha256_hex profile))
        (privileged wrong_profile)
    require (is_username username) (privileged invalid_username)
    rendered ← of_settings (render_root_policy sha256_hex profile settings.server_cert_pin)
    rules ← of_privileged (resolver_rules profile.split_dns)
    literal ← of_privileged (shell_literal rendered.digest)
    ok (record {
      rules = rules;
      policy_text = rendered.text;
      sudoers_text = sudoers_text username;
      digest = rendered.digest;
    })

-- `stdout[:-1]` of a text that matches `_POLICY_DIGEST`
abbrev receipt_line : Text → Option Text
receipt_line stdout =
    let digest = take (length stdout - 1) stdout in
    let end = drop (length stdout - 1) stdout in
    if is_digest digest && text_eq end (0x0a ∷ []) then some digest else none

-- `installed_policy_digest`, from the exit code and the output of the helper, or none where it could
-- not be run in time
unfoldable pub installed_policy_digest : Option (ℕ × Text) → Option Text
installed_policy_digest none = none
installed_policy_digest (some (code, stdout)) = if code == 0 then receipt_line stdout else none

-- `encoded[index : index + 76] for index in range(0, len(encoded), 76)`, on fuel
pub chunks : ℕ → Text → List Text
chunks fuel [] = []
chunks zero (c ∷ s) = []
chunks (suc fuel) (c ∷ s) = take 76 (c ∷ s) ∷ chunks fuel (drop 76 (c ∷ s))

-- The lines of the payload
unfoldable pub payload_lines : Text → List Text
unfolding chunks
payload_lines encoded = chunks (length encoded) encoded
