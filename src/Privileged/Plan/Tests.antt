-- ===== src/Privileged/Plan/Tests.antt =====
-- The install plan of a concrete profile.
use meraki_openconnect.Prelude.{
  ℕ, ◌≡◌, refl, List, [], ◌∷◌, ◌++◌, Text, codes, Result, ok, err, All,
}
use meraki_openconnect.Ip.{parts}
use meraki_openconnect.Profile.Canonical.{profile_digest}
use meraki_openconnect.Settings.Checks.{MachineSettings, check_string}
use meraki_openconnect.Settings.Pin.{normalize_server_cert_pin}
use meraki_openconnect.RootPolicy.{render_root_policy, compute_policy_digest}
use meraki_openconnect.Tests.Data.{example_profile, example_settings}
use meraki_openconnect.Privileged.Shell.{shell_literal}
use meraki_openconnect.Privileged.Resolver.{resolver_rules}
use meraki_openconnect.Privileged.Plan.{
  PlanError, InstallPlan, build_install_plan, permission, sudoers_text, payload_lines,
}
use meraki_openconnect.Privileged.Plan.Receipts.{
  IsReceipted, build_install_plan-IsReceipted, sudoers_text-lines,
}
use meraki_openconnect.Privileged.Plan.Wrapped.{joined, IsLine, payload_lines-IsLines}

abbrev hash : List ℕ → Text
hash bytes = codes "0123456789abcdef0123456789abcdef0123456789abcdef0123456789abcdef"

abbrev authenticated : MachineSettings
authenticated = record example_settings {
  extension_profile_digest = profile_digest hash example_profile;
}

abbrev username : Text
username = codes "alice"

abbrev plan_of : Result PlanError InstallPlan → InstallPlan
plan_of (ok plan) = plan
plan_of (err e) = record { rules = []; policy_text = []; sudoers_text = []; digest = [] }

plan_is_made :
    build_install_plan hash example_profile authenticated username
    ≡ ok (plan_of (build_install_plan hash example_profile authenticated username))
unfolding build_install_plan profile_digest render_root_policy compute_policy_digest
    normalize_server_cert_pin shell_literal resolver_rules check_string
plan_is_made = refl

build_install_plan-IsReceipted_example :
    IsReceipted hash example_profile authenticated
      (plan_of (build_install_plan hash example_profile authenticated username))
build_install_plan-IsReceipted_example =
    build_install_plan-IsReceipted hash example_profile (λ bytes. refl) authenticated username
      (plan_of (build_install_plan hash example_profile authenticated username)) plan_is_made

sudoers_text-lines_example : parts 0x0a (sudoers_text username) ≡ (username ++ permission) ∷ [] ∷ []
sudoers_text-lines_example = sudoers_text-lines username refl

payload_lines-IsLines_example :
    (joined (payload_lines (hash [] ++ hash [])) ≡ hash [] ++ hash [])
    × All IsLine (payload_lines (hash [] ++ hash []))
payload_lines-IsLines_example = payload_lines-IsLines (hash [] ++ hash [])
