-- ===== src/Setup/Command.antt =====
-- `validate_profile_command` of setup.py.
use meraki_openconnect.Prelude.{
  ℕ, List, Text, codes, starts_with, Result, ok, ◌>>=◌, ◌>>◌, require, length,
}
use meraki_openconnect.Profile.Model.{OrganizationProfile}
use meraki_openconnect.Profile.Canonical.{profile_digest}
use meraki_openconnect.Setup.Steps.{Failure, relative_path}

pub record ProfileSummary : Type 0 where
  pub name : Text
  pub gateway : Text
  pub dns_rule_count : ℕ
  pub health_check_count : ℕ
  pub profile_digest : Text

-- The profile is loaded from the path, and nothing is changed.
pub validate_profile_command :
    (List ℕ → Text)
    → (Text → Result Failure OrganizationProfile)
    → Text
    → Result Failure ProfileSummary
validate_profile_command sha256_hex load path = do
  require (starts_with path (codes "/")) relative_path
  profile ← load path
  ok (record {
    name = profile.organization.display_name;
    gateway = profile.gateway.host;
    dns_rule_count = length profile.split_dns;
    health_check_count = length profile.health_checks;
    profile_digest = profile_digest sha256_hex profile;
  })
