-- ===== src/RootPolicy.antt =====
-- src/meraki_openconnect/root_policy.py: the text and the digest of the root-owned policy.
-- `hashlib.sha256(…).hexdigest()` is a parameter.
pub mod Lines
use meraki_openconnect.Prelude.{
  ℕ, zero, suc, List, [], ◌∷◌, ◌++◌, Text, codes, Result, ok, err, ◌>>=◌, length,
}
use meraki_openconnect.Json.Decimal.{decimal}
use meraki_openconnect.Profile.Model.{OrganizationProfile, SplitDnsRule}
use meraki_openconnect.Profile.Canonical.{profile_digest}
use meraki_openconnect.Settings.Checks.{SettingsError}
use meraki_openconnect.Settings.Pin.{normalize_server_cert_pin}

abbrev pub core_protocol_version : ℕ
core_protocol_version = 1

pub record RenderedRootPolicy : Type 0 where
  pub text : Text
  pub digest : Text

-- The lines of the name servers of a rule, from the one with the given index on.
pub server_lines : ℕ → ℕ → List Text → List Text
server_lines rule_index server_index [] = []
server_lines rule_index server_index (nameserver ∷ rest) =
    (codes "DNS_"
      ++ decimal rule_index
      ++ codes "_SERVER_"
      ++ decimal server_index
      ++ codes "="
      ++ nameserver)
    ∷ server_lines rule_index (suc server_index) rest

pub rule_lines : ℕ → List SplitDnsRule → List Text
rule_lines rule_index [] = []
rule_lines rule_index (rule ∷ rest) =
    (codes "DNS_" ++ decimal rule_index ++ codes "_DOMAIN=" ++ rule.domain)
    ∷ (codes "DNS_"
        ++ decimal rule_index
        ++ codes "_SERVER_COUNT="
        ++ decimal (length rule.nameservers))
    ∷ (server_lines rule_index 0 rule.nameservers ++ rule_lines (suc rule_index) rest)

-- `"\n".join(lines) + "\n"`, of a list that is not empty.
unfoldable pub unlines : List Text → Text
unlines [] = []
unlines (line ∷ rest) = line ++ b'\n' ∷ unlines rest

pub policy_lines : OrganizationProfile → Text → Text → List Text
policy_lines profile pin digest =
    codes "SCHEMA=1"
    ∷ (codes "DIGEST=" ++ digest)
    ∷ (codes "GATEWAY=" ++ profile.gateway.host)
    ∷ (codes "SERVERCERT=" ++ pin)
    ∷ (codes "LOGIN_PATH=" ++ profile.authentication.login_path)
    ∷ (codes "FINAL_PATH=" ++ profile.authentication.final_path)
    ∷ (codes "TOKEN_COOKIE=" ++ profile.authentication.token_cookie_name)
    ∷ (codes "DNS_RULE_COUNT=" ++ decimal (length profile.split_dns))
    ∷ rule_lines 0 profile.split_dns

module _ (sha256_hex : List ℕ → Text) where
  -- `b"\0".join(…)` of the version, the profile's digest and the pin, hashed.
  unfoldable pub compute_policy_digest : OrganizationProfile → Text → Result SettingsError Text
  compute_policy_digest profile server_cert_pin = do
    normalized_pin ← normalize_server_cert_pin server_cert_pin
    ok (
        codes "sha256:"
        ++ sha256_hex (
            decimal core_protocol_version
            ++ 0 ∷ profile_digest sha256_hex profile
            ++ 0 ∷ normalized_pin))

  unfoldable pub render_root_policy :
      OrganizationProfile → Text → Result SettingsError RenderedRootPolicy
  unfolding policy_lines rule_lines server_lines unlines
  render_root_policy profile server_cert_pin = do
    normalized_pin ← normalize_server_cert_pin server_cert_pin
    digest ← compute_policy_digest profile normalized_pin
    ok (record { text = unlines (policy_lines profile normalized_pin digest); digest = digest })
