-- ===== src/Setup/Summary.antt =====
-- What setup shows before it asks: `_setup_summary` and `_pin_change_summary` of setup.py.
use meraki_openconnect.Prelude.{
  ◌||◌, Option, none, some, List, [], ◌∷◌, ◌++◌, map, Text, codes, starts_with, length,
  if◌then◌else◌, ◌==◌,
}
use meraki_openconnect.Json.Decimal.{decimal}
use meraki_openconnect.Url.{urlsplit}
use meraki_openconnect.Profile.Model.{
  OrganizationProfile, SplitDnsRule, HealthCheck, route, dns, tcp,
}
use meraki_openconnect.Profile.Canonical.{record_type_text}

-- `_display_url_without_query`, of a URL with a scheme and an authority.
abbrev with_slash : Text → Text
with_slash path =
    if length path == 0 || starts_with path (codes "/") then path else codes "/" ++ path

abbrev pub display_url : Text → Option Text
display_url url = elim (urlsplit url) [
  | none ↦ none
  | some parsed ↦ some (parsed.scheme ++ codes "://" ++ parsed.netloc ++ with_slash parsed.path)
]

-- `_health_target`
pub health_target : HealthCheck → Text
health_target (route target) = target
health_target (dns name record_type) = record_type_text record_type ++ codes " " ++ name
health_target (tcp host port) = host ++ codes ":" ++ decimal port

-- `separator.join(parts)`
pub join : Text → List Text → Text
join separator [] = []
join separator (a ∷ []) = a
join separator (a ∷ b ∷ rest) = a ++ separator ++ join separator (b ∷ rest)

abbrev or_none : Text → Text
or_none [] = codes "none"
or_none (c ∷ s) = c ∷ s

abbrev privileged_paths : List Text
privileged_paths =
    codes "/Library/PrivilegedHelperTools/io.github.k0nkupa.meraki-openconnect.root"
    ∷ codes "/Library/PrivilegedHelperTools/io.github.k0nkupa.meraki-openconnect.native"
    ∷ codes "/Library/PrivilegedHelperTools/io.github.k0nkupa.meraki-openconnect.vpnc-script"
    ∷ codes "/Library/PrivilegedHelperTools/io.github.k0nkupa.meraki-openconnect-libs"
    ∷ codes "/Library/PrivilegedHelperTools/io.github.k0nkupa.meraki-openconnect.policy.conf"
    ∷ codes "/etc/sudoers.d/meraki-openconnect"
    ∷ []

-- `_setup_summary`
pub setup_summary : OrganizationProfile → Option Text
unfolding join health_target
setup_summary profile = elim (display_url profile.authentication.issuer) [
  | none ↦ none
  | some issuer ↦ elim (display_url profile.authentication.destination) [
    | none ↦ none
    | some destination ↦ some (
        join (codes "\n") (
          (codes "Organization: " ++ profile.organization.display_name)
          ∷ (codes "Gateway: " ++ profile.gateway.host)
          ∷ (codes "SAML issuer: " ++ issuer)
          ∷ (codes "SAML destination: " ++ destination)
          ∷ (codes "Split DNS domains: "
              ++ or_none (
                  join (codes ", ") (map (λ (rule : SplitDnsRule). rule.domain) profile.split_dns)))
          ∷ (codes "Required health checks: "
              ++ or_none (join (codes ", ") (map health_target profile.health_checks)))
          ∷ (codes "Privileged paths: " ++ join (codes ", ") privileged_paths)
          ∷ []))
  ]
]

-- `_pin_change_summary`
pub pin_change_summary : OrganizationProfile → Text → Text → Text
pin_change_summary profile previous_pin observed_pin =
    codes "The verified TLS certificate pin has changed for "
    ++ profile.gateway.host
    ++ codes ".\nPreviously trusted pin: "
    ++ previous_pin
    ++ codes "\nNewly observed pin: "
    ++ observed_pin
    ++ codes "\nApprove this change only after verifying that the organization "
    ++ codes "intentionally replaced the gateway certificate."
