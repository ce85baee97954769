-- ===== src/Profile/Canonical.antt =====
-- `canonical_bytes` and `profile_digest` of profile.py. `hashlib.sha256(…).hexdigest()` is a
-- parameter.
use meraki_openconnect.Prelude.{ℕ, List, [], ◌∷◌, ◌++◌, map, Text, codes}
use meraki_openconnect.Json.{Json, int, text, array, object, of_list, of_pairs, dumps}
use meraki_openconnect.Profile.Model.{
  OrganizationProfile, SplitDnsRule, RecordType, a, aaaa, srv, HealthCheck, route, dns, tcp,
}

abbrev pub record_type_text : RecordType → Text
record_type_text a = codes "A"
record_type_text aaaa = codes "AAAA"
record_type_text srv = codes "SRV"

-- `_health_check_payload`
pub health_check_payload : HealthCheck → Json
health_check_payload (route target) =
    object (of_pairs ((codes "type", text (codes "route")) ∷ (codes "target", text target) ∷ []))
health_check_payload (dns name record_type) = object (
    of_pairs (
      (codes "type", text (codes "dns"))
      ∷ (codes "name", text name)
      ∷ (codes "record_type", text (record_type_text record_type))
      ∷ []))
health_check_payload (tcp host port) = object (
    of_pairs (
      (codes "type", text (codes "tcp"))
      ∷ (codes "host", text host)
      ∷ (codes "port", int port)
      ∷ []))

pub split_dns_payload : SplitDnsRule → Json
split_dns_payload rule = object (
    of_pairs (
      (codes "domain", text rule.domain)
      ∷ (codes "nameservers", array (of_list (map text rule.nameservers)))
      ∷ []))

-- The dictionary that `canonical_bytes` prints.
unfoldable pub payload : OrganizationProfile → Json
unfolding health_check_payload split_dns_payload
payload profile =
    let auth = profile.authentication in
    object (
      of_pairs (
        (codes "schema_version", int 1)
        ∷ (
          codes "organization",
          object (of_pairs ((codes "display_name", text profile.organization.display_name) ∷ [])),
        )
        ∷ (codes "gateway", object (of_pairs ((codes "host", text profile.gateway.host) ∷ [])))
        ∷ (
          codes "authentication",
          object (
              of_pairs (
                (codes "type", text (codes "meraki-entra-saml"))
                ∷ (codes "idp_host", text auth.idp_host)
                ∷ (codes "issuer", text auth.issuer)
                ∷ (codes "destination", text auth.destination)
                ∷ (codes "login_path", text auth.login_path)
                ∷ (codes "final_path", text auth.final_path)
                ∷ (codes "token_cookie_name", text auth.token_cookie_name)
                ∷ [])),
        )
        ∷ (codes "split_dns", array (of_list (map split_dns_payload profile.split_dns)))
        ∷ (codes "health_checks", array (of_list (map health_check_payload profile.health_checks)))
        ∷ []))

unfoldable pub canonical_bytes : OrganizationProfile → List ℕ
unfolding payload
canonical_bytes profile = dumps (payload profile)

unfoldable pub profile_digest : (List ℕ → Text) → OrganizationProfile → Text
profile_digest sha256_hex profile = codes "sha256:" ++ sha256_hex (canonical_bytes profile)
