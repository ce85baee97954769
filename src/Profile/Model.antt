-- ===== src/Profile/Model.antt =====
-- The dataclasses of profile.py. A field `type` with one literal value is left to its printer.
use meraki_openconnect.Prelude.{ℕ, List, Text}

pub record Organization : Type 0 where
  pub display_name : Text

pub record Gateway : Type 0 where
  pub host : Text

pub record AuthenticationPolicy : Type 0 where
  pub idp_host : Text
  pub issuer : Text
  pub destination : Text
  pub login_path : Text
  pub final_path : Text
  pub token_cookie_name : Text

pub record SplitDnsRule : Type 0 where
  pub domain : Text
  pub nameservers : List Text

-- `Literal["A", "AAAA", "SRV"]`
pub data RecordType : Type 0 where
  a aaaa srv : RecordType

-- `RouteCheck(target) | DnsCheck(name, record_type) | TcpCheck(host, port)`
pub data HealthCheck : Type 0 where
  route : Text → HealthCheck
  dns : Text → RecordType → HealthCheck
  tcp : Text → ℕ → HealthCheck

pub record OrganizationProfile : Type 0 where
  pub organization : Organization
  pub gateway : Gateway
  pub authentication : AuthenticationPolicy
  pub split_dns : List SplitDnsRule
  pub health_checks : List HealthCheck
