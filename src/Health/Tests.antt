-- ===== src/Health/Tests.antt =====
-- The theorem on health checks, applied to a profile with one check of each kind.
use meraki_openconnect.Prelude.{◌≡◌, refl, true, some, List, [], ◌∷◌, codes, all, All, map, Text}
use meraki_openconnect.Ip.{parts, split}
use meraki_openconnect.Settings.Machine.{contains}
use meraki_openconnect.Settings.Origin.{is_label}
use meraki_openconnect.Profile.Model.{HealthCheck, a}
use meraki_openconnect.Health.{
  HealthCheckResult, CheckType, Tools, run_health_checks, check_passed, target, type_of,
  route_passed, dns_passed, tcp_passed, hostname_is_valid, host_is_valid,
}
use meraki_openconnect.Health.Results.{IsSound, run_health_checks_lem}

abbrev tools : Tools
tools = record {
  runner = λ args. some (record {
    returncode = 0;
    stdout = codes "   route to: 10.0.0.1\n  interface: utun4\nip_address: 10.0.0.7\n";
    size = 64;
  });
  connects = λ host port. true;
  canonical_address = λ s. some s;
}

abbrev checks : List HealthCheck
checks =
    HealthCheck.route (codes "10.0.0.1")
    ∷ HealthCheck.dns (codes "intranet.example.com") a
    ∷ HealthCheck.tcp (codes "intranet.example.com") 443
    ∷ []

abbrev interface : Text
interface = codes "utun4"

all_passed :
    all (λ (r : HealthCheckResult). r.passed) (run_health_checks tools checks interface) ≡ true
unfolding run_health_checks route_passed dns_passed tcp_passed hostname_is_valid host_is_valid parts
    split is_label contains
all_passed = refl

run_health_checks_lem_example :
    (map {B = CheckType × Text}
        (λ (r : HealthCheckResult). (r.type, r.target))
        (run_health_checks tools checks interface)
      ≡ map {B = CheckType × Text} (λ c. (type_of c, target tools c)) checks)
    × All (λ c. IsSound tools interface c × (check_passed tools interface c ≡ true)) checks
run_health_checks_lem_example = run_health_checks_lem tools checks interface all_passed
