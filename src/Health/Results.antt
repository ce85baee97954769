-- ===== src/Health/Results.antt =====
-- What the results of the health checks say.
use meraki_openconnect.Prelude.{
  ◌≤◌, ◌≡◌, inl, inr, refl, ap, Bool, true, ◌&&◌, some, List, [], ◌∷◌, Text, arith, all, All, map,
  text_eq_iff, Option-cases,
}
use meraki_openconnect.Profile.Model.{HealthCheck}
use meraki_openconnect.Health.{
  HealthCheckResult, Tools, run_health_checks, check_passed, target, type_of, route_passed,
  dns_passed, tcp_passed, hostname_is_valid, host_is_valid, is_srv, is_interface, CheckType,
}

both_true : (b c : Bool) → (b && c) ≡ true → (b ≡ true) × (c ≡ true)
both_true b c h = ground arith

module _ (tools : Tools) where
  -- What a check has to be, if it can pass on an interface: a canonical address on a tunnel, a valid
  -- name, or a valid host with a port.
  abbrev pub IsSound : Text → HealthCheck → Type 0
  IsSound interface (HealthCheck.route address) =
      (tools.canonical_address address ≡ some address) × (is_interface interface ≡ true)
  IsSound interface (HealthCheck.dns name record_type) =
      hostname_is_valid (is_srv record_type) name ≡ true
  IsSound interface (HealthCheck.tcp host port) =
      (host_is_valid tools host ≡ true) × (1 ≤ port) × (port ≤ 65535)

  passed-IsSound :
      (interface : Text) (check : HealthCheck)
      → check_passed tools interface check ≡ true
      → IsSound interface check
  unfolding route_passed dns_passed tcp_passed
  passed-IsSound interface (HealthCheck.route address) h =
      elim (Option-cases (tools.canonical_address address)) [
        | inl e ↦ ground (arith, e)
        | inr (t, e) ↦ ground (arith, e, text_eq_iff t address)
      ]
  passed-IsSound interface (HealthCheck.dns name record_type) h = ground arith
  passed-IsSound interface (HealthCheck.tcp host port) h = ground arith

  -- If all results have passed, then they are one for each check, in the order of the profile, with
  -- its type and its target, and every check is sound on the interface and has passed.
  pub run_health_checks_lem :
      (checks : List HealthCheck) (interface : Text)
      → all (λ (r : HealthCheckResult). r.passed) (run_health_checks tools checks interface) ≡ true
      → (map {B = CheckType × Text}
            (λ (r : HealthCheckResult). (r.type, r.target))
            (run_health_checks tools checks interface)
          ≡ map {B = CheckType × Text} (λ c. (type_of c, target tools c)) checks)
        × All (λ c. IsSound interface c × (check_passed tools interface c ≡ true)) checks
  unfolding run_health_checks
  run_health_checks_lem [] interface h = (refl, tt)
  run_health_checks_lem (c ∷ checks) interface h =
      let (p, rest) = both_true (check_passed tools interface c) _ h in
      let (same, sound) = run_health_checks_lem checks interface rest in
      (ap (λ t. (type_of c, target tools c) ∷ t) same, ((passed-IsSound interface c p, p), sound))
