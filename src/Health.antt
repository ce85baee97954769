-- ===== src/Health.antt =====
-- src/meraki_openconnect/health.py: the checks of a connected tunnel. The commands, the connections
-- and the canonical form of an address are parameters.
pub mod Results
mod Tests
use meraki_openconnect.Prelude.{
  ℕ, Bool, true, false, not, ◌&&◌, ◌||◌, Option, none, some, List, [], ◌∷◌, ◌++◌, Text, codes,
  text_eq, length, all, map, leb, ◌==◌, is_digit, is_some, starts_with, drop, if◌then◌else◌,
}
use meraki_openconnect.Json.Decimal.{decimal}
use meraki_openconnect.Ip.{parts}
use meraki_openconnect.Url.{lower}
use meraki_openconnect.Settings.Machine.{contains}
use meraki_openconnect.Settings.Origin.{is_label}
use meraki_openconnect.Profile.Model.{HealthCheck, RecordType, a, aaaa, srv}
use meraki_openconnect.Profile.Checks.{is_dns_label}

pub data CheckType : Type 0 where
  route dns tcp : CheckType

pub record HealthCheckResult : Type 0 where
  pub type : CheckType
  pub target : Text
  pub passed : Bool

-- What `subprocess.run` returns: the exit code, the standard output and its length in bytes. `none`
-- is an `OSError` or a `SubprocessError`, a timeout among them.
pub record Completed : Type 0 where
  pub returncode : ℕ
  pub stdout : Text
  pub size : ℕ

pub record Tools : Type 0 where
  pub runner : List Text → Option Completed
  -- whether a connection to the host and the port was opened and closed
  pub connects : Text → ℕ → Bool
  -- `str(ipaddress.ip_address(s))`
  pub canonical_address : Text → Option Text

-- `\s` of a regular expression, and `str.isspace`
pub is_space : ℕ → Bool
is_space c =
    leb 0x09 c && leb c 0x0d
    || leb 0x1c c && leb c 0x20
    || c == 0x85
    || c == 0xa0
    || c == 0x1680
    || leb 0x2000 c && leb c 0x200a
    || c == 0x2028
    || c == 0x2029
    || c == 0x202f
    || c == 0x205f
    || c == 0x3000

ends_with_dot : Text → Bool
ends_with_dot [] = false
ends_with_dot (c ∷ []) = c == b'.'
ends_with_dot (c ∷ d ∷ s) = ends_with_dot (d ∷ s)

abbrev is_label_of : Bool → Text → Bool
is_label_of true s = is_dns_label s
is_label_of false s = is_label s

-- `_hostname_is_valid`. A character beyond ASCII fails the test on the labels.
pub hostname_is_valid : Bool → Text → Bool
unfolding ends_with_dot
hostname_is_valid underscores value =
    leb 1 (length value)
    && leb (length value) 253
    && text_eq value (map lower value)
    && not (ends_with_dot value)
    && leb 2 (length (parts b'.' value))
    && all (λ l. is_label_of underscores l) (parts b'.' value)

abbrev pub is_srv : RecordType → Bool
is_srv srv = true
is_srv _ = false

-- `\s*$`, with `re.MULTILINE`: white space up to the end of a line or of the text.
pub at_line_end : Text → Bool
unfolding is_space
at_line_end [] = true
at_line_end (c ∷ s) = c == 0x0a || is_space c && at_line_end s

pub skip_space : Text → Text
unfolding is_space
skip_space [] = []
skip_space (c ∷ s) = let rest = skip_space s in if is_space c then rest else c ∷ s

-- `\s*interface:\s*NAME\s*$` at one place. An interface that passed its test has no white space.
pub matches_here : Text → Text → Bool
unfolding at_line_end skip_space
matches_here interface s =
    let s' = skip_space s in
    let name = skip_space (drop 10 s') in
    starts_with s' (codes "interface:")
    && starts_with name interface
    && at_line_end (drop (length interface) name)

-- `re.search` of that behind `^`: at the start of the text, and behind each line break.
pub matches_below : Text → Text → Bool
unfolding matches_here
matches_below interface [] = false
matches_below interface (c ∷ s) = c == 0x0a && matches_here interface s || matches_below interface s

-- `_INTERFACE`
abbrev pub is_interface : Text → Bool
is_interface s = starts_with s (codes "utun") && leb 5 (length s) && all is_digit (drop 4 s)

abbrev pub type_of : HealthCheck → CheckType
type_of (HealthCheck.route address) = route
type_of (HealthCheck.dns name record_type) = dns
type_of (HealthCheck.tcp host port) = tcp

module _ (tools : Tools) where
  -- `_run`
  pub run : List Text → Option Completed
  run args = elim (tools.runner args) [
    | none ↦ none
    | some result ↦ if leb result.size 65536 then some result else none
  ]

  -- `_host_is_valid`
  pub host_is_valid : Text → Bool
  host_is_valid value = is_some (tools.canonical_address value) || hostname_is_valid false value

  -- `_route_passed`
  unfoldable pub route_passed : Text → Text → Bool
  unfolding run matches_below
  route_passed target interface = elim (tools.canonical_address target) [
    | none ↦ false
    | some address ↦
        text_eq address target
        && is_interface interface
        && (elim (run (codes "/sbin/route" ∷ codes "-n" ∷ codes "get" ∷ address ∷ [])) [
          | none ↦ false
          | some result ↦
              result.returncode == 0
              && (matches_here interface result.stdout || matches_below interface result.stdout)
        ])
  ]

  abbrev dns_arguments : Text → RecordType → List Text
  dns_arguments name srv = codes "/usr/bin/dig" ∷ codes "+short" ∷ codes "SRV" ∷ name ∷ []
  dns_arguments name _ =
      codes "/usr/bin/dscacheutil"
      ∷ codes "-q"
      ∷ codes "host"
      ∷ codes "-a"
      ∷ codes "name"
      ∷ name
      ∷ []

  abbrev is_answered : RecordType → Text → Bool
  is_answered a stdout = contains stdout (codes "ip_address:")
  is_answered aaaa stdout = contains stdout (codes "ipv6_address:")
  is_answered srv stdout = true

  -- `_dns_passed`
  unfoldable pub dns_passed : Text → RecordType → Bool
  unfolding run
  dns_passed name record_type =
      hostname_is_valid (is_srv record_type) name && (elim (run (dns_arguments name record_type)) [
        | none ↦ false
        | some result ↦
            result.returncode == 0
            && leb 1 (length (skip_space result.stdout))
            && is_answered record_type result.stdout
      ])

  -- `_tcp_passed`
  unfoldable pub tcp_passed : Text → ℕ → Bool
  tcp_passed host port =
      host_is_valid host && leb 1 port && leb port 65535 && tools.connects host port

  -- `_target`
  unfoldable pub target : HealthCheck → Text
  target (HealthCheck.route address) = elim (tools.canonical_address address) [
    | none ↦ codes "invalid"
    | some canonical ↦ canonical
  ]
  target (HealthCheck.dns name record_type) =
      if hostname_is_valid (is_srv record_type) name then name else codes "invalid"
  target (HealthCheck.tcp host port) =
      if host_is_valid host && leb 1 port && leb port 65535
      then host ++ codes ":" ++ decimal port
      else codes "invalid"

  abbrev pub check_passed : Text → HealthCheck → Bool
  check_passed interface (HealthCheck.route address) = route_passed address interface
  check_passed interface (HealthCheck.dns name record_type) = dns_passed name record_type
  check_passed interface (HealthCheck.tcp host port) = tcp_passed host port

  -- `run_health_checks`
  pub run_health_checks : List HealthCheck → Text → List HealthCheckResult
  run_health_checks [] interface = []
  run_health_checks (check ∷ checks) interface =
      (record {
        type = type_of check;
        target = target check;
        passed = check_passed interface check;
      })
      ∷ run_health_checks checks interface
