-- ===== src/Tests/Exchange.antt =====
-- The exchanges with Chrome on concrete messages.
use meraki_openconnect.Prelude.{
  ℕ, ◌<◌, ◌≡◌, refl, true, false, Option, none, some, List, [], ◌∷◌, ◌++◌, Text, codes, text_eq,
  Result, ok, err, if◌then◌else◌, arith,
}
use meraki_openconnect.Json.{Json, text, object, boolean, Fields, end, field}
use meraki_openconnect.Ip.{parts, split, is_ipv4, is_ipv6}
use meraki_openconnect.Url.{urlsplit, hostname, port, has_username, has_password}
use meraki_openconnect.Settings.Checks.{check_string}
use meraki_openconnect.Settings.Origin.{check_gateway_origin, check_hostname}
use meraki_openconnect.Settings.Tests.{digest}
use meraki_openconnect.Setup.Steps.{ExtensionPermissionReceipt}
use meraki_openconnect.Exchange.Message.{Codec, line, IsCarried, read_message, utf8_length}
use meraki_openconnect.Exchange.Server.{
  Protocol, serve, Event, arrives, serve_all, wait, start, accepted, max_message_bytes,
}
use meraki_openconnect.Exchange.Delivered.{IsWaited, wait-IsDelivered}
use meraki_openconnect.Exchange.Token.{token_protocol}
use meraki_openconnect.Exchange.Permission.{
  ExtensionSetupError, setup_protocol, validate_gateway_origin,
}
use meraki_openconnect.Exchange.Receipt.{IsFor, wait-IsFor}
use meraki_openconnect.Exchange.Endpoint.{
  Files, Liveness, running, HandoffError, enter_authentication, in_directory, auth_socket,
  undecodable, prepare_state_directory, clear_stale_state, set,
}
use meraki_openconnect.NativeHost.Message.{frame, max_response_bytes, pack}
use meraki_openconnect.NativeHost.Bridge.{authentication, served, run_native_host}
use meraki_openconnect.NativeHost.Bridge.Delivers.{
  IsDialogue, IsComplete, run_native_host-IsComplete,
}
use meraki_openconnect.NativeHost.Manifest.{
  Host, ConfigureError, configure_native_host, native_host_configured,
  configure_native_host-configured, no_return,
}
use meraki_openconnect.NativeHost.Endpoint.{load_socket_path}
use meraki_openconnect.NativeHost.Endpoint.Finds.{load_socket_path-enter_authentication}

abbrev request : Fields
request = field (codes "type") (text (codes "bootstrap")) end

abbrev token_message : Fields
token_message =
    field (codes "token") (text (codes "secret")) (field (codes "type") (text (codes "token")) end)

abbrev bootstrap_reply : Fields
bootstrap_reply =
    field (codes "type") (text (codes "bootstrap")) (field (codes "bootstrap") (object end) end)

abbrev origin : Text
origin = codes "https://vpn.example.com"

abbrev setup_request : Fields
setup_request = field (codes "type") (text (codes "setup-bootstrap")) end

abbrev setup_result : Fields
setup_result = field (codes "granted") (boolean true) (
    field (codes "type") (text (codes "setup-result")) (
      field (codes "gatewayOrigin") (text origin)
        (field (codes "profileDigest") (text digest) end)))

-- Prints the fields of an object.
abbrev printed : Json → Text
printed (object end) = codes "{}"
printed (object (field k (text t) rest)) = k ++ b'=' ∷ t ++ printed (object rest)
printed (object (field k v rest)) = k ++ printed (object rest)
printed v = []

-- Reads the messages of this exchange.
abbrev known : List Fields → Text → Option Json
known [] raw = none
known (fs ∷ rest) raw =
    if text_eq (printed (object fs) ++ 0x0a ∷ []) raw then some (object fs) else known rest raw

abbrev pub codec : Codec
codec = record {
  dumps = printed;
  loads =
      known
        (request ∷ token_message ∷ bootstrap_reply ∷ accepted ∷ setup_request ∷ setup_result ∷ []);
  loads_bytes = λ b. known (request ∷ token_message ∷ []) (b ++ 0x0a ∷ []);
}

abbrev pub session : List Event
session = arrives (line codec request) true ∷ arrives (line codec token_message) true ∷ []

session_gives_token :
    (wait (serve_all codec (token_protocol end) session start)).0 ≡ ok (codes "secret")
unfolding wait serve_all serve token_protocol read_message utf8_length
session_gives_token = refl

wait-IsDelivered_example :
    IsWaited codec
      (token_protocol end)
      session
      (wait (serve_all codec (token_protocol end) session start))
wait-IsDelivered_example = wait-IsDelivered codec (token_protocol end) session

carried :
    (limit : ℕ)
    → 200 < limit
    → (IsCarried codec limit request)
      × (IsCarried codec limit token_message)
      × (IsCarried codec limit accepted)
      × (IsCarried codec limit bootstrap_reply)
carried limit h = (
  record { one_line = refl; reads_back = refl; fits = omega (arith, h) },
  record { one_line = refl; reads_back = refl; fits = omega (arith, h) },
  record { one_line = refl; reads_back = refl; fits = omega (arith, h) },
  record { one_line = refl; reads_back = refl; fits = omega (arith, h) },
)

abbrev first_body : List ℕ
first_body = printed (object request)

abbrev second_body : List ℕ
second_body = printed (object token_message)

dialogue :
    IsDialogue codec
      (token_protocol end)
      authentication
      ((frame first_body ++ frame second_body) ∷ codes "rest" ∷ [])
      (codes "rest")
      (codes "secret")
unfolding token_protocol pack
dialogue = record {
  request = request;
  result = token_message;
  first = first_body;
  second = second_body;
  first_type = codes "bootstrap";
  second_type = codes "token";
  types = refl;
  comes = refl;
  first_framed = record { loads = refl; low = omega arith; high = omega arith };
  second_framed = record { loads = refl; low = omega arith; high = omega arith };
  first_typed = refl;
  second_typed = refl;
  request_carried = (carried max_message_bytes (omega arith)).0;
  result_carried = (carried max_message_bytes (omega arith)).1;
  is_request = refl;
  gives = refl;
}

reply-IsCarried : IsCarried codec max_response_bytes (token_protocol end).reply
unfolding token_protocol
reply-IsCarried = (carried max_response_bytes (omega arith)).3

run_native_host-IsComplete_example :
    IsComplete codec (token_protocol end) (codes "rest") (codes "secret") (
      run_native_host codec
        (served codec (token_protocol end))
        (ok (authentication, 42))
        true
        (ok 42)
        (record {
          input = (frame first_body ++ frame second_body) ∷ codes "rest" ∷ [];
          peer = start;
          output = [];
        }))
run_native_host-IsComplete_example =
    run_native_host-IsComplete codec (token_protocol end) authentication 42
      ((frame first_body ++ frame second_body) ∷ codes "rest" ∷ []) (codes "rest") (codes "secret")
      dialogue reply-IsCarried (carried max_response_bytes (omega arith)).2

abbrev no_files : Files
no_files = record { lstat = λ p. none; contents = λ p. undecodable }

abbrev alive : ℕ → Liveness
alive pid = running

abbrev state_directory : Text
state_directory = codes "/home/u/state"

-- What an exchange leaves that starts without any file.
abbrev entered : Result HandoffError Files → Files
entered (ok files) = files
entered (err e) = no_files

starts :
    enter_authentication 501 alive state_directory 42 (codes "0123456789abcdef") true no_files
    ≡ ok (
        entered (
          enter_authentication 501 alive state_directory 42
            (codes "0123456789abcdef")
            true
            no_files))
unfolding enter_authentication prepare_state_directory clear_stale_state set
starts = refl

load_socket_path-enter_authentication_example :
    load_socket_path 501 alive state_directory (codes "/tmp/meraki-openconnect-501") (
      entered (
        enter_authentication 501 alive state_directory 42 (codes "0123456789abcdef") true no_files))
    ≡ ok (authentication, in_directory state_directory (auth_socket (codes "0123456789abcdef")), 42)
load_socket_path-enter_authentication_example =
    load_socket_path-enter_authentication 501 alive state_directory
      (codes "/tmp/meraki-openconnect-501") 42 (codes "0123456789abcdef") true no_files
      (entered (
        enter_authentication 501 alive state_directory 42 (codes "0123456789abcdef") true no_files))
      starts refl (omega arith) refl

origin_is_accepted : check_gateway_origin origin ≡ ok origin
unfolding check_gateway_origin check_string check_hostname urlsplit hostname port has_username
    has_password parts split is_ipv4 is_ipv6
origin_is_accepted = refl

abbrev setup_session : List Event
setup_session =
    arrives (line codec setup_request) true ∷ arrives (line codec setup_result) true ∷ []

-- The exchange that a result of `setup_protocol` stands for.
abbrev no_protocol : Protocol ExtensionPermissionReceipt
no_protocol = record { is_request = λ fs. false; reply = end; accept = λ fs. none }

abbrev protocol_of :
    Result ExtensionSetupError (Protocol ExtensionPermissionReceipt)
    → Protocol ExtensionPermissionReceipt
protocol_of (ok p) = p
protocol_of (err e) = no_protocol

setup_starts : setup_protocol origin digest ≡ ok (protocol_of (setup_protocol origin digest))
unfolding setup_protocol validate_gateway_origin urlsplit hostname port has_username has_password
    parts split
setup_starts = refl

wait-IsFor_example :
    IsFor origin digest
      (wait (serve_all codec (protocol_of (setup_protocol origin digest)) setup_session start)).0
wait-IsFor_example =
    wait-IsFor codec origin digest (protocol_of (setup_protocol origin digest)) setup_session
      setup_starts

-- A home where nothing stands yet.
abbrev new_home : Host
new_home = record {
  manifest_directory = none;
  wrapper_directory = none;
  manifest = none;
  wrapper = none;
  manifest_content = undecodable;
  wrapper_content = none;
}

abbrev host_of : Result ConfigureError Host → Host
host_of (ok host) = host
host_of (err e) = new_home

abbrev configured : Result ConfigureError Host
configured =
    configure_native_host 501 (codes "/home/u/native-host")
      (codes "abcdefghijklmnopabcdefghijklmnop") (codes "/usr/bin/python3") new_home

is_configured : configured ≡ ok (host_of configured)
unfolding configure_native_host
is_configured = refl

configure_native_host-configured_example :
    native_host_configured 501
      (codes "/home/u/native-host")
      (codes "abcdefghijklmnopabcdefghijklmnop")
      (codes "/usr/bin/python3")
      (host_of configured)
    ≡ no_return (codes "/usr/bin/python3")
configure_native_host-configured_example =
    configure_native_host-configured 501 (codes "/home/u/native-host")
      (codes "abcdefghijklmnopabcdefghijklmnop") (codes "/usr/bin/python3") new_home
      (host_of configured) refl refl is_configured
