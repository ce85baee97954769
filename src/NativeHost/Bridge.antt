-- ===== src/NativeHost/Bridge.antt =====
-- `run_native_host`: two messages of Chrome, each forwarded and answered.
pub mod Delivers
use meraki_openconnect.Prelude.{
  ℕ, suc, ◌+◌, Bool, true, false, not, Option, none, some, List, [], ◌∷◌, ◌++◌, Text, codes, Result,
  ok, err, ◌==◌, leb, if◌then◌else◌,
}
use meraki_openconnect.Json.{Fields}
use meraki_openconnect.Tunnel.Stream.{Stream}
use meraki_openconnect.Exchange.Message.{Codec, MessageError, readline, read_message, line}
use meraki_openconnect.Exchange.Token.{holds}
use meraki_openconnect.Exchange.Server.{Exchange, Protocol, serve, arrives, max_message_bytes}
use meraki_openconnect.NativeHost.Message.{
  NativeHostError, controller_response, wrong_order, peer_unverified, unsafe_peer, exchange_failed,
  max_response_bytes, read_native_message, write_native_message,
}

-- The mode of the active exchange
pub data Mode : Type 0 where
  authentication setup : Mode

abbrev pub expected_types : Mode → List Text
expected_types setup = codes "setup-bootstrap" ∷ codes "setup-result" ∷ []
expected_types authentication = codes "bootstrap" ∷ codes "token" ∷ []

-- `_controller_peer_pid`, from the number that the socket tells, if it does
unfoldable pub controller_peer_pid : Option ℕ → Result NativeHostError ℕ
controller_peer_pid none = err peer_unverified
controller_peer_pid (some pid) = if leb pid 1 then err peer_unverified else ok pid

-- What the host has: Chrome's stream, the state of the controller, and the bytes written to Chrome.
pub record Bridge (S : Type 0) : Type 0 where
  pub input : Stream
  pub peer : S
  pub output : List ℕ

-- The controller behind the socket: the text that it sends when a text was written to it, or none
-- where the socket fails.
abbrev pub Peer : Type 0 → Type 0
Peer S = Text → S → Option (Text × S)

module _ {S : Type 0} (codec : Codec) (answer : Peer S) where
  abbrev pub Run : Type 0
  Run = Result NativeHostError (Unit {0}) × Bridge S

  -- The rest of a round, behind each of its steps; `more` are the rounds behind it.
  abbrev pub write_back : (Bridge S → Run) → Result NativeHostError (List ℕ) → Bridge S → Run
  write_back more (err e) b = (err e, b)
  write_back more (ok written) b = more (record b { output = b.output ++ written })

  abbrev pub respond : (Bridge S → Run) → Result MessageError Fields → Bridge S → Run
  respond more (err e) b = (err (controller_response e), b)
  respond more (ok response) b = write_back more (write_native_message codec response) b

  abbrev pub ask : (Bridge S → Run) → Option (Text × S) → Bridge S → Run
  ask more none b = (err exchange_failed, b)
  ask more (some (reply, peer)) b =
      respond more (read_message codec max_response_bytes (readline (suc max_response_bytes) reply))
        (record b { peer = peer })

  abbrev pub forward : (Bridge S → Run) → Text → Result NativeHostError Fields → Bridge S → Run
  forward more kind (err e) b = (err e, b)
  forward more kind (ok fs) b =
      if holds fs (codes "type") kind
      then ask more (answer (line codec fs) b.peer) b
      else (err wrong_order, b)

  abbrev pub round : (Bridge S → Run) → Text → Bridge S → Run
  round more kind b =
      let (message, rest) = read_native_message codec b.input in
      forward more kind message (record b { input = rest })

  -- The loop over the expected types
  unfoldable pub rounds : List Text → Bridge S → Run
  rounds [] b = (ok tt, b)
  rounds (kind ∷ kinds) b = round (rounds kinds) kind b

  abbrev connect : Bool → Result NativeHostError ℕ → ℕ → Mode → Bridge S → Run
  connect false peer_pid pid mode b = (err exchange_failed, b)
  connect true (err e) pid mode b = (err e, b)
  connect true (ok peer_pid) pid mode b =
      if peer_pid == pid then rounds (expected_types mode) b else (err unsafe_peer, b)

  -- `run_native_host`, with the answers of `_load_socket_path`, of the connection and of
  -- `_controller_peer_pid`
  unfoldable pub run_native_host :
      Result NativeHostError (Mode × ℕ) → Bool → Result NativeHostError ℕ → Bridge S → Run
  run_native_host (err e) connected peer_pid b = (err e, b)
  run_native_host (ok (mode, pid)) connected peer_pid b = connect connected peer_pid pid mode b

-- The serving thread as the controller: what it writes, or nothing where it closes the connection.
abbrev pub written_text : Codec → Option Fields → Text
written_text codec none = []
written_text codec (some fs) = line codec fs

unfoldable pub served : {A : Type 0} → Codec → Protocol A → Peer (Exchange A)
served codec protocol text x =
    let (x', written) =
      serve codec protocol (arrives (readline (suc max_message_bytes) text) true) x in
    some (written_text codec written, x')
