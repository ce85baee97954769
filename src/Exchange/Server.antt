-- ===== src/Exchange/Server.antt =====
-- `_serve` and `wait` of TokenCallback and of ExtensionSetupCallback, which differ in the messages only:
-- a request is answered, and one result is taken and acknowledged. The flags `_bootstrap_used` and
-- `_token_used` are set where the phase changes, and the phase stands for them.
use meraki_openconnect.Prelude.{
  ℕ, Bool, true, false, Option, none, some, List, [], ◌∷◌, Text, codes, Result, ok, err,
  if◌then◌else◌,
}
use meraki_openconnect.Json.{text, Fields, end, field}
use meraki_openconnect.Exchange.Message.{Codec, MessageError, read_message}

-- Where the serving thread stands.
pub data Phase : Type 0 where
  asking answering closed : Phase

-- `CallbackError` and `ExtensionSetupError`, with the two ways in which `wait` raises a timeout.
pub data ExchangeError : Type 0 where
  bad_message : MessageError → ExchangeError
  invalid_request invalid_result connection_failed timeout unavailable : ExchangeError

-- `_MAX_MESSAGE_BYTES`
abbrev pub max_message_bytes : ℕ
max_message_bytes = 16384

-- `{"type": "accepted"}`
abbrev pub accepted : Fields
accepted = field (codes "type") (text (codes "accepted")) end

pub record Protocol (A : Type 0) : Type 0 where
  pub is_request : Fields → Bool
  pub reply : Fields
  pub accept : Fields → Option A

-- What `_serve` keeps: the phase, the result, the error and the event that it sets at its end.
pub record Exchange (A : Type 0) : Type 0 where
  pub phase : Phase
  pub result : Option A
  pub error : Option ExchangeError
  pub is_ready : Bool

-- The thread meets a line that `readline` returns, after which it can or cannot write, or an OSError.
-- A decoding error of the stream, which `_serve` does not catch, ends it.
pub data Event : Type 0 where
  arrives : (raw : Text) → (can_write : Bool) → Event
  fails undecodable : Event

module _ {A : Type 0} where
  abbrev pub start : Exchange A
  start = record { phase = asking; result = none; error = none; is_ready = false }

  -- `except (…, OSError)` and `finally`
  abbrev pub fail : ExchangeError → Exchange A → Exchange A
  fail e x = record x { phase = closed; error = some e; is_ready = true }

  abbrev pub finish : Exchange A → Exchange A
  finish x = record x { phase = closed; is_ready = true }

  module _ (codec : Codec) (protocol : Protocol A) where
    -- The request, and what is written.
    abbrev pub on_request :
        Bool → Result MessageError Fields → Exchange A → Exchange A × Option Fields
    on_request can_write (err e) x = (fail (bad_message e) x, none)
    on_request can_write (ok fs) x =
        if protocol.is_request fs
        then (
          if can_write then record x { phase = answering } else fail connection_failed x,
          some protocol.reply,
        )
        else (fail invalid_request x, none)

    abbrev pub keep : Bool → Option A → Exchange A → Exchange A × Option Fields
    keep can_write none x = (fail invalid_result x, none)
    keep can_write (some a) x =
        let x' = record x { result = some a } in
        (if can_write then finish x' else fail connection_failed x', some accepted)

    -- The result, and what is written.
    abbrev pub on_result :
        Bool → Result MessageError Fields → Exchange A → Exchange A × Option Fields
    on_result can_write (err e) x = (fail (bad_message e) x, none)
    on_result can_write (ok fs) x = keep can_write (protocol.accept fs) x

    abbrev pub receive : Phase → Event → Exchange A → Exchange A × Option Fields
    receive asking (arrives raw can_write) x =
        on_request can_write (read_message codec max_message_bytes raw) x
    receive answering (arrives raw can_write) x =
        on_result can_write (read_message codec max_message_bytes raw) x
    receive closed event x = (x, none)
    receive phase fails x = (fail connection_failed x, none)
    receive phase undecodable x = (finish x, none)

    -- One event of `_serve`
    unfoldable pub serve : Event → Exchange A → Exchange A × Option Fields
    serve event x = receive x.phase event x

    unfoldable pub serve_all : List Event → Exchange A → Exchange A
    serve_all [] x = x
    serve_all (event ∷ events) x = serve_all events (serve event x).0

  abbrev pub take_result :
      Option ExchangeError → Option A → Exchange A → Result ExchangeError A × Exchange A
  take_result (some e) result x = (err e, x)
  take_result none none x = (err unavailable, x)
  take_result none (some a) x = (ok a, record x { result = none })

  -- `wait`, which is told in time or not that the thread is ready
  unfoldable pub wait : Exchange A → Result ExchangeError A × Exchange A
  wait x = if x.is_ready then take_result x.error x.result x else (err timeout, x)

  -- `__exit__` on the result
  unfoldable pub exit : Exchange A → Exchange A
  exit x = record x { result = none }
