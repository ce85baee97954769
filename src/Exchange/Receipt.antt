-- ===== src/Exchange/Receipt.antt =====
-- The receipt that setup waits for.
use meraki_openconnect.Prelude.{
  ◌≡◌, ◌∙◌, true, false, some, List, [], ◌∷◌, Text, Result, ok, err, arith, Holds, holds_ok,
  bind-Holds, require-Holds,
}
use meraki_openconnect.Json.{Fields}
use meraki_openconnect.Settings.Checks.{is_digest}
use meraki_openconnect.Setup.Steps.{ExtensionPermissionReceipt}
use meraki_openconnect.Exchange.Message.{Codec, MessageError, read_message}
use meraki_openconnect.Exchange.Server.{
  Protocol, Exchange, Event, arrives, fails, undecodable, start, serve_all, wait, ExchangeError,
  max_message_bytes,
}
use meraki_openconnect.Exchange.Delivered.{IsWaited, Gives, wait-IsDelivered}
use meraki_openconnect.Exchange.Permission.{
  invalid_profile_digest, setup_protocol, validate_gateway_origin, accept_result-IsFor,
}

-- A receipt for an origin and a digest.
abbrev pub IsFor : Text → Text → Result ExchangeError ExtensionPermissionReceipt → Type 0
IsFor origin digest (ok r) = (r.gateway_origin ≡ origin) × (r.profile_digest ≡ digest)
IsFor origin digest (err e) = Unit

module _ (codec : Codec) (protocol : Protocol ExtensionPermissionReceipt)
    (origin digest : Text) where
  AcceptsFor : Type 0
  AcceptsFor =
      (fs : Fields) (r : ExtensionPermissionReceipt)
      → protocol.accept fs ≡ some r
      → (r.gateway_origin ≡ origin) × (r.profile_digest ≡ digest)

  given-IsFor :
      AcceptsFor
      → (m : Result MessageError Fields) (r : ExtensionPermissionReceipt) → Gives codec protocol m r
      → IsFor origin digest (ok r)
  unfolding AcceptsFor
  given-IsFor h (ok fs) r g = h fs r g
  given-IsFor h (err e) r g = elim g [ ]

  waited-IsFor :
      AcceptsFor
      → (events : List Event)
        (w : Result ExchangeError ExtensionPermissionReceipt × Exchange ExtensionPermissionReceipt)
      → IsWaited codec protocol events w
      → IsFor origin digest w.0
  waited-IsFor h (arrives a true ∷ arrives b true ∷ events) (ok r, x) p =
      given-IsFor h (read_message codec max_message_bytes b) r p.0.1
  waited-IsFor h events (err e, x) p = tt
  waited-IsFor h [] (ok r, x) p = elim p.0 [ ]
  waited-IsFor h (fails ∷ events) (ok r, x) p = elim p.0 [ ]
  waited-IsFor h (undecodable ∷ events) (ok r, x) p = elim p.0 [ ]
  waited-IsFor h (arrives a false ∷ events) (ok r, x) p = elim p.0 [ ]
  waited-IsFor h (arrives a true ∷ []) (ok r, x) p = elim p.0 [ ]
  waited-IsFor h (arrives a true ∷ fails ∷ events) (ok r, x) p = elim p.0 [ ]
  waited-IsFor h (arrives a true ∷ undecodable ∷ events) (ok r, x) p = elim p.0 [ ]
  waited-IsFor h (arrives a true ∷ arrives b false ∷ events) (ok r, x) p = elim p.0 [ ]

validate_gateway_origin-same :
    (origin : Text) → Holds (λ o. o ≡ origin) (validate_gateway_origin origin)
unfolding validate_gateway_origin
validate_gateway_origin-same origin = ground arith

setup_protocol-AcceptsFor :
    (codec : Codec) (origin digest : Text)
    → Holds (λ p. AcceptsFor codec p origin digest) (setup_protocol origin digest)
unfolding setup_protocol AcceptsFor
setup_protocol-AcceptsFor codec origin digest =
    bind-Holds (λ o. o ≡ origin) _ (validate_gateway_origin origin) _
      (validate_gateway_origin-same origin)
      (λ o e. require-Holds _ (is_digest digest) invalid_profile_digest _ (λ d fs r a.
        let (for_origin, for_digest) = accept_result-IsFor o digest fs r a in
        (for_origin ∙ e, for_digest)))

-- Whatever happens on the socket of a setup exchange: a receipt that `wait` returns is for the gateway
-- origin and the profile digest that the exchange was made with.
pub wait-IsFor :
    (codec : Codec) (origin digest : Text) (protocol : Protocol ExtensionPermissionReceipt)
    (events : List Event)
    → setup_protocol origin digest ≡ ok protocol
    → IsFor origin digest (wait (serve_all codec protocol events start)).0
wait-IsFor codec origin digest protocol events h =
    let accepts =
      holds_ok (λ p. AcceptsFor codec p origin digest) (setup_protocol origin digest) protocol
        (setup_protocol-AcceptsFor codec origin digest) h in
    waited-IsFor codec protocol origin digest accepts events
      (wait (serve_all codec protocol events start)) (wait-IsDelivered codec protocol events)
