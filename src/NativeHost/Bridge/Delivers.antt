-- ===== src/NativeHost/Bridge/Delivers.antt =====
-- The bridge and the serving thread together: what Chrome sends is what the client waits for.
use mathlib.Core.Path.{subst}
use mathlib.Core.List.{append-nil}
use meraki_openconnect.Prelude.{
  ℕ, suc, ◌≤◌, ◌≡◌, refl, sym, ap, ◌∙◌, Bool, true, some, List, [], ◌∷◌, ◌++◌, Text, codes, ok, err,
  if◌then◌else◌, ◌==◌, length, arith,
}
use meraki_openconnect.Json.{Fields, object}
use meraki_openconnect.Tunnel.Stream.{Stream, bytes}
use meraki_openconnect.Exchange.Message.{
  Codec, readline, read_message, line, IsCarried, read_message-line,
}
use meraki_openconnect.Exchange.Token.{holds}
use meraki_openconnect.Exchange.Server.{
  Exchange, Protocol, serve, max_message_bytes, start, answering, finish, accepted, wait,
}
use meraki_openconnect.NativeHost.Message.{
  wrong_order, max_request_bytes, max_response_bytes, read_native_message, write_native_message,
  frame, read_native_message-frame,
}
use meraki_openconnect.NativeHost.Bridge.{
  Mode, expected_types, Bridge, Peer, Run, write_back, respond, ask, forward, round, rounds,
  run_native_host, served,
}

-- A frame of Chrome's that holds a message, within the bounds of a request.
pub record IsFramed (codec : Codec) (body : List ℕ) (fs : Fields) : Type 0 where
  pub loads : codec.loads_bytes body ≡ some (object fs)
  pub low : 1 ≤ length body
  pub high : length body ≤ max_request_bytes

read_line :
    (codec : Codec) (limit : ℕ) (fs : Fields)
    → IsCarried codec limit fs
    → read_message codec limit (readline (suc limit) (line codec fs)) ≡ ok fs
read_line codec limit fs h =
    ap (λ t. read_message codec limit (readline (suc limit) t)) (sym (append-nil (line codec fs)))
    ∙ read_message-line codec limit fs [] h

module _ {S : Type 0} (codec : Codec) (answer : Peer S) where
  respond_lem :
      (more : Bridge S → Run codec answer) (response : Fields) (b : Bridge S)
      → IsCarried codec max_response_bytes response
      → respond codec answer more (ok response) b
        ≡ more (record b { output = b.output ++ frame (codec.dumps (object response)) })
  unfolding write_native_message
  respond_lem more response b h =
      let e : write_native_message codec response ≡ ok (frame (codec.dumps (object response))) =
        ground (arith, h.fits) in
      ap (λ w. write_back codec answer more w b) e

  round_lem :
      (more : Bridge S → Run codec answer) (kind : Text) (b : Bridge S) (body rest : List ℕ)
      (fs response : Fields) (peer : S)
      → bytes b.input ≡ frame body ++ rest
      → IsFramed codec body fs
      → holds fs (codes "type") kind ≡ true
      → answer (line codec fs) b.peer ≡ some (line codec response, peer)
      → IsCarried codec max_response_bytes response
      → (bytes (read_native_message codec b.input).1 ≡ rest)
        × (round codec answer more kind b
            ≡ more (record {
              input = (read_native_message codec b.input).1;
              peer = peer;
              output = b.output ++ frame (codec.dumps (object response));
            }))
  round_lem more kind b body rest fs response peer i f t a c =
      let (value, behind) =
        read_native_message-frame codec body rest fs b.input i f.loads f.low f.high in
      let b' = record b { input = (read_native_message codec b.input).1 } in
      (
        behind,
        ap (λ m. forward codec answer more kind m b') value
            ∙ ap
                (λ (h : Bool).
                  if h
                  then ask codec answer more (answer (line codec fs) b'.peer) b'
                  else (err wrong_order, b'))
                t
            ∙ ap (λ r. ask codec answer more r b') a
            ∙ ap (λ r. respond codec answer more r (record b' { peer = peer }))
                (read_line codec max_response_bytes response c)
            ∙ respond_lem more response (record b' { peer = peer }) c,
      )

module _ {A : Type 0} (codec : Codec) (protocol : Protocol A) where
  served_request :
      (fs : Fields)
      → IsCarried codec max_message_bytes fs
      → protocol.is_request fs ≡ true
      → served codec protocol (line codec fs) start
        ≡ some (line codec protocol.reply, record start { phase = answering })
  unfolding served serve
  served_request fs c q = rw (read_line codec max_message_bytes fs c, q) refl

  served_result :
      (fs : Fields) (a : A)
      → IsCarried codec max_message_bytes fs
      → protocol.accept fs ≡ some a
      → served codec protocol (line codec fs) (record start { phase = answering })
        ≡ some (line codec accepted, finish (record start { result = some a }))
  unfolding served serve
  served_result fs a c q = rw (read_line codec max_message_bytes fs c, q) refl

  -- A request and a result of Chrome's, each a message of its kind within the bounds of both ends.
  pub record IsDialogue (mode : Mode) (input : Stream) (rest : List ℕ) (a : A) : Type 0 where
    pub request : Fields
    pub result : Fields
    pub first : List ℕ
    pub second : List ℕ
    pub first_type : Text
    pub second_type : Text
    pub types : expected_types mode ≡ first_type ∷ second_type ∷ []
    pub comes : bytes input ≡ frame first ++ (frame second ++ rest)
    pub first_framed : IsFramed codec first request
    pub second_framed : IsFramed codec second result
    pub first_typed : holds request (codes "type") first_type ≡ true
    pub second_typed : holds result (codes "type") second_type ≡ true
    pub request_carried : IsCarried codec max_message_bytes request
    pub result_carried : IsCarried codec max_message_bytes result
    pub is_request : protocol.is_request request ≡ true
    pub gives : protocol.accept result ≡ some a

  -- What is left of a run that delivered a result: both answers with Chrome, the rest unread, and the
  -- result with the client.
  pub record IsComplete (rest : List ℕ) (a : A) (r : Run codec (served codec protocol))
      : Type 0 where
    pub succeeded : r.0 ≡ ok tt
    pub delivered : (wait r.1.peer).0 ≡ ok a
    pub answered :
        r.1.output
        ≡ frame (codec.dumps (object protocol.reply)) ++ frame (codec.dumps (object accepted))
    pub unread : bytes r.1.input ≡ rest

  rounds-IsComplete :
      (mode : Mode) (input : Stream) (rest : List ℕ) (a : A)
      → (d : IsDialogue mode input rest a) → IsCarried codec max_response_bytes protocol.reply
      → IsCarried codec max_response_bytes accepted
      → IsComplete rest a (
          rounds codec
            (served codec protocol)
            (d.first_type ∷ d.second_type ∷ [])
            (record { input = input; peer = start; output = [] }))
  unfolding rounds wait
  rounds-IsComplete mode input rest a d replies accepts =
      let b : Bridge (Exchange A) = record { input = input; peer = start; output = [] } in
      let asked : Exchange A = record start { phase = answering } in
      let (behind, once) =
        round_lem codec (served codec protocol)
          (rounds codec (served codec protocol) (d.second_type ∷ [])) d.first_type b d.first
          (frame d.second ++ rest) d.request protocol.reply asked d.comes d.first_framed
          d.first_typed (served_request d.request d.request_carried d.is_request) replies in
      let b' : Bridge (Exchange A) = record {
        input = (read_native_message codec input).1;
        peer = asked;
        output = frame (codec.dumps (object protocol.reply));
      } in
      let (unread, twice) =
        round_lem codec (served codec protocol) (rounds codec (served codec protocol) [])
          d.second_type b' d.second rest d.result accepted
          (finish (record start { result = some a })) behind d.second_framed d.second_typed
          (served_result d.result a d.result_carried d.gives) accepts in
      subst (IsComplete rest a) (sym (once ∙ twice))
        (record { succeeded = refl; delivered = refl; answered = refl; unread = unread })

  -- The bridge with the right controller behind the socket forwards a request and a result of Chrome's:
  -- it succeeds, Chrome has both answers, and the client that waits gets exactly this result.
  pub run_native_host-IsComplete :
      (mode : Mode) (pid : ℕ) (input : Stream) (rest : List ℕ) (a : A)
      → IsDialogue mode input rest a
      → IsCarried codec max_response_bytes protocol.reply
      → IsCarried codec max_response_bytes accepted
      → IsComplete rest a (
          run_native_host codec
            (served codec protocol)
            (ok (mode, pid))
            true
            (ok pid)
            (record { input = input; peer = start; output = [] }))
  unfolding run_native_host
  run_native_host-IsComplete mode pid input rest a d replies accepts =
      let same : (pid == pid) ≡ true = ground arith in
      rw (d.types, same) (rounds-IsComplete mode input rest a d replies accepts)
