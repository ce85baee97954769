-- ===== src/NativeHost/Message.antt =====
-- Chrome's length-prefixed messages: `_read_exact`, `_read_native_message` and `_write_native_message`.
use meraki_openconnect.Prelude.{
  ℕ, ◌+◌, ◌*◌, ◌/◌, ◌%◌, ◌^◌, ◌<◌, ◌≤◌, ◌≡◌, ap, ◌∙◌, false, ◌&&◌, Option, some, List, [], ◌∷◌,
  ◌++◌, Result, ok, err, length, take, drop, leb, ltb, if◌then◌else◌, arith, length-append,
  take-append_length, drop-append_length, ok_injective,
}
use mathlib.Core.List.{append_assoc}
use meraki_openconnect.Json.{Json, object, Fields}
use meraki_openconnect.Tunnel.Errors.{Exn}
use meraki_openconnect.Tunnel.Stream.{Stream, bytes}
use meraki_openconnect.Tunnel.Stream
use meraki_openconnect.Tunnel.Stream.Laws.{read_exact_cases, expected_of_le}
use meraki_openconnect.Exchange.Message.{Codec, MessageError}

-- `NativeHostError`
pub data NativeHostError : Type 0 where
  ended_unexpectedly request_too_large request_invalid response_too_large : NativeHostError
  controller_response : MessageError → NativeHostError
  wrong_order peer_unverified unsafe_peer exchange_failed : NativeHostError
  directory_unsafe unavailable state_unsafe state_invalid socket_directory_unsafe socket_unsafe :
      NativeHostError

abbrev pub max_request_bytes : ℕ
max_request_bytes = 16384

abbrev pub max_response_bytes : ℕ
max_response_bytes = 1048576

-- `_HEADER`, "=I": four bytes, the low one first on the machines of the program
unfoldable pub pack : ℕ → List ℕ
pack n = (n % 256) ∷ (n / 2 ^ 8 % 256) ∷ (n / 2 ^ 16 % 256) ∷ (n / 2 ^ 24 % 256) ∷ []

unfoldable pub unpack : List ℕ → ℕ
unpack (a ∷ b ∷ c ∷ d ∷ rest) = a + b * 2 ^ 8 + c * 2 ^ 16 + d * 2 ^ 24
unpack _ = 0

pub unpack-pack : (n : ℕ) → n < 2 ^ 32 → unpack (pack n) ≡ n
unfolding pack unpack
unpack-pack n h = omega arith

abbrev to_host {ℓ} : {A : Type ℓ} → Result Exn A → Result NativeHostError A
to_host (ok a) = ok a
to_host (err e) = err ended_unexpectedly

-- `_read_exact`, the loop of the controller's function of this name, where every end is an error.
unfoldable pub read_exact : ℕ → Stream → Result NativeHostError (List ℕ) × Stream
read_exact n s = let (r, rest) = Stream.read_exact n false s in (to_host r, rest)

abbrev as_request : Option Json → Result NativeHostError Fields
as_request (some (object fs)) = ok fs
as_request _ = err request_invalid

abbrev parse_body : Codec → Result NativeHostError (List ℕ) → Result NativeHostError Fields
parse_body codec (err e) = err e
parse_body codec (ok body) = as_request (codec.loads_bytes body)

abbrev read_body :
    Codec → Result NativeHostError (List ℕ) × Stream → Result NativeHostError Fields × Stream
read_body codec (err e, s) = (err e, s)
read_body codec (ok header, s) =
    let n = unpack header in
    let (body, rest) = read_exact n s in
    if leb 1 n && leb n max_request_bytes
    then (parse_body codec body, rest)
    else (err request_too_large, s)

-- `_read_native_message`
unfoldable pub read_native_message : Codec → Stream → Result NativeHostError Fields × Stream
read_native_message codec s = read_body codec (read_exact 4 s)

-- `_write_native_message`: the bytes that it writes. What `json.dumps` writes is ASCII.
unfoldable pub write_native_message : Codec → Fields → Result NativeHostError (List ℕ)
write_native_message codec fs =
    let payload = codec.dumps (object fs) in
    if ltb max_response_bytes (length payload)
    then err response_too_large
    else ok (pack (length payload) ++ payload)

-- A frame of Chrome's: its length and its bytes.
abbrev pub frame : List ℕ → List ℕ
frame body = pack (length body) ++ body

read_exact_front :
    (front rest : List ℕ) (s : Stream)
    → bytes s ≡ front ++ rest
    → ((read_exact (length front) s).0 ≡ ok front) × (bytes (read_exact (length front) s).1 ≡ rest)
unfolding read_exact
read_exact_front front rest s h =
    let n = length front in
    let le : n ≤ length (bytes s) = rw h (omega (arith, length-append front rest)) in
    let (value, behind) = read_exact_cases n false s in
    let taken = ap (take n) h ∙ take-append_length front rest in
    (
      ap to_host (value ∙ expected_of_le n false (bytes s) le ∙ ap ok taken),
      behind le ∙ ap (drop n) h ∙ drop-append_length front rest,
    )

read_body-frame :
    (codec : Codec) (body rest : List ℕ) (fs : Fields)
    (r : Result NativeHostError (List ℕ) × Stream)
    → r.0 ≡ ok (pack (length body))
    → bytes r.1 ≡ body ++ rest
    → codec.loads_bytes body ≡ some (object fs)
    → 1 ≤ length body
    → length body ≤ max_request_bytes
    → ((read_body codec r).0 ≡ ok fs) × (bytes (read_body codec r).1 ≡ rest)
read_body-frame codec body rest fs (err e, s) h b l low high = cc
read_body-frame codec body rest fs (ok header, s) h b l low high =
    let n : unpack header ≡ length body =
      ap unpack (ok_injective header (pack (length body)) h)
      ∙ unpack-pack (length body) (omega (arith, high)) in
    let (value, behind) = read_exact_front body rest s b in
    rw (n, value, l) (ground (arith, low, high, behind))

-- A frame within the bounds is read as the message in it, and the stream stands behind it.
pub read_native_message-frame :
    (codec : Codec) (body rest : List ℕ) (fs : Fields) (s : Stream)
    → bytes s ≡ frame body ++ rest
    → codec.loads_bytes body ≡ some (object fs)
    → 1 ≤ length body
    → length body ≤ max_request_bytes
    → ((read_native_message codec s).0 ≡ ok fs) × (bytes (read_native_message codec s).1 ≡ rest)
unfolding read_native_message pack
read_native_message-frame codec body rest fs s h l low high =
    let (value, behind) =
      read_exact_front (pack (length body)) (body ++ rest) s
        (h ∙ append_assoc (pack (length body)) body rest) in
    read_body-frame codec body rest fs (read_exact 4 s) value behind l low high
