-- ===== src/Tunnel/Frame.antt =====
-- The frames that tunnel.py and the worker exchange: the checks of `Frame`, `write_frame` and
-- `read_frame`. Texts are code points, so an ASCII text is its own encoding.
mod Packing
pub mod Laws
pub mod Sequence
mod Tests
use meraki_openconnect.Prelude.{
  ℕ, suc, Bool, true, false, not, ◌&&◌, ◌||◌, Option, none, some, List, [], ◌∷◌, ◌++◌, Text, Result,
  ok, err, ◌>>=◌, ◌>>◌, require, length, get_or, take, all, any, leb, ltb, ◌==◌, if◌then◌else◌,
}
use meraki_openconnect.Tunnel.Errors.{
  TunnelError, Exn, tunnel_error, frame_field_count, fields_not_printable, field_lengths,
  unknown_type,
}
use meraki_openconnect.Tunnel.Stream.{Stream, read_exact}
use Packing.{Header, header_size, pack, unpack}

abbrev pub field_max : ℕ
field_max = 8192

pub data MessageType : Type 0 where
  webview_required stage connected failed disconnected webview_result cancel : MessageType

-- The number of a message type: `int(frame.type)`.
abbrev pub to_number : MessageType → ℕ
to_number webview_required = 1
to_number stage = 2
to_number connected = 3
to_number failed = 4
to_number disconnected = 5
to_number webview_result = 16
to_number cancel = 17

-- `MessageType(raw_type)`; `none` is the `ValueError`.
abbrev pub of_number : ℕ → Option MessageType
of_number n =
    if n == 1
    then some webview_required
    else if n == 2
    then some stage
    else if n == 3
    then some connected
    else if n == 4
    then some failed
    else if n == 5
    then some disconnected
    else if n == 16
    then some webview_result
    else if n == 17
    then some cancel
    else none

-- `_FIELD_COUNTS`
abbrev pub field_count : MessageType → ℕ
field_count webview_required = 1
field_count stage = 1
field_count connected = 4
field_count failed = 2
field_count disconnected = 0
field_count webview_result = 2
field_count cancel = 0

pub record Frame : Type 0 where
  pub type : MessageType
  pub fields : List Text

abbrev pub is_printable : ℕ → Bool
is_printable byte = not (ltb byte 0x20 || ltb 0x7e byte)

-- The test of one field in `__post_init__`. A character past ASCII is past 0x7e too, and both
-- raise the same error.
abbrev pub is_field : Text → Bool
is_field field = leb 1 (length field) && leb (length field) field_max && all is_printable field

-- `Frame(type, fields)`, with `__post_init__`
pub make_frame : MessageType → List Text → Result TunnelError Frame
make_frame type fields = do
  require (length fields == field_count type) frame_field_count
  require (all is_field fields) fields_not_printable
  ok (record { type = type; fields = fields })

-- The payloads, with empty ones up to four.
abbrev payload : Frame → ℕ → Text
payload frame i = get_or frame.fields i []

-- What `write_frame` writes: the header, then each payload.
pub encode : Frame → List ℕ
encode frame =
    let length_of = λ (i : ℕ). length (payload frame i) in
    pack (to_number frame.type) (length_of 0) (length_of 1) (length_of 2) (length_of 3)
    ++ (payload frame 0 ++ payload frame 1 ++ payload frame 2 ++ payload frame 3)

-- `write_frame`, on what has been written before.
pub write_frame : List ℕ → Frame → List ℕ
unfolding encode
write_frame written frame = written ++ encode frame

-- The second test on the lengths: one is missing among the expected, or there is one beyond them.
misplaced : ℕ → ℕ → List ℕ → Bool
misplaced index count [] = false
misplaced index count (n ∷ lengths) =
    ltb index count && n == 0
    || leb count index && not (n == 0)
    || misplaced (suc index) count lengths

abbrev bad_lengths : ℕ → List ℕ → Bool
bad_lengths count lengths = any (λ n. ltb field_max n) lengths || misplaced 0 count lengths

-- The loop `for length in lengths[:expected]`.
read_fields : List ℕ → Stream → Result Exn (List Text) × Stream
read_fields [] s = (ok [], s)
read_fields (n ∷ lengths) s =
    let (r, s') = read_exact n false s in
    let (more, s'') = read_fields lengths s' in
    elim r [
      | err e ↦ (err e, s')
      | ok raw ↦
          if all is_printable raw
          then (more >>= λ fields. ok (raw ∷ fields), s'')
          else (err (tunnel_error fields_not_printable), s')
    ]

-- An exception of `Frame(…)` in the place of `read_frame`.
abbrev pub raised {ℓ} : {A : Type ℓ} → Result TunnelError A → Result Exn A
raised (ok a) = ok a
raised (err e) = err (tunnel_error e)

abbrev finish : MessageType → Result Exn (List Text) × Stream → Result Exn Frame × Stream
finish type (r, s) = (r >>= λ fields. raised (make_frame type fields), s)

-- `read_frame` after its header.
read_body : Header → Stream → Result Exn Frame × Stream
read_body header s = elim (of_number header.raw_type) [
  | none ↦ (err (tunnel_error (unknown_type header.raw_type)), s)
  | some type ↦
      if bad_lengths (field_count type) header.lengths
      then (err (tunnel_error field_lengths), s)
      else finish type (read_fields (take (field_count type) header.lengths) s)
]

pub read_frame : Stream → Result Exn Frame × Stream
read_frame s =
    let (r, s') = read_exact header_size true s in
    elim r [ err e ↦ (err e, s') | ok header ↦ read_body (unpack header) s' ]
