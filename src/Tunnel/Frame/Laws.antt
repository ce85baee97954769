-- ===== src/Tunnel/Frame/Laws.antt =====
-- Frames survive the wire, and the reader accepts nothing but what the writer would have written.
use mathlib.Core.List.{append-nil, append_assoc}
use meraki_openconnect.Prelude.{
  ℕ, ◌^◌, ◌≤◌, ◌<◌, ◌≡◌, ◌≢◌, refl, ap, ◌∙◌, Bool, true, false, some, List, [], ◌∷◌, ◌++◌, Text, ok,
  err, length, get_or, take, all, All, map, arith, take-append_length, drop-append_length,
  length-append,
}
use meraki_openconnect.Tunnel.Errors.{eof}
use meraki_openconnect.Tunnel.Stream.{Stream, bytes, read_exact}
use meraki_openconnect.Tunnel.Stream.Laws.{expected, expected_of_le, read_exact_cases}
use meraki_openconnect.Tunnel.Frame.{
  Frame, MessageType, webview_required, field_count, is_field, is_printable, make_frame, raised,
  encode, read_fields, of_number, to_number, misplaced, bad_lengths, read_body, read_frame,
}
use meraki_openconnect.Tunnel.Frame.Packing.{header_size, pack, unpack-pack, length-pack}

-- A frame that its constructor has accepted.
abbrev pub IsFrame : Frame → Type 0
IsFrame frame = make_frame frame.type frame.fields ≡ ok frame

fits : (xs rest : List ℕ) → length xs ≤ length (xs ++ rest)
fits xs rest = omega (arith, length-append xs rest)

-- Reading as many bytes as the front part has gives that part and leaves the rest.
read_exact-append :
    (xs rest : List ℕ) (allow_eof : Bool) (s : Stream)
    → bytes s ≡ xs ++ rest
    → ((read_exact (length xs) allow_eof s).0 ≡ ok xs)
      × (bytes (read_exact (length xs) allow_eof s).1 ≡ rest)
read_exact-append xs rest allow_eof s e =
    let n = length xs in
    let read = read_exact_cases n allow_eof s in
    (
      read.0
          ∙ rw e (expected_of_le n allow_eof (xs ++ rest) (fits xs rest))
          ∙ ap ok (take-append_length xs rest),
      read.1 (rw e (fits xs rest)) ∙ rw e (drop-append_length xs rest),
    )

join : List Text → List ℕ
join [] = []
join (xs ∷ more) = xs ++ join more

read_fields-join :
    (fields : List Text) (rest : List ℕ) (s : Stream)
    → all (all is_printable) fields ≡ true
    → bytes s ≡ join fields ++ rest
    → ((read_fields (map length fields) s).0 ≡ ok fields)
      × (bytes (read_fields (map length fields) s).1 ≡ rest)
unfolding read_fields join
read_fields-join [] rest s h e = (refl, e)
read_fields-join (xs ∷ more) rest s h e =
    let first = read_exact-append xs (join more ++ rest) false s (e ∙ append_assoc xs _ _) in
    let s' = (read_exact (length xs) false s).1 in
    let later = read_fields-join more rest s' (ground arith) first.1 in ground (arith, first, later)

-- The header at the front of the stream, and what follows it.
read_frame-pack :
    (t a b c d : ℕ) (body : List ℕ) (s : Stream)
    → bytes s ≡ pack t a b c d ++ body
    → a < 2 ^ 32
    → b < 2 ^ 32
    → c < 2 ^ 32
    → d < 2 ^ 32
    → (s' : Stream) × (bytes s' ≡ body)
      × (read_frame s ≡ read_body (record { raw_type = t; lengths = a ∷ b ∷ c ∷ d ∷ [] }) s')
unfolding read_frame
read_frame-pack t a b c d body s e ha hb hc hd =
    let read = rw (length-pack t a b c d) at (read_exact-append (pack t a b c d) body true s e) in
    (
      (read_exact header_size true s).1,
      read.1,
      rw (read.0, read_frame) (rw (unpack-pack t a b c d ha hb hc hd)),
    )

abbrev lengths : List Text → List ℕ
lengths fields =
    length (get_or fields 0 [])
    ∷ length (get_or fields 1 [])
    ∷ length (get_or fields 2 [])
    ∷ length (get_or fields 3 [])
    ∷ []

-- What the checks of the constructor give the reader.
record Fits (count : ℕ) (fields : List Text) : Type 0 where
  in_place : bad_lengths count (lengths fields) ≡ false
  expected : take count (lengths fields) ≡ map length fields
  printable : all (all is_printable) fields ≡ true
  small : All (λ n. n < 2 ^ 32) (lengths fields)
  body :
      get_or fields 0 [] ++ get_or fields 1 [] ++ get_or fields 2 [] ++ get_or fields 3 []
      ≡ join fields

-- The bounds that a field's test sets.
record IsSized (a : Text) : Type 0 where
  long : 1 ≤ length a
  short : length a ≤ 8192
  plain : all is_printable a ≡ true

is_field-IsSized : (a : Text) → is_field a ≡ true → IsSized a
is_field-IsSized a h = ground arith

Fits-0 : Fits 0 []
unfolding misplaced join
Fits-0 = record {
  in_place = refl;
  expected = refl;
  printable = refl;
  small = omega arith;
  body = refl;
}

module _ (a : Text) (sa : IsSized a) where
  Fits-1 : Fits 1 (a ∷ [])
  unfolding misplaced join
  Fits-1 = record {
    in_place = ground arith;
    expected = refl;
    printable = ground arith;
    small = omega arith;
    body = simp append-nil;
  }

  module _ (b : Text) (sb : IsSized b) where
    Fits-2 : Fits 2 (a ∷ b ∷ [])
    unfolding misplaced join
    Fits-2 = record {
      in_place = ground arith;
      expected = refl;
      printable = ground arith;
      small = omega arith;
      body = simp append-nil;
    }

    Fits-4 : (c d : Text) → IsSized c → IsSized d → Fits 4 (a ∷ b ∷ c ∷ d ∷ [])
    unfolding misplaced join
    Fits-4 c d sc sd = record {
      in_place = ground arith;
      expected = refl;
      printable = ground arith;
      small = omega arith;
      body = simp (append-nil, append_assoc);
    }

Fits-fields :
    (count : ℕ) (fields : List Text)
    → length fields ≡ count
    → all is_field fields ≡ true
    → count ≤ 4
    → count ≢ 3
    → Fits count fields
Fits-fields count [] e h k n = rw (← e) Fits-0
Fits-fields count (a ∷ []) e h k n = rw (← e) (Fits-1 a (is_field-IsSized a (ground arith)))
Fits-fields count (a ∷ b ∷ []) e h k n =
    rw (← e) (Fits-2 a (is_field-IsSized a (ground arith)) b (is_field-IsSized b (ground arith)))
Fits-fields count (a ∷ b ∷ c ∷ []) e h k n = absurd (omega arith)
Fits-fields count (a ∷ b ∷ c ∷ d ∷ []) e h k n = rw (← e) (
    Fits-4 a (is_field-IsSized a (ground arith)) b (is_field-IsSized b (ground arith)) c d
      (is_field-IsSized c (ground arith)) (is_field-IsSized d (ground arith)))
Fits-fields count (a ∷ b ∷ c ∷ d ∷ x ∷ xs) e h k n = absurd (omega arith)

-- The number of fields of a message is 0, 1, 2 or 4.
field_count_bounds : (type : MessageType) → (field_count type ≤ 4) × (field_count type ≢ 3)
field_count_bounds webview_required = omega arith
field_count_bounds _ = omega arith

make_frame-Fits :
    (type : MessageType) (fields : List Text) {frame : Frame}
    → make_frame type fields ≡ ok frame
    → Fits (field_count type) fields
unfolding make_frame
make_frame-Fits type fields h =
    let bounds = field_count_bounds type in
    Fits-fields (field_count type) fields (ground arith) (ground arith) bounds.0 bounds.1

of_number-to_number : (type : MessageType) → of_number (to_number type) ≡ some type
of_number-to_number webview_required = refl
of_number-to_number _ = refl

-- The reader after the header of a frame that its constructor accepts.
read_body-join :
    (type : MessageType) (fields : List Text) (rest : List ℕ) (s : Stream)
    → make_frame type fields ≡ ok (record { type = type; fields = fields })
    → bytes s ≡ join fields ++ rest
    → let r = read_body (record { raw_type = to_number type; lengths = lengths fields }) s in
      (r.0 ≡ ok (record { type = type; fields = fields })) × (bytes r.1 ≡ rest)
unfolding read_body
read_body-join type fields rest s h e =
    let fits = make_frame-Fits type fields h in
    let read = read_fields-join fields rest s fits.printable e in
    rw (of_number-to_number, fits.in_place, fits.expected, read_body)
      (rw read.0 (ap raised h, read.1))

abbrev header_of : Frame → List ℕ
header_of frame =
    pack (to_number frame.type) (length (get_or frame.fields 0 []))
      (length (get_or frame.fields 1 [])) (length (get_or frame.fields 2 []))
      (length (get_or frame.fields 3 []))

encode-eq-join :
    (frame : Frame) → IsFrame frame → encode frame ≡ header_of frame ++ join frame.fields
unfolding encode
encode-eq-join frame h =
    ap (λ body. header_of frame ++ body) (make_frame-Fits frame.type frame.fields h).body

-- A frame that is written can be read, however the pipe cuts its bytes, and what follows it stays.
pub read_frame-encode :
    (frame : Frame) (rest : List ℕ) (s : Stream)
    → IsFrame frame
    → bytes s ≡ encode frame ++ rest
    → ((read_frame s).0 ≡ ok frame) × (bytes (read_frame s).1 ≡ rest)
read_frame-encode frame rest s h e =
    let small = (make_frame-Fits frame.type frame.fields h).small in
    let at_header =
      e ∙ ap (λ x. x ++ rest) (encode-eq-join frame h) ∙ append_assoc (header_of frame) _ rest in
    let (s', at_body, same) =
      read_frame-pack _ _ _ _ _ (join frame.fields ++ rest) s at_header small.0 small.1.0
        small.1.1.0 small.1.1.1.0 in
    let read = read_body-join frame.type frame.fields rest s' h at_body in
    (ap (λ r. r.0) same ∙ read.0, ap (λ r. bytes r.1) same ∙ read.1)

-- At the end of the stream the reader raises `EOFError`.
pub read_frame-nil : (s : Stream) → bytes s ≡ [] → (read_frame s).0 ≡ err eof
unfolding read_frame
read_frame-nil s e =
    let ended : (read_exact header_size true s).0 ≡ err eof =
      (read_exact_cases header_size true s).0 ∙ ap (expected header_size true) e in
    rw (ended, read_frame)
