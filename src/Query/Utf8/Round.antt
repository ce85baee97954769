-- ===== src/Query/Utf8/Round.antt =====
-- The code of `Query.Utf8`: what is encoded is decoded to the same text.
use meraki_openconnect.Prelude.{
  ℕ, ◌+◌, ◌*◌, ◌/◌, ◌%◌, ◌≡◌, refl, ap, true, ◌&&◌, List, [], ◌∷◌, ◌++◌, Text, arith, all, leb, ltb,
  Bool-cases, ltb→lt, ◌<◌, ◌≤◌, ◌∙◌, if◌then◌else◌, inl, inr,
}
use meraki_openconnect.Query.Utf8.{
  is_scalar, encode_char, encode_utf8, Reader, start, read_byte, finish, decode_from, decode_utf8,
  idle, last, two, three,
}

decode_step :
    (r t : Reader) (b : ℕ) (out bs : List ℕ)
    → read_byte r b ≡ (out, t)
    → decode_from r (b ∷ bs) ≡ out ++ decode_from t bs
unfolding decode_from
decode_step r t b out bs h = rw h refl

start_last : (q : ℕ) → 2 ≤ q → q < 32 → read_byte idle (0xc0 + q) ≡ ([], last q)
unfolding read_byte start
start_last q h k = ground arith

abbrev two_at : ℕ → Reader
two_at q = two (if leb q 0 then 0xa0 else 0x80) (if leb 13 q && leb q 13 then 0x9f else 0xbf) q

start_two : (q : ℕ) → q < 16 → read_byte idle (0xe0 + q) ≡ ([], two_at q)
unfolding read_byte start
start_two q h = ground arith

abbrev three_at : ℕ → Reader
three_at q = three (if leb q 0 then 0x90 else 0x80) (if leb 4 q then 0x8f else 0xbf) q

start_three : (q : ℕ) → q < 5 → read_byte idle (0xf0 + q) ≡ ([], three_at q)
unfolding read_byte start
start_three q h = ground arith

read_last : (n m : ℕ) → m < 64 → read_byte (last n) (0x80 + m) ≡ ((n * 64 + m) ∷ [], idle)
unfolding read_byte
read_last n m h = ground arith

read_two :
    (lo hi n m : ℕ)
    → lo ≤ 0x80 + m
    → 0x80 + m ≤ hi
    → read_byte (two lo hi n) (0x80 + m) ≡ ([], last (n * 64 + m))
unfolding read_byte
read_two lo hi n m h k = ground arith

read_three :
    (lo hi n m : ℕ)
    → lo ≤ 0x80 + m
    → 0x80 + m ≤ hi
    → read_byte (three lo hi n) (0x80 + m) ≡ ([], two 0x80 0xbf (n * 64 + m))
unfolding read_byte
read_three lo hi n m h k = ground arith

module _ (c : ℕ) (rest : List ℕ) where
  decode_short : c < 0x80 → decode_from idle (c ∷ rest) ≡ c ∷ decode_from idle rest
  unfolding read_byte start
  decode_short h = decode_step idle idle c (c ∷ []) rest (ground arith)

  decode_two :
      0x80 ≤ c
      → c < 0x800
      → decode_from idle ((0xc0 + c / 64) ∷ (0x80 + c % 64) ∷ rest) ≡ c ∷ decode_from idle rest
  decode_two h k =
      decode_step _ _ _ _ _ (start_last (c / 64) (omega arith) (omega arith))
      ∙ decode_step _ _ _ _ _ (read_last (c / 64) (c % 64) (omega arith))
      ∙ ap (λ x. x ∷ decode_from idle rest) (omega arith)

  decode_three :
      0x800 ≤ c
      → c < 0x10000
      → is_scalar c ≡ true
      → decode_from idle ((0xe0 + c / 4096) ∷ (0x80 + c / 64 % 64) ∷ (0x80 + c % 64) ∷ rest)
        ≡ c ∷ decode_from idle rest
  decode_three h k s =
      decode_step _ _ _ _ _ (start_two (c / 4096) (omega arith))
      ∙ decode_step _ _ _ _ _ (read_two _ _ (c / 4096) (c / 64 % 64) (ground arith) (ground arith))
      ∙ decode_step _ _ _ _ _ (read_last (c / 4096 * 64 + c / 64 % 64) (c % 64) (omega arith))
      ∙ ap (λ x. x ∷ decode_from idle rest) (omega arith)

  decode_four :
      0x10000 ≤ c
      → c < 0x110000
      → decode_from idle (
          (0xf0 + c / 262144)
          ∷ (0x80 + c / 4096 % 64)
          ∷ (0x80 + c / 64 % 64)
          ∷ (0x80 + c % 64)
          ∷ rest)
        ≡ c ∷ decode_from idle rest
  decode_four h k =
      decode_step _ _ _ _ _ (start_three (c / 262144) (omega arith))
      ∙ decode_step _ _ _ _ _
          (read_three _ _ (c / 262144) (c / 4096 % 64) (ground arith) (ground arith))
      ∙ decode_step _ _ _ _ _
          (read_two _ _ (c / 262144 * 64 + c / 4096 % 64) (c / 64 % 64) (omega arith) (omega arith))
      ∙ decode_step _ _ _ _ _ (read_last _ (c % 64) (omega arith))
      ∙ ap (λ x. x ∷ decode_from idle rest) (omega arith)

  decode_char :
      is_scalar c ≡ true → decode_from idle (encode_char c ++ rest) ≡ c ∷ decode_from idle rest
  unfolding encode_char
  decode_char h = elim (Bool-cases (ltb c 0x80)) [
    | inl a ↦ rw a (decode_short (ltb→lt _ _ a))
    | inr a ↦ rw a (elim (Bool-cases (ltb c 0x800)) [
      | inl b ↦ rw b (decode_two (ground arith) (ltb→lt _ _ b))
      | inr b ↦ rw b (elim (Bool-cases (ltb c 0x10000)) [
        | inl d ↦ rw d (decode_three (ground arith) (ltb→lt _ _ d) h)
        | inr d ↦ rw d (decode_four (ground arith) (ground arith))
      ])
    ])
  ]

-- Encoding and then decoding gives the text back.
pub decode_utf8-encode_utf8 : (s : Text) → all is_scalar s ≡ true → decode_utf8 (encode_utf8 s) ≡ s
unfolding decode_utf8 encode_utf8 decode_from finish
decode_utf8-encode_utf8 [] h = refl
decode_utf8-encode_utf8 (c ∷ s) h =
    decode_char c (encode_utf8 s) (ground arith)
    ∙ ap (λ t. c ∷ t) (decode_utf8-encode_utf8 s (ground arith))
