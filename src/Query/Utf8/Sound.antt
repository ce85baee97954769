-- ===== src/Query/Utf8/Sound.antt =====
-- The code of `Query.Utf8`: which numbers the decoder and the encoder give.
use meraki_openconnect.Prelude.{
  ℕ, ◌+◌, ◌-◌, ◌*◌, ◌≡◌, refl, true, List, [], ◌∷◌, Text, arith, all, ltb, Bool-cases, all-append,
  inl, inr,
}
use meraki_openconnect.Query.Utf8.{
  is_scalar, encode_char, encode_utf8, Reader, start, within, restart, read_byte, finish,
  decode_from, decode_utf8, idle, last, two, three,
}

-- What a reader may still give are characters.
IsOpen : Reader → Type 0
IsOpen idle = Unit
IsOpen (last n) = (b : ℕ) → within 0x80 0xbf b ≡ true → is_scalar (n * 64 + (b - 0x80)) ≡ true
IsOpen (two lo hi n) =
    (b c : ℕ)
    → within lo hi b ≡ true
    → within 0x80 0xbf c ≡ true
    → is_scalar ((n * 64 + (b - 0x80)) * 64 + (c - 0x80)) ≡ true
IsOpen (three lo hi n) =
    (b c d : ℕ)
    → within lo hi b ≡ true
    → within 0x80 0xbf c ≡ true
    → within 0x80 0xbf d ≡ true
    → is_scalar (((n * 64 + (b - 0x80)) * 64 + (c - 0x80)) * 64 + (d - 0x80)) ≡ true

IsSound : Text × Reader → Type 0
unfolding IsOpen
IsSound r = (all is_scalar r.0 ≡ true) × IsOpen r.1

start-IsSound : (b : ℕ) → IsSound (start b)
unfolding IsSound IsOpen start
start-IsSound b = elim (Bool-cases (ltb b 0x80)) [
  | inl h ↦ rw h (ground arith, tt)
  | inr h ↦ rw h (elim (Bool-cases (ltb b 0xc2)) [
    | inl i ↦ rw i (refl, tt)
    | inr i ↦ rw i (elim (Bool-cases (ltb b 0xe0)) [
      | inl j ↦ rw j (refl, λ x k. ground arith)
      | inr j ↦ rw j (elim (Bool-cases (ltb b 0xf0)) [
        | inl l ↦ rw l (refl, λ x y k m. ground arith)
        | inr l ↦ rw l (elim (Bool-cases (ltb b 0xf5)) [
          | inl m ↦ rw m (refl, λ x y z n o p. ground arith)
          | inr m ↦ rw m (refl, tt)
        ])
      ])
    ])
  ])
]

restart-IsSound : (b : ℕ) → IsSound (restart b)
unfolding IsSound IsOpen restart
restart-IsSound b = start-IsSound b

read_byte-IsSound : (r : Reader) (b : ℕ) → IsOpen r → IsSound (read_byte r b)
unfolding read_byte IsSound IsOpen
read_byte-IsSound idle b h = start-IsSound b
read_byte-IsSound (last n) b h = elim (Bool-cases (within 0x80 0xbf b)) [
  | inl w ↦ rw w (ground (arith, h b w), tt)
  | inr w ↦ rw w (restart-IsSound b)
]
read_byte-IsSound (two lo hi n) b h = elim (Bool-cases (within lo hi b)) [
  | inl w ↦ rw w (refl, λ c k. h b c w k)
  | inr w ↦ rw w (restart-IsSound b)
]
read_byte-IsSound (three lo hi n) b h = elim (Bool-cases (within lo hi b)) [
  | inl w ↦ rw w (refl, λ c d k l. h b c d w k l)
  | inr w ↦ rw w (restart-IsSound b)
]

finish-IsScalar : (r : Reader) → all is_scalar (finish r) ≡ true
unfolding finish
finish-IsScalar idle = refl
finish-IsScalar (last n) = refl
finish-IsScalar (two lo hi n) = refl
finish-IsScalar (three lo hi n) = refl

decode_from-IsScalar :
    (r : Reader) (bs : List ℕ) → IsOpen r → all is_scalar (decode_from r bs) ≡ true
unfolding decode_from IsSound
decode_from-IsScalar r [] h = finish-IsScalar r
decode_from-IsScalar r (b ∷ bs) h =
    let k = read_byte-IsSound r b h in
    all-append is_scalar (read_byte r b).0 _ k.0 (decode_from-IsScalar (read_byte r b).1 bs k.1)

-- What is decoded can be encoded.
pub decode_utf8-IsScalar : (bs : List ℕ) → all is_scalar (decode_utf8 bs) ≡ true
unfolding decode_utf8 IsOpen
decode_utf8-IsScalar bs = decode_from-IsScalar idle bs tt

encode_char-IsByte : (c : ℕ) → is_scalar c ≡ true → all (λ b. ltb b 256) (encode_char c) ≡ true
unfolding encode_char
encode_char-IsByte c h = elim (Bool-cases (ltb c 0x80)) [
  | inl a ↦ rw a (ground arith)
  | inr a ↦ rw a (elim (Bool-cases (ltb c 0x800)) [
    | inl b ↦ rw b (ground arith)
    | inr b ↦ rw b (elim (Bool-cases (ltb c 0x10000)) [
      | inl d ↦ rw d (ground arith)
      | inr d ↦ rw d (ground arith)
    ])
  ])
]

pub encode_utf8-IsByte :
    (s : Text) → all is_scalar s ≡ true → all (λ b. ltb b 256) (encode_utf8 s) ≡ true
unfolding encode_utf8
encode_utf8-IsByte [] h = refl
encode_utf8-IsByte (c ∷ s) h =
    all-append _ (encode_char c) _ (encode_char-IsByte c (ground arith))
      (encode_utf8-IsByte s (ground arith))
