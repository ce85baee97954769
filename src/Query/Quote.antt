-- ===== src/Query/Quote.antt =====
-- A text is read back from its quoted form in a query.
use meraki_openconnect.Prelude.{
  ℕ, ◌/◌, ◌%◌, ◌≡◌, refl, ap, sym, ◌∙◌, Bool, true, false, ◌||◌, List, [], ◌∷◌, ◌++◌, Text, map,
  arith, all, ltb, ◌==◌, ◌<◌, Bool-cases, ==_iff, all-append, inl, inr,
}
use meraki_openconnect.Ip.{is_hex}
use meraki_openconnect.Query.{
  hex_digit, hex_value, unquote_from, plus_to_space, unquote_plus, quote_byte, quote_bytes,
  quote_plus, is_safe,
}
use meraki_openconnect.Query.Utf8.{is_scalar, encode_utf8, decode_utf8}
use meraki_openconnect.Query.Utf8.Round.{decode_utf8-encode_utf8}
use meraki_openconnect.Query.Utf8.Sound.{encode_utf8-IsByte}

unquote-plain :
    (c : ℕ) (s : Text) → (c == b'%') ≡ false → unquote_from 0 (c ∷ s) ≡ c ∷ unquote_from 0 s
unfolding unquote_from
unquote-plain c [] h = refl
unquote-plain c (d ∷ []) h = refl
unquote-plain c (d ∷ e ∷ s) h = rw h refl

hex_digit_lem : (v : ℕ) → v < 16 → (is_hex (hex_digit v) ≡ true) × (hex_value (hex_digit v) ≡ v)
unfolding hex_digit hex_value
hex_digit_lem v h = (ground arith, ground arith)

unquote-escape :
    (b : ℕ) (s : Text)
    → b < 256
    → unquote_from 0 (b'%' ∷ hex_digit (b / 16) ∷ hex_digit (b % 16) ∷ s) ≡ b ∷ unquote_from 0 s
unfolding unquote_from
unquote-escape b s h =
    let high = hex_digit_lem (b / 16) (omega arith) in
    let low = hex_digit_lem (b % 16) (omega arith) in
    rw (high.0, low.0, high.1, low.1) (ap (λ x. x ∷ unquote_from 0 s) (omega arith))

hex-no_plus : (v : ℕ) → v < 16 → plus_to_space (hex_digit v) ≡ hex_digit v
unfolding hex_digit plus_to_space
hex-no_plus v h = ground arith

safe-no_plus : (b : ℕ) → is_safe b ≡ true → plus_to_space b ≡ b
unfolding plus_to_space
safe-no_plus b h = ground arith

space-no_plus : plus_to_space b'+' ≡ 0x20
unfolding plus_to_space
space-no_plus = refl

percent-no_plus : plus_to_space b'%' ≡ b'%'
unfolding plus_to_space
percent-no_plus = refl

unquote-quote_byte :
    (b : ℕ) (s : Text)
    → b < 256
    → unquote_from 0 (map plus_to_space (quote_byte b ++ s))
      ≡ b ∷ unquote_from 0 (map plus_to_space s)
unfolding quote_byte
unquote-quote_byte b s h = elim (Bool-cases (is_safe b)) [
  | inl a ↦ rw (a, safe-no_plus b a) (unquote-plain b _ (ground arith))
  | inr a ↦ rw a (elim (Bool-cases (b == 0x20)) [
    | inl e ↦
        rw (e, space-no_plus)
          (unquote-plain 0x20 _ refl
            ∙ ap (λ x. x ∷ unquote_from 0 (map plus_to_space s)) (sym ((==_iff b 0x20).0 e)))
    | inr e ↦
        rw
          (
            e,
            percent-no_plus,
            hex-no_plus (b / 16) (omega arith),
            hex-no_plus (b % 16) (omega arith),
          )
          (unquote-escape b _ h)
  ])
]

unquote-quote_bytes :
    (bs : List ℕ)
    → all (λ b. ltb b 256) bs ≡ true
    → unquote_from 0 (map plus_to_space (quote_bytes bs)) ≡ bs
unfolding quote_bytes unquote_from
unquote-quote_bytes [] h = refl
unquote-quote_bytes (b ∷ bs) h =
    unquote-quote_byte b (quote_bytes bs) (ground arith)
    ∙ ap (λ x. b ∷ x) (unquote-quote_bytes bs (ground arith))

-- A text is read back from its quoted form.
pub unquote_plus-quote_plus : (s : Text) → all is_scalar s ≡ true → unquote_plus (quote_plus s) ≡ s
unfolding unquote_plus quote_plus
unquote_plus-quote_plus s h =
    ap decode_utf8 (unquote-quote_bytes (encode_utf8 s) (encode_utf8-IsByte s h))
    ∙ decode_utf8-encode_utf8 s h

-- What `urlencode` prints.
abbrev pub is_query_char : ℕ → Bool
is_query_char c = is_safe c || c == b'+' || c == b'%'

quote_byte-safe : (b : ℕ) → b < 256 → all is_query_char (quote_byte b) ≡ true
unfolding quote_byte hex_digit
quote_byte-safe b h = elim (Bool-cases (is_safe b)) [
  | inl a ↦ rw a (ground arith)
  | inr a ↦ rw a (elim (Bool-cases (b == 0x20)) [ inl e ↦ rw e refl | inr e ↦ rw e (ground arith) ])
]

quote_bytes-safe :
    (bs : List ℕ) → all (λ b. ltb b 256) bs ≡ true → all is_query_char (quote_bytes bs) ≡ true
unfolding quote_bytes
quote_bytes-safe [] h = refl
quote_bytes-safe (b ∷ bs) h =
    all-append _ (quote_byte b) _ (quote_byte-safe b (ground arith))
      (quote_bytes-safe bs (ground arith))

pub quote_plus-safe : (s : Text) → all is_scalar s ≡ true → all is_query_char (quote_plus s) ≡ true
unfolding quote_plus
quote_plus-safe s h = quote_bytes-safe (encode_utf8 s) (encode_utf8-IsByte s h)
