-- ===== src/Settings/Base64/Laws.antt =====
-- Encoding and then decoding gives bytes back.
use meraki_openconnect.Prelude.{
  ℕ, ◌+◌, ◌*◌, ◌/◌, ◌%◌, ◌<◌, ◌≡◌, refl, ap, ◌∙◌, Bool, true, false, some, List, [], ◌∷◌, Text,
  arith, all, ltb, ◌==◌, some_injective,
}
use meraki_openconnect.Settings.Base64.{encode, decode, sign, value, last_group, join_group}

sign_value : (v : ℕ) → v < 64 → value (sign v) ≡ some v
unfolding sign value
sign_value v h = ground arith

pub sign-no_padding : (v : ℕ) → (sign v == b'=') ≡ false
unfolding sign
sign-no_padding v = ground arith

three-eq : {a b c x y z : ℕ} → x ≡ a → y ≡ b → z ≡ c → x ∷ y ∷ z ∷ [] ≡ a ∷ b ∷ c ∷ []
three-eq e f g = rw (e, f, g) refl

two-eq : {a b x y : ℕ} → x ≡ a → y ≡ b → x ∷ y ∷ [] ≡ a ∷ b ∷ []
two-eq e f = rw (e, f) refl

-- The signs of a whole group give its bytes back.
group_lem :
    (a b c : ℕ)
    → a < 256
    → b < 256
    → c < 256
    → last_group
        (sign (a / 4))
        (sign (a % 4 * 16 + b / 16))
        (sign (b % 16 * 4 + c / 64))
        (sign (c % 64))
      ≡ some (a ∷ b ∷ c ∷ [])
unfolding last_group
group_lem a b c h k l =
    rw
      (
        last_group,
        sign_value (a / 4) (omega arith),
        sign_value (a % 4 * 16 + b / 16) (omega arith),
        sign-no_padding (b % 16 * 4 + c / 64),
        sign_value (b % 16 * 4 + c / 64) (omega arith),
        sign-no_padding (c % 64),
        sign_value (c % 64) (omega arith),
      )
      (ap some (three-eq (omega arith) (omega arith) (omega arith)))

two_lem :
    (a b : ℕ)
    → a < 256
    → b < 256
    → last_group (sign (a / 4)) (sign (a % 4 * 16 + b / 16)) (sign (b % 16 * 4)) b'='
      ≡ some (a ∷ b ∷ [])
unfolding last_group
two_lem a b h k =
    rw
      (
        last_group,
        sign_value (a / 4) (omega arith),
        sign_value (a % 4 * 16 + b / 16) (omega arith),
        sign-no_padding (b % 16 * 4),
        sign_value (b % 16 * 4) (omega arith),
      )
      (ap some (two-eq (omega arith) (omega arith)))

one_lem :
    (a : ℕ) → a < 256 → last_group (sign (a / 4)) (sign (a % 4 * 16)) b'=' b'=' ≡ some (a ∷ [])
unfolding last_group
one_lem a h =
    rw (last_group, sign_value (a / 4) (omega arith), sign_value (a % 4 * 16) (omega arith))
      (ap some (ap (λ x. x ∷ []) (omega arith)))

decode_group :
    (w x y z a b c : ℕ) (s : Text) (rest : List ℕ)
    → last_group w x y z ≡ some (a ∷ b ∷ c ∷ [])
    → decode s ≡ some rest
    → decode (w ∷ x ∷ y ∷ z ∷ s) ≡ some (a ∷ b ∷ c ∷ rest)
unfolding decode join_group
decode_group w x y z a b c [] rest h k =
    h ∙ ap (λ r. some (a ∷ b ∷ c ∷ r)) (some_injective [] rest k)
decode_group w x y z a b c (d ∷ s) rest h k = rw (h, k) refl

abbrev pub are_bytes : List ℕ → Bool
are_bytes = all (λ b. ltb b 256)

pub decode-encode : (bs : List ℕ) → are_bytes bs ≡ true → decode (encode bs) ≡ some bs
unfolding decode encode
decode-encode [] h = refl
decode-encode (a ∷ []) h = one_lem a (ground arith)
decode-encode (a ∷ b ∷ []) h = two_lem a b (ground arith) (ground arith)
decode-encode (a ∷ b ∷ c ∷ bs) h =
    decode_group (sign (a / 4)) (sign (a % 4 * 16 + b / 16)) (sign (b % 16 * 4 + c / 64))
      (sign (c % 64)) a b c (encode bs) bs
      (group_lem a b c (ground arith) (ground arith) (ground arith))
      (decode-encode bs (ground arith))
