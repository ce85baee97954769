-- ===== src/Settings/Pin/Encoded.antt =====
-- The encoding of a digest of 32 bytes is one that a pin takes.
use meraki_openconnect.Prelude.{
  ℕ, ◌+◌, ◌*◌, ◌/◌, ◌%◌, ◌≡◌, refl, true, List, [], ◌∷◌, Text, arith, length, text_eq_refl,
}
use meraki_openconnect.Settings.Base64.{encode, sign}
use meraki_openconnect.Settings.Base64.Laws.{are_bytes, decode-encode, sign-no_padding}
use meraki_openconnect.Settings.Pin.{is_base64, is_spki, base64_tail, is_base64_sign}

sign-is_sign : (v : ℕ) → is_base64_sign (sign v) ≡ true
unfolding sign is_base64_sign
sign-is_sign v = ground arith

encode-base64_tail : (bs : List ℕ) → base64_tail (encode bs) ≡ true
unfolding encode base64_tail is_base64_sign
encode-base64_tail [] = refl
encode-base64_tail (a ∷ []) = rw (sign-is_sign (a / 4), sign-is_sign (a % 4 * 16)) refl
encode-base64_tail (a ∷ b ∷ []) =
    rw (sign-is_sign (a / 4), sign-is_sign (a % 4 * 16 + b / 16), sign-is_sign (b % 16 * 4)) refl
encode-base64_tail (a ∷ b ∷ c ∷ bs) =
    rw
      (
        sign-is_sign (a / 4),
        sign-is_sign (a % 4 * 16 + b / 16),
        sign-is_sign (b % 16 * 4 + c / 64),
        sign-is_sign (c % 64),
        encode-base64_tail bs,
      )
      refl

first-is_base64 :
    (v : ℕ) (s : Text) → base64_tail (sign v ∷ s) ≡ true → is_base64 (sign v ∷ s) ≡ true
unfolding is_base64 base64_tail
first-is_base64 v s h = ground (arith, sign-is_sign v, sign-no_padding v)

encode-is_base64 : (a : ℕ) (bs : List ℕ) → is_base64 (encode (a ∷ bs)) ≡ true
unfolding encode
encode-is_base64 a [] = first-is_base64 (a / 4) _ (encode-base64_tail (a ∷ []))
encode-is_base64 a (b ∷ []) = first-is_base64 (a / 4) _ (encode-base64_tail (a ∷ b ∷ []))
encode-is_base64 a (b ∷ c ∷ bs) = first-is_base64 (a / 4) _ (encode-base64_tail (a ∷ b ∷ c ∷ bs))

pub encode-is_spki :
    (bs : List ℕ) → length bs ≡ 32 → are_bytes bs ≡ true → is_spki (encode bs) ≡ true
unfolding is_spki
encode-is_spki [] h k = ground arith
encode-is_spki (a ∷ bs) h k =
    rw (encode-is_base64 a bs, decode-encode (a ∷ bs) k, text_eq_refl (encode (a ∷ bs)))
      (ground arith)
