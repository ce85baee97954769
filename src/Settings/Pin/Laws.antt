-- ===== src/Settings/Pin/Laws.antt =====
-- The canonical form that `normalize_server_cert_pin` gives a pin.
use meraki_openconnect.Prelude.{
  ℕ, ◌≡◌, ◌⊎◌, inl, inr, refl, sym, ap, ◌∙◌, Bool, true, false, ◌&&◌, ◌||◌, Option, none, some, [],
  ◌∷◌, ◌++◌, Text, codes, text_eq, text_eq_iff, Bool-cases, ok, arith, all, any, if◌then◌else◌,
}
use meraki_openconnect.Settings.Checks.{check_string, is_control}
use meraki_openconnect.Settings.Pin.{
  partition, is_hex, is_sha1, is_sha256, is_base64, is_spki, lower, normalize_prefixed,
  after_partition, normalize_server_cert_pin, base64_tail, is_base64_sign,
}

-- The three canonical forms.
abbrev pub IsCanonical : Text → Type 0
IsCanonical pin =
    ((hex : Text) × (pin ≡ codes "sha1:" ++ hex) × (is_sha1 hex ≡ true))
    ⊎ (((hex : Text) × (pin ≡ codes "sha256:" ++ hex) × (is_sha256 hex ≡ true))
        ⊎ ((key : Text) × (pin ≡ codes "pin-sha256:" ++ key) × (is_spki key ≡ true)))

hex-no_control : (s : Text) → all is_hex s ≡ true → any is_control s ≡ false
hex-no_control [] h = refl
hex-no_control (c ∷ s) h = ground (arith, hex-no_control s)

sign-no_control : (c : ℕ) → is_base64_sign c ≡ true → is_control c ≡ false
unfolding is_base64_sign
sign-no_control c h = ground arith

padding-no_control :
    (s : Text) → (text_eq s (codes "=") || text_eq s (codes "==")) ≡ true → any is_control s ≡ false
padding-no_control s h = elim (Bool-cases (text_eq s (codes "="))) [
  | inl e ↦ ap (λ t. any is_control t) ((text_eq_iff s (codes "=")).0 e)
  | inr n ↦ ap (λ t. any is_control t) ((text_eq_iff s (codes "==")).0 (ground arith))
]

or-right : (a b c : Bool) → (a || b || c) ≡ true → a ≡ false → (b || c) ≡ true
or-right a b c h n = ground arith

tail-no_control : (s : Text) → base64_tail s ≡ true → any is_control s ≡ false
unfolding base64_tail
tail-no_control [] h = refl
tail-no_control (c ∷ s) h =
    let rest = tail-no_control s in
    elim (Bool-cases (is_base64_sign c && base64_tail s)) [
      | inl k ↦ ground (arith, sign-no_control c, rest)
      | inr k ↦ padding-no_control (c ∷ s) (or-right _ _ _ h k)
    ]

base64-no_control : (s : Text) → is_base64 s ≡ true → any is_control s ≡ false
unfolding is_base64
base64-no_control [] h = refl
base64-no_control (c ∷ s) h = ground (arith, sign-no_control c, tail-no_control s)

normalize_prefixed-IsCanonical :
    (prefix encoded pin : Text) → normalize_prefixed prefix encoded ≡ ok pin → IsCanonical pin
unfolding normalize_prefixed
normalize_prefixed-IsCanonical prefix encoded pin h =
    elim (Bool-cases (text_eq prefix (codes "sha1") && is_sha1 encoded)) [
      | inl a ↦ inl (encoded, ground arith, ground arith)
      | inr a ↦ elim (Bool-cases (text_eq prefix (codes "sha256") && is_sha256 encoded)) [
        | inl b ↦ inr (inl (encoded, ground arith, ground arith))
        | inr b ↦ elim (Bool-cases (text_eq prefix (codes "pin-sha256") && is_spki encoded)) [
          | inl c ↦ inr (inr (encoded, ground arith, ground arith))
          | inr c ↦ ground arith
        ]
      ]
    ]

after_partition-IsCanonical :
    (p : Text × Option Text) (pin : Text) → after_partition p ≡ ok pin → IsCanonical pin
after_partition-IsCanonical (prefix, none) pin h = cc
after_partition-IsCanonical (prefix, some encoded) pin h = normalize_prefixed-IsCanonical _ _ pin h

checked-IsCanonical :
    (v pin : Text)
    → (if is_sha1 v then ok (codes "sha1:" ++ v) else after_partition (partition v)) ≡ ok pin
    → IsCanonical pin
checked-IsCanonical v pin h = elim (Bool-cases (is_sha1 v)) [
  | inl a ↦ inl (v, ground arith, a)
  | inr a ↦ after_partition-IsCanonical (partition v) pin (ground arith)
]

pub normalize-IsCanonical : (v pin : Text) → normalize_server_cert_pin v ≡ ok pin → IsCanonical pin
unfolding normalize_server_cert_pin check_string
normalize-IsCanonical v pin h = checked-IsCanonical v pin (ground arith)

spki-no_control : (s : Text) → is_spki s ≡ true → any is_control s ≡ false
unfolding is_spki
spki-no_control s h = base64-no_control s (ground arith)

pub canonical-fixed : (pin : Text) → IsCanonical pin → normalize_server_cert_pin pin ≡ ok pin
unfolding normalize_server_cert_pin check_string normalize_prefixed partition lower
canonical-fixed pin (inl (hex, e, h)) =
    ap normalize_server_cert_pin e ∙ ground (arith, hex-no_control hex) ∙ ap ok (sym e)
canonical-fixed pin (inr (inl (hex, e, h))) =
    ap normalize_server_cert_pin e ∙ ground (arith, hex-no_control hex) ∙ ap ok (sym e)
canonical-fixed pin (inr (inr (key, e, h))) =
    ap normalize_server_cert_pin e ∙ ground (arith, spki-no_control key) ∙ ap ok (sym e)

-- A normalized pin has one of three prefixes and a digest in its form, and is normal.
pub normalize_server_cert_pin-IsCanonical :
    (v pin : Text)
    → normalize_server_cert_pin v ≡ ok pin
    → IsCanonical pin × (normalize_server_cert_pin pin ≡ ok pin)
normalize_server_cert_pin-IsCanonical v pin h =
    (normalize-IsCanonical v pin h, canonical-fixed pin (normalize-IsCanonical v pin h))

accepted-no_control :
    (v pin : Text) → normalize_server_cert_pin v ≡ ok pin → any is_control v ≡ false
unfolding normalize_server_cert_pin check_string
accepted-no_control v pin h = ground arith

pub normalized-no_control :
    (v pin : Text) → normalize_server_cert_pin v ≡ ok pin → any is_control pin ≡ false
normalized-no_control v pin h =
    accepted-no_control pin pin (normalize_server_cert_pin-IsCanonical v pin h).1
