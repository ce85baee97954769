-- ===== src/Settings/Base64.antt =====
-- `base64.b64encode` and `base64.b64decode(…, validate=True)`, on ASCII text.
pub mod Laws
use meraki_openconnect.Prelude.{
  ℕ, ◌+◌, ◌-◌, ◌*◌, ◌/◌, ◌%◌, ◌&&◌, Option, none, some, List, [], ◌∷◌, Text, ltb, ◌==◌, is_upper,
  is_lower, is_digit, if◌then◌else◌,
}

-- The 64 signs, and the number of a sign.
unfoldable pub sign : ℕ → ℕ
sign v =
    if ltb v 26
    then b'A' + v
    else if ltb v 52
    then b'a' + (v - 26)
    else if ltb v 62
    then b'0' + (v - 52)
    else if v == 62
    then b'+'
    else b'/'

unfoldable pub value : ℕ → Option ℕ
value c =
    if is_upper c
    then some (c - b'A')
    else if is_lower c
    then some (c - b'a' + 26)
    else if is_digit c
    then some (c - b'0' + 52)
    else if c == b'+'
    then some 62
    else if c == b'/'
    then some 63
    else none

unfoldable pub encode : List ℕ → Text
unfolding sign
encode [] = []
encode (a ∷ []) = sign (a / 4) ∷ sign (a % 4 * 16) ∷ b'=' ∷ b'=' ∷ []
encode (a ∷ b ∷ []) = sign (a / 4) ∷ sign (a % 4 * 16 + b / 16) ∷ sign (b % 16 * 4) ∷ b'=' ∷ []
encode (a ∷ b ∷ c ∷ rest) =
    sign (a / 4)
    ∷ sign (a % 4 * 16 + b / 16)
    ∷ sign (b % 16 * 4 + c / 64)
    ∷ sign (c % 64)
    ∷ encode rest

-- The bytes of four signs, the last of which may be padding; `none` is the error of `binascii`.
unfoldable pub last_group : ℕ → ℕ → ℕ → ℕ → Option (List ℕ)
last_group w x y z = elim (value w) [
  | none ↦ none
  | some a ↦ elim (value x) [
    | none ↦ none
    | some b ↦ if y == b'=' && z == b'=' then some ((a * 4 + b / 16) ∷ []) else elim (value y) [
      | none ↦ none
      | some c ↦
          if z == b'='
          then some ((a * 4 + b / 16) ∷ (b % 16 * 16 + c / 4) ∷ [])
          else elim (value z) [
            | none ↦ none
            | some d ↦ some ((a * 4 + b / 16) ∷ (b % 16 * 16 + c / 4) ∷ (c % 4 * 64 + d) ∷ [])
          ]
    ]
  ]
]

unfoldable pub join_group : Option (List ℕ) → Option (List ℕ) → Option (List ℕ)
join_group (some (a ∷ b ∷ c ∷ [])) (some rest) = some (a ∷ b ∷ c ∷ rest)
join_group _ _ = none

unfoldable pub decode : Text → Option (List ℕ)
unfolding last_group join_group value
decode [] = some []
decode (w ∷ x ∷ y ∷ z ∷ []) = last_group w x y z
decode (w ∷ x ∷ y ∷ z ∷ c ∷ rest) = join_group (last_group w x y z) (decode (c ∷ rest))
decode _ = none
