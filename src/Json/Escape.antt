-- ===== src/Json/Escape.antt =====
-- A JSON string literal in ASCII, as `json.dumps` writes it.
use meraki_openconnect.Prelude.{
  ℕ, ◌+◌, ◌-◌, ◌/◌, ◌%◌, [], ◌∷◌, ◌++◌, Text, codes, ltb, leb, ◌==◌, ◌&&◌, if◌then◌else◌,
}

hex_digit : ℕ → ℕ
hex_digit d = if ltb d 10 then b'0' + d else b'a' + (d - 10)

-- `\uXXXX`
unicode_escape : ℕ → Text
unicode_escape c =
    codes "\\u"
    ++ hex_digit (c / 0x1000 % 16)
      ∷ hex_digit (c / 0x100 % 16)
      ∷ hex_digit (c / 0x10 % 16)
      ∷ hex_digit (c % 16)
      ∷ []

-- Characters past the first plane are written as two surrogates.
escape : ℕ → Text
escape c =
    if c == 0x22
    then codes "\\\""
    else if c == 0x5c
    then codes "\\\\"
    else if c == 0x0a
    then codes "\\n"
    else if c == 0x0d
    then codes "\\r"
    else if c == 0x09
    then codes "\\t"
    else if c == 0x0c
    then codes "\\f"
    else if c == 0x08
    then codes "\\b"
    else if leb 0x20 c && leb c 0x7e
    then c ∷ []
    else if ltb c 0x10000
    then unicode_escape c
    else unicode_escape (0xd800 + (c - 0x10000) / 0x400)
      ++ unicode_escape (0xdc00 + (c - 0x10000) % 0x400)

escape_all : Text → Text
escape_all [] = []
escape_all (c ∷ s) = escape c ++ escape_all s

unfoldable pub quote : Text → Text
unfolding escape_all escape unicode_escape hex_digit
quote s = 0x22 ∷ escape_all s ++ 0x22 ∷ []
