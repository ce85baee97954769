-- ===== src/Query/Utf8.antt =====
-- `str.encode()` and `bytes.decode(errors="replace")`, which urllib.parse uses.
pub mod Round
pub mod Sound
use meraki_openconnect.Prelude.{
  ℕ, ◌+◌, ◌-◌, ◌*◌, ◌/◌, ◌%◌, ◌≡◌, refl, ap, Bool, true, ◌&&◌, ◌||◌, List, [], ◌∷◌, ◌++◌, Text,
  arith, all, leb, ltb, Bool-cases, ltb→lt, ◌<◌, ◌≤◌, ◌∙◌, if◌then◌else◌, all-append, inl, inr,
}

-- The code points of a Python text that UTF-8 encodes: all but the surrogates.
abbrev pub is_scalar : ℕ → Bool
is_scalar c = ltb c 0xd800 || leb 0xe000 c && ltb c 0x110000

pub encode_char : ℕ → List ℕ
encode_char c =
    if ltb c 0x80
    then c ∷ []
    else if ltb c 0x800
    then (0xc0 + c / 64) ∷ (0x80 + c % 64) ∷ []
    else if ltb c 0x10000
    then (0xe0 + c / 4096) ∷ (0x80 + c / 64 % 64) ∷ (0x80 + c % 64) ∷ []
    else (0xf0 + c / 262144) ∷ (0x80 + c / 4096 % 64) ∷ (0x80 + c / 64 % 64) ∷ (0x80 + c % 64) ∷ []

unfoldable pub encode_utf8 : Text → List ℕ
unfolding encode_char
encode_utf8 [] = []
encode_utf8 (c ∷ s) = encode_char c ++ encode_utf8 s

-- What a decoder has read of a character: how many bytes are to come, the next between two bounds.
pub data Reader : Type 0 where
  idle : Reader
  last : ℕ → Reader
  two : ℕ → ℕ → ℕ → Reader
  three : ℕ → ℕ → ℕ → Reader

-- The first byte of a character: what it gives at once, and what is to come.
pub start : ℕ → Text × Reader
start b =
    if ltb b 0x80
    then (b ∷ [], idle)
    else if ltb b 0xc2
    then (0xfffd ∷ [], idle)
    else if ltb b 0xe0
    then ([], last (b - 0xc0))
    else if ltb b 0xf0
    then (
      [],
      two (if leb b 0xe0 then 0xa0 else 0x80) (if leb 0xed b && leb b 0xed then 0x9f else 0xbf)
          (b - 0xe0),
    )
    else if ltb b 0xf5
    then (
      [],
      three (if leb b 0xf0 then 0x90 else 0x80) (if leb 0xf4 b then 0x8f else 0xbf) (b - 0xf0),
    )
    else (0xfffd ∷ [], idle)

abbrev pub within : ℕ → ℕ → ℕ → Bool
within lo hi b = leb lo b && leb b hi

-- A byte that cannot continue a character gives the replacement character, and starts anew.
abbrev pub restart : ℕ → Text × Reader
unfolding start
restart b = (0xfffd ∷ (start b).0, (start b).1)

pub read_byte : Reader → ℕ → Text × Reader
unfolding start
read_byte idle b = start b
read_byte (last n) b = if within 0x80 0xbf b then ((n * 64 + (b - 0x80)) ∷ [], idle) else restart b
read_byte (two lo hi n) b = if within lo hi b then ([], last (n * 64 + (b - 0x80))) else restart b
read_byte (three lo hi n) b =
    if within lo hi b then ([], two 0x80 0xbf (n * 64 + (b - 0x80))) else restart b

pub finish : Reader → Text
finish idle = []
finish r = 0xfffd ∷ []

pub decode_from : Reader → List ℕ → Text
unfolding read_byte finish
decode_from r [] = finish r
decode_from r (b ∷ bs) = let rest = decode_from (read_byte r b).1 bs in (read_byte r b).0 ++ rest

unfoldable pub decode_utf8 : List ℕ → Text
unfolding decode_from
decode_utf8 bytes = decode_from idle bytes
