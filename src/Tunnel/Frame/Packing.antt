-- ===== src/Tunnel/Frame/Packing.antt =====
-- `HEADER = struct.Struct("!BIIII")`: a byte, and four 32-bit numbers with the high byte first.
use meraki_openconnect.Prelude.{
  ℕ, ◌+◌, ◌*◌, ◌/◌, ◌%◌, ◌^◌, ◌<◌, ◌≡◌, refl, List, [], ◌∷◌, ◌++◌, length, drop, arith,
}

abbrev pub header_size : ℕ
header_size = 17

pub pack32 : ℕ → List ℕ
pack32 n = (n / 2 ^ 24 % 256) ∷ (n / 2 ^ 16 % 256) ∷ (n / 2 ^ 8 % 256) ∷ (n % 256) ∷ []

-- The four bytes at the front; `struct` has checked that there are as many.
pub unpack32 : List ℕ → ℕ
unpack32 (a ∷ b ∷ c ∷ d ∷ rest) = a * 2 ^ 24 + b * 2 ^ 16 + c * 2 ^ 8 + d
unpack32 _ = 0

pub record Header : Type 0 where
  pub raw_type : ℕ
  pub lengths : List ℕ

unfoldable pub pack : ℕ → ℕ → ℕ → ℕ → ℕ → List ℕ
unfolding pack32
pack t a b c d = t ∷ pack32 a ++ pack32 b ++ pack32 c ++ pack32 d

unfoldable pub unpack : List ℕ → Header
unfolding unpack32
unpack header = elim header [
  | [] ↦ record { raw_type = 0; lengths = [] }
  | t ∷ r ↦ record {
    raw_type = t;
    lengths = unpack32 r ∷ unpack32 (drop 4 r) ∷ unpack32 (drop 8 r) ∷ unpack32 (drop 12 r) ∷ [];
  }
]

unpack32-pack32 : (n : ℕ) (rest : List ℕ) → n < 2 ^ 32 → unpack32 (pack32 n ++ rest) ≡ n
unfolding pack32 unpack32
unpack32-pack32 n rest h = omega arith

pub length-pack : (t a b c d : ℕ) → length (pack t a b c d) ≡ header_size
unfolding pack
length-pack t a b c d = refl

pub unpack-pack :
    (t a b c d : ℕ)
    → a < 2 ^ 32
    → b < 2 ^ 32
    → c < 2 ^ 32
    → d < 2 ^ 32
    → unpack (pack t a b c d) ≡ record { raw_type = t; lengths = a ∷ b ∷ c ∷ d ∷ [] }
unfolding pack unpack
unpack-pack t a b c d ha hb hc hd = ground arith
