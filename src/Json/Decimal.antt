-- ===== src/Json/Decimal.antt =====
-- `str(n)` of a number that is not negative.
use meraki_openconnect.Prelude.{
  ℕ, zero, suc, ◌+◌, ◌/◌, ◌%◌, [], ◌∷◌, Text, ◌≡◌, true, arith, all, ltb, is_digit, if◌then◌else◌,
  refl,
}

-- The digits of n in front of those that are there. A division by ten ends it within n rounds.
pub decimal_onto : ℕ → ℕ → Text → Text
decimal_onto zero n acc = acc
decimal_onto (suc fuel) n acc =
    let acc' = (b'0' + n % 10) ∷ acc in
    let rest = decimal_onto fuel (n / 10) acc' in if ltb n 10 then acc' else rest

unfoldable pub decimal : ℕ → Text
unfolding decimal_onto
decimal n = decimal_onto (suc n) n []

decimal_onto_digits :
    (fuel n : ℕ) (acc : Text)
    → all is_digit acc ≡ true
    → all is_digit (decimal_onto fuel n acc) ≡ true
unfolding decimal_onto
decimal_onto_digits zero n acc h = h
decimal_onto_digits (suc fuel) n acc h =
    let h' : all is_digit ((b'0' + n % 10) ∷ acc) ≡ true = ground (arith, h) in
    ground (arith, h', decimal_onto_digits fuel (n / 10) ((b'0' + n % 10) ∷ acc) h')

pub decimal_digits : (n : ℕ) → all is_digit (decimal n) ≡ true
unfolding decimal
decimal_digits n = decimal_onto_digits (suc n) n [] refl
