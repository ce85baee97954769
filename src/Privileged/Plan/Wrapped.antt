-- ===== src/Privileged/Plan/Wrapped.antt =====
-- The lines of the payload in the installer.
use meraki_openconnect.Prelude.{
  ℕ, zero, suc, ◌≤◌, ◌≡◌, refl, ap, ◌∙◌, List, [], ◌∷◌, ◌++◌, Text, length, take, drop, All, arith,
  length-drop, take-append-drop,
}
use meraki_openconnect.Privileged.Plan.{chunks, payload_lines}

-- The text of the lines
abbrev pub joined : List Text → Text
joined [] = []
joined (line ∷ lines) = line ++ joined lines

-- A line of the payload
abbrev pub IsLine : Text → Type 0
IsLine line = (1 ≤ length line) × (length line ≤ 76)

take_le : (n : ℕ) (s : Text) → length (take n s) ≤ n
take_le zero s = omega arith
take_le (suc n) [] = omega arith
take_le (suc n) (c ∷ s) = omega (arith, take_le n s)

chunks_lem :
    (fuel : ℕ) (s : Text)
    → length s ≤ fuel
    → (joined (chunks fuel s) ≡ s) × All IsLine (chunks fuel s)
unfolding chunks
chunks_lem fuel [] h = (refl, tt)
chunks_lem zero (c ∷ s) h = absurd (omega (arith, h))
chunks_lem (suc fuel) (c ∷ s) h =
    let more = chunks_lem fuel (drop 76 (c ∷ s)) (omega (arith, h, length-drop 75 s)) in
    (
      ap (λ t. take 76 (c ∷ s) ++ t) more.0 ∙ take-append-drop 76 (c ∷ s),
      ((omega arith, take_le 76 (c ∷ s)), more.1),
    )

-- The lines of the payload have one to 76 characters each, and are the encoded payload one after the
-- other.
pub payload_lines-IsLines :
    (encoded : Text)
    → (joined (payload_lines encoded) ≡ encoded) × All IsLine (payload_lines encoded)
unfolding payload_lines
payload_lines-IsLines encoded = chunks_lem (length encoded) encoded (omega arith)
