-- ===== src/Privileged/Bundle/Pending.antt =====
-- What `_bundle_native_runtime` puts on the pending dependencies.
use meraki_openconnect.Prelude.{
  ◌≡◌, refl, ◌⊎◌, inl, inr, true, false, not, List, [], ◌∷◌, Text, text_eq_refl, length, one_of,
  arith, All, Bool-cases, Holds, pair-Holds, map-Holds, ◌==◌,
}
use meraki_openconnect.Privileged.Bundle.{is_system, is_homebrew, add_children}

-- Whatever is pending stays so.
abbrev pub Keeps : List Text → List Text → Type 0
Keeps pending p = (c : Text) → one_of c pending ≡ true → one_of c p ≡ true

pub Keeps-more :
    (child : Text) (pending p : List Text) → Keeps (child ∷ pending) p → Keeps pending p
Keeps-more child pending p k c h = k c (ground (arith, h))

pub Keeps-child :
    (child : Text) (pending p : List Text) → Keeps (child ∷ pending) p → one_of child p ≡ true
Keeps-child child pending p k = k child (ground (arith, text_eq_refl child))

pub Keeps-same : (pending : List Text) → Keeps pending pending
Keeps-same pending c h = h

pub add_children-Keeps :
    (children pending : List Text) → Holds (Keeps pending) (add_children children pending)
unfolding add_children
add_children-Keeps [] pending = Keeps-same pending
add_children-Keeps (child ∷ children) pending = elim (Bool-cases (is_homebrew child)) [
  | inl y ↦ rw y (
      map-Holds (Keeps (child ∷ pending)) (Keeps pending) (add_children children (child ∷ pending))
        (Keeps-more child pending) (add_children-Keeps children (child ∷ pending)))
  | inr n ↦ rw n (elim (Bool-cases (is_system child)) [
    | inl s ↦ rw s (add_children-Keeps children pending)
    | inr t ↦ rw t tt
  ])
]

-- A dependency that belongs to the system, or is pending.
unfoldable pub IsAdded : List Text → Text → Type 0
IsAdded pending c = (is_system c ≡ true) ⊎ (one_of c pending ≡ true)

pub pending-IsAdded : (p : List Text) (c : Text) → one_of c p ≡ true → IsAdded p c
unfolding IsAdded
pending-IsAdded p c h = inr h

pub system-IsAdded : (p : List Text) (c : Text) → is_system c ≡ true → IsAdded p c
unfolding IsAdded
system-IsAdded p c h = inl h

pub add_children-AllAdded :
    (children pending : List Text)
    → Holds (λ p. All (IsAdded p) children) (add_children children pending)
unfolding add_children
add_children-AllAdded [] pending = tt
add_children-AllAdded (child ∷ children) pending = elim (Bool-cases (is_homebrew child)) [
  | inl y ↦ rw y (
      pair-Holds (λ p. IsAdded p child) (λ p. All (IsAdded p) children)
        (add_children children (child ∷ pending))
        (map-Holds (Keeps (child ∷ pending)) (λ p. IsAdded p child)
          (add_children children (child ∷ pending))
          (λ p k. pending-IsAdded p child (Keeps-child child pending p k))
          (add_children-Keeps children (child ∷ pending)))
        (add_children-AllAdded children (child ∷ pending)))
  | inr n ↦ rw n (elim (Bool-cases (is_system child)) [
    | inl s ↦ rw s (
        pair-Holds (λ p. IsAdded p child) (λ p. All (IsAdded p) children)
          (add_children children pending)
          (map-Holds (λ p. All (IsAdded p) children) (λ p. IsAdded p child)
            (add_children children pending) (λ p h. system-IsAdded p child s)
            (add_children-AllAdded children pending))
          (add_children-AllAdded children pending))
    | inr t ↦ rw t tt
  ])
]

pub empty : (xs : List Text) → not (length xs == 0) ≡ false → xs ≡ []
empty [] h = refl
empty (x ∷ xs) h = ground (arith, h)
