-- ===== src/Url/Cut.antt =====
-- A text is cut where it was joined.
use mathlib.Core.List.{append-nil}
use meraki_openconnect.Prelude.{
  ℕ, ◌≡◌, refl, ap, Bool, true, not, ◌&&◌, none, some, [], ◌∷◌, ◌++◌, Text, arith, all, ◌==◌,
}
use meraki_openconnect.Url.{break_at, drop_first, partition}

abbrev pub lacks : ℕ → Text → Bool
lacks c s = all (λ x. not (x == c)) s

pub break-joined :
    (p : ℕ → Bool) (c : ℕ) (s t : Text)
    → p c ≡ true
    → all (λ x. not (p x)) s ≡ true
    → break_at p (s ++ c ∷ t) ≡ (s, c ∷ t)
unfolding break_at
break-joined p c [] t h k = rw h refl
break-joined p c (x ∷ s) t h k = rw (break-joined p c s t h (ground arith)) (ground arith)

pub break-whole : (p : ℕ → Bool) (s : Text) → all (λ x. not (p x)) s ≡ true → break_at p s ≡ (s, [])
unfolding break_at
break-whole p [] k = refl
break-whole p (x ∷ s) k = rw (break-whole p s (ground arith)) (ground arith)

pub partition-joined :
    (c : ℕ) (s t : Text) → lacks c s ≡ true → partition c (s ++ c ∷ t) ≡ (s, some t)
unfolding partition
partition-joined c s t h = ap drop_first (break-joined (λ x. x == c) c s t (ground arith) h)

pub partition-whole : (c : ℕ) (s : Text) → lacks c s ≡ true → partition c s ≡ (s, none)
unfolding partition
partition-whole c s h = ap drop_first (break-whole (λ x. x == c) s h)

-- A text is empty, or its first character is of a kind.
abbrev pub starts_in : (ℕ → Bool) → Text → Bool
starts_in p [] = true
starts_in p (c ∷ s) = p c

pub break-split :
    (p : ℕ → Bool) (s t : Text)
    → all (λ x. not (p x)) s ≡ true
    → starts_in p t ≡ true
    → break_at p (s ++ t) ≡ (s, t)
break-split p s [] h k = rw (append-nil s) (break-whole p s h)
break-split p s (c ∷ t) h k = break-joined p c s t k h

pub before-all : (p q : ℕ → Bool) (s : Text) → all q s ≡ true → all q (break_at p s).0 ≡ true
unfolding break_at
before-all p q [] h = refl
before-all p q (c ∷ s) h = ground (arith, before-all p q s (ground arith))

pub behind-all : (p q : ℕ → Bool) (s : Text) → all q s ≡ true → all q (break_at p s).1 ≡ true
unfolding break_at
behind-all p q [] h = refl
behind-all p q (c ∷ s) h = ground (arith, behind-all p q s (ground arith))

pub before-lacks : (p : ℕ → Bool) (s : Text) → all (λ x. not (p x)) (break_at p s).0 ≡ true
unfolding break_at
before-lacks p [] = refl
before-lacks p (c ∷ s) = ground (arith, before-lacks p s)

pub behind-starts : (p : ℕ → Bool) (s : Text) → starts_in p (break_at p s).1 ≡ true
unfolding break_at
behind-starts p [] = refl
behind-starts p (c ∷ s) = ground (arith, behind-starts p s)

pub before-starts :
    (p q : ℕ → Bool) (s : Text)
    → starts_in q s ≡ true
    → starts_in (λ x. q x && not (p x)) (break_at p s).0 ≡ true
unfolding break_at
before-starts p q [] h = refl
before-starts p q (c ∷ s) h = ground arith

pub starts_in-map :
    (p q : ℕ → Bool) (s : Text)
    → ((c : ℕ) → p c ≡ true → q c ≡ true)
    → starts_in p s ≡ true
    → starts_in q s ≡ true
starts_in-map p q [] f h = refl
starts_in-map p q (c ∷ s) f h = f c h

front_lem : (r : Text × Text) → (drop_first r).0 ≡ r.0
front_lem (before, []) = refl
front_lem (before, c ∷ behind) = refl

pub partition_front : (c : ℕ) (s : Text) → (partition c s).0 ≡ (break_at (λ x. x == c) s).0
unfolding partition
partition_front c s = front_lem (break_at (λ x. x == c) s)

behind_lem :
    (q : ℕ → Bool) (r : Text × Text) (behind : Text)
    → all q r.1 ≡ true
    → (drop_first r).1 ≡ some behind
    → all q behind ≡ true
behind_lem q (before, []) behind h e = cc
behind_lem q (before, c ∷ rest) behind h e = ground arith

pub partition_behind :
    (q : ℕ → Bool) (c : ℕ) (s behind : Text)
    → all q s ≡ true
    → (partition c s).1 ≡ some behind
    → all q behind ≡ true
unfolding partition
partition_behind q c s behind h e =
    behind_lem q (break_at (λ x. x == c) s) behind (behind-all _ q s h) e
