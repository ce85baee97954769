-- ===== src/Prelude/Results.antt =====
-- Pure code that may raise: a value, or the exception.
use mathlib.Core.Bool.{Bool, true, false}
use mathlib.Core.Path.{◌≡◌, Path, refl, subst}

pub data Result {ℓ κ} (E : Type ℓ) (A : Type κ) : Type (ℓ ⊔ κ) where
  ok : A → Result E A
  err : E → Result E A

infixl 5 ◌>>=◌ ◌>>◌
abbrev pub ◌>>=◌ {ℓ κ μ} :
    {E : Type ℓ} {A : Type κ} {B : Type μ} → Result E A → (A → Result E B) → Result E B
ok a >>= f = f a
err e >>= f = err e

abbrev pub ◌>>◌ {ℓ μ} : {E : Type ℓ} {B : Type μ} → Result E (Unit {0}) → Result E B → Result E B
m >> k = m >>= λ _. k

-- `if not test: raise e`
abbrev pub require {ℓ} : {E : Type ℓ} → Bool → E → Result E (Unit {0})
require true e = ok tt
require false e = err e

-- `if test: raise e`
abbrev pub raise_if {ℓ} : {E : Type ℓ} → Bool → E → Result E (Unit {0})
raise_if true e = err e
raise_if false e = ok tt

-- What holds of a result, if there is one.
abbrev pub Holds {ℓ κ μ} : {E : Type ℓ} {A : Type κ} → (A → Type μ) → Result E A → Type μ
Holds P (ok a) = P a
Holds P (err e) = Unit

pub ok_injective {ℓ κ} :
    {E : Type ℓ} {A : Type κ} (a b : A) → Path (Result E A) (ok a) (ok b) → a ≡ b
ok_injective a b e = cc

pub holds_ok {ℓ κ μ} :
    {E : Type ℓ} {A : Type κ} (P : A → Type μ) (r : Result E A) (a : A) → Holds P r → r ≡ ok a → P a
holds_ok P (ok x) a h e = subst P (ok_injective x a e) h
holds_ok P (err x) a h e = cc

-- What holds of the result of a sequence, from what holds of its parts.
module _ {ℓ κ μ ρ} {E : Type ℓ} {A : Type κ} {B : Type μ} where
  pub bind-Holds {ν} :
      (P : A → Type ν) (Q : B → Type ρ) (r : Result E A) (f : A → Result E B)
      → Holds P r
      → ((a : A) → P a → Holds Q (f a))
      → Holds Q (r >>= f)
  bind-Holds P Q (ok a) f h step = step a h
  bind-Holds P Q (err e) f h step = tt

  pub each-Holds :
      (Q : B → Type ρ) (r : Result E A) (f : A → Result E B)
      → ((a : A) → Holds Q (f a))
      → Holds Q (r >>= f)
  each-Holds Q (ok a) f step = step a
  each-Holds Q (err e) f step = tt

pub require-Holds {ℓ κ μ} :
    {E : Type ℓ} {B : Type κ} (Q : B → Type μ) (test : Bool) (e : E) (r : Result E B)
    → (test ≡ true → Holds Q r)
    → Holds Q (require test e >> r)
require-Holds Q true e r h = h refl
require-Holds Q false e r h = tt

pub raise_if-Holds {ℓ κ μ} :
    {E : Type ℓ} {B : Type κ} (Q : B → Type μ) (test : Bool) (e : E) (r : Result E B)
    → (test ≡ false → Holds Q r)
    → Holds Q (raise_if test e >> r)
raise_if-Holds Q true e r h = tt
raise_if-Holds Q false e r h = h refl

pub pair-Holds {ℓ κ μ ν} :
    {E : Type ℓ} {A : Type κ} (P : A → Type μ) (Q : A → Type ν) (r : Result E A)
    → Holds P r
    → Holds Q r
    → Holds (λ a. P a × Q a) r
pair-Holds P Q (ok a) p q = (p, q)
pair-Holds P Q (err e) p q = tt

pub map-Holds {ℓ κ μ ν} :
    {E : Type ℓ} {A : Type κ} (P : A → Type μ) (Q : A → Type ν) (r : Result E A)
    → ((a : A) → P a → Q a)
    → Holds P r
    → Holds Q r
map-Holds P Q (ok a) f p = f a p
map-Holds P Q (err e) f p = tt

pub same-Holds {ℓ κ} :
    {E : Type ℓ} {A : Type κ} (r : Result E A) → Holds (λ a. Path (Result E A) r (ok a)) r
same-Holds (ok a) = refl
same-Holds (err e) = tt

pub bind_ok {ℓ κ μ} :
    {E : Type ℓ} {A : Type κ} {B : Type μ} (r : Result E A) (f : A → Result E B) (b : B)
    → Path (Result E B) (r >>= f) (ok b)
    → (a : A) × Path (Result E A) r (ok a) × Path (Result E B) (f a) (ok b)
bind_ok (ok a) f b h = (a, refl, h)
bind_ok (err e) f b h = cc

pub require_ok {ℓ μ} :
    {E : Type ℓ} {B : Type μ} (test : Bool) (e : E) (r : Result E B) (b : B)
    → Path (Result E B) (require test e >> r) (ok b)
    → (test ≡ true) × Path (Result E B) r (ok b)
require_ok true e r b h = (refl, h)
require_ok false e r b h = cc

pub raise_if_ok {ℓ μ} :
    {E : Type ℓ} {B : Type μ} (test : Bool) (e : E) (r : Result E B) (b : B)
    → Path (Result E B) (raise_if test e >> r) (ok b)
    → (test ≡ false) × Path (Result E B) r (ok b)
raise_if_ok true e r b h = cc
raise_if_ok false e r b h = (refl, h)
