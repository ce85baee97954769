-- ===== src/Saml/Laws.antt =====
-- What the substitution in the request changes.
use meraki_openconnect.Prelude.{
  starts_with_lem, ℕ, suc, zero, ◌≡◌, refl, ap, ◌∙◌, ◌⊎◌, inl, inr, Bool, true, false, ◌&&◌, ◌||◌,
  Option, none, some, [], ◌∷◌, ◌++◌, codes, drop, drop-drop, starts_with, arith, Bool-cases,
  some_injective, ◌==◌, if◌then◌else◌,
}
use meraki_openconnect.Saml.{
  Bytes, attribute, quote_of, match_at, set_to, is_word, subn, substitute, rest_of,
}

-- Two texts that differ in one value of `ForceAuthn`, which is `true` in the one and `false` in the other.
pub record IsOneChange (old new : Bytes) : Type 0 where
  before : Bytes
  after : Bytes
  quote : ℕ
  is_quote : (quote ≡ 0x22) ⊎ (quote ≡ 0x27)
  was : old ≡ before ++ set_to (codes "true") quote ++ after
  is_now : new ≡ before ++ set_to (codes "false") quote ++ after

quote_of_lem :
    (s : Bytes) (q : ℕ)
    → quote_of s ≡ some q
    → ((q ≡ 0x22) ⊎ (q ≡ 0x27)) × (s ≡ q ∷ codes "true" ++ q ∷ drop 6 s)
unfolding quote_of
quote_of_lem [] q h = cc
quote_of_lem (c ∷ s) q h =
    elim (Bool-cases ((c == 0x22 || c == 0x27) && starts_with s (codes "true" ++ c ∷ []))) [
      | inl e ↦
          let k = some_injective c q (ground arith) in
          (
            ground arith,
            ap (λ x. c ∷ x) (starts_with_lem s (codes "true" ++ c ∷ []) (ground arith))
                ∙ ap (λ x. x ∷ codes "true" ++ x ∷ drop 5 s) k,
          )
      | inr e ↦ ground arith
    ]

match_at_lem :
    (s : Bytes) (q : ℕ)
    → match_at s ≡ some q
    → ((q ≡ 0x22) ⊎ (q ≡ 0x27)) × (s ≡ set_to (codes "true") q ++ drop 17 s)
unfolding match_at
match_at_lem s q h = elim (Bool-cases (starts_with s attribute)) [
  | inl e ↦
      let k = quote_of_lem (drop 11 s) q (ground arith) in
      (
        k.0,
        starts_with_lem s attribute e
            ∙ ap (λ x. attribute ++ x) k.1
            ∙ ap (λ x. set_to (codes "true") q ++ x) (drop-drop 11 6 17 s refl),
      )
  | inr e ↦ ground arith
]

-- A match starts no word, and is one of the text.
found_lem :
    (word : Bool) (s : Bytes) (q : ℕ)
    → (if word then none else match_at s) ≡ some q
    → match_at s ≡ some q
found_lem true s q h = cc
found_lem false s q h = h

none-at :
    (found : Option ℕ) (c : ℕ) (s : Bytes) (rest : ℕ → Bytes × ℕ)
    → ((n : ℕ) → (rest n).1 ≡ 0 → (rest n).0 ≡ drop n s)
    → (substitute found c (rest (rest_of found))).1 ≡ 0
    → (substitute found c (rest (rest_of found))).0 ≡ c ∷ s
none-at none c s rest f h = ap (λ x. c ∷ x) (f 0 h)
none-at (some q) c s rest f h = ground arith

none-changed :
    (word : Bool) (n : ℕ) (s : Bytes) → (subn word n s).1 ≡ 0 → (subn word n s).0 ≡ drop n s
unfolding subn
none-changed word zero [] h = refl
none-changed word (suc n) [] h = refl
none-changed word (suc n) (c ∷ s) h = none-changed (is_word c) n s h
none-changed word zero (c ∷ s) h =
    none-at (if word then none else match_at (c ∷ s)) c s (λ n. subn (is_word c) n s)
      (λ n e. none-changed (is_word c) n s e) h

changed_here :
    (s out : Bytes) (q : ℕ)
    → match_at s ≡ some q
    → out ≡ drop 17 s
    → IsOneChange s (set_to (codes "false") q ++ out)
changed_here s out q h e =
    let k = match_at_lem s q h in
    record {
      before = [];
      after = drop 17 s;
      quote = q;
      is_quote = k.0;
      was = k.1;
      is_now = ap (λ x. set_to (codes "false") q ++ x) e;
    }

changed_behind : (c : ℕ) (s out : Bytes) → IsOneChange s out → IsOneChange (c ∷ s) (c ∷ out)
changed_behind c s out h = record {
  before = c ∷ h.before;
  after = h.after;
  quote = h.quote;
  is_quote = h.is_quote;
  was = ap (λ x. c ∷ x) h.was;
  is_now = ap (λ x. c ∷ x) h.is_now;
}

one-at :
    (found : Option ℕ) (c : ℕ) (s : Bytes) (rest : ℕ → Bytes × ℕ)
    → ((q : ℕ) → found ≡ some q → match_at (c ∷ s) ≡ some q)
    → ((n : ℕ) → (rest n).1 ≡ 0 → (rest n).0 ≡ drop n s)
    → ((n : ℕ) → (rest n).1 ≡ 1 → IsOneChange (drop n s) (rest n).0)
    → (substitute found c (rest (rest_of found))).1 ≡ 1
    → IsOneChange (c ∷ s) (substitute found c (rest (rest_of found))).0
one-at none c s rest m f g h = changed_behind c s (rest 0).0 (g 0 h)
one-at (some q) c s rest m f g h =
    changed_here (c ∷ s) (rest 16).0 q (m q refl) (f 16 (omega arith))

pub one-changed :
    (word : Bool) (n : ℕ) (s : Bytes)
    → (subn word n s).1 ≡ 1
    → IsOneChange (drop n s) (subn word n s).0
unfolding subn
one-changed word zero [] h = ground arith
one-changed word (suc n) [] h = ground arith
one-changed word (suc n) (c ∷ s) h = one-changed (is_word c) n s h
one-changed word zero (c ∷ s) h =
    one-at (if word then none else match_at (c ∷ s)) c s (λ n. subn (is_word c) n s)
      (λ q. found_lem word (c ∷ s) q) (λ n. none-changed (is_word c) n s)
      (λ n. one-changed (is_word c) n s) h
