-- ===== src/Privileged/Resolver/Placed.antt =====
-- What stands at the paths of the rules where dns-connect succeeds.
use meraki_openconnect.Prelude.{
  ℕ, zero, suc, ◌≡◌, ◌≢◌, ◌⊎◌, inl, inr, refl, sym, ap, ◌∙◌, Bool, true, false, not, ◌&&◌, Option,
  none, some, List, [], ◌∷◌, Text, text_eq, text_eq_iff, arith, All, Bool-cases,
}
use meraki_openconnect.Privileged.Resolver.{
  Rule, Node, absent, file, State, place, is_absent, install_rule, following, install_rules,
  Removals, status_of, roll_back, conclude, dns_connect, Directories, refused, made, passed, begun,
}
use meraki_openconnect.Privileged.Resolver.Files.{set-other, set-same, covers, is_absent_iff}

place-kept :
    (rule : Rule) (n : ℕ) (s : State) (x : Text)
    → is_absent (s.node rule.path) ≡ true
    → is_absent (s.node x) ≡ false
    → (place rule n s).1.node x ≡ s.node x
unfolding place
place-kept rule zero s x a b = refl
place-kept rule (suc zero) s x a b = refl
place-kept rule (suc (suc zero)) s x a b = refl
place-kept rule (suc (suc (suc n))) s x a b = elim (Bool-cases (text_eq rule.path x)) [
  | inl y ↦ (let same = ap (λ t. is_absent (s.node t)) ((text_eq_iff rule.path x).0 y) in cc)
  | inr d ↦ set-other rule.path x (file rule.content) s.node d
]

place-done :
    (rule : Rule) (n m : ℕ) (s : State)
    → (place rule n s).0 ≡ some m
    → (place rule n s).1.node rule.path ≡ file rule.content
unfolding place
place-done rule zero m s e = cc
place-done rule (suc zero) m s e = cc
place-done rule (suc (suc zero)) m s e = cc
place-done rule (suc (suc (suc n))) m s e = set-same rule.path (file rule.content) s.node

install_rule-kept :
    (rule : Rule) (n : ℕ) (s : State) (x : Text)
    → is_absent (s.node x) ≡ false
    → (install_rule rule n s).1.node x ≡ s.node x
unfolding install_rule
install_rule-kept rule n s x b =
    elim (Bool-cases (is_absent (s.node rule.path) && not (s.temp rule.path))) [
      | inl y ↦ grind (arith, place-kept rule n s x (ground arith) b)
      | inr d ↦ grind arith
    ]

install_rule-done :
    (rule : Rule) (n m : ℕ) (s : State)
    → (install_rule rule n s).0 ≡ some m
    → (install_rule rule n s).1.node rule.path ≡ file rule.content
unfolding install_rule
install_rule-done rule n m s e =
    elim (Bool-cases (is_absent (s.node rule.path) && not (s.temp rule.path))) [
      | inl y ↦ grind (arith, place-done rule n m s)
      | inr d ↦ grind arith
    ]

module _ (k : ℕ → State → Option ℕ × State) where
  following-kept :
      (r : Option ℕ × State) (x : Text) (n : Node)
      → r.1.node x ≡ n
      → ((m : ℕ) → (k m r.1).1.node x ≡ n)
      → (following k r).1.node x ≡ n
  following-kept (none, s) x n h step = h
  following-kept (some m, s) x n h step = step m

install_rules-kept :
    (rules : List Rule) (n : ℕ) (s : State) (x : Text)
    → is_absent (s.node x) ≡ false
    → (install_rules rules n s).1.node x ≡ s.node x
unfolding install_rules
install_rules-kept [] n s x b = refl
install_rules-kept (rule ∷ rules) n s x b =
    let t = (install_rule rule n s).1 in
    let kept = install_rule-kept rule n s x b in
    following-kept (install_rules rules) (install_rule rule n s) x (s.node x) kept
      (λ m. install_rules-kept rules m t x (ap is_absent kept ∙ b) ∙ kept)

place-other :
    (rule : Rule) (n : ℕ) (s : State) (x : Text)
    → text_eq rule.path x ≡ false
    → (place rule n s).1.node x ≡ s.node x
unfolding place
place-other rule zero s x d = refl
place-other rule (suc zero) s x d = refl
place-other rule (suc (suc zero)) s x d = refl
place-other rule (suc (suc (suc n))) s x d = set-other rule.path x (file rule.content) s.node d

install_rule-other :
    (rule : Rule) (n : ℕ) (s : State) (x : Text)
    → text_eq rule.path x ≡ false
    → (install_rule rule n s).1.node x ≡ s.node x
unfolding install_rule
install_rule-other rule n s x d =
    elim (Bool-cases (is_absent (s.node rule.path) && not (s.temp rule.path))) [
      | inl y ↦ grind (arith, place-other rule n s x d)
      | inr d' ↦ grind arith
    ]

install_rule-absent :
    (rule : Rule) (n m : ℕ) (s : State)
    → (install_rule rule n s).0 ≡ some m
    → is_absent (s.node rule.path) ≡ true
unfolding install_rule
install_rule-absent rule n m s e = grind arith

install_rules-other :
    (rules : List Rule) (n : ℕ) (s : State) (x : Text)
    → covers rules x ≡ false
    → (install_rules rules n s).1.node x ≡ s.node x
unfolding install_rules covers
install_rules-other [] n s x d = refl
install_rules-other (rule ∷ rules) n s x d =
    let t = (install_rule rule n s).1 in
    let here = install_rule-other rule n s x (ground arith) in
    following-kept (install_rules rules) (install_rule rule n s) x (s.node x) here
      (λ m. install_rules-other rules m t x (ground arith) ∙ here)

-- Every rule has its content at its path.
abbrev pub IsPlaced : List Rule → State → Type 0
IsPlaced rules s = All (λ (r : Rule). s.node r.path ≡ file r.content) rules

following-IsPlaced :
    (k : ℕ → State → Option ℕ × State) (rule : Rule) (rules : List Rule) (r : Option ℕ × State)
    (p : ℕ)
    → ((m : ℕ) → r.0 ≡ some m → (k m r.1).1.node rule.path ≡ file rule.content)
    → ((m : ℕ) → (k m r.1).0 ≡ some p → IsPlaced rules (k m r.1).1)
    → (following k r).0 ≡ some p
    → IsPlaced (rule ∷ rules) (following k r).1
following-IsPlaced k rule rules (none, s) p head tail e = cc
following-IsPlaced k rule rules (some m, s) p head tail e = (head m refl, tail m e)

install_rules-IsPlaced :
    (rules : List Rule) (n p : ℕ) (s : State)
    → (install_rules rules n s).0 ≡ some p
    → IsPlaced rules (install_rules rules n s).1
unfolding install_rules
install_rules-IsPlaced [] n p s e = tt
install_rules-IsPlaced (rule ∷ rules) n p s e =
    let t = (install_rule rule n s).1 in
    following-IsPlaced (install_rules rules) rule rules (install_rule rule n s) p
      (λ m h.
        let placed = install_rule-done rule n m s h in
        install_rules-kept rules m t rule.path (ap is_absent placed) ∙ placed)
      (λ m h. install_rules-IsPlaced rules m p t h) e

following-absent :
    (k : ℕ → State → Option ℕ × State) (r : Option ℕ × State) (p : ℕ) (n : Node)
    → ((m : ℕ) → r.0 ≡ some m → (k m r.1).0 ≡ some p → n ≡ absent)
    → (following k r).0 ≡ some p
    → n ≡ absent
following-absent k (none, s) p n h e = cc
following-absent k (some m, s) p n h e = h m refl e

-- Where all rules were installed, no file stood at the path of a rule.
install_rules-absent :
    (rules : List Rule) (n p : ℕ) (s : State) (x : Text)
    → covers rules x ≡ true
    → (install_rules rules n s).0 ≡ some p
    → s.node x ≡ absent
unfolding install_rules covers
install_rules-absent [] n p s x c e = cc
install_rules-absent (rule ∷ rules) n p s x c e =
    following-absent (install_rules rules) (install_rule rule n s) p (s.node x)
      (λ m h f.
        let gone = is_absent_iff (s.node rule.path) (install_rule-absent rule n m s h) in
        elim (Bool-cases (text_eq rule.path x)) [
          | inl y ↦ ap s.node (sym ((text_eq_iff rule.path x).0 y)) ∙ gone
          | inr d ↦
              sym (install_rule-other rule n s x d)
              ∙ install_rules-absent rules m p (install_rule rule n s).1 x (ground arith) f
        ])
      e

module _ (sha256_hex : List ℕ → Text) (removals : Removals) where
  status_of-failed : (r : Bool × State) → (status_of sha256_hex removals r).0 ≢ 0
  status_of-failed (true, s) h = omega arith
  status_of-failed (false, s) h = omega arith

  -- What holds of the files behind the calls holds at an exit with code 0.
  module _ (P : State → Type 0) where
    conclude-done :
        (r : Option ℕ × State)
        → ((p : ℕ) → r.0 ≡ some p → P r.1)
        → (conclude sha256_hex removals r).0 ≡ 0
        → P (conclude sha256_hex removals r).1
    conclude-done (none, s) h e =
        elim (status_of-failed (roll_back sha256_hex removals s.touched s) e) [ ]
    conclude-done (some zero, s) h e =
        elim (status_of-failed (roll_back sha256_hex removals s.touched s) e) [ ]
    conclude-done (some (suc zero), s) h e = ground (arith, e)
    conclude-done (some (suc (suc n)), s) h e = h (suc (suc n)) refl

    pub dns_connect-done :
        (verified : Bool) (safe : Directories) (rules : List Rule) (stop : ℕ) (s : State)
        → ((p : ℕ)
            → (install_rules rules stop (begun true s)).0 ≡ some p
            → P (install_rules rules stop (begun true s)).1)
        → (dns_connect sha256_hex removals verified safe rules stop s).0 ≡ 0
        → P (dns_connect sha256_hex removals verified safe rules stop s).1
    unfolding dns_connect
    dns_connect-done false safe rules stop s h e = ground (arith, e)
    dns_connect-done true refused rules stop s h e =
        elim (status_of-failed (roll_back sha256_hex removals [] (begun s.directory s)) e) [ ]
    dns_connect-done true made rules stop s h e =
        elim (status_of-failed (roll_back sha256_hex removals [] (begun true s)) e) [ ]
    dns_connect-done true passed rules stop s h e =
        conclude-done (install_rules rules stop (begun true s)) h e

  -- Where dns-connect exits with code 0, the content of every rule stands at the rule's path.
  pub dns_connect-IsPlaced :
      (verified : Bool) (safe : Directories) (rules : List Rule) (stop : ℕ) (s : State)
      → (dns_connect sha256_hex removals verified safe rules stop s).0 ≡ 0
      → IsPlaced rules (dns_connect sha256_hex removals verified safe rules stop s).1
  dns_connect-IsPlaced verified safe rules stop s =
      dns_connect-done (IsPlaced rules) verified safe rules stop s
        (λ p h. install_rules-IsPlaced rules stop p (begun true s) h)

  -- A path before and after: one of a rule, that held no file before, or another, that is unchanged.
  abbrev pub IsAdded : List Rule → Text → State → State → Type 0
  IsAdded rules x s t =
      (covers rules x ≡ true × s.node x ≡ absent) ⊎ (covers rules x ≡ false × t.node x ≡ s.node x)

  pub dns_connect-IsAdded :
      (verified : Bool) (safe : Directories) (rules : List Rule) (stop : ℕ) (s : State) (x : Text)
      → (dns_connect sha256_hex removals verified safe rules stop s).0 ≡ 0
      → IsAdded rules x s (dns_connect sha256_hex removals verified safe rules stop s).1
  dns_connect-IsAdded verified safe rules stop s x =
      dns_connect-done (IsAdded rules x s) verified safe rules stop s (λ p h.
        elim (Bool-cases (covers rules x)) [
          | inl y ↦ inl (y, install_rules-absent rules stop p (begun true s) x y h)
          | inr n ↦ inr (n, install_rules-other rules stop (begun true s) x n)
        ])
