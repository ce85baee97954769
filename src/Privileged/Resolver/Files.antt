-- ===== src/Privileged/Resolver/Files.antt =====
-- What the statements of the resolver functions do to the file at one path.
use meraki_openconnect.Prelude.{
  ℕ, ◌≡◌, refl, sym, ap, ◌∙◌, inl, inr, Bool, true, false, List, [], ◌∷◌, Text, text_eq,
  text_eq_iff, text_eq_refl, arith, Bool-cases, any,
}
use meraki_openconnect.Privileged.Resolver.{
  Rule, Node, absent, link, other, file, State, set, is_absent, Removals, roll_back_file,
  roll_back_rule, roll_back,
}

pub set-other :
    {A : Type 0} (path x : Text) (a : A) (f : Text → A)
    → text_eq path x ≡ false
    → set path a f x ≡ f x
unfolding set
set-other path x a f n = ground (arith, n)

pub set-same : {A : Type 0} (path : Text) (a : A) (f : Text → A) → set path a f path ≡ a
unfolding set
set-same path a f = ground (arith, text_eq_refl path)

pub is_absent_iff : (n : Node) → is_absent n ≡ true → n ≡ absent
is_absent_iff absent h = refl
is_absent_iff link h = cc
is_absent_iff other h = cc
is_absent_iff (file t) h = cc

-- Whether one of the rules has the path.
unfoldable pub covers : List Rule → Text → Bool
covers rules x = any (λ r. text_eq r.path x) rules

module _ (sha256_hex : List ℕ → Text) (removals : Removals) (x : Text) where
  roll_back_file-other :
      (rule : Rule) (n : Node) (s : State)
      → text_eq rule.path x ≡ false
      → (roll_back_file sha256_hex removals rule n s).1.node x ≡ s.node x
  unfolding roll_back_file
  roll_back_file-other rule absent s h = refl
  roll_back_file-other rule link s h = grind (arith, set-other rule.path x absent s.node h)
  roll_back_file-other rule other s h = grind (arith, set-other rule.path x absent s.node h)
  roll_back_file-other rule (file t) s h = grind (arith, set-other rule.path x absent s.node h)

  roll_back_file-same :
      (rule : Rule) (n : Node) (s : State)
      → s.node rule.path ≡ n
      → (roll_back_file sha256_hex removals rule n s).0 ≡ true
      → (roll_back_file sha256_hex removals rule n s).1.node rule.path ≡ absent
  unfolding roll_back_file
  roll_back_file-same rule absent s e h = e
  roll_back_file-same rule link s e h = grind (arith, set-same rule.path absent s.node)
  roll_back_file-same rule other s e h = grind (arith, set-same rule.path absent s.node)
  roll_back_file-same rule (file t) s e h = grind (arith, set-same rule.path absent s.node)

  roll_back_rule-other :
      (rule : Rule) (s : State)
      → text_eq rule.path x ≡ false
      → (roll_back_rule sha256_hex removals rule s).1.node x ≡ s.node x
  unfolding roll_back_rule
  roll_back_rule-other rule s h =
      let s' = record s { temp = set rule.path false s.temp } in
      grind (arith, roll_back_file-other rule (s.node rule.path) s' h)

  roll_back_rule-same :
      (rule : Rule) (s : State)
      → (roll_back_rule sha256_hex removals rule s).0 ≡ true
      → (roll_back_rule sha256_hex removals rule s).1.node rule.path ≡ absent
  unfolding roll_back_rule
  roll_back_rule-same rule s h =
      let s' = record s { temp = set rule.path false s.temp } in
      elim (Bool-cases (removals.temp rule.path)) [
        | inl y ↦ grind (arith, roll_back_file-same rule (s.node rule.path) s' refl)
        | inr n ↦ grind arith
      ]

  pub roll_back-other :
      (rules : List Rule) (s : State)
      → covers rules x ≡ false
      → (roll_back sha256_hex removals rules s).1.node x ≡ s.node x
  unfolding roll_back covers
  roll_back-other [] s h = refl
  roll_back-other (rule ∷ rules) s h =
      let s' = (roll_back_rule sha256_hex removals rule s).1 in
      roll_back-other rules s' (ground arith) ∙ roll_back_rule-other rule s (ground arith)

  -- Once every rule is rolled back, no file stands at a path of a rule.
  pub roll_back-absent :
      (rules : List Rule) (s : State)
      → covers rules x ≡ true
      → (roll_back sha256_hex removals rules s).0 ≡ true
      → (roll_back sha256_hex removals rules s).1.node x ≡ absent
  unfolding roll_back covers
  roll_back-absent [] s h r = cc
  roll_back-absent (rule ∷ rules) s h r =
      let s' = (roll_back_rule sha256_hex removals rule s).1 in
      elim (Bool-cases (covers rules x)) [
        | inl y ↦ roll_back-absent rules s' y (ground arith)
        | inr n ↦
            (let same = (text_eq_iff rule.path x).0 (ground arith) in
              roll_back-other rules s' n
              ∙ ap s'.node (sym same)
              ∙ roll_back_rule-same rule s (ground arith))
      ]
