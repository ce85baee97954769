-- ===== src/Privileged/Resolver/Disconnect.antt =====
-- `dns-disconnect` over the files of the resolver directory: what it removes, and what it leaves.
use meraki_openconnect.Prelude.{
  ℕ, ◌≡◌, ◌⊎◌, inl, inr, refl, sym, ap, ◌∙◌, Bool, true, false, ◌&&◌, List, [], ◌∷◌, Text, text_eq,
  text_eq_iff, arith, Bool-cases, any,
}
use meraki_openconnect.Privileged.Resolver.{
  Rule, Node, absent, State, set, is_absent, Removals, is_managed, clean_rule, clean_rules,
  dns_disconnect,
}
use meraki_openconnect.Privileged.Resolver.Files.{set-other, set-same, covers, is_absent_iff}

set-absent : (path x : Text) (f : Text → Node) → f x ≡ absent → set path absent f x ≡ absent
unfolding set
set-absent path x f h = ground (arith, h)

module _ (sha256_hex : List ℕ → Text) (removals : Removals) (x : Text) where
  clean_rule-other :
      (rule : Rule) (s : State)
      → text_eq rule.path x ≡ false
      → (clean_rule sha256_hex removals rule s).1.node x ≡ s.node x
  unfolding clean_rule
  clean_rule-other rule s h = grind (arith, set-other rule.path x absent s.node h)

  clean_rule-same :
      (rule : Rule) (s : State)
      → (clean_rule sha256_hex removals rule s).0 ≡ true
      → (clean_rule sha256_hex removals rule s).1.node rule.path ≡ absent
  unfolding clean_rule
  clean_rule-same rule s h = elim (Bool-cases (is_absent (s.node rule.path))) [
    | inl y ↦ grind (arith, is_absent_iff (s.node rule.path) y)
    | inr n ↦ grind (arith, set-same rule.path absent s.node)
  ]

  clean_rule-absent :
      (rule : Rule) (s : State)
      → s.node x ≡ absent
      → (clean_rule sha256_hex removals rule s).1.node x ≡ absent
  unfolding clean_rule
  clean_rule-absent rule s h = grind (arith, h, set-absent rule.path x s.node h)

  clean_rules-absent :
      (rules : List Rule) (s : State)
      → s.node x ≡ absent
      → (clean_rules sha256_hex removals rules s).1.node x ≡ absent
  unfolding clean_rules
  clean_rules-absent [] s h = h
  clean_rules-absent (rule ∷ rules) s h =
      let t = (clean_rule sha256_hex removals rule s).1 in
      let here = clean_rule-absent rule s h in grind (arith, here, clean_rules-absent rules t here)

  pub clean_rules-other :
      (rules : List Rule) (s : State)
      → covers rules x ≡ false
      → (clean_rules sha256_hex removals rules s).1.node x ≡ s.node x
  unfolding clean_rules covers
  clean_rules-other [] s h = refl
  clean_rules-other (rule ∷ rules) s h =
      let t = (clean_rule sha256_hex removals rule s).1 in
      let here = clean_rule-other rule s (ground arith) in
      grind (arith, here, clean_rules-other rules t (ground arith))

  -- Once every rule is cleared, no file stands at a path of a rule.
  pub clean_rules-covered :
      (rules : List Rule) (s : State)
      → covers rules x ≡ true
      → (clean_rules sha256_hex removals rules s).0 ≡ true
      → (clean_rules sha256_hex removals rules s).1.node x ≡ absent
  unfolding clean_rules covers
  clean_rules-covered [] s h r = cc
  clean_rules-covered (rule ∷ rules) s h r =
      let t = (clean_rule sha256_hex removals rule s).1 in
      let done : (clean_rule sha256_hex removals rule s).0 ≡ true = ground arith in
      elim (Bool-cases (text_eq rule.path x)) [
        | inl y ↦
            (let here =
                ap t.node (sym ((text_eq_iff rule.path x).0 y)) ∙ clean_rule-same rule s done in
              grind (arith, done, clean_rules-absent rules t here))
        | inr n ↦ grind (arith, done, clean_rules-covered rules t (ground arith) (ground arith))
      ]

  -- A file is removed only if it is a managed one with the content of a rule of its path.
  unfoldable pub is_removable : List Rule → Node → Bool
  is_removable rules n = any (λ r. text_eq r.path x && is_managed sha256_hex r.content n) rules

  clean_rule-removable :
      (rule : Rule) (s : State)
      → ((clean_rule sha256_hex removals rule s).1.node x ≡ s.node x)
        ⊎ (text_eq rule.path x && is_managed sha256_hex rule.content (s.node x) ≡ true)
  unfolding clean_rule
  clean_rule-removable rule s = elim (Bool-cases (text_eq rule.path x)) [
    | inl y ↦
        (let same = ap s.node ((text_eq_iff rule.path x).0 y) in
          elim (Bool-cases (is_managed sha256_hex rule.content (s.node rule.path))) [
            | inl m ↦ inr (grind (arith, same))
            | inr m ↦ inl (grind (arith, m))
          ])
    | inr n ↦ inl (clean_rule-other rule s n)
  ]

  clean_rules-removable :
      (rules : List Rule) (s : State)
      → ((clean_rules sha256_hex removals rules s).1.node x ≡ s.node x)
        ⊎ (is_removable rules (s.node x) ≡ true)
  unfolding clean_rules is_removable
  clean_rules-removable [] s = inl refl
  clean_rules-removable (rule ∷ rules) s =
      let t = (clean_rule sha256_hex removals rule s).1 in
      elim (clean_rule-removable rule s) [
        | inl k ↦ elim (clean_rules-removable rules t) [
          | inl l ↦ inl (grind (arith, k, l))
          | inr m ↦ inr (let m' = ap (is_removable rules) (sym k) ∙ m in ground arith)
        ]
        | inr m ↦ inr (ground arith)
      ]

  -- Whatever dns-disconnect returns: at each path the file is as it was, or it was a managed file with
  -- the content of a rule of this path.
  pub dns_disconnect-removable :
      (safe restored : Bool) (rules : List Rule) (s : State)
      → ((dns_disconnect sha256_hex removals safe restored rules s).1.node x ≡ s.node x)
        ⊎ (is_removable rules (s.node x) ≡ true)
  unfolding dns_disconnect
  dns_disconnect-removable false restored rules s = inl refl
  dns_disconnect-removable true restored rules s = clean_rules-removable rules s

  -- Where dns-disconnect succeeds, no file stands at the path of a rule.
  pub dns_disconnect-absent :
      (safe restored : Bool) (rules : List Rule) (s : State)
      → covers rules x ≡ true
      → (dns_disconnect sha256_hex removals safe restored rules s).0 ≡ true
      → (dns_disconnect sha256_hex removals safe restored rules s).1.node x ≡ absent
  unfolding dns_disconnect
  dns_disconnect-absent false restored rules s c e = cc
  dns_disconnect-absent true restored rules s c e = clean_rules-covered rules s c (ground arith)
