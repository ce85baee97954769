-- ===== src/Privileged/Resolver/Connect.antt =====
-- `dns-connect` over the files of the resolver directory: an invariant of the calls that install the
-- rules, and what the exit code of the helper says of the files.
use meraki_openconnect.Prelude.{
  ℕ, zero, suc, ◌≡◌, ◌≢◌, ◌⊎◌, inl, inr, refl, sym, ap, ◌∙◌, Bool, true, false, not, ◌&&◌, Option,
  none, some, List, [], ◌∷◌, Text, text_eq, text_eq_iff, arith, Bool-cases,
}
use meraki_openconnect.Privileged.Resolver.{
  Rule, Node, absent, file, State, touch, write, move, place, is_absent, install_rule,
  install_rules, Removals, roll_back, following, status_of, abort, conclude, dns_connect,
  Directories, refused, made, passed, begun,
}
use meraki_openconnect.Privileged.Resolver.Files.{
  set-other, is_absent_iff, covers, roll_back-other, roll_back-absent,
}

-- Of one path: it is no path of a rule whose flag is set and holds what it held before, or it is one
-- and held no file before.
module _ (before : Node) (x : Text) where
  pub IsKept : State → Type 0
  IsKept s =
      (covers s.touched x ≡ false × s.node x ≡ before)
      ⊎ (covers s.touched x ≡ true × before ≡ absent)

  touched-IsKept :
      (rule : Rule) (s s' : State)
      → s'.touched ≡ rule ∷ s.touched
      → (text_eq rule.path x ≡ false → s'.node x ≡ s.node x)
      → is_absent (s.node rule.path) ≡ true
      → IsKept s
      → IsKept s'
  unfolding IsKept covers
  touched-IsKept rule s s' e same a h = elim (Bool-cases (text_eq rule.path x)) [
    | inl y ↦
        (let there = ap s.node ((text_eq_iff rule.path x).0 y) in
          let empty = is_absent_iff (s.node rule.path) a in
          inr (ground arith, elim h [ inl k ↦ sym k.1 ∙ sym there ∙ empty | inr k ↦ k.1 ]))
    | inr n ↦ elim h [ inl k ↦ inl (ground arith, same n ∙ k.1) | inr k ↦ inr (ground arith, k.1) ]
  ]

  place-IsKept :
      (rule : Rule) (n : ℕ) (s : State)
      → is_absent (s.node rule.path) ≡ true
      → IsKept s
      → IsKept (place rule n s).1
  unfolding place
  place-IsKept rule zero s a h = h
  place-IsKept rule (suc zero) s a h = touched-IsKept rule s (touch rule s) refl (λ n. refl) a h
  place-IsKept rule (suc (suc zero)) s a h =
      touched-IsKept rule s (write rule (touch rule s)) refl (λ n. refl) a h
  place-IsKept rule (suc (suc (suc n))) s a h =
      touched-IsKept rule s (move rule (touch rule s)) refl
        (set-other rule.path x (file rule.content) s.node) a h

  install_rule-IsKept :
      (rule : Rule) (n : ℕ) (s : State) → IsKept s → IsKept (install_rule rule n s).1
  unfolding install_rule
  install_rule-IsKept rule n s h =
      elim (Bool-cases (is_absent (s.node rule.path) && not (s.temp rule.path))) [
        | inl y ↦ grind (arith, place-IsKept rule n s (ground arith) h)
        | inr d ↦ grind arith
      ]

  following-IsKept :
      (k : ℕ → State → Option ℕ × State) (r : Option ℕ × State)
      → IsKept r.1
      → ((m : ℕ) → IsKept (k m r.1).1)
      → IsKept (following k r).1
  following-IsKept k (none, s) h step = h
  following-IsKept k (some m, s) h step = step m

  install_rules-IsKept :
      (rules : List Rule) (n : ℕ) (s : State) → IsKept s → IsKept (install_rules rules n s).1
  unfolding install_rules
  install_rules-IsKept [] n s h = h
  install_rules-IsKept (rule ∷ rules) n s h =
      let kept = install_rule-IsKept rule n s h in
      following-IsKept (install_rules rules) (install_rule rule n s) kept
        (λ m. install_rules-IsKept rules m (install_rule rule n s).1 kept)

module _ (sha256_hex : List ℕ → Text) (removals : Removals) (x : Text) where
  status_of-one : (r : Bool × State) → (status_of sha256_hex removals r).0 ≡ 1 → r.0 ≡ true
  status_of-one (true, s) h = refl
  status_of-one (false, s) h = ground (arith, h)

  status_of-files : (r : Bool × State) → (status_of sha256_hex removals r).1 ≡ r.1
  status_of-files (true, s) = refl
  status_of-files (false, s) = refl

  abort-files :
      (s : State)
      → (abort sha256_hex removals s).1.node x
        ≡ (roll_back sha256_hex removals s.touched s).1.node x
  abort-files s =
      ap (λ (t : State). t.node x) (status_of-files (roll_back sha256_hex removals s.touched s))

  abort-restored :
      (before : Node) (s : State)
      → IsKept before x s
      → (abort sha256_hex removals s).0 ≡ 1
      → (abort sha256_hex removals s).1.node x ≡ before
  unfolding IsKept
  abort-restored before s (inl k) e =
      abort-files s ∙ roll_back-other sha256_hex removals x s.touched s k.0 ∙ k.1
  abort-restored before s (inr k) e =
      let done = status_of-one (roll_back sha256_hex removals s.touched s) e in
      abort-files s ∙ roll_back-absent sha256_hex removals x s.touched s k.0 done ∙ sym k.1

  conclude-restored :
      (before : Node) (r : Option ℕ × State)
      → IsKept before x r.1
      → (conclude sha256_hex removals r).0 ≡ 1
      → (conclude sha256_hex removals r).1.node x ≡ before
  conclude-restored before (none, s) h e = abort-restored before s h e
  conclude-restored before (some zero, s) h e = abort-restored before s h e
  conclude-restored before (some (suc zero), s) h e = ground (arith, e)
  conclude-restored before (some (suc (suc n)), s) h e = ground (arith, e)

  abort-foreign :
      (before : Node) (s : State)
      → IsKept before x s
      → before ≢ absent
      → (abort sha256_hex removals s).1.node x ≡ before
  unfolding IsKept
  abort-foreign before s (inl k) f =
      abort-files s ∙ roll_back-other sha256_hex removals x s.touched s k.0 ∙ k.1
  abort-foreign before s (inr k) f = elim (f k.1) [ ]

  kept-foreign :
      (before : Node) (s : State) → IsKept before x s → before ≢ absent → s.node x ≡ before
  unfolding IsKept
  kept-foreign before s (inl k) f = k.1
  kept-foreign before s (inr k) f = elim (f k.1) [ ]

  conclude-foreign :
      (before : Node) (r : Option ℕ × State)
      → IsKept before x r.1
      → before ≢ absent
      → (conclude sha256_hex removals r).1.node x ≡ before
  conclude-foreign before (none, s) h f = abort-foreign before s h f
  conclude-foreign before (some zero, s) h f = abort-foreign before s h f
  conclude-foreign before (some (suc zero), s) h f = kept-foreign before s h f
  conclude-foreign before (some (suc (suc n)), s) h f = kept-foreign before s h f

  start-IsKept : (d : Bool) (s : State) → IsKept (s.node x) x (begun d s)
  unfolding IsKept covers
  start-IsKept d s = inl (refl, refl)

  -- Wherever dns-connect fails or is stopped, and whatever its exit code is: what stood at a path
  -- before it is there afterwards, the same file with the same content.
  pub dns_connect-foreign :
      (verified : Bool) (safe : Directories) (rules : List Rule) (stop : ℕ) (s : State)
      → s.node x ≢ absent
      → (dns_connect sha256_hex removals verified safe rules stop s).1.node x ≡ s.node x
  unfolding dns_connect
  dns_connect-foreign false safe rules stop s f = refl
  dns_connect-foreign true refused rules stop s f =
      abort-foreign (s.node x) (begun s.directory s) (start-IsKept s.directory s) f
  dns_connect-foreign true made rules stop s f =
      abort-foreign (s.node x) (begun true s) (start-IsKept true s) f
  dns_connect-foreign true passed rules stop s f =
      conclude-foreign (s.node x) (install_rules rules stop (begun true s))
        (install_rules-IsKept (s.node x) x rules stop (begun true s) (start-IsKept true s)) f

  -- Where dns-connect exits with code 1, every path holds what it held before.
  pub dns_connect-restored :
      (verified : Bool) (safe : Directories) (rules : List Rule) (stop : ℕ) (s : State)
      → (dns_connect sha256_hex removals verified safe rules stop s).0 ≡ 1
      → (dns_connect sha256_hex removals verified safe rules stop s).1.node x ≡ s.node x
  unfolding dns_connect
  dns_connect-restored false safe rules stop s e = refl
  dns_connect-restored true refused rules stop s e =
      abort-restored (s.node x) (begun s.directory s) (start-IsKept s.directory s) e
  dns_connect-restored true made rules stop s e =
      abort-restored (s.node x) (begun true s) (start-IsKept true s) e
  dns_connect-restored true passed rules stop s e =
      conclude-restored (s.node x) (install_rules rules stop (begun true s))
        (install_rules-IsKept (s.node x) x rules stop (begun true s) (start-IsKept true s)) e
