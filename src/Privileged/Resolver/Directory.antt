-- ===== src/Privileged/Resolver/Directory.antt =====
-- The resolver directory, which `install_dns_resolvers` makes and nothing removes.
use meraki_openconnect.Prelude.{
  ℕ, zero, suc, ◌≡◌, ◌⊎◌, inl, inr, refl, ◌∙◌, Bool, true, false, Option, none, some, List, [], ◌∷◌,
  Text, arith,
}
use meraki_openconnect.Privileged.Resolver.{
  Rule, Node, absent, State, place, install_rule, install_rules, following, Removals,
  roll_back_file, roll_back_rule, roll_back, status_of, abort, conclude, dns_connect, clean_rule,
  clean_rules, Directories, refused, made, passed, begun,
}
use meraki_openconnect.Privileged.Resolver.Placed.{dns_connect-done}

place-directory : (rule : Rule) (n : ℕ) (s : State) → (place rule n s).1.directory ≡ s.directory
unfolding place
place-directory rule zero s = refl
place-directory rule (suc zero) s = refl
place-directory rule (suc (suc zero)) s = refl
place-directory rule (suc (suc (suc n))) s = refl

install_rule-directory :
    (rule : Rule) (n : ℕ) (s : State) → (install_rule rule n s).1.directory ≡ s.directory
unfolding install_rule
install_rule-directory rule n s = ground (arith, place-directory rule n s)

following-directory :
    (k : ℕ → State → Option ℕ × State) (r : Option ℕ × State)
    → ((n : ℕ) → (k n r.1).1.directory ≡ r.1.directory)
    → (following k r).1.directory ≡ r.1.directory
following-directory k (none, s) h = refl
following-directory k (some n, s) h = h n

install_rules-directory :
    (rules : List Rule) (n : ℕ) (s : State) → (install_rules rules n s).1.directory ≡ s.directory
unfolding install_rules
install_rules-directory [] n s = refl
install_rules-directory (rule ∷ rules) n s =
    following-directory (install_rules rules) (install_rule rule n s)
      (λ m. install_rules-directory rules m (install_rule rule n s).1)
    ∙ install_rule-directory rule n s

module _ (sha256_hex : List ℕ → Text) (removals : Removals) where
  roll_back_file-directory :
      (rule : Rule) (found : Node) (s : State)
      → (roll_back_file sha256_hex removals rule found s).1.directory ≡ s.directory
  unfolding roll_back_file
  roll_back_file-directory rule absent s = refl
  roll_back_file-directory rule _ s = ground arith

  roll_back_rule-directory :
      (rule : Rule) (s : State)
      → (roll_back_rule sha256_hex removals rule s).1.directory ≡ s.directory
  unfolding roll_back_rule
  roll_back_rule-directory rule s = grind (arith, roll_back_file-directory)

  roll_back-directory :
      (rules : List Rule) (s : State)
      → (roll_back sha256_hex removals rules s).1.directory ≡ s.directory
  unfolding roll_back
  roll_back-directory [] s = refl
  roll_back-directory (rule ∷ rules) s =
      roll_back-directory rules (roll_back_rule sha256_hex removals rule s).1
      ∙ roll_back_rule-directory rule s

  status_of-directory :
      (r : Bool × State) → (status_of sha256_hex removals r).1.directory ≡ r.1.directory
  status_of-directory (true, s) = refl
  status_of-directory (false, s) = refl

  abort-directory : (s : State) → (abort sha256_hex removals s).1.directory ≡ s.directory
  abort-directory s =
      status_of-directory (roll_back sha256_hex removals s.touched s)
      ∙ roll_back-directory s.touched s

  conclude-directory :
      (r : Option ℕ × State) → (conclude sha256_hex removals r).1.directory ≡ r.1.directory
  conclude-directory (none, s) = abort-directory s
  conclude-directory (some zero, s) = abort-directory s
  conclude-directory (some (suc zero), s) = refl
  conclude-directory (some (suc (suc n)), s) = refl

  -- However dns-connect ends, the resolver directory is as it was, or is there.
  pub dns_connect_directory :
      (verified : Bool) (safe : Directories) (rules : List Rule) (stop : ℕ) (s : State)
      → (let t = (dns_connect sha256_hex removals verified safe rules stop s).1 in
          (t.directory ≡ s.directory) ⊎ (t.directory ≡ true))
  unfolding dns_connect
  dns_connect_directory false safe rules stop s = inl refl
  dns_connect_directory true refused rules stop s = inl (abort-directory (begun s.directory s))
  dns_connect_directory true made rules stop s = inr (abort-directory (begun true s))
  dns_connect_directory true passed rules stop s = inr (
      conclude-directory (install_rules rules stop (begun true s))
      ∙ install_rules-directory rules stop (begun true s))

  -- Where dns-connect exits with code 0, the resolver directory is there.
  pub dns_connect-directory :
      (verified : Bool) (safe : Directories) (rules : List Rule) (stop : ℕ) (s : State)
      → (dns_connect sha256_hex removals verified safe rules stop s).0 ≡ 0
      → (dns_connect sha256_hex removals verified safe rules stop s).1.directory ≡ true
  dns_connect-directory verified safe rules stop s =
      dns_connect-done sha256_hex removals (λ t. t.directory ≡ true) verified safe rules stop s
        (λ p h. install_rules-directory rules stop (begun true s))

  clean_rule-directory :
      (rule : Rule) (s : State) → (clean_rule sha256_hex removals rule s).1.directory ≡ s.directory
  unfolding clean_rule
  clean_rule-directory rule s = ground arith

  pub clean_rules-directory :
      (rules : List Rule) (s : State)
      → (clean_rules sha256_hex removals rules s).1.directory ≡ s.directory
  unfolding clean_rules
  clean_rules-directory [] s = refl
  clean_rules-directory (rule ∷ rules) s = grind (
    arith,
    clean_rule-directory rule s,
    clean_rules-directory rules (clean_rule sha256_hex removals rule s).1,
  )
