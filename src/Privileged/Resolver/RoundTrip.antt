-- ===== src/Privileged/Resolver/RoundTrip.antt =====
-- `dns-connect` and `dns-disconnect` with the rules of a profile, one after the other.
use meraki_openconnect.Prelude.{
  ℕ, ◌≡◌, ◌⊎◌, inl, inr, refl, sym, ap, ◌∙◌, Bool, true, ◌&&◌, List, [], ◌∷◌, ◌++◌, Text, text_eq,
  text_eq_refl, arith, All, Bool-cases, ◌>>=◌, codes, Result, ok, err, Holds, holds_ok, each-Holds,
}
use meraki_openconnect.Profile.Model.{SplitDnsRule}
use meraki_openconnect.RootPolicy.{unlines}
use meraki_openconnect.Privileged.Shell.{PrivilegedError, shell_literal}
use meraki_openconnect.Privileged.Resolver.{
  Rule, resolver_content, resolver_rule, resolver_rules, resolver_marker, nameserver_lines,
  first_line, literals, absent, file, State, set, is_absent, Removals, is_managed, clean_rule,
  clean_rules, dns_connect, dns_disconnect, Directories,
}
use meraki_openconnect.Privileged.Resolver.Directory.{clean_rules-directory, dns_connect-directory}
use meraki_openconnect.Privileged.Resolver.Placed.{
  IsPlaced, dns_connect-IsPlaced, dns_connect-IsAdded,
}
use meraki_openconnect.Privileged.Resolver.Disconnect.{clean_rules-covered, clean_rules-other}

-- The content of a rule begins with the marker line.
abbrev IsMarked : Rule → Type 0
IsMarked r = first_line r.content ≡ resolver_marker

marked : (rest : List Text) → first_line (unlines (resolver_marker ∷ rest)) ≡ resolver_marker
unfolding first_line unlines
marked rest = refl

resolver_content-marked :
    (servers : List Text) → Holds (λ c. first_line c ≡ resolver_marker) (resolver_content servers)
unfolding resolver_content
resolver_content-marked servers = ground (arith, marked (nameserver_lines servers))

bound-IsMarked :
    (path : Text) (lines : List Text) (r : Result PrivilegedError Text)
    → Holds (λ c. first_line c ≡ resolver_marker) r
    → Holds IsMarked (r >>= λ c. literals lines >>= λ ls. ok (record { path = path; content = c }))
bound-IsMarked path lines (ok c) h =
    each-Holds IsMarked (literals lines) (λ ls. ok (record { path = path; content = c })) (λ ls. h)
bound-IsMarked path lines (err e) h = tt

resolver_rule-IsMarked : (split : SplitDnsRule) → Holds IsMarked (resolver_rule split)
unfolding resolver_rule
resolver_rule-IsMarked split =
    each-Holds IsMarked (shell_literal (codes "/private/etc/resolver/" ++ split.domain)) _ (λ l.
      bound-IsMarked (codes "/private/etc/resolver/" ++ split.domain)
        (resolver_marker ∷ nameserver_lines split.nameservers) (resolver_content split.nameservers)
        (resolver_content-marked split.nameservers))

both-IsMarked :
    (r : Result PrivilegedError Rule) (rs : Result PrivilegedError (List Rule))
    → Holds IsMarked r
    → Holds (All IsMarked) rs
    → Holds (All IsMarked) (r >>= λ y. rs >>= λ ys. ok (y ∷ ys))
both-IsMarked (ok y) (ok ys) h hs = (h, hs)
both-IsMarked (ok y) (err e) h hs = tt
both-IsMarked (err e) rs h hs = tt

resolver_rules-IsMarked :
    (splits : List SplitDnsRule) → Holds (All IsMarked) (resolver_rules splits)
unfolding resolver_rules
resolver_rules-IsMarked [] = tt
resolver_rules-IsMarked (split ∷ splits) =
    both-IsMarked (resolver_rule split) (resolver_rules splits) (resolver_rule-IsMarked split)
      (resolver_rules-IsMarked splits)

module _ (sha256_hex : List ℕ → Text) where
  is_managed-own : (r : Rule) → IsMarked r → is_managed sha256_hex r.content (file r.content) ≡ true
  unfolding is_managed
  is_managed-own r h = ground (
    arith,
    ap (λ t. text_eq t resolver_marker) h ∙ text_eq_refl resolver_marker,
    text_eq_refl (sha256_hex r.content),
  )

  module _ (removals : Removals) (removes : (x : Text) → removals.file x ≡ true) where
    -- A rule whose file is gone or is its own.
    IsOwn : State → Rule → Type 0
    IsOwn s r = (s.node r.path ≡ absent) ⊎ (s.node r.path ≡ file r.content)

    clean_rule-done :
        (r : Rule) (s : State)
        → IsMarked r
        → IsOwn s r
        → (clean_rule sha256_hex removals r s).0 ≡ true
    unfolding clean_rule IsOwn
    clean_rule-done r s m (inl a) = ground (arith, a)
    clean_rule-done r s m (inr f) = grind (arith, f, is_managed-own r m, removes r.path)

    clean_rule-either :
        (r : Rule) (s : State) (x : Text)
        → ((clean_rule sha256_hex removals r s).1.node x ≡ s.node x)
          ⊎ ((clean_rule sha256_hex removals r s).1.node x ≡ absent)
    unfolding clean_rule set
    clean_rule-either r s x = elim (Bool-cases (text_eq r.path x)) [
      | inl y ↦ elim (Bool-cases (is_absent (s.node r.path))) [
        | inl a ↦ inl (grind arith)
        | inr n ↦
            elim (Bool-cases
              (is_managed sha256_hex r.content (s.node r.path) && removals.file r.path)) [
                | inl m ↦ inr (grind arith)
                | inr m ↦ inl (grind arith)
              ]
      ]
      | inr n ↦ inl (grind arith)
    ]

    clean_rule-IsOwn :
        (r q : Rule) (s : State) → IsOwn s q → IsOwn (clean_rule sha256_hex removals r s).1 q
    unfolding IsOwn
    clean_rule-IsOwn r q s (inl a) = elim (clean_rule-either r s q.path) [
      | inl k ↦ inl (k ∙ a)
      | inr k ↦ inl k
    ]
    clean_rule-IsOwn r q s (inr f) = elim (clean_rule-either r s q.path) [
      | inl k ↦ inr (k ∙ f)
      | inr k ↦ inl k
    ]

    clean_rule-OthersIsOwn :
        (r : Rule) (rules : List Rule) (s : State)
        → All (IsOwn s) rules
        → All (IsOwn (clean_rule sha256_hex removals r s).1) rules
    clean_rule-OthersIsOwn r [] s h = tt
    clean_rule-OthersIsOwn r (q ∷ rules) s h =
        (clean_rule-IsOwn r q s h.0, clean_rule-OthersIsOwn r rules s h.1)

    clean_rules-done :
        (rules : List Rule) (s : State)
        → All IsMarked rules
        → All (IsOwn s) rules
        → (clean_rules sha256_hex removals rules s).0 ≡ true
    unfolding clean_rules
    clean_rules-done [] s m h = refl
    clean_rules-done (rule ∷ rules) s m h =
        let t = (clean_rule sha256_hex removals rule s).1 in
        grind (
          arith,
          clean_rule-done rule s m.0 h.0,
          clean_rules-done rules t m.1 (clean_rule-OthersIsOwn rule rules s h.1),
        )

    placed-IsOwn : (rules : List Rule) (s : State) → IsPlaced rules s → All (IsOwn s) rules
    unfolding IsOwn
    placed-IsOwn [] s h = tt
    placed-IsOwn (rule ∷ rules) s h = (inr h.0, placed-IsOwn rules s h.1)

    -- With the rules of a profile: after a dns-connect that exits with code 0, a dns-disconnect whose
    -- checks pass and whose removals work succeeds, and every path holds what it held before both, but
    -- that the resolver directory is there, which dns-connect makes and nothing removes.
    pub connect-disconnect :
        (splits : List SplitDnsRule) (rules : List Rule)
        → resolver_rules splits ≡ ok rules
        → (verified : Bool) (safe : Directories) (stop : ℕ) (s : State)
        → (dns_connect sha256_hex removals verified safe rules stop s).0 ≡ 0
        → (let connected = (dns_connect sha256_hex removals verified safe rules stop s).1 in
            let cleared = dns_disconnect sha256_hex removals true true rules connected in
            (cleared.0 ≡ true)
            × ((x : Text) → cleared.1.node x ≡ s.node x)
            × (cleared.1.directory ≡ true))
    unfolding dns_disconnect
    connect-disconnect splits rules parsed verified safe stop s e =
        let connected = (dns_connect sha256_hex removals verified safe rules stop s).1 in
        let cleared = clean_rules sha256_hex removals rules connected in
        let done =
          clean_rules-done rules connected
            (holds_ok (All IsMarked) (resolver_rules splits) rules (resolver_rules-IsMarked splits)
              parsed)
            (placed-IsOwn rules connected
              (dns_connect-IsPlaced sha256_hex removals verified safe rules stop s e)) in
        (
          ground (arith, done),
          λ x. elim (dns_connect-IsAdded sha256_hex removals verified safe rules stop s x e) [
            | inl k ↦ clean_rules-covered sha256_hex removals x rules connected k.0 done ∙ sym k.1
            | inr k ↦ clean_rules-other sha256_hex removals x rules connected k.0 ∙ k.1
          ],
          clean_rules-directory sha256_hex removals rules connected
              ∙ dns_connect-directory sha256_hex removals verified safe rules stop s e,
        )
