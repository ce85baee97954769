-- ===== src/RootPolicy/Lines.antt =====
-- The privileged policy is read line by line: no text of a profile can add a line to it.
use meraki_openconnect.Prelude.{
  ℕ, suc, ◌≡◌, refl, sym, ap, ◌∙◌, true, ◌||◌, List, [], ◌∷◌, ◌++◌, Text, codes, Result, ok, err,
  ◌>>=◌, arith, any, All, length, all, is_digit,
}
use meraki_openconnect.Ip.{split, parts}
use meraki_openconnect.Json.Decimal.{decimal, decimal_digits}
use meraki_openconnect.Settings.Checks.{SettingsError, is_control}
use meraki_openconnect.Settings.Pin.{normalize_server_cert_pin}
use meraki_openconnect.Profile.Model.{OrganizationProfile, SplitDnsRule}
use meraki_openconnect.Json.{Json}
use meraki_openconnect.Profile.Checks.{Library}
use meraki_openconnect.Profile.Parse.{load}
use meraki_openconnect.Settings.Pin.Laws.{normalized-no_control}
use meraki_openconnect.Profile.Parse.Clean.{
  AddressesArePlain, load-IsPlainProfile, IsPlain, IsPlainRule, IsPlainProfile,
}
use meraki_openconnect.RootPolicy.{
  RenderedRootPolicy, server_lines, rule_lines, unlines, policy_lines, compute_policy_digest,
  render_root_policy,
}

pub any-append : (s t : Text) → any is_control (s ++ t) ≡ (any is_control s || any is_control t)
any-append [] t = refl
any-append (c ∷ s) t = ground (arith, any-append s t)

pub IsPlain-append : (s t : Text) → IsPlain s → IsPlain t → IsPlain (s ++ t)
IsPlain-append s t h k = ground (arith, any-append s t)

-- A plain line in front of a line break is the first part.
pub parts-line :
    (line rest : Text) → IsPlain line → parts 0x0a (line ++ 0x0a ∷ rest) ≡ line ∷ parts 0x0a rest
unfolding parts split
parts-line [] rest h = refl
parts-line (c ∷ line) rest h = ground (arith, parts-line line rest)

parts-unlines :
    (lines : List Text) → All IsPlain lines → parts 0x0a (unlines lines) ≡ lines ++ [] ∷ []
unfolding unlines parts split
parts-unlines [] h = refl
parts-unlines (line ∷ lines) (h, hs) =
    parts-line line (unlines lines) h ∙ ap (λ t. line ∷ t) (parts-unlines lines hs)

digits-IsPlain : (s : Text) → all is_digit s ≡ true → IsPlain s
digits-IsPlain [] h = refl
digits-IsPlain (c ∷ s) h = ground (arith, digits-IsPlain s)

decimal-IsPlain : (n : ℕ) → IsPlain (decimal n)
decimal-IsPlain n = digits-IsPlain (decimal n) (decimal_digits n)

All-append : (xs ys : List Text) → All IsPlain xs → All IsPlain ys → All IsPlain (xs ++ ys)
All-append [] ys h k = k
All-append (x ∷ xs) ys (h, hs) k = (h, All-append xs ys hs k)

server_lines-IsPlain :
    (i j : ℕ) (servers : List Text) → All IsPlain servers → All IsPlain (server_lines i j servers)
unfolding server_lines
server_lines-IsPlain i j [] h = tt
server_lines-IsPlain i j (s ∷ servers) (h, hs) = (
  search (IsPlain-append, decimal-IsPlain, h) depth 12,
  server_lines-IsPlain i (suc j) servers hs,
)

rule_lines-IsPlain :
    (i : ℕ) (rules : List SplitDnsRule) → All IsPlainRule rules → All IsPlain (rule_lines i rules)
unfolding rule_lines
rule_lines-IsPlain i [] h = tt
rule_lines-IsPlain i (rule ∷ rules) ((d, n), hs) = (
  search (IsPlain-append, decimal-IsPlain, d) depth 12,
  (
    search (IsPlain-append, decimal-IsPlain) depth 12,
    All-append _ _ (server_lines-IsPlain i 0 rule.nameservers n)
        (rule_lines-IsPlain (suc i) rules hs),
  ),
)

policy_lines-IsPlain :
    (profile : OrganizationProfile) (pin digest : Text)
    → IsPlainProfile profile
    → IsPlain pin
    → IsPlain digest
    → All IsPlain (policy_lines profile pin digest)
unfolding policy_lines
policy_lines-IsPlain profile pin digest (host, login, final, cookie, rules) p d =
    let count = decimal-IsPlain (length profile.split_dns) in
    let rest = rule_lines-IsPlain 0 profile.split_dns rules in
    (refl, (d, (host, (p, (login, (final, (cookie, (count, rest))))))))

abbrev made_of : OrganizationProfile → Text → Text → RenderedRootPolicy
made_of profile normal digest = record {
  text = unlines (policy_lines profile normal digest);
  digest = digest;
}

module _ (sha256_hex : List ℕ → Text) (hex : (bytes : List ℕ) → IsPlain (sha256_hex bytes)) where
  hashed-IsPlain :
      (r : Result SettingsError Text) (bytes : Text → List ℕ) (digest : Text)
      → (r >>= λ n. ok (codes "sha256:" ++ sha256_hex (bytes n))) ≡ ok digest
      → IsPlain digest
  hashed-IsPlain (ok n) bytes digest h = ground (arith, hex (bytes n))
  hashed-IsPlain (err e) bytes digest h = cc

  digest-IsPlain :
      (profile : OrganizationProfile) (pin digest : Text)
      → compute_policy_digest sha256_hex profile pin ≡ ok digest
      → IsPlain digest
  unfolding compute_policy_digest
  digest-IsPlain profile pin digest h = hashed-IsPlain (normalize_server_cert_pin pin) _ digest h

  -- The two steps of `render_root_policy`.
  abbrev IsRendered : OrganizationProfile → Text → RenderedRootPolicy → Type 0
  IsRendered profile pin rendered =
      (normal : Text) × (normalize_server_cert_pin pin ≡ ok normal)
      × (parts 0x0a rendered.text ≡ policy_lines profile normal rendered.digest ++ [] ∷ [])

  digested :
      (profile : OrganizationProfile) (pin normal : Text) (rendered : RenderedRootPolicy)
      (d : Result SettingsError Text)
      → IsPlainProfile profile
      → normalize_server_cert_pin pin ≡ ok normal
      → compute_policy_digest sha256_hex profile normal ≡ d
      → (d >>= λ digest. ok (made_of profile normal digest)) ≡ ok rendered
      → IsRendered profile pin rendered
  digested profile pin normal rendered (err e) p n c h = cc
  digested profile pin normal rendered (ok digest) p n c h =
      let all_plain =
        policy_lines-IsPlain profile normal digest p (normalized-no_control pin normal n)
          (digest-IsPlain profile normal digest c) in
      let same : rendered ≡ made_of profile normal digest = cc in
      (
        normal,
        n,
        ap (λ r. parts 0x0a r.text) same
            ∙ parts-unlines _ all_plain
            ∙ ap (λ r. policy_lines profile normal r.digest ++ [] ∷ []) (sym same),
      )

  normalized :
      (profile : OrganizationProfile) (pin : Text) (rendered : RenderedRootPolicy)
      (n : Result SettingsError Text)
      → IsPlainProfile profile
      → normalize_server_cert_pin pin ≡ n
      → (n >>= λ normal. compute_policy_digest sha256_hex profile normal >>= λ digest.
          ok (made_of profile normal digest))
        ≡ ok rendered
      → IsRendered profile pin rendered
  normalized profile pin rendered (err e) p e' h = cc
  normalized profile pin rendered (ok normal) p e h =
      digested profile pin normal rendered _ p e refl h

  -- If a loaded profile gives a policy, then that splits at its line breaks into exactly the lines
  -- of the policy, made with the normal form of the pin and the digest of the policy, and an empty
  -- text behind the last. Addresses and digests are taken to be written without control characters.
  pub render_root_policy-parts :
      (library : Library)
      → AddressesArePlain library
      → (v : Json) (profile : OrganizationProfile) (pin : Text) (rendered : RenderedRootPolicy)
      → load library v ≡ ok profile
      → render_root_policy sha256_hex profile pin ≡ ok rendered
      → (normal : Text) × (normalize_server_cert_pin pin ≡ ok normal)
        × (parts 0x0a rendered.text ≡ policy_lines profile normal rendered.digest ++ [] ∷ [])
  unfolding render_root_policy
  render_root_policy-parts library plain v profile pin rendered l r =
      normalized profile pin rendered _ (load-IsPlainProfile library plain v profile l) refl r
