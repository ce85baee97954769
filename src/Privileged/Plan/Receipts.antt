-- ===== src/Privileged/Plan/Receipts.antt =====
-- What an install plan promises: the receipts that its helper gives, and its one sudo rule.
use meraki_openconnect.Prelude.{
  ℕ, ◌-◌, ◌≡◌, refl, sym, ap, ◌∙◌, Bool, true, ◌&&◌, ◌||◌, some, List, [], ◌∷◌, ◌++◌, Text, codes,
  text_eq, text_eq_refl, Result, ok, err, length, all, ◌==◌, is_digit, arith, length-append,
  take-append_length, drop-append_length, Holds, holds_ok, bind-Holds, each-Holds, require-Holds,
  same-Holds,
}
use mathlib.Core.List.{append_assoc}
use meraki_openconnect.Ip.{parts, split}
use meraki_openconnect.Profile.Model.{OrganizationProfile}
use meraki_openconnect.Profile.Parse.Clean.{IsPlain}
use meraki_openconnect.Settings.Checks.{SettingsError, MachineSettings, is_digest}
use meraki_openconnect.Settings.Pin.{normalize_server_cert_pin}
use meraki_openconnect.Settings.Pin.Laws.{normalize_server_cert_pin-IsCanonical}
use meraki_openconnect.Readiness.{policy_receipts_match, extension_receipt_matches}
use meraki_openconnect.RootPolicy.{RenderedRootPolicy, render_root_policy, compute_policy_digest}
use meraki_openconnect.RootPolicy.Lines.{parts-line, IsPlain-append}
use meraki_openconnect.Privileged.Plan.{
  InstallPlan, build_install_plan, installed_policy_digest, is_username, is_username_start,
  permission, sudoers_text, of_settings, of_privileged,
}
use meraki_openconnect.Privileged.Shell.{shell_literal}
use meraki_openconnect.Privileged.Resolver.{resolver_rules}

-- The settings with the receipt that setup saves.
abbrev pub with_receipt : MachineSettings → Text → MachineSettings
with_receipt settings digest = record settings { installed_policy_digest = digest }

module _ (sha256_hex : List ℕ → Text) (profile : OrganizationProfile) where
  compute_same :
      (v pin : Text)
      → normalize_server_cert_pin v ≡ ok pin
      → compute_policy_digest sha256_hex profile v ≡ compute_policy_digest sha256_hex profile pin
  unfolding compute_policy_digest
  compute_same v pin e =
      let same = e ∙ sym (normalize_server_cert_pin-IsCanonical v pin e).1 in rw same refl

  render-Computed :
      (v : Text)
      → Holds
          (λ (r : RenderedRootPolicy). compute_policy_digest sha256_hex profile v ≡ ok r.digest)
          (render_root_policy sha256_hex profile v)
  unfolding render_root_policy
  render-Computed v =
      bind-Holds _ _ (normalize_server_cert_pin v) _ (same-Holds (normalize_server_cert_pin v))
        (λ pin e.
          bind-Holds _ _ (compute_policy_digest sha256_hex profile pin) _
            (same-Holds (compute_policy_digest sha256_hex profile pin))
            (λ digest f. compute_same v pin e ∙ f))

  -- `hashlib.sha256(…).hexdigest()` has 64 hexadecimal digits.
  abbrev pub IsHex : Type 0
  IsHex = (bytes : List ℕ) → is_digest (codes "sha256:" ++ sha256_hex bytes) ≡ true

  computed-digest :
      IsHex
      → (v : Text) → Holds (λ d. is_digest d ≡ true) (compute_policy_digest sha256_hex profile v)
  unfolding compute_policy_digest
  computed-digest hex v = each-Holds _ (normalize_server_cert_pin v) _ (λ pin. hex _)

  -- What the helper of a plan prints is read back as the plan's digest, and with it the receipts match.
  pub record IsReceipted (settings : MachineSettings) (plan : InstallPlan) : Type 0 where
    pub printed : installed_policy_digest (some (0, plan.digest ++ 0x0a ∷ [])) ≡ some plan.digest
    pub policy :
        policy_receipts_match sha256_hex profile
          (with_receipt settings plan.digest)
          (some plan.digest)
        ≡ ok true
    pub extension : extension_receipt_matches sha256_hex profile settings ≡ true

  printed_lem :
      (digest : Text)
      → is_digest digest ≡ true
      → installed_policy_digest (some (0, digest ++ 0x0a ∷ [])) ≡ some digest
  unfolding installed_policy_digest
  printed_lem digest h =
      let n : length (digest ++ 0x0a ∷ []) - 1 ≡ length digest =
        omega (arith, length-append digest (0x0a ∷ [])) in
      rw (n, take-append_length digest (0x0a ∷ []), drop-append_length digest (0x0a ∷ []), h) refl

  matches_lem :
      (settings : MachineSettings) (digest : Text)
      → compute_policy_digest sha256_hex profile settings.server_cert_pin ≡ ok digest
      → policy_receipts_match sha256_hex profile (with_receipt settings digest) (some digest)
        ≡ ok true
  unfolding policy_receipts_match
  matches_lem settings digest e = rw (e, text_eq_refl digest) refl

  of_settings-Holds :
      {A : Type 0} (P : A → Type 0) (r : Result SettingsError A)
      → Holds P r
      → Holds P (of_settings r)
  of_settings-Holds P (ok a) h = h
  of_settings-Holds P (err e) h = tt

  receipted :
      IsHex
      → (settings : MachineSettings) (plan : InstallPlan)
      → extension_receipt_matches sha256_hex profile settings ≡ true
      → compute_policy_digest sha256_hex profile settings.server_cert_pin ≡ ok plan.digest
      → IsReceipted settings plan
  receipted hex settings plan x e = record {
    printed = printed_lem plan.digest (
        holds_ok _ (compute_policy_digest sha256_hex profile settings.server_cert_pin) plan.digest
          (computed-digest hex settings.server_cert_pin) e);
    policy = matches_lem settings plan.digest e;
    extension = x;
  }

  both : {a b : Bool} → a ≡ true → b ≡ true → (a && b) ≡ true
  both g p = ground arith

  plan-IsReceipted :
      IsHex
      → (settings : MachineSettings) (username : Text)
      → Holds (IsReceipted settings) (build_install_plan sha256_hex profile settings username)
  unfolding build_install_plan extension_receipt_matches
  plan-IsReceipted hex settings username =
      require-Holds _ (text_eq settings.extension_gateway_origin _) _ _ (λ g.
        require-Holds _ (text_eq settings.extension_profile_digest _) _ _ (λ p.
          require-Holds _ (is_username username) _ _ (λ u.
            bind-Holds _ _
              (of_settings (render_root_policy sha256_hex profile settings.server_cert_pin)) _
              (of_settings-Holds _ (render_root_policy sha256_hex profile settings.server_cert_pin)
                (render-Computed settings.server_cert_pin))
              (λ rendered c.
                each-Holds (IsReceipted settings) (of_privileged (resolver_rules profile.split_dns))
                  _
                  (λ rules.
                    each-Holds (IsReceipted settings)
                      (of_privileged (shell_literal rendered.digest)) _
                      (λ literal. receipted hex settings _ (both g p) c))))))

  -- Where an install plan is made, the readiness tests will find its receipts: the digest that its helper
  -- prints is read back, with it saved in the settings the policy's receipts match, and the extension's
  -- receipt matches already.
  pub build_install_plan-IsReceipted :
      IsHex
      → (settings : MachineSettings) (username : Text) (plan : InstallPlan)
      → build_install_plan sha256_hex profile settings username ≡ ok plan
      → IsReceipted settings plan
  build_install_plan-IsReceipted hex settings username plan h =
      holds_ok (IsReceipted settings) (build_install_plan sha256_hex profile settings username) plan
        (plan-IsReceipted hex settings username) h

name-IsPlain :
    (s : Text) → all (λ x. is_username_start x || is_digit x || x == b'-') s ≡ true → IsPlain s
name-IsPlain [] h = refl
name-IsPlain (c ∷ s) h = ground (arith, name-IsPlain s (ground (arith, h)))

-- A user name of the sudoers file has no line break.
username-IsPlain : (username : Text) → is_username username ≡ true → IsPlain username
username-IsPlain [] h = cc
username-IsPlain (c ∷ s) h = ground (arith, h, name-IsPlain s (ground (arith, h)))

-- The sudoers file of a user name that passes the plan's test is one line, the user's permission for the
-- five operations of the helper, and nothing else.
pub sudoers_text-lines :
    (username : Text)
    → is_username username ≡ true
    → parts 0x0a (sudoers_text username) ≡ (username ++ permission) ∷ [] ∷ []
unfolding sudoers_text parts split
sudoers_text-lines username h =
    ap (parts 0x0a) (sym (append_assoc username permission (0x0a ∷ [])))
    ∙ parts-line (username ++ permission) []
        (IsPlain-append username permission (username-IsPlain username h) refl)
