-- ===== src/Setup/Run/Order.antt =====
-- The order in which setup touches the machine, whatever fails.
use meraki_openconnect.Prelude.{
  ℕ, ◌≡◌, ◌⊎◌, inl, inr, refl, sym, ap, ◌∙◌, Bool, true, false, Option, none, some, List, [], ◌∷◌,
  Text, text_eq, text_eq_iff, Result, ok, err, arith, Bool-cases,
}
use meraki_openconnect.Profile.Model.{OrganizationProfile}
use meraki_openconnect.RootPolicy.{RenderedRootPolicy, render_root_policy}
use meraki_openconnect.Settings.Checks.{SettingsError, BrowserSettings, MachineSettings}
use meraki_openconnect.Settings.Machine.{validate_machine_settings}
use meraki_openconnect.Settings.Machine.Laws.{validate_machine_settings-IsValid}
use meraki_openconnect.Setup.Steps.{
  ExtensionPermissionReceipt, Step, asked, probed, configured_native_host, received, authenticated,
  installed, saved_profile, saved_settings, Failure, M, settings_result, ◌>>=◌, continue, guarded,
  incomplete, succeeded, answered, perform, attempt, pure, lift, pin_not_approved, cancelled, look,
}
use meraki_openconnect.Setup.Summary.{pin_change_summary}
use meraki_openconnect.Setup.Run.{
  SetupDependencies, settings_of, confirm, save_state, commit, examine, new_settings, enrol,
  is_granted, connect_extension, approve_pin, proceed, run_setup, assert,
}

module _ (sha256_hex : List ℕ → Text) where
  -- In the history (the latest step first): the saving of the profile, and then that of the settings,
  -- is tried only directly after the installation that they belong to has succeeded. Directly before an installation stand the authentication with
  -- the pin, the permission of the extension for the profile and the setup of the native host, and
  -- before those the probe of that pin, with at most one approval between, and a confirmation.
  abbrev pub IsOrdered : List Step → Type 0
  IsOrdered [] = Unit
  IsOrdered (saved_settings s done ∷ h) =
      ((p : OrganizationProfile) × (older : List Step) × (h
          ≡ saved_profile p true ∷ installed p s true ∷ older))
      × IsOrdered h
  IsOrdered (saved_profile p done ∷ h) =
      ((s : MachineSettings) × (older : List Step) × (h ≡ installed p s true ∷ older)) × IsOrdered h
  IsOrdered (installed p s done ∷ h) =
      ((b : BrowserSettings) × (r : ExtensionPermissionReceipt) × (pin : Text) × (older : List Step)
        × (h ≡ authenticated pin ∷ received r ∷ configured_native_host b.extension_id true ∷ older)
        × (is_granted sha256_hex p r ≡ true)
        × (new_settings sha256_hex p b r pin ≡ ok s))
      × IsOrdered h
  IsOrdered (configured_native_host id done ∷ h) =
      ((pin : Text) × (older : List Step) × ((h ≡ probed pin ∷ older)
          ⊎ ((summary : Text) × (h ≡ asked summary true ∷ probed pin ∷ older))))
      × IsOrdered h
  IsOrdered (probed pin ∷ h) =
      ((summary : Text) × (older : List Step) × (h ≡ asked summary true ∷ older)) × IsOrdered h
  IsOrdered (_ ∷ h) = IsOrdered h

  Result-cases :
      {A : Type 0} (r : Result Failure A) → ((a : A) × (r ≡ ok a)) ⊎ ((e : Failure) × (r ≡ err e))
  Result-cases (ok a) = inl (a, refl)
  Result-cases (err e) = inr (e, refl)

  continue-IsOrdered :
      {A B : Type 0} (r : Result Failure A) (f : A → M B) (h : List Step)
      → IsOrdered h
      → ((a : A) → r ≡ ok a → IsOrdered (f a h).1)
      → IsOrdered (continue r f h).1
  continue-IsOrdered (ok a) f h k next = next a refl
  continue-IsOrdered (err e) f h k next = k

  assert-IsOrdered :
      {B : Type 0} (b : Bool) (e : Failure) (m : M B) (h : List Step)
      → IsOrdered h
      → (b ≡ true → IsOrdered (m h).1)
      → IsOrdered ((assert b e >>= (λ _. m)) h).1
  unfolding ◌>>=◌
  assert-IsOrdered true e m h k next = next refl
  assert-IsOrdered false e m h k next = k

  answered-IsOrdered :
      {A B : Type 0} (step : A → Step) (r : Result Failure A) (f : A → M B) (h : List Step)
      → IsOrdered h
      → ((a : A) → r ≡ ok a → IsOrdered (f a (step a ∷ h)).1)
      → IsOrdered (let (r', h') = answered step r h in continue r' f h').1
  answered-IsOrdered step (ok a) f h k next = next a refl
  answered-IsOrdered step (err e) f h k next = k

  perform-IsOrdered :
      {A B : Type 0} (step : A → Step) (answer : List Step → Result Failure A) (f : A → M B)
      (h : List Step)
      → IsOrdered h
      → ((a : A) → answer h ≡ ok a → IsOrdered (f a (step a ∷ h)).1)
      → IsOrdered ((perform step answer >>= f) h).1
  unfolding ◌>>=◌
  perform-IsOrdered step answer f h k next = answered-IsOrdered step (answer h) f h k next

  look-IsOrdered :
      {A B : Type 0} (answer : List Step → Result Failure A) (f : A → M B) (h : List Step)
      → IsOrdered h
      → ((a : A) → IsOrdered (f a h).1)
      → IsOrdered ((look answer >>= f) h).1
  unfolding ◌>>=◌
  look-IsOrdered answer f h k next = continue-IsOrdered (answer h) f h k (λ a _. next a)

  pure-IsOrdered : {A : Type 0} (a : A) (h : List Step) → IsOrdered h → IsOrdered (pure a h).1
  unfolding ◌>>=◌
  pure-IsOrdered a h k = k

  attempted-IsOrdered :
      {B : Type 0} (step : Bool → Step) (r : Result Failure (Unit {0})) (m : M B) (h : List Step)
      → ((done : Bool) → IsOrdered (step done ∷ h))
      → (IsOrdered (step true ∷ h) → IsOrdered (m (step true ∷ h)).1)
      → IsOrdered (continue r (λ _. m) (step (succeeded r) ∷ h)).1
  attempted-IsOrdered step (ok a) m h k next = next (k true)
  attempted-IsOrdered step (err e) m h k next = k false

  attempt-IsOrdered :
      {B : Type 0} (step : Bool → Step) (answer : List Step → Result Failure (Unit {0})) (m : M B)
      (h : List Step)
      → ((done : Bool) → IsOrdered (step done ∷ h))
      → (IsOrdered (step true ∷ h) → IsOrdered (m (step true ∷ h)).1)
      → IsOrdered ((attempt step answer >>= (λ _. m)) h).1
  unfolding ◌>>=◌
  attempt-IsOrdered step answer m h k next = attempted-IsOrdered step (answer h) m h k next

  lift-IsOrdered :
      {A B : Type 0} (r : Result Failure A) (f : A → M B) (h : List Step)
      → IsOrdered h
      → ((a : A) → r ≡ ok a → IsOrdered (f a h).1)
      → IsOrdered ((lift r >>= f) h).1
  unfolding ◌>>=◌
  lift-IsOrdered r f h k next = continue-IsOrdered r f h k next

  guarded-IsOrdered :
      {B : Type 0} (m : M (Unit {0})) (k : M B) (h : List Step)
      → IsOrdered (m h).1
      → (IsOrdered (m h).1 → IsOrdered (k (m h).1).1)
      → IsOrdered ((guarded m >>= (λ _. k)) h).1
  unfolding ◌>>=◌ guarded
  guarded-IsOrdered m k h a next =
      continue-IsOrdered (incomplete (m h).0) (λ _. k) (m h).1 a (λ _ _. next a)

  settings_result-ok :
      {A : Type 0} (r : Result SettingsError A) (a : A) → settings_result r ≡ ok a → r ≡ ok a
  settings_result-ok (ok x) a h = ground arith
  settings_result-ok (err e) a h = cc

  settings_of-validated :
      (b : BrowserSettings) (r : ExtensionPermissionReceipt) (pin : Text)
      (rendered : Result SettingsError RenderedRootPolicy) (s : MachineSettings)
      → settings_of b r pin rendered ≡ ok s
      → validate_machine_settings s ≡ ok s
  settings_of-validated b r pin (err e) s h = cc
  settings_of-validated b r pin (ok policy) s h =
      (validate_machine_settings-IsValid _ s (settings_result-ok _ s h)).1

  pub new_settings-validated :
      (p : OrganizationProfile) (b : BrowserSettings) (r : ExtensionPermissionReceipt) (pin : Text)
      (s : MachineSettings)
      → new_settings sha256_hex p b r pin ≡ ok s
      → validate_machine_settings s ≡ ok s
  unfolding new_settings
  new_settings-validated p b r pin s h =
      settings_of-validated b r pin (render_root_policy sha256_hex p pin) s h

  module _ (env : SetupDependencies) where
    save_state-IsOrdered :
        (p : OrganizationProfile) (s : MachineSettings) (h older : List Step)
        → validate_machine_settings s ≡ ok s
        → h ≡ installed p s true ∷ older
        → IsOrdered h
        → IsOrdered (save_state env p s h).1
    unfolding save_state attempt
    save_state-IsOrdered p s h older valid e k =
        attempt-IsOrdered (λ done. saved_profile p done) _ _ h (λ done. ((s, older, e), k))
          (λ k'. lift-IsOrdered (settings_result (validate_machine_settings s)) _ _ k' (λ t same.
            let e' : t ≡ s = ground (arith, valid, same) in
            (
              (
                p,
                older,
                ap (λ x. saved_profile p true ∷ x)
                    (e ∙ ap (λ x. installed p x true ∷ older) (sym e')),
              ),
              k',
            )))

    commit-IsOrdered :
        (p : OrganizationProfile) (s : MachineSettings) (h : List Step)
        → validate_machine_settings s ≡ ok s
        → ((done : Bool) → IsOrdered (installed p s done ∷ h))
        → IsOrdered (commit env p s h).1
    unfolding commit examine
    commit-IsOrdered p s h valid k =
        attempt-IsOrdered (λ done. installed p s done) _ _ h k
          (λ k₁.
            guarded-IsOrdered (save_state env p s) _ (installed p s true ∷ h)
              (save_state-IsOrdered p s (installed p s true ∷ h) h valid refl k₁)
              (λ k'.
                perform-IsOrdered _ _ _ _ k'
                  (λ b _. assert-IsOrdered b _ _ _ k' (λ _. pure-IsOrdered s _ k'))))

    enrol-IsOrdered :
        (p : OrganizationProfile) (b : BrowserSettings) (pin : Text)
        (r : ExtensionPermissionReceipt) (older : List Step)
        → is_granted sha256_hex p r ≡ true
        → IsOrdered (received r ∷ configured_native_host b.extension_id true ∷ older)
        → IsOrdered
            (enrol sha256_hex env p b pin r
              (received r ∷ configured_native_host b.extension_id true ∷ older)).1
    unfolding enrol
    enrol-IsOrdered p b pin r older granted k =
        let h = received r ∷ configured_native_host b.extension_id true ∷ older in
        perform-IsOrdered _ _ _ _ k (λ observed _. assert-IsOrdered _ _ _ _ k (λ same.
          lift-IsOrdered _ _ _ k (λ s made.
            let e : observed ≡ pin = (text_eq_iff observed pin).0 same in
            commit-IsOrdered p s (authenticated observed ∷ h)
              (new_settings-validated p b r pin s made)
              (λ _. ((b, r, pin, older, ap (λ x. authenticated x ∷ h) e, granted, made), k)))))

    connect_extension-IsOrdered :
        (p : OrganizationProfile) (b : BrowserSettings) (pin : Text) (h : List Step)
        → ((done : Bool) → IsOrdered (configured_native_host b.extension_id done ∷ h))
        → IsOrdered (connect_extension sha256_hex env p b pin h).1
    unfolding connect_extension
    connect_extension-IsOrdered p b pin h k = attempt-IsOrdered _ _ _ _ k (λ k₁.
        perform-IsOrdered _ _ _ _ k₁
          (λ r _. assert-IsOrdered _ _ _ _ k₁ (λ granted. enrol-IsOrdered p b pin r h granted k₁)))

    -- The pin of the existing settings is the one observed, or the change is approved.
    approve_changed :
        (summary : Text) (m : M MachineSettings) (h : List Step)
        → IsOrdered h
        → IsOrdered (m (asked summary true ∷ h)).1
        → IsOrdered (((confirm env summary >>= (λ b. assert b pin_not_approved)) >>= (λ _. m)) h).1
    unfolding ◌>>=◌ confirm
    approve_changed summary m h k next = elim (Result-cases (env.confirm h summary)) [
      | inl (true, e) ↦ ground (arith, e, next)
      | inl (false, e) ↦ ground (arith, e, k)
      | inr (x, e) ↦ ground (arith, e, k)
    ]

    confirm-IsOrdered :
        (summary : Text) (m : M MachineSettings) (h : List Step)
        → IsOrdered h
        → IsOrdered (m (asked summary true ∷ h)).1
        → IsOrdered ((confirm env summary >>= (λ b. assert b cancelled >>= (λ _. m))) h).1
    unfolding ◌>>=◌ confirm
    confirm-IsOrdered summary m h k next = elim (Result-cases (env.confirm h summary)) [
      | inl (true, e) ↦ ground (arith, e, next)
      | inl (false, e) ↦ ground (arith, e, k)
      | inr (x, e) ↦ ground (arith, e, k)
    ]

    approve_pin-IsOrdered :
        (p : OrganizationProfile) (existing : Option MachineSettings) (pin : Text)
        (m : M MachineSettings) (h : List Step)
        → IsOrdered h
        → IsOrdered (m h).1
        → ((summary : Text) → IsOrdered (m (asked summary true ∷ h)).1)
        → IsOrdered ((approve_pin env p existing pin >>= (λ _. m)) h).1
    unfolding ◌>>=◌ approve_pin
    approve_pin-IsOrdered p none pin m h k same changed = same
    approve_pin-IsOrdered p (some s) pin m h k same changed =
        let summary = pin_change_summary p s.server_cert_pin pin in
        let new = approve_changed summary m h k (changed summary) in
        elim (Bool-cases (text_eq s.server_cert_pin pin)) [
          | inl e ↦ ground (arith, e, same)
          | inr n ↦ ground (arith, n, new)
        ]

    proceed-IsOrdered :
        (p : OrganizationProfile) (b : BrowserSettings) (summary : Text) (older : List Step)
        → IsOrdered older
        → IsOrdered (proceed sha256_hex env p b (asked summary true ∷ older)).1
    unfolding proceed
    proceed-IsOrdered p b summary older k = look-IsOrdered _ _ _ k (λ existing.
        look-IsOrdered _ _ _ k (λ present. assert-IsOrdered _ _ _ _ k (λ _.
          perform-IsOrdered _ _ _ _ k (λ pin _.
            let k' : IsOrdered (probed pin ∷ asked summary true ∷ older) =
              ((summary, older, refl), k) in
            approve_pin-IsOrdered p existing pin _ _ k'
              (connect_extension-IsOrdered p b pin _
                (λ _. ((pin, asked summary true ∷ older, inl refl), k')))
              (λ t.
                connect_extension-IsOrdered p b pin _
                  (λ _. ((pin, asked summary true ∷ older, inr (t, refl)), k')))))))

    -- If the steps so far are in order, then so are they after setup, however it ends: the saving of
    -- the profile, and of the settings, is tried only directly after the installation that they
    -- belong to, which has succeeded, and directly before
    -- an installation stand the authentication with the pin, the permission of the extension for
    -- the profile and the setup of the native host, and before those the probe of a pin, with at
    -- most one approval between, and a confirmation.
    pub run_setup-IsOrdered :
        (profile_path : Text) (browser : BrowserSettings) (h : List Step)
        → IsOrdered h
        → IsOrdered (run_setup sha256_hex env profile_path browser h).1
    unfolding run_setup
    run_setup-IsOrdered profile_path browser h k = assert-IsOrdered _ _ _ _ k (λ _.
        lift-IsOrdered _ _ _ k (λ p _. lift-IsOrdered _ _ _ k (λ b _.
          lift-IsOrdered _ _ _ k
            (λ summary _. confirm-IsOrdered summary _ h k (proceed-IsOrdered p b summary h k)))))
