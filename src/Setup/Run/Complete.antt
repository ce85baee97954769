-- ===== src/Setup/Run/Complete.antt =====
-- What has happened when setup succeeds.
use meraki_openconnect.Prelude.{
  ℕ, ◌≡◌, refl, ap, ◌∙◌, Bool, true, false, List, ◌∷◌, Text, Result, ok, err, arith,
}
use meraki_openconnect.Profile.Model.{OrganizationProfile}
use meraki_openconnect.Settings.Checks.{BrowserSettings, MachineSettings}
use meraki_openconnect.Settings.Machine.{validate_machine_settings}
use meraki_openconnect.Setup.Steps.{
  Step, installed, saved_profile, saved_settings, examined, Failure, M, ◌>>=◌, continue, guarded,
  lift, pure, not_ready, perform, attempt, answered, succeeded,
}
use meraki_openconnect.Setup.Run.{
  SetupDependencies, save_state, commit, examine, enrol, connect_extension, proceed, run_setup,
  assert,
}
use meraki_openconnect.Setup.Run.Order.{new_settings-validated}

-- The last four steps of a setup that succeeds: the policy was installed, the profile and the
-- settings were saved, and the report was ready.
abbrev pub Completed : Result Failure MachineSettings → List Step → Type 0
Completed (ok s) h =
    (p : OrganizationProfile) × (older : List Step) × (h
      ≡ examined true ∷ saved_settings s true ∷ saved_profile p true ∷ installed p s true ∷ older)
Completed (err e) h = Unit

continue-Completed :
    {A : Type 0} (r : Result Failure A) (f : A → M MachineSettings) (h : List Step)
    → ((a : A) → r ≡ ok a → Completed (f a h).0 (f a h).1)
    → let (r', h') = continue r f h in Completed r' h'
continue-Completed (ok a) f h next = next a refl
continue-Completed (err e) f h next = tt

bind-Completed :
    {A : Type 0} (m : M A) (f : A → M MachineSettings) (h : List Step)
    → ((a : A) → (m h).0 ≡ ok a → Completed (f a (m h).1).0 (f a (m h).1).1)
    → Completed ((m >>= f) h).0 ((m >>= f) h).1
unfolding ◌>>=◌
bind-Completed m f h next = continue-Completed (m h).0 f (m h).1 next

lift-Completed :
    {A : Type 0} (r : Result Failure A) (f : A → M MachineSettings) (h : List Step)
    → ((a : A) → r ≡ ok a → Completed (f a h).0 (f a h).1)
    → Completed ((lift r >>= f) h).0 ((lift r >>= f) h).1
unfolding ◌>>=◌
lift-Completed r f h next = continue-Completed r f h next

attempted-Completed :
    (step : Bool → Step) (r : Result Failure (Unit {0})) (m : M MachineSettings) (h : List Step)
    → Completed (m (step true ∷ h)).0 (m (step true ∷ h)).1
    → let (r', h') = continue r (λ _. m) (step (succeeded r) ∷ h) in Completed r' h'
attempted-Completed step (ok u) m h next = next
attempted-Completed step (err e) m h next = tt

attempt-Completed :
    (step : Bool → Step) (answer : List Step → Result Failure (Unit {0})) (m : M MachineSettings)
    (h : List Step)
    → Completed (m (step true ∷ h)).0 (m (step true ∷ h)).1
    → Completed ((attempt step answer >>= (λ _. m)) h).0 ((attempt step answer >>= (λ _. m)) h).1
unfolding ◌>>=◌
attempt-Completed step answer m h next = attempted-Completed step (answer h) m h next

answered_lem :
    {A : Type 0} (step : A → Step) (r : Result Failure A) (h : List Step) (a : A)
    → (answered step r h).0 ≡ ok a
    → (answered step r h).1 ≡ step a ∷ h
answered_lem step (ok x) h a e = ground arith
answered_lem step (err x) h a e = cc

module _ (env : SetupDependencies) (p : OrganizationProfile) (s : MachineSettings) where
  saved :
      (h : List Step)
      → validate_machine_settings s ≡ ok s
      → (guarded (save_state env p s) h).0 ≡ ok tt
      → (guarded (save_state env p s) h).1 ≡ saved_settings s true ∷ saved_profile p true ∷ h
  unfolding guarded save_state ◌>>=◌
  saved h valid e = ground (arith, valid)

  ready-Completed :
      (ready : Bool) (h older : List Step)
      → h
        ≡ examined ready ∷ saved_settings s true ∷ saved_profile p true ∷ installed p s true ∷ older
      → let (r, h') = (assert ready not_ready >>= (λ _. pure s)) h in Completed r h'
  unfolding ◌>>=◌
  ready-Completed true h older e = (p, older, e)
  ready-Completed false h older e = tt

  perform_lem :
      {A : Type 0} (step : A → Step) (answer : List Step → Result Failure A) (h : List Step) (a : A)
      → (perform step answer h).0 ≡ ok a
      → (perform step answer h).1 ≡ step a ∷ h
  unfolding ◌>>=◌
  perform_lem step answer h a e = answered_lem step (answer h) h a e

  examine-Completed :
      (h older : List Step)
      → h ≡ saved_settings s true ∷ saved_profile p true ∷ installed p s true ∷ older
      → Completed (examine env s h).0 (examine env s h).1
  unfolding examine
  examine-Completed h older e = bind-Completed _ _ h (λ ready answer.
      ready-Completed ready _ older
        (perform_lem _ _ h ready answer ∙ ap (λ t. examined ready ∷ t) e))

  commit-Completed :
      (h : List Step)
      → validate_machine_settings s ≡ ok s
      → Completed (commit env p s h).0 (commit env p s h).1
  unfolding commit
  commit-Completed h valid =
      attempt-Completed _ _ _ h
        (bind-Completed _ _ _ (λ u done. examine-Completed _ h (saved _ valid done)))

module _ (sha256_hex : List ℕ → Text) (env : SetupDependencies) where
  -- Where setup succeeds, its last steps are the installation of the policy for the profile and for
  -- the settings that it returns, the saving of that profile and of those settings, and the report:
  -- each of them has succeeded, and the report was ready.
  pub run_setup-Completed :
      (profile_path : Text) (browser : BrowserSettings) (h : List Step)
      → let (r, h') = run_setup sha256_hex env profile_path browser h in Completed r h'
  unfolding run_setup proceed connect_extension enrol
  run_setup-Completed profile_path browser h = bind-Completed _ _ _ (λ _ _.
      bind-Completed _ _ _ (λ p _. bind-Completed _ _ _ (λ b _. bind-Completed _ _ _ (λ _ _.
        bind-Completed _ _ _ (λ _ _. bind-Completed _ _ _ (λ _ _. bind-Completed _ _ _ (λ _ _.
          bind-Completed _ _ _ (λ _ _. bind-Completed _ _ _ (λ _ _. bind-Completed _ _ _ (λ pin _.
            bind-Completed _ _ _ (λ _ _. bind-Completed _ _ _ (λ _ _. bind-Completed _ _ _ (λ r _.
              bind-Completed _ _ _ (λ _ _. bind-Completed _ _ _ (λ _ _. bind-Completed _ _ _ (λ _ _.
                lift-Completed _ _ _ (λ s made.
                  commit-Completed env p s _
                    (new_settings-validated sha256_hex p b r pin s made))))))))))))))))))
