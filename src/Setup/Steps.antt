-- ===== src/Setup/Steps.antt =====
-- What setup does to the machine, in order, and how it fails.
use meraki_openconnect.Prelude.{Bool, true, false, List, ◌∷◌, Text, Result, ok, err}
use meraki_openconnect.Profile.Model.{OrganizationProfile}
use meraki_openconnect.Settings.Checks.{SettingsError, MachineSettings}

-- `ExtensionPermissionReceipt` of extension_setup.py.
pub record ExtensionPermissionReceipt : Type 0 where
  pub gateway_origin : Text
  pub profile_digest : Text
  pub granted : Bool

-- A step stands in the history once it is attempted, with the answer where there is one, or whether
-- it succeeded.
pub data Step : Type 0 where
  asked : Text → Bool → Step
  probed : Text → Step
  configured_native_host : Text → Bool → Step
  received : ExtensionPermissionReceipt → Step
  authenticated : Text → Step
  installed : OrganizationProfile → MachineSettings → Bool → Step
  saved_profile : OrganizationProfile → Bool → Step
  saved_settings : MachineSettings → Bool → Step
  examined : Bool → Step

-- `raised` is an exception of a dependency, and `interrupted` one that is no `Exception`.
pub data Failure : Type 0 where
  relative_path stale_policy : Failure
  cancelled pin_not_approved not_granted : Failure
  pin_changed state_incomplete not_ready : Failure
  settings_invalid : SettingsError → Failure
  raised interrupted : Failure

abbrev pub M : Type 0 → Type 0
M A = List Step → Result Failure A × List Step

module _ {A : Type 0} where
  pub pure : A → M A
  pure a h = (ok a, h)

  pub fail : Failure → M A
  fail e h = (err e, h)

  pub lift : Result Failure A → M A
  lift r h = (r, h)

  abbrev pub answered : (A → Step) → Result Failure A → List Step → Result Failure A × List Step
  answered step (ok a) h = (ok a, step a ∷ h)
  answered step (err e) h = (err e, h)

  -- An answer that depends on what was done, and the step that it makes.
  pub perform : (A → Step) → (List Step → Result Failure A) → M A
  perform step answer h = answered step (answer h) h

  -- An answer that makes no step.
  pub look : (List Step → Result Failure A) → M A
  look answer h = (answer h, h)

  abbrev pub succeeded : Result Failure A → Bool
  succeeded (ok a) = true
  succeeded (err e) = false

  -- A step that is in the history whether it succeeds or not, and tells which.
  unfoldable pub attempt : (Bool → Step) → (List Step → Result Failure A) → M A
  attempt step answer h = (answer h, step (succeeded (answer h)) ∷ h)

abbrev pub settings_result {ℓ} : {A : Type ℓ} → Result SettingsError A → Result Failure A
settings_result (ok a) = ok a
settings_result (err e) = err (settings_invalid e)

module _ {A B : Type 0} where
  abbrev pub continue : Result Failure A → (A → M B) → M B
  continue (ok a) f h = f a h
  continue (err e) f h = (err e, h)

  infixl 5 ◌>>=◌ ◌>>◌
  unfoldable pub ◌>>=◌ : M A → (A → M B) → M B
  unfolding pure fail lift perform attempt look
  ◌>>=◌ m f h = let (r, h') = m h in continue r f h'

  abbrev pub ◌>>◌ : M A → M B → M B
  m >> k = m >>= λ _. k

-- `except Exception as exc: raise SetupIncomplete`
abbrev pub incomplete {ℓ} : {A : Type ℓ} → Result Failure A → Result Failure A
incomplete (ok a) = ok a
incomplete (err interrupted) = err interrupted
incomplete (err e) = err state_incomplete

unfoldable pub guarded : {A : Type 0} → M A → M A
guarded m h = let (r, h') = m h in (incomplete r, h')
