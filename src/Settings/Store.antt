-- ===== src/Settings/Store.antt =====
-- `SettingsStore.load` and `SettingsStore.save` of settings.py. The text of the file stands for the JSON
-- value that it decodes to.
use meraki_openconnect.Prelude.{
  ◌≡◌, ◌≢◌, ◌⊎◌, inl, inr, refl, ap, Option, none, some, Result, ok, err, ◌>>=◌,
}
use meraki_openconnect.Json.{Json}
use meraki_openconnect.Settings.Checks.{SettingsError, unreadable, not_saved, MachineSettings}
use meraki_openconnect.Settings.Machine.{validate_machine_settings, from_payload, payload}
use meraki_openconnect.Settings.Machine.Laws.{validate_machine_settings-IsValid}

-- `settings.json`: absent, not JSON or not to be read, or its value.
pub data SettingsFile : Type 0 where
  absent broken : SettingsFile
  holds : Json → SettingsFile

-- How the writes of `save` end: an `OSError` before the file is replaced or after it.
pub data Writing : Type 0 where
  done failed_before failed_after : Writing

-- `SettingsStore.load`
pub load : SettingsFile → Result SettingsError (Option MachineSettings)
load absent = ok none
load broken = err unreadable
load (holds v) = from_payload v >>= λ settings. ok (some settings)

abbrev written :
    Writing → MachineSettings → SettingsFile → Result SettingsError (Unit {0}) × SettingsFile
written done settings file = (ok tt, holds (payload settings))
written failed_before settings file = (err not_saved, file)
written failed_after settings file = (err not_saved, holds (payload settings))

abbrev save_validated :
    Writing
    → Result SettingsError MachineSettings
    → SettingsFile
    → Result SettingsError (Unit {0}) × SettingsFile
save_validated writing (ok settings) file = written writing settings file
save_validated writing (err e) file = (err e, file)

-- `SettingsStore.save`
pub save : Writing → MachineSettings → SettingsFile → Result SettingsError (Unit {0}) × SettingsFile
save writing settings file = save_validated writing (validate_machine_settings settings) file

-- What a load finds behind a save: the settings that were there, or the validated ones.
abbrev pub IsReplaced :
    MachineSettings → SettingsFile → Result SettingsError (Unit {0}) → SettingsFile → Type 0
IsReplaced settings file r file' =
    ((file' ≡ file) × (r ≢ ok tt))
    ⊎ ((normal : MachineSettings) × (validate_machine_settings settings ≡ ok normal)
        × (load file' ≡ ok (some normal)))

loaded_normal :
    (settings normal : MachineSettings)
    → validate_machine_settings settings ≡ ok normal
    → load (holds (payload normal)) ≡ ok (some normal)
unfolding load
loaded_normal settings normal e =
    ap (λ (r : Result SettingsError MachineSettings). r >>= λ s. ok (some s))
      (validate_machine_settings-IsValid settings normal e).2

save_cases :
    (writing : Writing) (settings : MachineSettings) (file : SettingsFile)
    (r : Result SettingsError MachineSettings)
    → validate_machine_settings settings ≡ r
    → IsReplaced settings file (save_validated writing r file).0 (save_validated writing r file).1
save_cases writing settings file (err e) h = inl (refl, λ k. cc)
save_cases done settings file (ok normal) h = inr (normal, h, loaded_normal settings normal h)
save_cases failed_before settings file (ok normal) h = inl (refl, λ k. cc)
save_cases failed_after settings file (ok normal) h =
    inr (normal, h, loaded_normal settings normal h)

-- After a save, either it has failed and the file is as it was, or the settings are valid, and a
-- load returns them in their normal form.
pub save-IsReplaced :
    (writing : Writing) (settings : MachineSettings) (file : SettingsFile)
    → IsReplaced settings file (save writing settings file).0 (save writing settings file).1
unfolding save
save-IsReplaced writing settings file = save_cases writing settings file _ refl
