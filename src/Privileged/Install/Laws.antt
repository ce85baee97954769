-- ===== src/Privileged/Install/Laws.antt =====
-- The installation is all or nothing, wherever it stops.
use meraki_openconnect.Prelude.{
  ℕ, zero, suc, ◌≡◌, ◌⊎◌, inl, inr, Bool, true, false, ◌||◌, Option, none, some, List, [], ◌∷◌,
  take, arith, Bool-cases,
}
use meraki_openconnect.Privileged.Install.{
  Component, helper, library, vpnc, native, policy, sudoers, Slot, Statement, script, act, perform,
  roll_back, keep_new, staged, is_committed, install, is_commit,
}

-- What `rollback_install` makes of a component: its old content before the commit, the new one
-- behind it, and no temporary file.
module _ {Content : Type 0} (over : Content → Content → Content) (new : Content) (c : Component)
    (stale old : Option Content) where
  abbrev IsSettled : Bool → Slot Content → Type 0
  IsSettled false s = ((roll_back over s).current ≡ old) × ((roll_back over s).temp ≡ none)
  IsSettled true s =
      ((keep_new over s).current ≡ some (staged over c new stale))
      × ((keep_new over s).temp ≡ none)
      × ((keep_new over s).backup ≡ none)

  -- It would be so before each of the statements and behind the last.
  abbrev StaysSettled : List Statement → Bool → Slot Content → Type 0
  StaysSettled [] committed s = IsSettled committed s
  StaysSettled (statement ∷ rest) committed s =
      IsSettled committed s
      × StaysSettled rest (committed || is_commit statement) (act over new c statement s)

  take-StaysSettled :
      (stop : ℕ) (statements : List Statement) (committed : Bool) (s : Slot Content)
      → StaysSettled statements committed s
      → IsSettled
          (committed || is_committed (take stop statements))
          (perform over new c (take stop statements) s)
  unfolding perform is_committed
  take-StaysSettled zero [] true s h = h
  take-StaysSettled zero [] false s h = h
  take-StaysSettled zero (x ∷ xs) true s h = h.0
  take-StaysSettled zero (x ∷ xs) false s h = h.0
  take-StaysSettled (suc n) [] true s h = h
  take-StaysSettled (suc n) [] false s h = h
  take-StaysSettled (suc n) (x ∷ xs) true s h = take-StaysSettled n xs true _ h.1
  take-StaysSettled (suc n) (x ∷ xs) false s h = take-StaysSettled n xs (is_commit x) _ h.1

module _ {Content : Type 0} (over : Content → Content → Content) (new : Content) where
  abbrev begun : Option Content → Option Content → Option Content → Slot Content
  begun old backup temp = record {
    current = old;
    backup = backup;
    temp = temp;
    backed_up = false;
    activated = false;
  }

  fresh-StaysSettled :
      (c : Component) (backup temp : Option Content)
      → StaysSettled over new c temp none script false (begun none backup temp)
  unfolding act roll_back keep_new
  fresh-StaysSettled helper b t = ground arith
  fresh-StaysSettled library b t = ground arith
  fresh-StaysSettled vpnc b t = ground arith
  fresh-StaysSettled native b t = ground arith
  fresh-StaysSettled policy b t = ground arith
  fresh-StaysSettled sudoers b t = ground arith

  present-StaysSettled :
      (c : Component) (old : Content) (backup temp : Option Content)
      → StaysSettled over new c temp (some old) script false (begun (some old) backup temp)
  unfolding act roll_back keep_new
  present-StaysSettled helper o b t = ground arith
  present-StaysSettled library o b t = ground arith
  present-StaysSettled vpnc o b t = ground arith
  present-StaysSettled native o b t = ground arith
  present-StaysSettled policy o b t = ground arith
  present-StaysSettled sudoers o b t = ground arith

  script-StaysSettled :
      (c : Component) (old backup temp : Option Content)
      → StaysSettled over new c temp old script false (begun old backup temp)
  script-StaysSettled c none b t = fresh-StaysSettled c b t
  script-StaysSettled c (some o) b t = present-StaysSettled c o b t

module _ {Content : Type 0} (over : Content → Content → Content) (payload : Component → Content)
    (before : Component → Slot Content) where
  -- Every component stands as it stood before.
  abbrev pub IsRestored : (Component → Slot Content) → Type 0
  IsRestored after =
      (c : Component) → ((after c).current ≡ (before c).current) × ((after c).temp ≡ none)

  -- Every component has its new content, and no backup is left. Where a temporary directory of the
  -- libraries was left from an earlier run, the new libraries stand over its files.
  abbrev pub IsInstalled : (Component → Slot Content) → Type 0
  IsInstalled after =
      (c : Component)
      → ((after c).current ≡ some (staged over c (payload c) (before c).temp))
        × ((after c).temp ≡ none)
        × ((after c).backup ≡ none)

  -- Wherever an installation stops, its rollback done, all six components stand as they stood
  -- before, or all six have their new content, as its commit was not or was reached; the new content
  -- of the libraries stands over the files of a temporary directory that was left from an earlier run.
  pub install-IsAtomic :
      (stop : ℕ)
      → ((is_committed (take stop script) ≡ false) × IsRestored (install over payload stop before))
        ⊎ ((is_committed (take stop script) ≡ true)
            × IsInstalled (install over payload stop before))
  unfolding install
  install-IsAtomic stop =
      let settled = λ (c : Component).
        take-StaysSettled over (payload c) c (before c).temp (before c).current stop script false _
          (script-StaysSettled over (payload c) c (before c).current (before c).backup
            (before c).temp) in
      elim (Bool-cases (is_committed (take stop script))) [
        | inl y ↦ inr (y, λ c. ground (arith, y, settled c))
        | inr n ↦ inl (n, λ c. ground (arith, n, settled c))
      ]
