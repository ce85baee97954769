-- ===== src/Privileged/Bundle/Ends.antt =====
-- The loop over the pending dependencies ends.
use meraki_openconnect.Prelude.{
  ℕ, zero, suc, ◌+◌, ◌*◌, ◌≤◌, ◌≡◌, refl, sym, ap, ◌∙◌, true, false, not, Option, none, some,
  is_some, List, [], ◌∷◌, Text, text_eq, text_eq_iff, text_eq_refl, Result, ok, err, length, one_of,
  if◌then◌else◌, arith, All, Bool-cases, inl, inr, Holds, bind-Holds, each-Holds, raise_if-Holds,
  map-Holds, ◌==◌,
}
use meraki_openconnect.Paths.{path_name}
use meraki_openconnect.Privileged.Shell.{PrivilegedError}
use meraki_openconnect.Privileged.Bundle.{
  is_system, is_homebrew, Machine, Sources, source_of, add_children, copy, visit, resolved_visit,
  step, continue, collect, roots, linked, from_roots, bundle_native_runtime,
}

module _ (k : ℕ) where
  -- k for each name that has no source yet.
  weight : List Text → Sources → ℕ
  weight [] sources = 0
  weight (n ∷ names) sources =
      (if is_some (source_of n sources) then 0 else k) + weight names sources

  weight_le :
      (names : List Text) (name path : Text) (sources : Sources)
      → weight names ((name, path) ∷ sources) ≤ weight names sources
  unfolding weight
  weight_le [] name path sources = omega arith
  weight_le (n ∷ names) name path sources = ground (arith, weight_le names name path sources)

  weight_drop :
      (names : List Text) (name path : Text) (sources : Sources)
      → one_of name names ≡ true
      → source_of name sources ≡ none
      → k + weight names ((name, path) ∷ sources) ≤ weight names sources
  unfolding weight
  weight_drop [] name path sources h n = cc
  weight_drop (m ∷ names) name path sources h n = elim (Bool-cases (text_eq name m)) [
    | inl y ↦
        (let same = (text_eq_iff name m).0 y in
          let gone : is_some (source_of m sources) ≡ false =
            ap is_some (ap (λ t. source_of t sources) (sym same) ∙ n) in
          ground (arith, gone, same, text_eq_refl m, weight_le names name path sources))
    | inr d ↦ ground (
      arith,
      weight_le (m ∷ []) name path sources,
      weight_drop names name path sources (ground (arith, h, d)) n,
    )
  ]

  weight_nil : (names : List Text) → weight names [] ≡ length names * k
  unfolding weight
  weight_nil [] = omega arith
  weight_nil (n ∷ names) = omega (arith, weight_nil names)

module _ (k : ℕ) (names : List Text) where
  -- The names of the pending dependencies are among the given ones.
  abbrev pub AreNamed : List Text → Type 0
  AreNamed ds = All (λ d. one_of (path_name d) names ≡ true) ds

  add_children-AreNamed :
      (children pending : List Text)
      → AreNamed children
      → AreNamed pending
      → Holds
          (λ p. AreNamed p × (length p ≤ length children + length pending))
          (add_children children pending)
  unfolding add_children
  add_children-AreNamed [] pending c h = (h, omega arith)
  add_children-AreNamed (child ∷ children) pending c h = elim (Bool-cases (is_homebrew child)) [
    | inl y ↦ rw y (
        map-Holds _ _ (add_children children (child ∷ pending)) (λ p b. (b.0, omega (arith, b.1)))
          (add_children-AreNamed children (child ∷ pending) c.1 (c.0, h)))
    | inr n ↦ rw n (elim (Bool-cases (is_system child)) [
      | inl s ↦ rw s (
          map-Holds _ _ (add_children children pending) (λ p b. (b.0, omega (arith, b.1)))
            (add_children-AreNamed children pending c.1 h))
      | inr t ↦ rw t tt
    ])
  ]

  module _ (machine : Machine) where
    -- Every file depends on at most k others, whose names are among the given ones.
    abbrev pub IsBounded : Type 0
    IsBounded =
        (path : Text)
        → Holds (λ children. AreNamed children × (length children ≤ k)) (machine.dependencies path)

    module _ (bounded : IsBounded) where
      -- The rounds that are left at most.
      rounds : List Text → Sources → ℕ
      rounds pending sources = length pending + weight k names sources

      IsSmaller : ℕ → List Text × Sources → Type 0
      IsSmaller n r = AreNamed r.0 × (suc (rounds r.0 r.1) ≤ n)

      copy-AreNamed :
          (resolved : Text) (pending : List Text)
          → AreNamed pending
          → Holds
              (λ p. AreNamed p × (length p ≤ k + length pending))
              (copy machine resolved pending)
      unfolding copy
      copy-AreNamed resolved pending h = each-Holds _ (machine.rpaths resolved) _ (λ rpaths.
          raise_if-Holds _ (not (length rpaths == 0)) _ _ (λ n.
            bind-Holds _ _ (machine.dependencies resolved) _ (bounded resolved) (λ children b.
              map-Holds _ _ (add_children children pending) (λ p m. (m.0, omega (arith, m.1, b.1)))
                (add_children-AreNamed children pending b.0 h))))

      visit-IsSmaller :
          (d resolved : Text) (pending : List Text) (sources : Sources) (o : Option Text)
          → AreNamed (d ∷ pending)
          → source_of (path_name d) sources ≡ o
          → Holds
              (IsSmaller (rounds (d ∷ pending) sources))
              (visit machine (path_name d) resolved pending sources o)
      unfolding IsSmaller rounds
      visit-IsSmaller d resolved pending sources (some existing) h s =
          elim (Bool-cases (text_eq existing resolved)) [
            | inl y ↦ rw y (h.1, omega arith)
            | inr n ↦ rw n tt
          ]
      visit-IsSmaller d resolved pending sources none h s =
          bind-Holds _ _ (copy machine resolved pending) _ (copy-AreNamed resolved pending h.1)
            (λ p b.
              (b.0, omega (arith, b.1, weight_drop k names (path_name d) resolved sources h.0 s)))

      step-IsSmaller :
          (d : Text) (pending : List Text) (sources : Sources)
          → AreNamed (d ∷ pending)
          → Holds (IsSmaller (rounds (d ∷ pending) sources)) (step machine d pending sources)
      unfolding step
      step-IsSmaller d pending sources h = go (machine.resolve d)
        where
          go :
              (o : Option Text)
              → Holds
                  (IsSmaller (rounds (d ∷ pending) sources))
                  (resolved_visit machine d pending sources o)
          go none = tt
          go (some resolved) =
              visit-IsSmaller d resolved pending sources (source_of (path_name d) sources) h refl

      continue_ends :
          (n : ℕ) (run : List Text → Sources → Option (Result PrivilegedError Sources))
          → (r : Result PrivilegedError (List Text × Sources)) → Holds (IsSmaller n) r
          → ((p : List Text) (s : Sources)
              → AreNamed p
              → suc (rounds p s) ≤ n
              → is_some (run p s) ≡ true)
          → is_some (continue machine run r) ≡ true
      unfolding IsSmaller
      continue_ends n run (ok (p, s)) h next = next p s h.0 h.1
      continue_ends n run (err e) h next = refl

      collect_ends :
          (fuel : ℕ) (pending : List Text) (sources : Sources)
          → AreNamed pending
          → rounds pending sources ≤ fuel
          → is_some (collect machine fuel pending sources) ≡ true
      unfolding collect rounds
      collect_ends fuel [] sources h f = refl
      collect_ends zero (d ∷ pending) sources h f = absurd (omega (arith, f))
      collect_ends (suc fuel) (d ∷ pending) sources h f =
          continue_ends (rounds (d ∷ pending) sources) (collect machine fuel)
            (step machine d pending sources) (step-IsSmaller d pending sources h)
            (λ p s named less. collect_ends fuel p s named (omega (arith, f, less)))

      linked_ends :
          (o : Option (Result PrivilegedError Sources))
          → is_some o ≡ true
          → is_some (linked machine o) ≡ true
      linked_ends none h = h
      linked_ends (some (err e)) h = refl
      linked_ends (some (ok [])) h = refl
      linked_ends (some (ok (s ∷ final))) h = refl

      roots-AreNamed :
          (worker : Text) → Holds (λ p. AreNamed p × (length p ≤ k)) (roots machine worker)
      unfolding roots
      roots-AreNamed worker = each-Holds _ (machine.rpaths worker) _ (λ rpaths.
          raise_if-Holds _ (not (length rpaths == 0)) _ _ (λ n.
            bind-Holds _ _ (machine.dependencies worker) _ (bounded worker) (λ children b.
              map-Holds _ _ (add_children children []) (λ p m. (m.0, omega (arith, m.1, b.1)))
                (add_children-AreNamed children [] b.0 tt))))

      from_roots_ends :
          (fuel : ℕ) (r : Result PrivilegedError (List Text))
          → Holds (λ p. AreNamed p × (length p ≤ k)) r
          → k + length names * k ≤ fuel
          → is_some (from_roots machine fuel r) ≡ true
      unfolding rounds
      from_roots_ends fuel (err e) h f = refl
      from_roots_ends fuel (ok pending) h f =
          linked_ends (collect machine fuel pending [])
            (collect_ends fuel pending [] h.0 (omega (arith, h.1, f, weight_nil k names)))

      -- Where each file depends on at most k others whose names are among finitely many, the loop over the
      -- pending libraries ends, also where libraries depend on each other in a circle: it takes at most k
      -- rounds for the worker and k for each name.
      pub bundle_native_runtime_ends :
          (fuel : ℕ) (worker : Text)
          → k + length names * k ≤ fuel
          → is_some (bundle_native_runtime machine fuel worker) ≡ true
      unfolding bundle_native_runtime
      bundle_native_runtime_ends fuel worker f =
          from_roots_ends fuel (roots machine worker) (roots-AreNamed worker) f
