-- ===== src/Privileged/Bundle/Closed.antt =====
-- What is bundled is closed under the dependencies of the libraries.
use meraki_openconnect.Prelude.{
  ℕ, zero, suc, ◌≡◌, ap, ◌∙◌, ◌⊎◌, inl, inr, true, not, Option, none, some, List, [], ◌∷◌, Text,
  Result, ok, err, length, All, Holds, bind-Holds, raise_if-Holds, map-Holds, same-Holds, ◌==◌,
}
use meraki_openconnect.Privileged.Shell.{PrivilegedError}
use meraki_openconnect.Privileged.Bundle.{
  is_system, Machine, Sources, add_children, step, continue, collect, roots, linked, from_roots,
  bundle_native_runtime,
}
use meraki_openconnect.Privileged.Bundle.Pending.{IsAdded, add_children-AllAdded, empty}
use meraki_openconnect.Privileged.Bundle.Round.{
  IsFound, IsSettled, HasChildren, Stays, All-Stays, AllSettled, IsKept, step-IsKept,
  added-IsSettled,
}

module _ (machine : Machine) where
  -- What the loop keeps to its end.
  abbrev IsCollected : List Text → Sources → Option (Result PrivilegedError Sources) → Type 0
  IsCollected pending sources (some (ok final)) =
      Stays machine pending sources [] final
      × (AllSettled machine pending sources → AllSettled machine [] final)
  IsCollected pending sources (some (err e)) = Unit
  IsCollected pending sources none = Unit

  after-IsCollected :
      (pending p : List Text) (sources s : Sources) (o : Option (Result PrivilegedError Sources))
      → IsKept machine pending sources (p, s)
      → IsCollected p s o
      → IsCollected pending sources o
  unfolding IsKept
  after-IsCollected pending p sources s none k h = tt
  after-IsCollected pending p sources s (some (err e)) k h = tt
  after-IsCollected pending p sources s (some (ok final)) k h =
      (λ c t. h.0 c (k.0 c t), λ a. h.1 (k.1 a))

  continue-IsCollected :
      (k : List Text → Sources → Option (Result PrivilegedError Sources)) (pending : List Text)
      (sources : Sources)
      → (r : Result PrivilegedError (List Text × Sources))
      → Holds (IsKept machine pending sources) r
      → ((p : List Text) (s : Sources) → IsCollected p s (k p s))
      → IsCollected pending sources (continue machine k r)
  continue-IsCollected k pending sources (ok (p, s)) h next =
      after-IsCollected pending p sources s (k p s) h (next p s)
  continue-IsCollected k pending sources (err e) h next = tt

  collect-IsCollected :
      (fuel : ℕ) (pending : List Text) (sources : Sources)
      → IsCollected pending sources (collect machine fuel pending sources)
  unfolding collect
  collect-IsCollected fuel [] sources = (λ c t. t, λ a. a)
  collect-IsCollected zero (d ∷ pending) sources = tt
  collect-IsCollected (suc fuel) (d ∷ pending) sources =
      continue-IsCollected (collect machine fuel) (d ∷ pending) sources
        (step machine d pending sources) (step-IsKept machine d pending sources)
        (λ p s. collect-IsCollected fuel p s)

  -- A dependency of the system, or one that is bundled under its name from where it resolves to.
  pub IsProvided : Sources → Text → Type 0
  IsProvided final d = (is_system d ≡ true) ⊎ IsFound machine final d

  -- The worker and every bundled library have no rpaths, and all their dependencies are provided.
  abbrev pub IsSelfContained : Text → Option (Result PrivilegedError Sources) → Type 0
  IsSelfContained worker (some (ok final)) =
      HasChildren machine (IsProvided final) worker
      × All (λ (s : Text × Text). HasChildren machine (IsProvided final) s.1) final
  IsSelfContained worker (some (err e)) = Unit
  IsSelfContained worker none = Unit

  provided : (final : Sources) (c : Text) → IsSettled machine [] final c → IsProvided final c
  unfolding IsSettled IsProvided
  provided final c (inl s) = inl s
  provided final c (inr (inl p)) = cc
  provided final c (inr (inr f)) = inr f

  All-IsProvided :
      (final : Sources) (cs : List Text)
      → All (IsSettled machine [] final) cs
      → All (IsProvided final) cs
  All-IsProvided final [] h = tt
  All-IsProvided final (c ∷ cs) h = (provided final c h.0, All-IsProvided final cs h.1)

  settled-IsProvided :
      (final : Sources) (path : Text)
      → HasChildren machine (IsSettled machine [] final) path
      → HasChildren machine (IsProvided final) path
  unfolding HasChildren
  settled-IsProvided final path h = (h.0, (h.1.0, h.1.1, All-IsProvided final h.1.0 h.1.2))

  sources-IsProvided :
      (final sources : Sources)
      → All (λ (s : Text × Text). HasChildren machine (IsSettled machine [] final) s.1) sources
      → All (λ (s : Text × Text). HasChildren machine (IsProvided final) s.1) sources
  sources-IsProvided final [] h = tt
  sources-IsProvided final (s ∷ sources) h =
      (settled-IsProvided final s.1 h.0, sources-IsProvided final sources h.1)

  stayed-HasChildren :
      (pending : List Text) (final : Sources) (worker : Text)
      → Stays machine pending [] [] final
      → HasChildren machine (IsAdded pending) worker
      → HasChildren machine (IsSettled machine [] final) worker
  unfolding HasChildren
  stayed-HasChildren pending final worker stays w = (
    w.0,
    (
      w.1.0,
      w.1.1,
      All-Stays machine pending [] [] final w.1.0 stays
          (added-IsSettled machine pending [] w.1.0 w.1.2),
    ),
  )

  linked-IsSelfContained :
      (worker : Text) (pending : List Text) (o : Option (Result PrivilegedError Sources))
      → HasChildren machine (IsAdded pending) worker
      → IsCollected pending [] o
      → IsSelfContained worker (linked machine o)
  linked-IsSelfContained worker pending none w h = tt
  linked-IsSelfContained worker pending (some (err e)) w h = tt
  linked-IsSelfContained worker pending (some (ok [])) w h = tt
  linked-IsSelfContained worker pending (some (ok (s ∷ final))) w h = (
    settled-IsProvided (s ∷ final) worker (stayed-HasChildren pending (s ∷ final) worker h.0 w),
    sources-IsProvided (s ∷ final) (s ∷ final) (h.1 tt),
  )

  from_roots-IsSelfContained :
      (fuel : ℕ) (worker : Text) (r : Result PrivilegedError (List Text))
      → Holds (λ p. HasChildren machine (IsAdded p) worker) r
      → IsSelfContained worker (from_roots machine fuel r)
  from_roots-IsSelfContained fuel worker (err e) h = tt
  from_roots-IsSelfContained fuel worker (ok pending) h =
      linked-IsSelfContained worker pending (collect machine fuel pending []) h
        (collect-IsCollected fuel pending [])

  roots-HasChildren :
      (worker : Text) → Holds (λ p. HasChildren machine (IsAdded p) worker) (roots machine worker)
  unfolding roots HasChildren
  roots-HasChildren worker =
      bind-Holds _ (λ p. HasChildren machine (IsAdded p) worker) (machine.rpaths worker) _
        (same-Holds (machine.rpaths worker))
        (λ rpaths e.
          raise_if-Holds (λ p. HasChildren machine (IsAdded p) worker) (not (length rpaths == 0)) _
            _
            (λ n.
              bind-Holds _ (λ p. HasChildren machine (IsAdded p) worker)
                (machine.dependencies worker) _ (same-Holds (machine.dependencies worker))
                (λ children f.
                  map-Holds (λ p. All (IsAdded p) children)
                    (λ p. HasChildren machine (IsAdded p) worker) (add_children children [])
                    (λ p k. (e ∙ ap ok (empty rpaths n), (children, f, k)))
                    (add_children-AllAdded children []))))

  -- Where a runtime is bundled, it is self-contained: the worker and each bundled library have no rpath,
  -- and each of their dependencies belongs to the system or is bundled, under its name, from the very
  -- file that it resolves to.
  pub bundle_native_runtime-IsSelfContained :
      (fuel : ℕ) (worker : Text)
      → IsSelfContained worker (bundle_native_runtime machine fuel worker)
  unfolding bundle_native_runtime
  bundle_native_runtime-IsSelfContained fuel worker =
      from_roots-IsSelfContained fuel worker (roots machine worker) (roots-HasChildren worker)
