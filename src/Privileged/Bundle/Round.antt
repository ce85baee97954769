-- ===== src/Privileged/Bundle/Round.antt =====
-- What a round of the loop over the pending dependencies keeps.
use meraki_openconnect.Prelude.{
  ◌≡◌, refl, sym, ap, ◌∙◌, ◌⊎◌, inl, inr, true, not, Option, none, some, List, [], ◌∷◌, Text,
  text_eq, text_eq_iff, text_eq_refl, ok, length, one_of, arith, All, Bool-cases, Holds, bind-Holds,
  raise_if-Holds, pair-Holds, map-Holds, same-Holds, ◌==◌, ◌>>=◌,
}
use mathlib.Core.Path.{subst}
use meraki_openconnect.Paths.{path_name}
use meraki_openconnect.Privileged.Bundle.{
  is_system, Machine, Sources, source_of, add_children, copy, visit, resolved_visit, step,
}
use meraki_openconnect.Privileged.Bundle.Pending.{
  Keeps, Keeps-same, add_children-Keeps, IsAdded, add_children-AllAdded, empty,
}

module _ (machine : Machine) where
  -- A dependency that is bundled under its name, from where it resolves to.
  unfoldable pub IsFound : Sources → Text → Type 0
  IsFound sources d =
      (path : Text) × (machine.resolve d ≡ some path)
      × (source_of (path_name d) sources ≡ some path)

  unfoldable pub IsSettled : List Text → Sources → Text → Type 0
  IsSettled pending sources d =
      (is_system d ≡ true) ⊎ ((one_of d pending ≡ true) ⊎ IsFound sources d)

  -- A library without rpaths, all of whose dependencies satisfy a predicate.
  unfoldable pub HasChildren : (Text → Type 0) → Text → Type 0
  HasChildren P path =
      (machine.rpaths path ≡ ok [])
      × ((children : List Text) × (machine.dependencies path ≡ ok children) × All P children)

  -- A dependency that was settled stays so over a round.
  abbrev pub Stays : List Text → Sources → List Text → Sources → Type 0
  Stays pending sources pending' sources' =
      (c : Text) → IsSettled pending sources c → IsSettled pending' sources' c

  grown-IsFound :
      (name path : Text) (sources : Sources) (c : Text)
      → source_of name sources ≡ none
      → IsFound sources c
      → IsFound ((name, path) ∷ sources) c
  unfolding IsFound
  grown-IsFound name path sources c n (p, r, f) = (
    p,
    r,
    elim (Bool-cases (text_eq name (path_name c))) [
      | inl y ↦
          (let same = ap (λ t. source_of t sources) ((text_eq_iff name (path_name c)).0 y) in cc)
      | inr d ↦ rw d f
    ],
  )

  -- Both outcomes of a round, on the dependency that it takes and on the others.
  taken-Stays :
      (d : Text) (pending pending' : List Text) (sources sources' : Sources)
      → IsFound sources' d
      → ((c : Text) → one_of c pending ≡ true → one_of c pending' ≡ true)
      → ((c : Text) → IsFound sources c → IsFound sources' c)
      → Stays (d ∷ pending) sources pending' sources'
  unfolding IsSettled
  taken-Stays d pending pending' sources sources' found more grown c (inl s) = inl s
  taken-Stays d pending pending' sources sources' found more grown c (inr (inr f)) =
      inr (inr (grown c f))
  taken-Stays d pending pending' sources sources' found more grown c (inr (inl p)) =
      elim (Bool-cases (text_eq c d)) [
        | inl y ↦ inr (inr (subst (IsFound sources') (sym ((text_eq_iff c d).0 y)) found))
        | inr n ↦ inr (inl (more c (ground (arith, p, n))))
      ]

  -- What has been bundled: each library has no rpaths, and its dependencies are settled.
  abbrev pub AllSettled : List Text → Sources → Type 0
  AllSettled pending sources =
      All (λ (s : Text × Text). HasChildren (IsSettled pending sources) s.1) sources

  pub All-Stays :
      (pending pending' : List Text) (sources sources' : Sources) (cs : List Text)
      → Stays pending sources pending' sources'
      → All (IsSettled pending sources) cs
      → All (IsSettled pending' sources') cs
  All-Stays pending pending' sources sources' [] k h = tt
  All-Stays pending pending' sources sources' (c ∷ cs) k h =
      (k c h.0, All-Stays pending pending' sources sources' cs k h.1)

  pub sources-Stays :
      (pending pending' : List Text) (sources sources' more : Sources)
      → Stays pending sources pending' sources'
      → All (λ (s : Text × Text). HasChildren (IsSettled pending sources) s.1) more
      → All (λ (s : Text × Text). HasChildren (IsSettled pending' sources') s.1) more
  unfolding HasChildren
  sources-Stays pending pending' sources sources' [] k h = tt
  sources-Stays pending pending' sources sources' ((n, p) ∷ more) k h = (
    (h.0.0, (h.0.1.0, h.0.1.1, All-Stays pending pending' sources sources' h.0.1.0 k h.0.1.2)),
    sources-Stays pending pending' sources sources' more k h.1,
  )

  -- What a round keeps: what is settled stays settled, and what is bundled has settled dependencies.
  unfoldable pub IsKept : List Text → Sources → List Text × Sources → Type 0
  IsKept pending sources r =
      Stays pending sources r.0 r.1 × (AllSettled pending sources → AllSettled r.0 r.1)

  -- What a copy adds
  IsCopied : Text → List Text → List Text → Type 0
  IsCopied resolved pending p = HasChildren (IsAdded p) resolved × Keeps pending p

  copy-IsCopied :
      (resolved : Text) (pending : List Text)
      → Holds (IsCopied resolved pending) (copy machine resolved pending)
  unfolding copy IsCopied HasChildren
  copy-IsCopied resolved pending =
      bind-Holds _ (IsCopied resolved pending) (machine.rpaths resolved) _
        (same-Holds (machine.rpaths resolved))
        (λ rpaths e. raise_if-Holds (IsCopied resolved pending) (not (length rpaths == 0)) _ _ (λ n.
          bind-Holds _ (IsCopied resolved pending) (machine.dependencies resolved) _
            (same-Holds (machine.dependencies resolved))
            (λ children f.
              map-Holds (λ p. All (IsAdded p) children × Keeps pending p)
                (IsCopied resolved pending) (add_children children pending)
                (λ p k. ((e ∙ ap ok (empty rpaths n), (children, f, k.0)), k.1))
                (pair-Holds _ _ (add_children children pending)
                  (add_children-AllAdded children pending) (add_children-Keeps children pending)))))

  pub added-IsSettled :
      (p : List Text) (sources : Sources) (cs : List Text)
      → All (IsAdded p) cs
      → All (IsSettled p sources) cs
  unfolding IsSettled IsAdded
  added-IsSettled p sources [] h = tt
  added-IsSettled p sources (c ∷ cs) h =
      (elim h.0 [ inl s ↦ inl s | inr q ↦ inr (inl q) ], added-IsSettled p sources cs h.1)

  copied-IsSettled :
      (resolved : Text) (pending p : List Text) (sources : Sources)
      → IsCopied resolved pending p
      → HasChildren (IsSettled p sources) resolved
  unfolding IsCopied HasChildren
  copied-IsSettled resolved pending p sources k =
      (k.0.0, (k.0.1.0, k.0.1.1, added-IsSettled p sources k.0.1.0 k.0.1.2))

  copied-Keeps :
      (resolved : Text) (pending p : List Text) → IsCopied resolved pending p → Keeps pending p
  unfolding IsCopied
  copied-Keeps resolved pending p k = k.1

  found_lem :
      (d path : Text) (sources : Sources)
      → machine.resolve d ≡ some path
      → source_of (path_name d) sources ≡ some path
      → IsFound sources d
  unfolding IsFound
  found_lem d path sources r s = (path, r, s)

  head_source :
      (name path : Text) (sources : Sources) → source_of name ((name, path) ∷ sources) ≡ some path
  head_source name path sources = ground (arith, text_eq_refl name)

  kept_lem :
      (d : Text) (pending p : List Text) (sources sources' : Sources)
      → Stays (d ∷ pending) sources p sources'
      → (AllSettled (d ∷ pending) sources → AllSettled p sources')
      → IsKept (d ∷ pending) sources (p, sources')
  unfolding IsKept
  kept_lem d pending p sources sources' s a = (s, a)

  copy-IsKept :
      (d name resolved : Text) (pending : List Text) (sources : Sources)
      → name ≡ path_name d
      → machine.resolve d ≡ some resolved
      → source_of name sources ≡ none
      → Holds
          (IsKept (d ∷ pending) sources)
          (copy machine resolved pending >>= λ p. ok (p, (name, resolved) ∷ sources))
  copy-IsKept d name resolved pending sources e r n =
      bind-Holds (IsCopied resolved pending) (IsKept (d ∷ pending) sources)
        (copy machine resolved pending) _ (copy-IsCopied resolved pending)
        (λ p k.
          let sources' = (name, resolved) ∷ sources in
          let named =
            subst (λ t. source_of t sources' ≡ some resolved) e
              (head_source name resolved sources) in
          let stays =
            taken-Stays d pending p sources sources' (found_lem d resolved sources' r named)
              (copied-Keeps resolved pending p k) (λ c. grown-IsFound name resolved sources c n) in
          kept_lem d pending p sources sources' stays (λ h. (
            copied-IsSettled resolved pending p sources' k,
            sources-Stays (d ∷ pending) p sources sources' sources stays h,
          )))

  visit-IsKept :
      (d resolved : Text) (pending : List Text) (sources : Sources) (o : Option Text)
      → machine.resolve d ≡ some resolved
      → source_of (path_name d) sources ≡ o
      → Holds
          (IsKept (d ∷ pending) sources)
          (visit machine (path_name d) resolved pending sources o)
  visit-IsKept d resolved pending sources (some existing) r s =
      elim (Bool-cases (text_eq existing resolved)) [
        | inl y ↦
            (let found =
                found_lem d resolved sources r
                  (s ∙ ap some ((text_eq_iff existing resolved).0 y)) in
              let stays =
                taken-Stays d pending pending sources sources found (Keeps-same pending)
                  (λ c f. f) in
              rw y (
                kept_lem d pending pending sources sources stays
                  (sources-Stays (d ∷ pending) pending sources sources sources stays)))
        | inr n ↦ rw n tt
      ]
  visit-IsKept d resolved pending sources none r s =
      copy-IsKept d (path_name d) resolved pending sources refl r s

  pub step-IsKept :
      (d : Text) (pending : List Text) (sources : Sources)
      → Holds (IsKept (d ∷ pending) sources) (step machine d pending sources)
  unfolding step
  step-IsKept d pending sources = go (machine.resolve d) refl
    where
      go :
          (o : Option Text)
          → machine.resolve d ≡ o
          → Holds (IsKept (d ∷ pending) sources) (resolved_visit machine d pending sources o)
      go none r = tt
      go (some resolved) r =
          visit-IsKept d resolved pending sources (source_of (path_name d) sources) r refl
