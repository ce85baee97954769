-- ===== src/Privileged/Uninstall/Laws.antt =====
-- What the uninstaller leaves alone.
use meraki_openconnect.Prelude.{
  ℕ, ◌≡◌, not, Option, none, some, if◌then◌else◌, refl, ap, ◌∙◌, Bool, true, false, ◌&&◌, List, [],
  ◌∷◌, ◌++◌, Text, text_eq, any, arith, Bool-cases, inl, inr, text_eq_iff,
}
use meraki_openconnect.Privileged.Resolver.{
  Rule, Node, absent, other, is_absent, is_managed, set, dns_disconnect,
}
use meraki_openconnect.Privileged.Resolver.Disconnect.{is_removable, dns_disconnect-removable}
use meraki_openconnect.Privileged.Uninstall.{
  installed_files, Gates, Helper, Nodes, remove, remove_all, remove_tree, is_within, following,
  components, libraries, earlier, clean_resolver, clean_resolvers, remove_components, disconnect,
  remove_installed, release, uninstall, runtime_path, lock_path, pid_path,
}

-- A path among others, and one where a rule has a managed file
abbrev pub is_listed : Text → List Text → Bool
is_listed p paths = any (λ q. text_eq q p) paths

abbrev pub is_owned : (List ℕ → Text) → List Rule → Text → Node → Bool
is_owned sha256_hex rules p node =
    any (λ r. text_eq r.path p && is_managed sha256_hex r.content node) rules

unlisted :
    (p q : Text) (paths : List Text)
    → is_listed p (q ∷ paths) ≡ false
    → (text_eq q p ≡ false) × (is_listed p paths ≡ false)
unlisted p q paths h = (ground arith, ground arith)

unlisted-last :
    (p : Text) (paths : List Text) (q : Text)
    → is_listed p (paths ++ q ∷ []) ≡ false
    → text_eq q p ≡ false
unlisted-last p [] q h = (unlisted p q [] h).0
unlisted-last p (path ∷ paths) q h = unlisted-last p paths q (unlisted p path (paths ++ q ∷ []) h).1

abbrev pub Same : Text → Nodes → Bool × Nodes → Type 0
Same p nodes r = r.1 p ≡ nodes p

module _ (removable : Text → Bool) (p : Text) where
  remove-Same :
      (path : Text) (nodes : Nodes)
      → text_eq path p ≡ false
      → Same p nodes (remove removable path nodes)
  unfolding remove set
  remove-Same path nodes h = elim (Bool-cases (removable path)) [
    | inl e ↦ rw (e, h) refl
    | inr e ↦ rw e refl
  ]

  remove_all-Same :
      (paths : List Text) (nodes : Nodes)
      → is_listed p paths ≡ false
      → Same p nodes (remove_all removable paths nodes)
  unfolding remove_all
  remove_all-Same [] nodes h = refl
  remove_all-Same (path ∷ paths) nodes h =
      remove_all-Same paths (remove removable path nodes).1 (ground arith)
      ∙ remove-Same path nodes (ground arith)

following-Same :
    (p : Text) (nodes : Nodes) (next : Nodes → Bool × Nodes) (r : Bool × Nodes)
    → Same p nodes r
    → ((later : Nodes) → later p ≡ nodes p → Same p later (next later))
    → Same p nodes (following next r)
following-Same p nodes next (true, later) h step = step later h ∙ h
following-Same p nodes next (false, later) h step = h

module _ (sha256_hex : List ℕ → Text) (removable : Text → Bool) (p : Text) where
  clean_resolver-Same :
      (rule : Rule) (nodes : Nodes)
      → (text_eq rule.path p && is_managed sha256_hex rule.content (nodes p)) ≡ false
      → Same p nodes (clean_resolver sha256_hex removable rule nodes)
  unfolding clean_resolver
  clean_resolver-Same rule nodes h =
      elim (Bool-cases (is_managed sha256_hex rule.content (nodes rule.path))) [
        | inr e ↦ rw e refl
        | inl e ↦ elim (Bool-cases (text_eq rule.path p)) [
          | inr n ↦ rw e (remove-Same removable p rule.path nodes n)
          | inl m ↦
              let at =
                ap (λ q. is_managed sha256_hex rule.content (nodes q))
                  ((text_eq_iff rule.path p).0 m) in
              ground arith
        ]
      ]

  clean_resolvers-Same :
      (rules : List Rule) (nodes : Nodes) (node : Node)
      → nodes p ≡ node
      → is_owned sha256_hex rules p node ≡ false
      → Same p nodes (clean_resolvers sha256_hex removable rules nodes)
  unfolding clean_resolvers
  clean_resolvers-Same [] nodes node e h = refl
  clean_resolvers-Same (rule ∷ rules) nodes node e h =
      following-Same p nodes (clean_resolvers sha256_hex removable rules)
        (clean_resolver sha256_hex removable rule nodes)
        (clean_resolver-Same rule nodes
          (ap (λ n. text_eq rule.path p && is_managed sha256_hex rule.content n) e ∙ ground arith))
        (λ later k. clean_resolvers-Same rules later node (k ∙ e) (ground arith))

  remove_tree-Same :
      (done : Bool) (path : Text) (nodes : Nodes)
      → is_within path p ≡ false
      → Same p nodes (remove_tree removable done path nodes)
  unfolding remove_tree
  remove_tree-Same done path nodes h = rw h refl

  remove_components-Same :
      (gates : Gates) (nodes : Nodes)
      → is_listed p components ≡ false
      → is_within libraries p ≡ false
      → is_listed p earlier ≡ false
      → Same p nodes (remove_components sha256_hex removable gates nodes)
  unfolding remove_components
  remove_components-Same gates nodes a b c =
      let tree = remove_tree removable gates.libraries_are_removed libraries in
      following-Same p nodes (remove_all removable earlier)
        (following tree (remove_all removable components nodes))
        (following-Same p nodes tree (remove_all removable components nodes)
          (remove_all-Same removable p components nodes a)
          (λ later k. remove_tree-Same gates.libraries_are_removed libraries later b))
        (λ later k. remove_all-Same removable p earlier later c)

  remove_installed-Same :
      (gates : Gates) (rules : List Rule) (nodes : Nodes) (node : Node)
      → nodes p ≡ node
      → is_listed p components ≡ false
      → is_within libraries p ≡ false
      → is_listed p earlier ≡ false
      → is_owned sha256_hex rules p node ≡ false
      → Same p nodes (remove_installed sha256_hex removable gates rules nodes)
  unfolding remove_installed
  remove_installed-Same gates rules nodes node e a b c k =
      elim (Bool-cases
        (is_absent (nodes pid_path) && gates.etc_is_linked && gates.resolver_is_plain)) [
          | inr n ↦ rw n refl
          | inl y ↦ rw y (
              following-Same p nodes (remove_components sha256_hex removable gates)
                (clean_resolvers sha256_hex removable rules nodes)
                (clean_resolvers-Same rules nodes node e k)
                (λ later m. remove_components-Same gates later a b c))
        ]

  set-Same :
      (path : Text) (node : Node) (nodes : Nodes)
      → text_eq path p ≡ false
      → set path node nodes p ≡ nodes p
  unfolding set
  set-Same path node nodes h = rw h refl

  made-Same :
      (nodes : Nodes) (b : Bool)
      → text_eq runtime_path p ≡ false
      → (if b then set runtime_path other nodes else nodes) p ≡ nodes p
  made-Same nodes true h = set-Same runtime_path other nodes h
  made-Same nodes false h = refl

  release-Same :
      (gates : Gates) (nodes : Nodes) (r : Bool × Nodes)
      → text_eq runtime_path p ≡ false
      → text_eq lock_path p ≡ false
      → Same p nodes r
      → Same p nodes (release sha256_hex removable gates r)
  unfolding release
  release-Same gates nodes (done, later) a b h =
      let unlocked = (remove removable lock_path later).1 in
      let same = remove-Same removable p lock_path later b ∙ h in
      elim (Bool-cases (done && (remove removable lock_path later).0 && gates.runtime_is_removed)) [
        | inl y ↦ rw y (set-Same runtime_path absent unlocked a ∙ same)
        | inr n ↦ rw n same
      ]

  disconnected-Same :
      (stopped : Nodes) (helper : Helper)
      → is_owned sha256_hex helper.rules p (stopped p) ≡ false
      → (dns_disconnect sha256_hex
            (record { file = removable; temp = removable })
            helper.is_safe
            helper.is_restored
            helper.rules
            (record { node = stopped; directory = true; temp = λ q. false; touched = [] })).1.node
          p
        ≡ stopped p
  unfolding is_removable
  disconnected-Same stopped helper k =
      elim (dns_disconnect-removable sha256_hex (record { file = removable; temp = removable }) p
        helper.is_safe helper.is_restored helper.rules
        (record { node = stopped; directory = true; temp = λ q. false; touched = [] })) [
          | inl e ↦ e
          | inr m ↦ ground (arith, m, k)
        ]

  -- The rules of the helper that is installed, if one is.
  abbrev pub helper_rules : Option Helper → List Rule
  helper_rules none = []
  helper_rules (some helper) = helper.rules

  disconnect-Same :
      (helper : Option Helper) (nodes : Nodes)
      → text_eq pid_path p ≡ false
      → is_owned sha256_hex (helper_rules helper) p (nodes p) ≡ false
      → disconnect sha256_hex removable helper nodes p ≡ nodes p
  unfolding disconnect
  disconnect-Same none nodes a k = refl
  disconnect-Same (some helper) nodes a k = elim (Bool-cases helper.stops) [
    | inr n ↦ rw n (disconnected-Same nodes helper k)
    | inl y ↦
        let same = set-Same pid_path absent nodes a in
        rw y (
          disconnected-Same (set pid_path absent nodes) helper
            (ap (is_owned sha256_hex helper.rules p) same ∙ k)
          ∙ same)
  ]

  -- Whatever its tests say, and however far it comes, the uninstaller leaves a path as it is that is
  -- neither on its own list, nor the directory of the libraries or below it, nor the runtime directory
  -- or the lock, and that has no managed file of a rule, of its own or of the installed helper.
  pub uninstall-foreign :
      (gates : Gates) (helper : Option Helper) (rules : List Rule) (nodes : Nodes)
      → is_listed p components ≡ false
      → is_within libraries p ≡ false
      → is_listed p earlier ≡ false
      → is_listed p (runtime_path ∷ lock_path ∷ []) ≡ false
      → is_owned sha256_hex (helper_rules helper) p (nodes p) ≡ false
      → is_owned sha256_hex rules p (nodes p) ≡ false
      → (uninstall sha256_hex removable gates helper rules nodes).1 p ≡ nodes p
  unfolding uninstall
  uninstall-foreign gates helper rules nodes a b c d k l =
      let started = disconnect sha256_hex removable helper nodes in
      let first = disconnect-Same helper nodes (unlisted-last p installed_files pid_path a) k in
      let (not_runtime, rest) = unlisted p runtime_path (lock_path ∷ []) d in
      let not_lock = (unlisted p lock_path [] rest).0 in
      let directory =
        if is_absent (started runtime_path) then set runtime_path other started else started in
      let second : directory p ≡ nodes p =
        made-Same started (is_absent (started runtime_path)) not_runtime ∙ first in
      let locked = set lock_path other directory in
      let third = set-Same lock_path other directory not_lock ∙ second in
      let removed = remove_installed-Same gates rules locked (nodes p) third a b c l in
      let last =
        release-Same gates locked (remove_installed sha256_hex removable gates rules locked)
          not_runtime not_lock removed
        ∙ third in
      elim (Bool-cases (not (gates.runtime_is_plain && gates.runtime_is_made))) [
        | inl y ↦ rw y first
        | inr n ↦ elim (Bool-cases (not (gates.runtime_is_cleared && gates.is_locked))) [
          | inl y ↦ rw (n, y) second
          | inr m ↦ rw (n, m) last
        ]
      ]
