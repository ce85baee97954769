-- ===== src/Privileged/Uninstall.antt =====
-- `_uninstall_script`: what the script of the uninstaller makes and removes. The flushing of caches is
-- left out, which changes no file and cannot stop it. A signal runs the trap, which removes the lock,
-- and the script goes on.
pub mod Laws
use meraki_openconnect.Prelude.{
  ℕ, Bool, true, false, not, ◌&&◌, ◌||◌, Option, none, some, List, [], ◌∷◌, ◌++◌, Text, codes,
  text_eq, starts_with, if◌then◌else◌,
}
use meraki_openconnect.Privileged.Resolver.{
  Rule, Node, absent, other, is_absent, is_managed, set, Removals, dns_disconnect,
}

-- The tests and commands whose outcome is the system's: that the runtime directory is no link, that it
-- can be made and rid of its access list, that the lock is taken, that /etc and the resolver directory
-- are as they should be, that `rm -rf` of the libraries reports no failure, and that the runtime
-- directory is removed at the end.
pub record Gates : Type 0 where
  pub runtime_is_plain : Bool
  pub runtime_is_made : Bool
  pub runtime_is_cleared : Bool
  pub is_locked : Bool
  pub etc_is_linked : Bool
  pub resolver_is_plain : Bool
  pub libraries_are_removed : Bool
  pub runtime_is_removed : Bool

-- The helper that is installed, of which `vpn-disconnect` is run: the rules that it was made of, whether
-- it removes the PID file, and whether its tests before and behind the cleanup pass.
pub record Helper : Type 0 where
  pub rules : List Rule
  pub stops : Bool
  pub is_safe : Bool
  pub is_restored : Bool

abbrev pub Nodes : Type 0
Nodes = Text → Node

abbrev pub runtime_path : Text
runtime_path = codes "/var/run/meraki-openconnect"

abbrev pub pid_path : Text
pid_path = codes "/var/run/meraki-openconnect/tunnel.pid"

abbrev pub lock_path : Text
lock_path = codes "/var/run/meraki-openconnect/privileged-operation.lock"

-- One removal, which may fail and then leaves what is there
pub remove : (Text → Bool) → Text → Nodes → Bool × Nodes
remove removable path nodes =
    if removable path then (true, set path absent nodes) else (false, nodes)

-- `rm` of several paths, which goes on behind a failure and reports it
pub remove_all : (Text → Bool) → List Text → Nodes → Bool × Nodes
unfolding remove
remove_all removable [] nodes = (true, nodes)
remove_all removable (path ∷ paths) nodes =
    let (done, nodes') = remove removable path nodes in
    let (rest, nodes'') = remove_all removable paths nodes' in (done && rest, nodes'')

-- What `set -e` does between two commands
abbrev pub following : (Nodes → Bool × Nodes) → Bool × Nodes → Bool × Nodes
following next (true, nodes) = next nodes
following next (false, nodes) = (false, nodes)

-- A path and what is below it
abbrev pub is_within : Text → Text → Bool
is_within path p = text_eq path p || starts_with p (path ++ codes "/")

-- `rm -rf`, which removes what it can at the path and below it, and reports whether all is gone
pub remove_tree : (Text → Bool) → Bool → Text → Nodes → Bool × Nodes
remove_tree removable done path nodes =
    (done, λ p. if is_within path p && removable p then absent else nodes p)

-- What the three commands remove: the files of the installation with the PID file, the libraries, and
-- the files of an earlier layout
abbrev pub installed_files : List Text
installed_files =
    codes "/Library/PrivilegedHelperTools/io.github.k0nkupa.meraki-openconnect.root"
    ∷ codes "/Library/PrivilegedHelperTools/io.github.k0nkupa.meraki-openconnect.native"
    ∷ codes "/Library/PrivilegedHelperTools/io.github.k0nkupa.meraki-openconnect.vpnc-script"
    ∷ codes "/Library/PrivilegedHelperTools/io.github.k0nkupa.meraki-openconnect.policy.conf"
    ∷ codes "/etc/sudoers.d/meraki-openconnect"
    ∷ []

abbrev pub components : List Text
components = installed_files ++ pid_path ∷ []

abbrev pub libraries : Text
libraries = codes "/Library/PrivilegedHelperTools/io.github.k0nkupa.meraki-openconnect-libs"

abbrev pub earlier : List Text
earlier =
    codes "/usr/local/libexec/meraki-openconnect-root"
    ∷ codes "/usr/local/libexec/meraki-openconnect-native"
    ∷ codes "/usr/local/etc/meraki-openconnect/policy.conf"
    ∷ []

module _ (sha256_hex : List ℕ → Text) (removable : Text → Bool) where
  -- The cleaner of one rule
  pub clean_resolver : Rule → Nodes → Bool × Nodes
  unfolding remove
  clean_resolver rule nodes =
      if is_managed sha256_hex rule.content (nodes rule.path)
      then remove removable rule.path nodes
      else (true, nodes)

  pub clean_resolvers : List Rule → Nodes → Bool × Nodes
  unfolding clean_resolver
  clean_resolvers [] nodes = (true, nodes)
  clean_resolvers (rule ∷ rules) nodes =
      following (clean_resolvers rules) (clean_resolver rule nodes)

  pub remove_components : Gates → Nodes → Bool × Nodes
  unfolding remove_all remove_tree
  remove_components gates nodes = following (remove_all removable earlier) (
      following (remove_tree removable gates.libraries_are_removed libraries)
        (remove_all removable components nodes))

  -- `vpn-disconnect` of the helper, whose outcome is passed over
  pub disconnect : Option Helper → Nodes → Nodes
  disconnect none nodes = nodes
  disconnect (some helper) nodes =
      let stopped = if helper.stops then set pid_path absent nodes else nodes in
      (dns_disconnect sha256_hex (record { file = removable; temp = removable }) helper.is_safe
        helper.is_restored helper.rules
        (record { node = stopped; directory = true; temp = λ p. false; touched = [] })).1.node

  -- The script from the lock on, up to the removal of the lock
  pub remove_installed : Gates → List Rule → Nodes → Bool × Nodes
  unfolding clean_resolvers remove_components
  remove_installed gates rules nodes =
      if is_absent (nodes pid_path) && gates.etc_is_linked && gates.resolver_is_plain
      then following (remove_components gates) (clean_resolvers rules nodes)
      else (false, nodes)

  -- The removal of the lock, by the script or by its trap, and at the end that of the runtime directory
  pub release : Gates → Bool × Nodes → Bool × Nodes
  release gates (done, nodes) =
      let (gone, unlocked) = remove removable lock_path nodes in
      let ended = done && gone in
      (
        ended,
        if ended && gates.runtime_is_removed then set runtime_path absent unlocked else unlocked,
      )

  -- `install -d` leaves a directory that is there as it is.
  abbrev made : Nodes → Nodes
  made nodes = if is_absent (nodes runtime_path) then set runtime_path other nodes else nodes

  -- Whether the script ends without an error, and what is there then
  unfoldable pub uninstall : Gates → Option Helper → List Rule → Nodes → Bool × Nodes
  unfolding disconnect remove_installed release
  uninstall gates helper rules nodes =
      let started = disconnect helper nodes in
      if not (gates.runtime_is_plain && gates.runtime_is_made)
      then (false, started)
      else if not (gates.runtime_is_cleared && gates.is_locked)
      then (false, made started)
      else release gates (remove_installed gates rules (set lock_path other (made started)))
