-- ===== src/Privileged/Bundle.antt =====
-- `_bundle_native_runtime`: the libraries that are copied beside the native worker, and their tests.
pub mod Pending
pub mod Round
pub mod Closed
pub mod Ends
pub mod Tests
use meraki_openconnect.Prelude.{
  ℕ, zero, suc, Bool, true, false, not, ◌&&◌, ◌||◌, Option, none, some, List, [], ◌∷◌, ◌++◌, Text,
  codes, text_eq, starts_with, Result, ok, err, ◌>>=◌, ◌>>◌, require, raise_if, length, any, all,
  one_of, ◌==◌, if◌then◌else◌, drop,
}
use meraki_openconnect.Ip.{parts}
use meraki_openconnect.Paths.{kept_parts, has_plain_root, path_name}
use meraki_openconnect.Privileged.Shell.{
  PrivilegedError, unsupported_rpath, libraries_missing, unsupported_dependency, dependency_missing,
  names_collide, not_linked,
}

-- `_is_system_dependency`
unfoldable pub is_system : Text → Bool
is_system d = starts_with d (codes "/usr/lib/") || starts_with d (codes "/System/Library/")

begins_with : List Text → List Text → Bool
begins_with s [] = true
begins_with [] (t ∷ ts) = false
begins_with (u ∷ us) (t ∷ ts) = text_eq u t && begins_with us ts

-- `_is_homebrew_dependency`, below /opt/homebrew
unfoldable pub is_homebrew : Text → Bool
unfolding begins_with
is_homebrew d =
    starts_with d (codes "/")
    && has_plain_root d
    && begins_with (kept_parts (parts b'/' d)) (codes "opt" ∷ codes "homebrew" ∷ [])

-- What the loop asks of the machine: where a dependency resolves to, and what otool reads from a file
-- with the content of a resolved path. A copy has the content of what it was copied from.
pub record Machine : Type 0 where
  pub resolve : Text → Option Text
  pub rpaths : Text → Result PrivilegedError (List Text)
  pub dependencies : Text → Result PrivilegedError (List Text)

-- `sources_by_name`
abbrev pub Sources : Type 0
Sources = List (Text × Text)

abbrev pub source_of : Text → Sources → Option Text
source_of name [] = none
source_of name ((n, path) ∷ rest) = if text_eq n name then some path else source_of name rest

-- The children of a file, put on the pending ones, of which the last is taken first.
pub add_children : List Text → List Text → Result PrivilegedError (List Text)
add_children [] pending = ok pending
add_children (child ∷ children) pending =
    if is_homebrew child
    then add_children children (child ∷ pending)
    else if is_system child
    then add_children children pending
    else err unsupported_dependency

module _ (machine : Machine) where
  -- A library that has not been seen: what the copy depends on.
  unfoldable pub copy : Text → List Text → Result PrivilegedError (List Text)
  copy resolved pending = do
    rpaths ← machine.rpaths resolved
    raise_if (not (length rpaths == 0)) unsupported_rpath
    children ← machine.dependencies resolved
    add_children children pending

  -- One round of `while pending`: the pending dependencies, the last first, and the sources.
  abbrev pub visit :
      Text → Text → List Text → Sources → Option Text → Result PrivilegedError (List Text × Sources)
  visit name resolved pending sources (some existing) =
      if text_eq existing resolved then ok (pending, sources) else err names_collide
  visit name resolved pending sources none = do
    pending' ← copy resolved pending
    ok (pending', (name, resolved) ∷ sources)

  abbrev pub resolved_visit :
      Text → List Text → Sources → Option Text → Result PrivilegedError (List Text × Sources)
  resolved_visit dependency pending sources none = err dependency_missing
  resolved_visit dependency pending sources (some resolved) =
      visit (path_name dependency) resolved pending sources
        (source_of (path_name dependency) sources)

  unfoldable pub step : Text → List Text → Sources → Result PrivilegedError (List Text × Sources)
  step dependency pending sources =
      resolved_visit dependency pending sources (machine.resolve dependency)

  abbrev pub continue :
      (List Text → Sources → Option (Result PrivilegedError Sources))
      → Result PrivilegedError (List Text × Sources)
      → Option (Result PrivilegedError Sources)
  continue k (err e) = some (err e)
  continue k (ok (pending, sources)) = k pending sources

  -- The loop, with none where the fuel is used up
  pub collect : ℕ → List Text → Sources → Option (Result PrivilegedError Sources)
  collect fuel [] sources = some (ok sources)
  collect zero (dependency ∷ pending) sources = none
  collect (suc fuel) (dependency ∷ pending) sources =
      continue (collect fuel) (step dependency pending sources)

  abbrev pub linked :
      Option (Result PrivilegedError Sources) → Option (Result PrivilegedError Sources)
  linked (some (ok [])) = some (err not_linked)
  linked r = r

  -- What is pending at first: the dependencies of the worker
  unfoldable pub roots : Text → Result PrivilegedError (List Text)
  roots worker = do
    rpaths ← machine.rpaths worker
    raise_if (not (length rpaths == 0)) unsupported_rpath
    children ← machine.dependencies worker
    add_children children []

  abbrev pub from_roots :
      ℕ → Result PrivilegedError (List Text) → Option (Result PrivilegedError Sources)
  from_roots fuel (err e) = some (err e)
  from_roots fuel (ok pending) = linked (collect fuel pending [])

  -- `_bundle_native_runtime` up to the copies: the sources by their names
  unfoldable pub bundle_native_runtime : ℕ → Text → Option (Result PrivilegedError Sources)
  unfolding collect
  bundle_native_runtime fuel worker = from_roots fuel (roots worker)
