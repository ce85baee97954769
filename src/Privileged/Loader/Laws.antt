-- ===== src/Privileged/Loader/Laws.antt =====
-- What a validated file of the runtime depends on.
use meraki_openconnect.Prelude.{
  starts_with_lem, ◌≡◌, Bool, true, false, not, ◌⊎◌, inl, inr, List, [], ◌∷◌, ◌++◌, Text, one_of,
  Result, ok, length, drop, any, All, arith, ◌==◌, Bool-cases, bind_ok, require_ok, raise_if_ok,
}
use meraki_openconnect.Privileged.Shell.{
  PrivilegedError, unsupported_rpath, libraries_missing, unsupported_dependency,
}
use meraki_openconnect.Privileged.Bundle.{is_system}
use meraki_openconnect.Privileged.Loader.{
  runtime_prefix, is_admitted, check_dependencies, otool_rpaths, otool_dependencies,
  validate_bundled_dependencies,
}

-- A library of the system, or a name of the runtime below the one prefix, with no further part.
abbrev pub IsBundled : Bool → List Text → Text → Type 0
IsBundled worker names dependency =
    (is_system dependency ≡ true)
    ⊎ ((name : Text) × (dependency ≡ runtime_prefix worker ++ name)
        × (one_of name names ≡ true)
        × (any (λ c. c == b'/') name ≡ false))

admitted-IsBundled :
    (worker : Bool) (names : List Text) (dependency : Text)
    → is_admitted worker names dependency ≡ true
    → IsBundled worker names dependency
unfolding is_admitted
admitted-IsBundled worker names dependency h = elim (Bool-cases (is_system dependency)) [
  | inl e ↦ inl e
  | inr e ↦ inr (
    drop (length (runtime_prefix worker)) dependency,
    starts_with_lem dependency (runtime_prefix worker) (ground arith),
    ground arith,
    ground arith,
  )
]

checked-IsBundled :
    (worker : Bool) (names dependencies : List Text) (u : Unit {0})
    → check_dependencies worker names dependencies ≡ ok u
    → All (IsBundled worker names) dependencies
unfolding check_dependencies
checked-IsBundled worker names [] u h = tt
checked-IsBundled worker names (dependency ∷ dependencies) u h =
    let (a, rest) = require_ok (is_admitted worker names dependency) unsupported_dependency _ u h in
    (
      admitted-IsBundled worker names dependency a,
      checked-IsBundled worker names dependencies u rest,
    )

-- What a validation that passes has read of a file
pub record IsValidated (worker : Bool)
    (load_commands libraries : Result PrivilegedError (List Text)) (names : List Text)
    : Type 0 where
  pub commands : List Text
  pub lines : List Text
  pub are_commands : load_commands ≡ ok commands
  pub are_lines : libraries ≡ ok lines
  pub rpaths : List Text
  pub are_rpaths : otool_rpaths commands ≡ ok rpaths
  pub no_rpaths : (length rpaths == 0) ≡ true
  pub are_bundled : All (IsBundled worker names) (otool_dependencies lines)

-- A file that passes the validation has no rpath, and depends only on libraries of the system and on
-- plain names of the runtime below the prefix of its kind.
pub validate_bundled_dependencies-IsValidated :
    (worker : Bool) (load_commands libraries : Result PrivilegedError (List Text))
    (names : List Text)
    → validate_bundled_dependencies worker load_commands libraries names ≡ ok tt
    → IsValidated worker load_commands libraries names
unfolding validate_bundled_dependencies
validate_bundled_dependencies-IsValidated worker load_commands libraries names h =
    let (commands, a, reading) = bind_ok load_commands _ tt h in
    let (rpaths, b, testing) = bind_ok (otool_rpaths commands) _ tt reading in
    let (c, naming) = raise_if_ok (not (length rpaths == 0)) unsupported_rpath _ tt testing in
    let (d, listing) = raise_if_ok (length names == 0) libraries_missing _ tt naming in
    let (lines, e, checking) = bind_ok libraries _ tt listing in
    record {
      commands = commands;
      lines = lines;
      are_commands = a;
      are_lines = e;
      rpaths = rpaths;
      are_rpaths = b;
      no_rpaths = ground arith;
      are_bundled = checked-IsBundled worker names (otool_dependencies lines) tt checking;
    }
