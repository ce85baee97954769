-- ===== src/Privileged/Loader.antt =====
-- What otool says of a file, and the last test of a bundled runtime: `_otool_dependencies`,
-- `_otool_rpaths` and `_validate_bundled_dependencies`.
pub mod Laws
use meraki_openconnect.Prelude.{
  ℕ, suc, zero, ◌-◌, Bool, true, false, not, ◌&&◌, ◌||◌, Option, none, some, List, [], ◌∷◌, ◌++◌,
  Text, codes, text_eq, one_of, starts_with, Result, ok, err, ◌>>=◌, ◌>>◌, require, raise_if,
  length, drop, leb, ◌==◌, any, if◌then◌else◌,
}
use meraki_openconnect.Tunnel.Helper.{lstrip, rstrip}
use meraki_openconnect.Privileged.Shell.{
  PrivilegedError, unsupported_rpath, libraries_missing, unsupported_dependency, malformed_rpath,
}
use meraki_openconnect.Privileged.Bundle.{is_system}

-- `line.strip()`
pub strip : Text → Text
unfolding lstrip rstrip
strip s = rstrip (lstrip s)

-- `s.split(separator, 1)[0]`
pub before : Text → Text → Text
before separator [] = []
before separator (c ∷ s) =
    let rest = before separator s in if starts_with (c ∷ s) separator then [] else c ∷ rest

-- The dependency that a line names, if it names one
pub dependency_of : Text → Option Text
unfolding strip before
dependency_of line = elim (before (codes " (") (strip line)) [ [] ↦ none | c ∷ s ↦ some (c ∷ s) ]

pub dependencies_of : List Text → List Text
unfolding dependency_of
dependencies_of [] = []
dependencies_of (line ∷ lines) =
    let rest = dependencies_of lines in
    elim (dependency_of line) [ none ↦ rest | some dependency ↦ dependency ∷ rest ]

-- `_otool_dependencies` of the lines that `otool -L` prints, the first of which names the file
pub otool_dependencies : List Text → List Text
unfolding dependencies_of
otool_dependencies lines = dependencies_of (drop 1 lines)

-- What is made of a stripped line, with `reading_rpath` and the rpaths after it
pub data Line : Type 0 where
  load_command rpath_command other : Line
  path : Text → Line

pub line_of : Text → Line
unfolding before
line_of s =
    if starts_with s (codes "Load command ")
    then load_command
    else if text_eq s (codes "cmd LC_RPATH")
    then rpath_command
    else if starts_with s (codes "path ")
    then path (before (codes " (offset ") (drop 5 s))
    else other

abbrev pub put : Text → Result PrivilegedError (List Text) → Result PrivilegedError (List Text)
put rpath (ok rpaths) = ok (rpath ∷ rpaths)
put rpath (err e) = err e

-- `_otool_rpaths` of the kinds of the lines, with `reading_rpath`
pub rpaths_of : Bool → List Line → Result PrivilegedError (List Text)
rpaths_of reading [] = if reading then err malformed_rpath else ok []
rpaths_of reading (load_command ∷ lines) =
    let rest = rpaths_of false lines in if reading then err malformed_rpath else rest
rpaths_of reading (rpath_command ∷ lines) = rpaths_of true lines
rpaths_of true (path rpath ∷ lines) =
    let rest = rpaths_of false lines in
    if length rpath == 0 then err malformed_rpath else put rpath rest
rpaths_of false (path rpath ∷ lines) = rpaths_of false lines
rpaths_of reading (other ∷ lines) = rpaths_of reading lines

abbrev pub lines_of : List Text → List Line
lines_of [] = []
lines_of (line ∷ lines) = line_of (strip line) ∷ lines_of lines

-- `_otool_rpaths` of the lines that `otool -l` prints
unfoldable pub otool_rpaths : List Text → Result PrivilegedError (List Text)
unfolding rpaths_of line_of strip
otool_rpaths lines = rpaths_of false (lines_of lines)

abbrev pub runtime_prefix : Bool → Text
runtime_prefix worker =
    if worker
    then codes "@executable_path/io.github.k0nkupa.meraki-openconnect-libs/"
    else codes "@loader_path/"

-- A dependency of a bundled file that is admitted
pub is_admitted : Bool → List Text → Text → Bool
is_admitted worker allowed_names dependency =
    is_system dependency
    || starts_with dependency (runtime_prefix worker)
      && (let library_name = drop (length (runtime_prefix worker)) dependency in
          not (length library_name == 0)
          && not (any (λ c. c == b'/') library_name)
          && one_of library_name allowed_names)

pub check_dependencies : Bool → List Text → List Text → Result PrivilegedError (Unit {0})
unfolding is_admitted
check_dependencies worker allowed_names [] = ok tt
check_dependencies worker allowed_names (dependency ∷ dependencies) =
    require (is_admitted worker allowed_names dependency) unsupported_dependency
    >> check_dependencies worker allowed_names dependencies

-- `_validate_bundled_dependencies`, of what otool prints and the names of the plain files of the runtime; none is a run of otool that fails.
unfoldable pub validate_bundled_dependencies :
    Bool
    → Result PrivilegedError (List Text)
    → Result PrivilegedError (List Text)
    → List Text
    → Result PrivilegedError (Unit {0})
unfolding check_dependencies otool_dependencies
validate_bundled_dependencies worker load_commands libraries allowed_names = do
  commands ← load_commands
  rpaths ← otool_rpaths commands
  raise_if (not (length rpaths == 0)) unsupported_rpath
  raise_if (length allowed_names == 0) libraries_missing
  lines ← libraries
  check_dependencies worker allowed_names (otool_dependencies lines)
