-- ===== src/Privileged/Bundle/Tests.antt =====
-- Bundling of two libraries that depend on each other.
use meraki_openconnect.Prelude.{
  ◌≤◌, ◌≡◌, refl, Bool, true, false, is_some, some, List, [], ◌∷◌, Text, codes, text_eq, ok, arith,
  length,
}
use meraki_openconnect.Ip.{parts, split}
use meraki_openconnect.Paths.{path_name}
use meraki_openconnect.Privileged.Bundle.{Machine, bundle_native_runtime}
use meraki_openconnect.Privileged.Bundle.Closed.{
  IsSelfContained, bundle_native_runtime-IsSelfContained,
}
use meraki_openconnect.Privileged.Bundle.Ends.{AreNamed, IsBounded, bundle_native_runtime_ends}

abbrev library_a : Text
library_a = codes "/opt/homebrew/lib/a.dylib"

abbrev library_b : Text
library_b = codes "/opt/homebrew/lib/b.dylib"

abbrev worker : Text
worker = codes "/tmp/worker"

-- The worker and b depend on a, and a on b and on a system library.
abbrev dependencies_of : Bool → List Text
dependencies_of true = library_b ∷ codes "/usr/lib/z" ∷ []
dependencies_of false = library_a ∷ []

abbrev machine : Machine
machine = record {
  resolve = λ d. some d;
  rpaths = λ path. ok [];
  dependencies = λ path. ok (dependencies_of (text_eq path library_a));
}

abbrev names : List Text
names = codes "a.dylib" ∷ codes "b.dylib" ∷ codes "z" ∷ []

named : (b : Bool) → AreNamed 2 names (dependencies_of b) × (length (dependencies_of b) ≤ 2)
unfolding path_name parts split
named true = ((refl, (refl, tt)), omega arith)
named false = ((refl, tt), omega arith)

bounded : IsBounded 2 names machine
bounded path = named (text_eq path library_a)

bundle_native_runtime_ends_example : is_some (bundle_native_runtime machine 8 worker) ≡ true
bundle_native_runtime_ends_example =
    bundle_native_runtime_ends 2 names machine bounded 8 worker (omega arith)

bundle_native_runtime-IsSelfContained_example :
    IsSelfContained machine worker (bundle_native_runtime machine 8 worker)
bundle_native_runtime-IsSelfContained_example =
    bundle_native_runtime-IsSelfContained machine 8 worker
