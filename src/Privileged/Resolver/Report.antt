-- ===== src/Privileged/Resolver/Report.antt =====
-- What the controller of tunnel.py makes of the exit of `dns-connect`, and what stands in the files.
use meraki_openconnect.Prelude.{
  ℕ, zero, suc, ◌≡◌, ◌⊎◌, refl, sym, Bool, true, false, arith, List, Text, Result, ok, err,
}
use mathlib.Core.Path.{subst}
use meraki_openconnect.Tunnel.Errors.{Exn, tunnel_error, dns_setup}
use meraki_openconnect.Tunnel.World.{dns_connect}
use meraki_openconnect.Tunnel.Helper.{exited, outcome, diagnostic}
use meraki_openconnect.Privileged.Resolver.{Rule, State, Removals, Directories}
use meraki_openconnect.Privileged.Resolver
use meraki_openconnect.Privileged.Resolver.Connect.{dns_connect-restored}
use meraki_openconnect.Privileged.Resolver.Directory.{dns_connect_directory}
use meraki_openconnect.Privileged.Resolver.Placed.{IsPlaced, dns_connect-IsPlaced}

-- Every path holds what it held before; the resolver directory is as it was or was made.
abbrev pub IsRolledBack : State → State → Type 0
IsRolledBack s t =
    ((x : Text) → t.node x ≡ s.node x) × ((t.directory ≡ s.directory) ⊎ (t.directory ≡ true))

-- A success reports that every rule is in place, and an error whose rollback is complete that every
-- path holds what it held before.
pub Reported : List Rule → State → State → Result Exn (Unit {0}) → Type 0
Reported rules s t (ok u) = IsPlaced rules t
Reported rules s t (err (tunnel_error (dns_setup true detail))) = IsRolledBack s t
Reported rules s t (err e) = Unit

exited-Reported :
    (rules : List Rule) (s t : State) (code : ℕ) (stderr : Text)
    → (code ≡ 0 → IsPlaced rules t)
    → (code ≡ 1 → IsRolledBack s t)
    → Reported rules s t (outcome dns_connect (exited code stderr))
unfolding Reported outcome
exited-Reported rules s t zero stderr placed restored = placed refl
exited-Reported rules s t (suc zero) stderr placed restored = restored refl
exited-Reported rules s t (suc (suc n)) stderr placed restored =
    let h : outcome dns_connect (exited (suc (suc n)) stderr)
        ≡ err (tunnel_error (dns_setup false (diagnostic stderr))) =
      ground arith in
    subst (Reported rules s t) (sym h) tt

module _ (sha256_hex : List ℕ → Text) (removals : Removals) where
  -- Where the controller's `dns-connect` operation returns, every rule is in place; where it raises an
  -- error that says the rollback is complete, every path holds what it held before, but for the
  -- temporary files of the rules, of which nothing is said, and for the resolver directory, which may
  -- have been made.
  pub dns_connect-Reported :
      (verified : Bool) (safe : Directories) (rules : List Rule) (stop : ℕ) (s : State)
      (stderr : Text)
      → (let (code, t) = Resolver.dns_connect sha256_hex removals verified safe rules stop s in
          Reported rules s t (outcome dns_connect (exited code stderr)))
  dns_connect-Reported verified safe rules stop s stderr =
      let (code, t) = Resolver.dns_connect sha256_hex removals verified safe rules stop s in
      exited-Reported rules s t code stderr
        (dns_connect-IsPlaced sha256_hex removals verified safe rules stop s)
        (λ e. (
          λ x. dns_connect-restored sha256_hex removals x verified safe rules stop s e,
          dns_connect_directory sha256_hex removals verified safe rules stop s,
        ))
