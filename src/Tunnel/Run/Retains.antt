-- ===== src/Tunnel/Run/Retains.antt =====
-- The state file goes only after the resolver files.
use meraki_openconnect.Prelude.{◌≡◌, refl, ◌∙◌, true, Result, arith}
use meraki_openconnect.Tunnel.Errors.{Exn}
use meraki_openconnect.Tunnel.Session.{TunnelSession}
use meraki_openconnect.Tunnel.World.{World, ◌>>=◌, catch, when}
use meraki_openconnect.Tunnel.World.Relates.{IsPreorder, Relates, relates_rules}
use meraki_openconnect.Tunnel.Helper.{
  Environment, run_privileged_operation, write, clear, close, outcome,
}
use meraki_openconnect.Tunnel.Run.{
  stop_worker, drop_resolver, clear_store, close_worker, cleanup_resolver, release, finalize,
}

-- The local variable of the run tells of the resolver files that may stand.
abbrev pub IsKnown : World → Type 0
IsKnown w = w.resolver_files ≡ true → w.resolver_installed ≡ true

-- Where it told of them before, then it does so after, and while resolver files may stand, they did
-- before and the state file is as it was.
abbrev Retains : World → World → Type 0
Retains u v =
    IsKnown u
    → v.resolver_files ≡ true
    → (v.resolver_installed ≡ true) × (u.resolver_files ≡ true) × (v.file ≡ u.file)

Retains-order : IsPreorder Retains
Retains-order = record {
  reflexive = λ w k h. (k h, h, refl);
  transitive = λ u v w first second k h.
      let known : IsKnown v = λ g. (first k g).0 in
      let (installed, stood, same) = second known h in
      let (_, before, as_before) = first k stood in (installed, before, same ∙ as_before);
}

module _ (env : Environment) where
  stop_worker-Retains : Relates Retains (stop_worker env)
  unfolding stop_worker write run_privileged_operation outcome ◌>>=◌ catch when
  stop_worker-Retains = record { at = λ w k h. ground arith }

  drop_resolver-Retains : Relates Retains (drop_resolver env)
  unfolding drop_resolver cleanup_resolver run_privileged_operation outcome ◌>>=◌ catch when
  drop_resolver-Retains = record { at = λ w k h. ground arith }

  clear_store-Retains : Relates Retains (clear_store env)
  unfolding clear_store clear ◌>>=◌ catch when
  clear_store-Retains = record { at = λ w k h. ground arith }

  close_worker-Retains : Relates Retains (close_worker env)
  unfolding close_worker close ◌>>=◌ catch when
  close_worker-Retains = record { at = λ w k h. ground arith }

  finalize-Retains : (r : Result Exn TunnelSession) → Relates Retains (finalize env r)
  unfolding finalize release
  finalize-Retains r =
      search
        (
          relates_rules, Retains-order, stop_worker-Retains, drop_resolver-Retains,
          clear_store-Retains, close_worker-Retains,
        )
        depth 12

  pub stop_worker-IsKnown : (w : World) → IsKnown w → IsKnown (stop_worker env w).1
  stop_worker-IsKnown w k h = (stop_worker-Retains.at w k h).0

  -- Where the local variable of a run tells of the resolver files that may stand, and such files may
  -- still stand when `finally` ends, the state file is as it was before.
  pub finalize_retains :
      (r : Result Exn TunnelSession) (w : World)
      → IsKnown w
      → (finalize env r w).1.resolver_files ≡ true
      → (finalize env r w).1.file ≡ w.file
  finalize_retains r w k h = ((finalize-Retains r).at w k h).2
