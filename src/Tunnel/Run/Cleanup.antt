-- ===== src/Tunnel/Run/Cleanup.antt =====
-- What the `finally` of `run_tunnel` leaves behind, however the body ended.
use meraki_openconnect.Prelude.{
  ◌≡◌, ◌⊎◌, inl, inr, refl, Bool, true, false, Result, ok, err, arith, ap,
}
use meraki_openconnect.Profile.Model.{OrganizationProfile}
use meraki_openconnect.Tunnel.Errors.{Exn, tunnel_error, keyboard_interrupt, cleanup_failed}
use meraki_openconnect.Tunnel.Session.{TunnelSession}
use meraki_openconnect.Tunnel.World.{World, absent, ◌>>=◌, catch, when}
use meraki_openconnect.Tunnel.Helper.{
  Environment, run_privileged_operation, write, clear, close, outcome,
}
use meraki_openconnect.Tunnel.Run.Known.{IsSound}
use meraki_openconnect.Tunnel.Run.Sound.{body-IsSound}
use meraki_openconnect.Tunnel.Run.Retains.{IsKnown, stop_worker-IsKnown}
use meraki_openconnect.Tunnel.Run.{
  stop_worker, drop_resolver, clear_store, close_worker, cleanup_resolver, release, finalize,
  attend, loop, on_exception,
}

-- What a part of the cleanup may do: raise an interrupt, or tell whether it failed.
abbrev pub Settles : Result Exn Bool → Type 0
Settles (ok b) = Unit {0}
Settles (err e) = e ≡ keyboard_interrupt

pub Result-cases :
    (r : Result Exn Bool)
    → Settles r
    → (r ≡ err keyboard_interrupt) ⊎ ((r ≡ ok true) ⊎ (r ≡ ok false))
Result-cases (ok true) h = inr (inl refl)
Result-cases (ok false) h = inr (inr refl)
Result-cases (err e) h = inl (ap err h)

module _ (env : Environment) (w : World) where
  pub stop_worker-Settles : Settles (stop_worker env w).0
  unfolding stop_worker write run_privileged_operation outcome ◌>>=◌ catch when
  stop_worker-Settles = ground arith

  pub drop_resolver-Settles : Settles (drop_resolver env w).0
  unfolding drop_resolver cleanup_resolver run_privileged_operation outcome ◌>>=◌ catch when
  drop_resolver-Settles = ground arith

  pub clear_store-Settles : Settles (clear_store env w).0
  unfolding clear_store clear ◌>>=◌ catch when
  clear_store-Settles = ground arith

  pub close_worker-Settles : Settles (close_worker env w).0
  unfolding close_worker close ◌>>=◌ catch when
  close_worker-Settles = ground arith

  drop_resolver-false :
      IsKnown w
      → (drop_resolver env w).0 ≡ ok false
      → ((drop_resolver env w).1.resolver_installed ≡ false)
        × ((drop_resolver env w).1.resolver_files ≡ false)
  unfolding drop_resolver cleanup_resolver run_privileged_operation outcome ◌>>=◌ catch when
  drop_resolver-false k h = ground arith

  -- The state file goes once the resolver files have gone, and not before.
  clear_store-false :
      w.resolver_installed ≡ false
      → (clear_store env w).0 ≡ ok false
      → ((clear_store env w).1.file ≡ absent)
        × ((clear_store env w).1.resolver_files ≡ w.resolver_files)
  unfolding clear_store clear ◌>>=◌ catch when
  clear_store-false k h = ground arith

  close_worker_keeps :
      ((close_worker env w).1.file ≡ w.file)
      × ((close_worker env w).1.resolver_files ≡ w.resolver_files)
  unfolding close_worker close ◌>>=◌ catch when
  close_worker_keeps = ground arith

-- How `finally` ends: interrupted, with the error of a failed cleanup, or with the outcome of the
-- body and nothing left behind.
abbrev pub Ended : Result Exn TunnelSession → Result Exn TunnelSession → World → Type 0
Ended r r' w =
    (r' ≡ err keyboard_interrupt)
    ⊎ ((r' ≡ err (tunnel_error cleanup_failed))
        ⊎ ((r' ≡ r) × (w.resolver_files ≡ false) × (w.file ≡ absent)))

module _ (env : Environment) where
  release-Ended :
      (b : Bool) (r : Result Exn TunnelSession) (w : World)
      → IsKnown w
      → Ended r (release env b r w).0 (release env b r w).1
  unfolding release ◌>>=◌
  release-Ended b r w known =
      let w₁ = (drop_resolver env w).1 in
      let w₂ = (clear_store env w₁).1 in
      let d = drop_resolver-false env w known in
      let c = clear_store-false env w₁ in
      let k = close_worker_keeps env w₂ in
      elim (Result-cases (drop_resolver env w).0 (drop_resolver-Settles env w)) [
        | inl e ↦ inl (ground arith)
        | inr s ↦ elim (Result-cases (clear_store env w₁).0 (clear_store-Settles env w₁)) [
          | inl e ↦ inl (ground arith)
          | inr s' ↦ elim (Result-cases (close_worker env w₂).0 (close_worker-Settles env w₂)) [
            | inl e ↦ inl (ground arith)
            | inr s'' ↦ inr (ground (arith, d, c, k))
          ]
        ]
      ]

  finalize-Ended :
      (r : Result Exn TunnelSession) (w : World)
      → IsKnown w
      → Ended r (finalize env r w).0 (finalize env r w).1
  unfolding finalize ◌>>=◌
  finalize-Ended r w known =
      let w₁ = (stop_worker env w).1 in
      let known₁ = stop_worker-IsKnown env w known in
      ground (
        arith,
        stop_worker-Settles env w,
        release-Ended true r w₁ known₁,
        release-Ended false r w₁ known₁,
      )

  -- If, where the loop begins, resolver files may stand only where the local variable tells so and a
  -- session is connected, then however the run ends, unless an interrupt cuts the cleanup short or it
  -- reports a failed cleanup: no resolver files stand, the helper having removed, or rolled back, all
  -- that it placed, and no session stays recorded; the outcome is that of the body.
  pub attend-Ended :
      (profile : OrganizationProfile) (w : World)
      → IsSound w
      → Ended
          (catch (λ v. loop env profile v.inbox v) (on_exception env) w).0
          (attend env profile w).0
          (attend env profile w).1
  unfolding attend
  attend-Ended profile w sound = finalize-Ended _ _ (λ h. (body-IsSound env profile w sound h).0)
