-- ===== src/Tunnel/Run/Stops.antt =====
-- The worker is told to stop on every path, and its pipes are closed.
use meraki_openconnect.Prelude.{◌≡◌, ◌⊎◌, Bool, true, false, Result, err, arith, any}
use meraki_openconnect.Tunnel.Errors.{Exn, keyboard_interrupt}
use meraki_openconnect.Tunnel.Session.{TunnelSession}
use meraki_openconnect.Tunnel.World.{World, Effect, ran, closed, vpn_disconnect, ◌>>=◌, catch, when}
use meraki_openconnect.Tunnel.World.Relates.{IsPreorder, Relates, relates_rules}
use meraki_openconnect.Tunnel.Helper.{
  Environment, run_privileged_operation, write, clear, close, outcome,
}
use meraki_openconnect.Tunnel.Run.{
  stop_worker, drop_resolver, clear_store, close_worker, cleanup_resolver, release, finalize,
}
use meraki_openconnect.Tunnel.Run.Cleanup.{
  stop_worker-Settles, drop_resolver-Settles, clear_store-Settles,
}

abbrev is_stop : Effect → Bool
is_stop effect = elim effect [
  | ran operation b ↦ elim operation [ vpn_disconnect ↦ true | _ ↦ false ]
  | _ ↦ false
]

abbrev is_close : Effect → Bool
is_close effect = elim effect [ closed ↦ true | _ ↦ false ]

-- The helper has been asked to stop the worker; the worker's pipes have been closed.
abbrev pub was_stopped : World → Bool
was_stopped w = any is_stop w.history

abbrev pub was_closed : World → Bool
was_closed w = any is_close w.history

module _ (env : Environment) (w : World) where
  stop_worker_stops :
      ((stop_worker env w).0 ≡ err keyboard_interrupt)
      ⊎ ((w.completed ≡ true) ⊎ (was_stopped (stop_worker env w).1 ≡ true))
  unfolding stop_worker write run_privileged_operation outcome ◌>>=◌ catch when
  stop_worker_stops = ground arith

-- What has been done stays done.
abbrev Keeps : World → World → Type 0
Keeps u v = was_stopped u ≡ true → was_stopped v ≡ true

Keeps-order : IsPreorder Keeps
Keeps-order = record { reflexive = λ w h. h; transitive = λ u v w first second h. second (first h) }

module _ (env : Environment) where
  drop_resolver-Keeps : Relates Keeps (drop_resolver env)
  unfolding drop_resolver cleanup_resolver run_privileged_operation outcome ◌>>=◌ catch when
  drop_resolver-Keeps = record { at = λ w h. ground arith }

  clear_store-Keeps : Relates Keeps (clear_store env)
  unfolding clear_store clear ◌>>=◌ catch when
  clear_store-Keeps = record { at = λ w h. ground arith }

  close_worker-Keeps : Relates Keeps (close_worker env)
  unfolding close_worker close ◌>>=◌ catch when
  close_worker-Keeps = record { at = λ w h. ground arith }

  close_worker_closes : (w : World) → was_closed (close_worker env w).1 ≡ true
  unfolding close_worker close ◌>>=◌ catch when
  close_worker_closes w = ground arith

  release-Keeps : (b : Bool) (r : Result Exn TunnelSession) → Relates Keeps (release env b r)
  unfolding release
  release-Keeps b r =
      search
        (relates_rules, Keeps-order, drop_resolver-Keeps, clear_store-Keeps, close_worker-Keeps)
        depth 12

  release_closes :
      (b : Bool) (r : Result Exn TunnelSession) (w : World)
      → ((release env b r w).0 ≡ err keyboard_interrupt) ⊎ (was_closed (release env b r w).1 ≡ true)
  unfolding release ◌>>=◌
  release_closes b r w =
      let w₁ = (drop_resolver env w).1 in
      let w₂ = (clear_store env w₁).1 in
      ground
        (arith, drop_resolver-Settles env w, clear_store-Settles env w₁, close_worker_closes w₂)

  -- Unless an interrupt cuts the cleanup short, `finally` closes the pipes of the worker, and asks
  -- the helper to stop it where its disconnection has not been confirmed.
  pub finalize_stops :
      (r : Result Exn TunnelSession) (w : World)
      → ((finalize env r w).0 ≡ err keyboard_interrupt)
        ⊎ ((was_closed (finalize env r w).1 ≡ true)
            × ((w.completed ≡ true) ⊎ (was_stopped (finalize env r w).1 ≡ true)))
  unfolding finalize ◌>>=◌
  finalize_stops r w =
      let w₁ = (stop_worker env w).1 in
      ground (
        arith,
        stop_worker-Settles env w,
        stop_worker_stops env w,
        release_closes true r w₁,
        release_closes false r w₁,
        (release-Keeps true r).at w₁,
        (release-Keeps false r).at w₁,
      )
