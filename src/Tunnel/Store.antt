-- ===== src/Tunnel/Store.antt =====
-- `TunnelStore.load` and `TunnelStore.load_verified` of tunnel.py, and `disconnect_tunnel`.
use meraki_openconnect.Prelude.{
  ◌≡◌, ◌⊎◌, refl, Bool, true, false, ◌&&◌, Option, none, some, ◌∷◌, Text, text_eq, Result, ok, err,
  arith, length, leb, ltb, if◌then◌else◌,
}
use meraki_openconnect.Tunnel.Errors.{
  Exn, TunnelError, tunnel_error, os_error, keyboard_interrupt, state_invalid, not_disconnected,
}
use meraki_openconnect.Tunnel.Session.{TunnelSession}
use meraki_openconnect.Tunnel.World.{
  World, cleared, verified, ran, vpn_disconnect, StateFile, absent, unreadable, holds, M, ◌>>=◌,
  ◌>>◌, pure, raise, fail, lift, gets, catch,
}
use meraki_openconnect.Tunnel.Frame.{raised}
use meraki_openconnect.Tunnel.Helper.{
  Environment, verify_worker, clear, clear_legacy, run_privileged_operation,
}

-- The tests of `TunnelStore.load` on a session that was read. A pid below 2 is refused.
pub is_recorded_for : Option Text → TunnelSession → Bool
is_recorded_for none session = ltb 1 session.pid && leb 1 (length session.gateway)
is_recorded_for (some gateway) session =
    ltb 1 session.pid && leb 1 (length session.gateway) && text_eq session.gateway gateway

-- What `TunnelStore.load` makes of the state file.
pub read_state : Option Text → StateFile → Result TunnelError (Option TunnelSession)
unfolding is_recorded_for
read_state gateway absent = ok none
read_state gateway unreadable = err state_invalid
read_state gateway (holds session) =
    if is_recorded_for gateway session then ok (some session) else err state_invalid

pub read_state-none :
    (gateway : Option Text) (file : StateFile) → read_state gateway file ≡ ok none → file ≡ absent
unfolding read_state
read_state-none gateway absent h = refl
read_state-none gateway unreadable h = cc
read_state-none gateway (holds session) h = ground arith

read_state-some :
    (gateway : Option Text) (file : StateFile) (session : TunnelSession)
    → read_state gateway file ≡ ok (some session)
    → (file ≡ holds session) × (is_recorded_for gateway session ≡ true)
unfolding read_state
read_state-some gateway absent session h = cc
read_state-some gateway unreadable session h = cc
read_state-some gateway (holds s) session h = ground arith

abbrev not_stopped : Exn → M (Unit {0})
not_stopped (tunnel_error e) = fail not_disconnected
not_stopped e = raise e

module _ (env : Environment) where
  abbrev keep_or_clear : TunnelSession → Bool → M (Option TunnelSession)
  keep_or_clear session true = pure (some session)
  keep_or_clear session false = do clear env; pure none

  abbrev verify_found : Option TunnelSession → M (Option TunnelSession)
  verify_found none = pure none
  verify_found (some session) = do
    genuine ← verify_worker env session.pid
    keep_or_clear session genuine

  -- `TunnelStore.load(expected_gateway)`
  unfoldable pub load : Option Text → M (Option TunnelSession)
  unfolding read_state
  load gateway = do
    clear_legacy env
    loaded ← gets (λ w. read_state gateway w.file)
    lift (raised loaded)

  -- `TunnelStore.load_verified`
  pub load_verified : Option Text → M (Option TunnelSession)
  load_verified gateway = do found ← load gateway; verify_found found

  -- `disconnect_tunnel`
  pub disconnect_tunnel : M (Unit {0})
  disconnect_tunnel = do catch (run_privileged_operation env vpn_disconnect) not_stopped; clear env

  keep_or_clear_lem :
      (session : TunnelSession) (b : Bool) (w : World)
      → w.file ≡ holds session
      → ((keep_or_clear session b w).0 ≡ ok none → (keep_or_clear session b w).1.file ≡ absent)
        × ((s : TunnelSession)
            → (keep_or_clear session b w).0 ≡ ok (some s)
            → ((keep_or_clear session b w).1.file ≡ holds s) × (b ≡ true))
  unfolding ◌>>=◌ clear
  keep_or_clear_lem session true w e = ground arith
  keep_or_clear_lem session false w e = ground arith

  load_verified_cases :
      (gateway : Option Text) (w : World)
      → ((load_verified gateway w).0 ≡ ok none → (load_verified gateway w).1.file ≡ absent)
        × ((s : TunnelSession)
            → (load_verified gateway w).0 ≡ ok (some s)
            → ((load_verified gateway w).1.file ≡ holds s)
              × (is_recorded_for gateway s ≡ true)
              × ((load_verified gateway w).1.history ≡ verified s.pid true ∷ w.history))
  unfolding load_verified load clear_legacy ◌>>=◌ verify_worker clear
  load_verified_cases gateway w =
      ground (arith, read_state-none gateway w.file, read_state-some gateway w.file)

  -- How `load_verified` ends in the second world, begun in the first.
  abbrev pub Loaded : Option Text → World → Result Exn (Option TunnelSession) → World → Type 0
  Loaded gateway w (ok none) w' = w'.file ≡ absent
  Loaded gateway w (ok (some s)) w' =
      (w'.file ≡ holds s)
      × (is_recorded_for gateway s ≡ true)
      × (w'.history ≡ verified s.pid true ∷ w.history)
  Loaded gateway w (err e) w' = Unit

  Loaded-cases :
      (gateway : Option Text) (w : World) (r : Result Exn (Option TunnelSession)) (w' : World)
      → (r ≡ ok none → w'.file ≡ absent)
      → ((s : TunnelSession)
          → r ≡ ok (some s)
          → (w'.file ≡ holds s)
            × (is_recorded_for gateway s ≡ true)
            × (w'.history ≡ verified s.pid true ∷ w.history))
      → Loaded gateway w r w'
  Loaded-cases gateway w (ok none) w' h k = h refl
  Loaded-cases gateway w (ok (some s)) w' h k = k s refl
  Loaded-cases gateway w (err e) w' h k = tt

  -- A session that `load_verified` returns is the recorded one, belongs to the gateway, if one is
  -- expected, and its process was verified by the only thing done but the removal of legacy files.
  -- Where it returns none, no session stays recorded.
  pub load_verified-Loaded :
      (gateway : Option Text) (w : World)
      → Loaded gateway w (load_verified gateway w).0 (load_verified gateway w).1
  load_verified-Loaded gateway w =
      let (absent_after, held) = load_verified_cases gateway w in
      Loaded-cases gateway w _ _ absent_after held

  -- How `disconnect_tunnel` ends in the second world, begun in the first.
  abbrev pub Disconnected : World → Result Exn (Unit {0}) → World → Type 0
  Disconnected w (ok u) w' =
      (w'.file ≡ absent) × (w'.history ≡ cleared ∷ ran vpn_disconnect true ∷ w.history)
  Disconnected w (err (tunnel_error e)) w' =
      (e ≡ not_disconnected)
      × (w'.file ≡ w.file)
      × (w'.history ≡ ran vpn_disconnect false ∷ w.history)
  Disconnected w (err keyboard_interrupt) w' =
      (w'.file ≡ w.file) × (w'.history ≡ ran vpn_disconnect false ∷ w.history)
  Disconnected w (err os_error) w' =
      ((w'.file ≡ w.file) × (w'.history ≡ ran vpn_disconnect true ∷ w.history))
      ⊎ ((w'.file ≡ absent) × (w'.history ≡ cleared ∷ ran vpn_disconnect true ∷ w.history))
  Disconnected w (err _) w' = ⊥

  -- Where `disconnect_tunnel` returns, the worker was told to stop and no session stays recorded. The
  -- tunnel error that it raises is the one for a failed disconnection, and the recorded session is
  -- left, as it is by an interrupt. An `OSError` comes from the clearing once the worker was told to
  -- stop, and leaves the record or has removed it. Nothing else is raised.
  pub disconnect_tunnel-Disconnected :
      (w : World) → Disconnected w (disconnect_tunnel w).0 (disconnect_tunnel w).1
  unfolding disconnect_tunnel ◌>>=◌ catch run_privileged_operation clear
  disconnect_tunnel-Disconnected w = ground arith
