-- ===== src/Tunnel/Run.antt =====
-- `run_tunnel` of tunnel.py: the loop over the worker's frames, its handlers and its `finally`.
pub mod Startup
pub mod Cleanup
pub mod Retains
pub mod Stops
pub mod Known
pub mod Sound
pub mod Grounds
pub mod Justified
pub mod Interrupt
mod Tests
use meraki_openconnect.Prelude.{
  ℕ, Bool, true, false, not, ◌&&◌, ◌||◌, Option, none, some, List, [], ◌∷◌, ◌++◌, Text, codes,
  text_eq, Result, ok, err, all, is_some, if◌then◌else◌,
}
use meraki_openconnect.Health.{HealthCheckResult}
use meraki_openconnect.Profile.Model.{OrganizationProfile}
use meraki_openconnect.Readiness.{gateway_origin}
use meraki_openconnect.Tunnel.Errors.{
  TunnelError, Exn, tunnel_error, eof, os_error, keyboard_interrupt, dns_setup, cleanup_timed_out,
  cleanup_protocol, cleanup_failed, invalid_stage, unexpected_webview, repeated_connected,
  identity_unverified, verification_failed, invalid_failure, worker_failed, early_disconnect,
  unexpected_message, cancelled, exited_unconfirmed,
}
use meraki_openconnect.Tunnel.Frame.{
  Frame, MessageType, webview_required, stage, connected, failed, disconnected, webview_result,
  cancel, make_frame, raised,
}
use meraki_openconnect.Tunnel.Session.{
  TunnelSession, field, is_stage, is_failure, session_from_frame, webview_url_is_allowed,
}
use meraki_openconnect.Tunnel.World.{
  Event, arrives, breaks, silence, World, asked, checked, reported, vpn_disconnect, dns_connect,
  dns_disconnect, M, ◌>>=◌, ◌>>◌, pure, raise, fail, lift, catch, gets, log, when, set_completed,
  set_resolver, set_connected,
}
use meraki_openconnect.Tunnel.Helper.{
  Environment, is_ok, run_privileged_operation, verify_worker, write, save, clear, close,
}

abbrev pub cancel_frame : Frame
cancel_frame = record { type = cancel; fields = [] }

-- Both tests on a stage or a failure that `_cancel_and_confirm` passes over.
abbrev pub passed_over : Frame → Bool
passed_over frame = elim frame.type [
  | stage ↦ is_stage (field frame 0)
  | failed ↦ is_stage (field frame 0) && is_failure (field frame 1)
  | _ ↦ false
]

abbrev pub is_disconnected : Frame → Bool
is_disconnected frame = elim frame.type [ disconnected ↦ true | _ ↦ false ]

-- The loop of `_cancel_and_confirm`, whose reads wait 15 seconds.
pub confirm : List Event → Result Exn (Unit {0}) × List Event
confirm [] = (err eof, [])
confirm (silence ∷ rest) = (err (tunnel_error cleanup_timed_out), rest)
confirm (breaks e ∷ rest) = (err e, rest)
confirm (arrives frame ∷ rest) =
    let more = confirm rest in
    if is_disconnected frame
    then (ok tt, rest)
    else if passed_over frame
    then more
    else (err (tunnel_error cleanup_protocol), rest)

-- Reads of the confirmation loop take their events from the inbox.
pub await_confirmation : M (Unit {0})
unfolding confirm
await_confirmation w = let (r, rest) = confirm w.inbox in (r, record w { inbox = rest })

-- `except (BrokenPipeError, TunnelError, OSError): pass`
abbrev pub passes : Exn → M (Unit {0})
passes (tunnel_error e) = pure tt
passes os_error = pure tt
passes e = raise e

-- `except TunnelError: …` around a helper operation: whether it failed.
abbrev failed_with : Exn → M Bool
failed_with (tunnel_error e) = pure true
failed_with e = raise e

-- `except OSError: cleanup_failed = True`
abbrev failed_os : Exn → M Bool
failed_os os_error = pure true
failed_os e = raise e

-- `except (OSError, TunnelError): cleanup_failed = True`
abbrev failed_close : Exn → M Bool
failed_close (tunnel_error e) = pure true
failed_close os_error = pure true
failed_close e = raise e

-- After one turn of the loop: an exception, the returned session, or the rest of the loop.
abbrev pub turn_of :
    Result Exn (Option TunnelSession)
    → World
    → Result Exn TunnelSession × World
    → Result Exn TunnelSession × World
turn_of (err e) w next = (err e, w)
turn_of (ok (some session)) w next = (ok session, w)
turn_of (ok none) w next = next

abbrev pub session_or_early : Option TunnelSession → M TunnelSession
session_or_early none = fail early_disconnect
session_or_early (some session) = pure session

module _ (env : Environment) where
  -- `_cancel_and_confirm`
  pub cancel_and_confirm : M (Unit {0})
  cancel_and_confirm = do write env cancel_frame; await_confirmation

  -- `_cleanup_resolver_best_effort`
  pub cleanup_resolver : M Bool
  cleanup_resolver =
      catch (do run_privileged_operation env dns_disconnect; pure true)
        (λ e. failed_with e >>= λ b. pure (not b))

  -- `except _DnsSetupError` in the handler of CONNECTED.
  pub dns_setup_failed : Bool → TunnelError → TunnelSession → M (Unit {0})
  dns_setup_failed rollback_complete setup_error session = do
    catch (do cancel_and_confirm; set_completed) passes
    if rollback_complete then (do set_resolver false; clear env; fail setup_error) else do
      removed ← cleanup_resolver
      if removed
          then (do set_resolver false; clear env; fail cleanup_failed)
          else (do save env session; fail cleanup_failed)

  abbrev on_setup_error : TunnelSession → Exn → M (Unit {0})
  on_setup_error session (tunnel_error (dns_setup complete detail)) =
      dns_setup_failed complete (dns_setup complete detail) session
  on_setup_error session e = raise e

  run_health : TunnelSession → M (List HealthCheckResult)
  run_health session w = (env.health w.history session.interface, w)

  report : TunnelSession → M (Unit {0})
  report session w = (env.report w.history session, w)

  browser_token : Text → M Text
  browser_token url w = (env.browser_token w.history url, w)

  -- The health checks have failed: the worker is stopped, and then the resolver files go.
  pub abandon : M (Unit {0})
  abandon = do
    cancel_and_confirm
    set_completed
    removed ← cleanup_resolver
    when removed (do set_resolver false; clear env)
    fail verification_failed

  pub verdict : TunnelSession → Bool → M (Unit {0})
  verdict session all_passed = do
    log (checked all_passed)
    if all_passed then (do log (reported session); report session) else abandon

  -- The handler of CONNECTED once the resolver is set up.
  pub check_up : TunnelSession → M (Unit {0})
  check_up session = do
    save env session
    checks ← run_health session
    verdict session (all (λ (c : HealthCheckResult). c.passed) checks)

  -- The handler of CONNECTED from `resolver_installed = True` on.
  pub bring_up : TunnelSession → M (Unit {0})
  bring_up session = do
    set_resolver true
    catch (run_privileged_operation env dns_connect) (on_setup_error session)
    check_up session

  confirm_identity : TunnelSession → M (Unit {0})
  confirm_identity session = do
    genuine ← verify_worker env session.pid
    if genuine then bring_up session else fail identity_unverified

  -- The handler of CONNECTED.
  pub on_connected_frame : Text → Frame → M (Unit {0})
  on_connected_frame gateway frame = do
    already ← gets (λ w. is_some w.connected)
    when already (fail repeated_connected)
    session ← lift (session_from_frame frame gateway)
    set_connected session
    confirm_identity session

  -- The handler of WEBVIEW_REQUIRED once the URL is accepted.
  open_login : OrganizationProfile → Frame → M (Unit {0})
  open_login profile frame = do
    log (asked (field frame 0))
    token ← browser_token (field frame 0)
    result ← lift (
        raised (
          make_frame webview_result
            ((gateway_origin profile ++ profile.authentication.final_path) ∷ token ∷ [])))
    write env result

  -- The handler of WEBVIEW_REQUIRED.
  pub on_webview_frame : OrganizationProfile → Frame → M (Unit {0})
  on_webview_frame profile frame = do
    already ← gets (λ w. is_some w.connected)
    if already || not (webview_url_is_allowed (field frame 0) profile)
        then fail unexpected_webview
        else open_login profile frame

  -- The handler of DISCONNECTED, which returns.
  pub on_disconnected_frame : M TunnelSession
  on_disconnected_frame = do
    known ← gets (λ w. w.connected)
    session ← session_or_early known
    set_completed
    installed ← gets (λ w. w.resolver_installed)
    when installed (do run_privileged_operation env dns_disconnect; set_resolver false)
    clear env
    pure session

  -- One frame of the loop: `none` is `continue`.
  pub on_frame : OrganizationProfile → Frame → M (Option TunnelSession)
  on_frame profile frame = elim frame.type [
    | stage ↦ if is_stage (field frame 0) then pure none else fail invalid_stage
    | webview_required ↦ do on_webview_frame profile frame; pure none
    | connected ↦ do on_connected_frame profile.gateway.host frame; pure none
    | failed ↦
        if is_stage (field frame 0) && is_failure (field frame 1)
        then fail (worker_failed (field frame 0) (field frame 1))
        else fail invalid_failure
    | disconnected ↦ do session ← on_disconnected_frame; pure (some session)
    | _ ↦ fail unexpected_message
  ]

  -- `while True: frame = worker.read_frame() …`, over the events that are still to come.
  pub loop : OrganizationProfile → List Event → M TunnelSession
  loop profile [] w = (err eof, record w { inbox = [] })
  loop profile (silence ∷ rest) w = loop profile rest w
  loop profile (breaks e ∷ rest) w = (err e, record w { inbox = rest })
  loop profile (arrives frame ∷ rest) w =
      let (r, w') = on_frame profile frame (record w { inbox = rest }) in
      let next = loop profile rest w' in turn_of r w' next

  -- `except KeyboardInterrupt`
  pub on_interrupt : M TunnelSession
  on_interrupt = do
    catch
        (do
          cancel_and_confirm
          set_completed
          installed ← gets (λ w. w.resolver_installed)
          removed ← if installed then cleanup_resolver else pure false
          when removed (set_resolver false)
          remains ← gets (λ w. w.resolver_installed)
          when (not remains) (clear env))
        passes
    fail cancelled

  abbrev on_exception : Exn → M TunnelSession
  on_exception keyboard_interrupt = on_interrupt
  on_exception eof = fail exited_unconfirmed
  on_exception e = raise e

  -- The parts of `finally`; each tells whether the cleanup failed.
  pub stop_worker : M Bool
  stop_worker = do
    done ← gets (λ w. w.completed)
    if done then pure false else do
      catch (write env cancel_frame) passes
      catch (do run_privileged_operation env vpn_disconnect; pure false) failed_with

  pub drop_resolver : M Bool
  drop_resolver = do
    installed ← gets (λ w. w.resolver_installed)
    if installed
        then (do removed ← cleanup_resolver; when removed (set_resolver false); pure (not removed))
        else pure false

  pub clear_store : M Bool
  clear_store = do
    installed ← gets (λ w. w.resolver_installed)
    if installed then pure false else catch (do clear env; pure false) failed_os

  pub close_worker : M Bool
  close_worker = catch (do close env; pure false) failed_close

  -- `finally` after its first part.
  pub release : Bool → Result Exn TunnelSession → M TunnelSession
  release not_stopped r = do
    not_dropped ← drop_resolver
    not_cleared ← clear_store
    not_closed ← close_worker
    if not_stopped || not_dropped || not_cleared || not_closed then fail cleanup_failed else lift r

  -- `finally`: the outcome of the body stands, unless the cleanup fails or raises.
  pub finalize : Result Exn TunnelSession → M TunnelSession
  finalize r = do not_stopped ← stop_worker; release not_stopped r

  -- `run_tunnel` from its `try` on.
  pub attend : OrganizationProfile → M TunnelSession
  attend profile w =
      let (r, w') = catch (λ v. loop profile v.inbox v) on_exception w in finalize r w'
