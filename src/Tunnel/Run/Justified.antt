-- ===== src/Tunnel/Run/Justified.antt =====
-- The grounds of `Grounds`, carried through the whole run.
use meraki_openconnect.Prelude.{
  ◌≡◌, refl, Bool, true, false, not, ◌&&◌, ◌||◌, Option, none, some, List, [], ◌∷◌, ◌++◌, Text,
  Result, ok, err, arith, if◌then◌else◌,
}
use meraki_openconnect.Profile.Model.{OrganizationProfile}
use meraki_openconnect.Readiness.{gateway_origin}
use meraki_openconnect.Tunnel.Errors.{
  Exn, keyboard_interrupt, unexpected_webview, identity_unverified,
}
use meraki_openconnect.Tunnel.Frame.{
  Frame, MessageType, webview_required, stage, connected, failed, disconnected, webview_result,
  make_frame, raised,
}
use meraki_openconnect.Tunnel.Session.{TunnelSession, field, webview_url_is_allowed}
use meraki_openconnect.Tunnel.World.{
  World, Event, arrives, breaks, silence, Effect, verified, asked, fail, lift, ◌>>=◌,
}
use meraki_openconnect.Tunnel.World.Relates.{
  Relates, relates_rules, Relates-bind, Relates-gets, Relates-catch,
}
use meraki_openconnect.Tunnel.Helper.{Environment, verify_worker, write, is_worker_line}
use meraki_openconnect.Tunnel.Run.{
  browser_token, bring_up, confirm_identity, open_login, on_connected_frame, on_webview_frame,
  on_disconnected_frame, on_frame, loop, on_interrupt, on_exception, stop_worker, drop_resolver,
  clear_store, close_worker, release, finalize, attend, turn_of, session_or_early,
}
use meraki_openconnect.Tunnel.Run.Grounds.{
  IsJustified, Justifies, Justifies-order, set_completed-Justifies, set_resolver-Justifies,
  set_connected-Justifies, run_privileged_operation-Justifies, write-Justifies, clear-Justifies,
  close-Justifies, passes-Justifies, failed_with-Justifies, failed_os-Justifies,
  failed_close-Justifies, cancel_and_confirm-Justifies, cleanup_resolver-Justifies,
  bring_up-Justifies,
}

module _ (profile : OrganizationProfile) (env : Environment) where
  -- The handler of CONNECTED from the verification of the process on.
  verified_next :
      (s : TunnelSession) (b : Bool) (w : World) (older : List Effect)
      → w.history ≡ verified s.pid b ∷ older
      → IsJustified profile w.history
      → IsJustified profile (if b then bring_up env s w else fail identity_unverified w).1.history
  unfolding ◌>>=◌
  verified_next s true w older e h = bring_up-Justifies profile env s w older e h
  verified_next s false w older e h = h

  confirm_identity-Justifies :
      (s : TunnelSession) → Relates (Justifies profile) (confirm_identity env s)
  unfolding confirm_identity ◌>>=◌ verify_worker
  confirm_identity-Justifies s = record {
    at = λ w h.
        let b = (env.ps w.history s.pid).1 && is_worker_line (env.ps w.history s.pid).0 in
        let w' = record w { history = verified s.pid b ∷ w.history } in
        ground (arith, verified_next s b w' w.history refl h);
  }

  on_connected_frame-Justifies :
      (gateway : Text) (frame : Frame)
      → Relates (Justifies profile) (on_connected_frame env gateway frame)
  unfolding on_connected_frame
  on_connected_frame-Justifies gateway frame =
      search (relates_rules, Justifies-order, set_connected-Justifies, confirm_identity-Justifies)
        depth 12

  browser_token-Justifies : (url : Text) → Relates (Justifies profile) (browser_token env url)
  unfolding browser_token
  browser_token-Justifies url = record { at = λ w h. h }

  answer_login-Justifies :
      (frame : Frame)
      → Relates (Justifies profile) (do
        token ← browser_token env (field frame 0)
        result ← lift (
            raised (
              make_frame webview_result
                ((gateway_origin profile ++ profile.authentication.final_path) ∷ token ∷ [])))
        write env result)
  answer_login-Justifies frame =
      search (relates_rules, Justifies-order, browser_token-Justifies, write-Justifies) depth 12

  open_login-Justifies :
      (frame : Frame)
      → webview_url_is_allowed (field frame 0) profile ≡ true
      → Relates (Justifies profile) (open_login env profile frame)
  unfolding open_login ◌>>=◌
  open_login-Justifies frame allowed = record {
    at = λ w h.
        (answer_login-Justifies frame).at (record w { history = asked (field frame 0) ∷ w.history })
          (allowed, h);
  }

  checked_login :
      (already allowed : Bool) (frame : Frame)
      → webview_url_is_allowed (field frame 0) profile ≡ allowed
      → Relates
          (Justifies profile)
          (if already || not allowed then fail unexpected_webview else open_login env profile frame)
  checked_login true allowed frame e = search (relates_rules, Justifies-order)
  checked_login false true frame e = open_login-Justifies frame e
  checked_login false false frame e = search (relates_rules, Justifies-order)

  on_webview_frame-Justifies :
      (frame : Frame) → Relates (Justifies profile) (on_webview_frame env profile frame)
  unfolding on_webview_frame
  on_webview_frame-Justifies frame =
      Relates-bind (Justifies-order profile) _ _ (Relates-gets (Justifies-order profile) _)
        (λ already. checked_login already _ frame refl)

  session_or_early-Justifies :
      (known : Option TunnelSession) → Relates (Justifies profile) (session_or_early known)
  session_or_early-Justifies none = search (relates_rules, Justifies-order)
  session_or_early-Justifies (some s) = search (relates_rules, Justifies-order)

  on_disconnected_frame-Justifies : Relates (Justifies profile) (on_disconnected_frame env)
  unfolding on_disconnected_frame
  on_disconnected_frame-Justifies =
      search
        (
          relates_rules, Justifies-order, session_or_early-Justifies, set_completed-Justifies,
          set_resolver-Justifies, run_privileged_operation-Justifies, clear-Justifies,
        )
        depth 14

  frame_of :
      (type : MessageType) (fields : List Text)
      → Relates (Justifies profile) (on_frame env profile (record { type = type; fields = fields }))
  unfolding on_frame
  frame_of stage fields = search (relates_rules, Justifies-order)
  frame_of webview_required fields =
      search (relates_rules, Justifies-order, on_webview_frame-Justifies)
  frame_of connected fields = search (relates_rules, Justifies-order, on_connected_frame-Justifies)
  frame_of failed fields = search (relates_rules, Justifies-order)
  frame_of disconnected fields =
      search (relates_rules, Justifies-order, on_disconnected_frame-Justifies)
  frame_of _ fields = search (relates_rules, Justifies-order)

  turned :
      (r : Result Exn (Option TunnelSession)) (w : World) (next : Result Exn TunnelSession × World)
      → Justifies profile w next.1
      → Justifies profile w (turn_of r w next).1
  turned (err e) w next step h = h
  turned (ok none) w next step h = step h
  turned (ok (some s)) w next step h = h

  loop-Justifies :
      (events : List Event) (w : World) → Justifies profile w (loop env profile events w).1
  unfolding loop
  loop-Justifies [] w h = h
  loop-Justifies (silence ∷ rest) w h = loop-Justifies rest w h
  loop-Justifies (breaks e ∷ rest) w h = h
  loop-Justifies (arrives frame ∷ rest) w h =
      let r = on_frame env profile frame (record w { inbox = rest }) in
      turned r.0 r.1 (loop env profile rest r.1) (loop-Justifies rest r.1)
        ((frame_of frame.type frame.fields).at (record w { inbox = rest }) h)

  on_interrupt-Justifies : Relates (Justifies profile) (on_interrupt env)
  unfolding on_interrupt
  on_interrupt-Justifies =
      search
        (
          relates_rules, Justifies-order, cancel_and_confirm-Justifies, set_completed-Justifies,
          cleanup_resolver-Justifies, set_resolver-Justifies, clear-Justifies, passes-Justifies,
        )
        depth 14

  on_exception-Justifies : (e : Exn) → Relates (Justifies profile) (on_exception env e)
  on_exception-Justifies keyboard_interrupt = on_interrupt-Justifies
  on_exception-Justifies _ = search (relates_rules, Justifies-order)

  stop_worker-Justifies : Relates (Justifies profile) (stop_worker env)
  unfolding stop_worker
  stop_worker-Justifies =
      search
        (
          relates_rules, Justifies-order, write-Justifies, run_privileged_operation-Justifies,
          passes-Justifies, failed_with-Justifies,
        )
        depth 12

  drop_resolver-Justifies : Relates (Justifies profile) (drop_resolver env)
  unfolding drop_resolver
  drop_resolver-Justifies =
      search (relates_rules, Justifies-order, cleanup_resolver-Justifies, set_resolver-Justifies)
        depth 12

  clear_store-Justifies : Relates (Justifies profile) (clear_store env)
  unfolding clear_store
  clear_store-Justifies =
      search (relates_rules, Justifies-order, clear-Justifies, failed_os-Justifies) depth 12

  close_worker-Justifies : Relates (Justifies profile) (close_worker env)
  unfolding close_worker
  close_worker-Justifies =
      search (relates_rules, Justifies-order, close-Justifies, failed_close-Justifies) depth 12

  finalize-Justifies : (r : Result Exn TunnelSession) → Relates (Justifies profile) (finalize env r)
  unfolding finalize release
  finalize-Justifies r =
      search
        (
          relates_rules, Justifies-order, stop_worker-Justifies, drop_resolver-Justifies,
          clear_store-Justifies, close_worker-Justifies,
        )
        depth 14

  loop_action-Justifies : Relates (Justifies profile) (λ v. loop env profile v.inbox v)
  loop_action-Justifies = record { at = λ w. loop-Justifies w.inbox w }

  -- If the history of a world is justified, so is that after a run: a session is reported only
  -- directly after its process was verified, the resolver was set up, the session was saved and
  -- all health checks passed, and only a login page that the profile allows is opened.
  pub attend-IsJustified :
      (w : World)
      → IsJustified profile w.history
      → IsJustified profile (attend env profile w).1.history
  unfolding attend
  attend-IsJustified w h =
      let body =
        (Relates-catch (Justifies-order profile) _ _ loop_action-Justifies
            on_exception-Justifies).at
          w h in
      (finalize-Justifies _).at _ body
