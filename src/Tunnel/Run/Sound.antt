-- ===== src/Tunnel/Run/Sound.antt =====
-- What a run knows of the resolver files, from its loop to the beginning of its `finally`.
use meraki_openconnect.Prelude.{
  ◌≡◌, refl, Bool, true, false, ◌&&◌, Option, none, some, List, [], ◌∷◌, Text, Result, ok, err,
  arith, is_some, inl, inr, Bool-cases, if◌then◌else◌,
}
use meraki_openconnect.Profile.Model.{OrganizationProfile}
use meraki_openconnect.Tunnel.Errors.{Exn, keyboard_interrupt, identity_unverified}
use meraki_openconnect.Tunnel.Frame.{
  Frame, MessageType, webview_required, stage, connected, failed, disconnected,
}
use meraki_openconnect.Tunnel.Session.{TunnelSession, session_from_frame}
use meraki_openconnect.Tunnel.World.{
  World, verified, Event, arrives, breaks, silence, M, ◌>>=◌, catch, when, fail, lift, set_resolver,
  set_connected, ◌>>◌, dns_disconnect,
}
use meraki_openconnect.Tunnel.World.Relates.{IsPreorder, Relates, relates_rules, Relates-catch}
use meraki_openconnect.Tunnel.Helper.{
  is_worker_line, Environment, run_privileged_operation, verify_worker, outcome,
}
use meraki_openconnect.Tunnel.Run.{
  browser_token, bring_up, confirm_identity, open_login, on_connected_frame, on_webview_frame,
  on_disconnected_frame, on_frame, loop, turn_of, on_exception, session_or_early,
}
use meraki_openconnect.Tunnel.Run.Known.{
  IsSound, IsGone, gone-IsSound, Keeps, Keeps-order, set_completed-Keeps, log-Keeps, write-Keeps,
  clear-Keeps, on_interrupt-Keeps, bring_up-IsSound,
}

-- What is sound stays so.
abbrev Sounds : World → World → Type 0
Sounds u v = IsSound u → IsSound v

Sounds-order : IsPreorder Sounds
Sounds-order = record {
  reflexive = λ w h. h;
  transitive = λ u v w first second h. second (first h);
}

sound : {A : Type 0} {m : M A} → Relates Keeps m → Relates Sounds m
sound r = record { at = λ w. (r.at w).0 }

module _ (env : Environment) where
  confirmed_next :
      (s : TunnelSession) (b : Bool) (w : World)
      → IsGone w
      → is_some w.connected ≡ true
      → IsSound (if b then bring_up env s w else fail identity_unverified w).1
  unfolding ◌>>=◌
  confirmed_next s true w g c = bring_up-IsSound env s w g c
  confirmed_next s false w g c = gone-IsSound w g

  confirm_identity-IsSound :
      (s : TunnelSession) (w : World)
      → IsGone w
      → is_some w.connected ≡ true
      → IsSound (confirm_identity env s w).1
  unfolding confirm_identity ◌>>=◌ verify_worker
  confirm_identity-IsSound s w g c =
      let b = (env.ps w.history s.pid).1 && is_worker_line (env.ps w.history s.pid).0 in
      ground (arith, confirmed_next s b (record w { history = verified s.pid b ∷ w.history }) g c)

  -- A second session is refused, and before the first no resolver files stand.
  not_connected : (w : World) → IsSound w → is_some w.connected ≡ false → IsGone w
  not_connected w h n = elim (Bool-cases w.resolver_files) [
    | inl y ↦ ground (arith, (h y).1)
    | inr g ↦ g
  ]

  first_session :
      (r : Result Exn TunnelSession) (w : World)
      → IsGone w
      → IsSound ((lift r >>= λ s. set_connected s >>= λ _. confirm_identity env s) w).1
  unfolding ◌>>=◌
  first_session (ok s) w g = confirm_identity-IsSound s (record w { connected = some s }) g refl
  first_session (err e) w g = gone-IsSound w g

  on_connected_frame-IsSound :
      (gateway : Text) (frame : Frame) (w : World)
      → IsSound w
      → IsSound (on_connected_frame env gateway frame w).1
  unfolding on_connected_frame ◌>>=◌ when
  on_connected_frame-IsSound gateway frame w h = elim (Bool-cases (is_some w.connected)) [
    | inl y ↦ rw y h
    | inr n ↦ rw n (first_session (session_from_frame frame gateway) w (not_connected w h n))
  ]

  on_connected_frame-Sounds :
      (gateway : Text) (frame : Frame) → Relates Sounds (on_connected_frame env gateway frame)
  on_connected_frame-Sounds gateway frame = record { at = on_connected_frame-IsSound gateway frame }

  browser_token-Keeps : (url : Text) → Relates Keeps (browser_token env url)
  unfolding browser_token
  browser_token-Keeps url = record { at = λ w. (λ h. h, λ h. h) }

  open_login-Keeps :
      (profile : OrganizationProfile) (frame : Frame) → Relates Keeps (open_login env profile frame)
  unfolding open_login
  open_login-Keeps profile frame =
      search (relates_rules, Keeps-order, log-Keeps, browser_token-Keeps, write-Keeps) depth 12

  on_webview_frame-Keeps :
      (profile : OrganizationProfile) (frame : Frame)
      → Relates Keeps (on_webview_frame env profile frame)
  unfolding on_webview_frame
  on_webview_frame-Keeps profile frame =
      search (relates_rules, Keeps-order, open_login-Keeps) depth 9

  removed-Keeps : Relates Keeps (do run_privileged_operation env dns_disconnect; set_resolver false)
  unfolding run_privileged_operation outcome ◌>>=◌
  removed-Keeps = record { at = λ w. ground arith }

  session_or_early-Keeps : (known : Option TunnelSession) → Relates Keeps (session_or_early known)
  session_or_early-Keeps none = search (relates_rules, Keeps-order)
  session_or_early-Keeps (some s) = search (relates_rules, Keeps-order)

  on_disconnected_frame-Keeps : Relates Keeps (on_disconnected_frame env)
  unfolding on_disconnected_frame
  on_disconnected_frame-Keeps =
      search
        (
          relates_rules, Keeps-order, session_or_early-Keeps, set_completed-Keeps, removed-Keeps,
          clear-Keeps,
        )
        depth 14

  frame_of :
      (profile : OrganizationProfile) (type : MessageType) (fields : List Text)
      → Relates Sounds (on_frame env profile (record { type = type; fields = fields }))
  unfolding on_frame
  frame_of profile stage fields = search (relates_rules, Sounds-order)
  frame_of profile webview_required fields =
      sound (search (relates_rules, Keeps-order, on_webview_frame-Keeps))
  frame_of profile connected fields =
      search (relates_rules, Sounds-order, on_connected_frame-Sounds)
  frame_of profile failed fields = search (relates_rules, Sounds-order)
  frame_of profile disconnected fields =
      sound (search (relates_rules, Keeps-order, on_disconnected_frame-Keeps))
  frame_of profile _ fields = search (relates_rules, Sounds-order)

  turned :
      (r : Result Exn (Option TunnelSession)) (w : World) (next : Result Exn TunnelSession × World)
      → IsSound w
      → (IsSound w → IsSound next.1)
      → IsSound (turn_of r w next).1
  turned (err e) w next h step = h
  turned (ok none) w next h step = step h
  turned (ok (some s)) w next h step = h

  loop-IsSound :
      (profile : OrganizationProfile) (events : List Event) (w : World)
      → IsSound w
      → IsSound (loop env profile events w).1
  unfolding loop
  loop-IsSound profile [] w h = h
  loop-IsSound profile (silence ∷ rest) w h = loop-IsSound profile rest w h
  loop-IsSound profile (breaks e ∷ rest) w h = h
  loop-IsSound profile (arrives frame ∷ rest) w h =
      let r = on_frame env profile frame (record w { inbox = rest }) in
      turned r.0 r.1 (loop env profile rest r.1)
        ((frame_of profile frame.type frame.fields).at (record w { inbox = rest }) h)
        (loop-IsSound profile rest r.1)

  loop_action-Sounds :
      (profile : OrganizationProfile) → Relates Sounds (λ v. loop env profile v.inbox v)
  loop_action-Sounds profile = record { at = λ w. loop-IsSound profile w.inbox w }

  on_exception-Sounds : (e : Exn) → Relates Sounds (on_exception env e)
  on_exception-Sounds keyboard_interrupt = sound (on_interrupt-Keeps env)
  on_exception-Sounds _ = search (relates_rules, Sounds-order)

  -- The body of a run keeps what it knows of the resolver files.
  pub body-IsSound :
      (profile : OrganizationProfile) (w : World)
      → IsSound w
      → IsSound (catch (λ v. loop env profile v.inbox v) (on_exception env) w).1
  body-IsSound profile w h =
      (Relates-catch Sounds-order _ _ (loop_action-Sounds profile) on_exception-Sounds).at w h
