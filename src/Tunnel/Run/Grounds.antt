-- ===== src/Tunnel/Run/Grounds.antt =====
-- A tunnel is reported as connected, and a login page is opened, only on good grounds.
use meraki_openconnect.Prelude.{
  ℕ, ◌≡◌, refl, ap, Bool, true, false, List, [], ◌∷◌, Result, ok, err, arith, all,
}
use meraki_openconnect.Health.{HealthCheckResult}
use meraki_openconnect.Profile.Model.{OrganizationProfile}
use meraki_openconnect.Tunnel.Errors.{Exn, TunnelError, tunnel_error, dns_setup}
use meraki_openconnect.Tunnel.Frame.{Frame}
use meraki_openconnect.Tunnel.Session.{TunnelSession, webview_url_is_allowed}
use meraki_openconnect.Tunnel.World.{
  World, Effect, ran, verified, asked, checked, reported, saved, dns_connect, Operation, M, ◌>>=◌,
  catch, handle, continue, holds, set_completed, set_resolver, set_connected,
}
use meraki_openconnect.Tunnel.World.Relates.{IsPreorder, Relates, relates_rules}
use meraki_openconnect.Tunnel.Helper.{
  Environment, run_privileged_operation, verify_worker, write, save, clear, close, outcome, is_ok,
  remaining,
}
use meraki_openconnect.Tunnel.Run.{
  await_confirmation, passes, failed_with, failed_os, failed_close, cancel_and_confirm,
  cleanup_resolver, dns_setup_failed, run_health, report, abandon, verdict, check_up,
  on_setup_error, bring_up,
}

-- In the history, before (further down in the list) a session is reported: its process was
-- verified, the resolver was set up, the session was recorded and all health checks passed, in this
-- order with nothing between. A login page that was opened is the one that the profile allows.
abbrev pub IsJustified : OrganizationProfile → List Effect → Type 0
IsJustified profile [] = Unit
IsJustified profile (reported s ∷ h) =
    ((older : List Effect) × (h
        ≡ checked true ∷ saved s ∷ ran dns_connect true ∷ verified s.pid true ∷ older))
    × IsJustified profile h
IsJustified profile (asked url ∷ h) =
    (webview_url_is_allowed url profile ≡ true) × IsJustified profile h
IsJustified profile (_ ∷ h) = IsJustified profile h

module _ (profile : OrganizationProfile) where
  abbrev pub Justifies : World → World → Type 0
  Justifies u v = IsJustified profile u.history → IsJustified profile v.history

  pub Justifies-order : IsPreorder Justifies
  Justifies-order = record {
    reflexive = λ w h. h;
    transitive = λ u v w first second h. second (first h);
  }

  pub await_confirmation-Justifies : Relates Justifies await_confirmation
  unfolding await_confirmation
  await_confirmation-Justifies = record { at = λ w h. h }

  pub set_completed-Justifies : Relates Justifies set_completed
  unfolding ◌>>=◌
  set_completed-Justifies = record { at = λ w h. h }

  pub set_resolver-Justifies : (b : Bool) → Relates Justifies (set_resolver b)
  unfolding ◌>>=◌
  set_resolver-Justifies b = record { at = λ w h. h }

  pub set_connected-Justifies : (s : TunnelSession) → Relates Justifies (set_connected s)
  unfolding ◌>>=◌
  set_connected-Justifies s = record { at = λ w h. h }

  module _ (env : Environment) where
    pub run_privileged_operation-Justifies :
        (operation : Operation) → Relates Justifies (run_privileged_operation env operation)
    unfolding run_privileged_operation
    run_privileged_operation-Justifies operation = record { at = λ w h. h }

    pub verify_worker-Justifies : (pid : ℕ) → Relates Justifies (verify_worker env pid)
    unfolding verify_worker
    verify_worker-Justifies pid = record { at = λ w h. h }

    pub write-Justifies : (frame : Frame) → Relates Justifies (write env frame)
    unfolding write
    write-Justifies frame = record { at = λ w h. ground arith }

    save-Justifies : (s : TunnelSession) → Relates Justifies (save env s)
    unfolding save
    save-Justifies s = record { at = λ w h. ground arith }

    pub clear-Justifies : Relates Justifies (clear env)
    unfolding clear
    clear-Justifies = record { at = λ w h. ground arith }

    pub close-Justifies : Relates Justifies (close env)
    unfolding close
    close-Justifies = record { at = λ w h. ground arith }

    pub passes-Justifies : (e : Exn) → Relates Justifies (passes e)
    passes-Justifies (tunnel_error e) = search (relates_rules, Justifies-order)
    passes-Justifies _ = search (relates_rules, Justifies-order)

    pub failed_with-Justifies : (e : Exn) → Relates Justifies (failed_with e)
    failed_with-Justifies (tunnel_error e) = search (relates_rules, Justifies-order)
    failed_with-Justifies _ = search (relates_rules, Justifies-order)

    pub failed_os-Justifies : (e : Exn) → Relates Justifies (failed_os e)
    failed_os-Justifies (tunnel_error e) = search (relates_rules, Justifies-order)
    failed_os-Justifies _ = search (relates_rules, Justifies-order)

    pub failed_close-Justifies : (e : Exn) → Relates Justifies (failed_close e)
    failed_close-Justifies (tunnel_error e) = search (relates_rules, Justifies-order)
    failed_close-Justifies _ = search (relates_rules, Justifies-order)

    pub cancel_and_confirm-Justifies : Relates Justifies (cancel_and_confirm env)
    unfolding cancel_and_confirm
    cancel_and_confirm-Justifies =
        search (relates_rules, Justifies-order, write-Justifies, await_confirmation-Justifies)

    pub cleanup_resolver-Justifies : Relates Justifies (cleanup_resolver env)
    unfolding cleanup_resolver
    cleanup_resolver-Justifies =
        search
          (
            relates_rules, Justifies-order, run_privileged_operation-Justifies,
            failed_with-Justifies,
          )
          depth 9

    dns_setup_failed-Justifies :
        (b : Bool) (e : TunnelError) (s : TunnelSession)
        → Relates Justifies (dns_setup_failed env b e s)
    unfolding dns_setup_failed
    dns_setup_failed-Justifies b e s =
        search
          (
            relates_rules, Justifies-order, cancel_and_confirm-Justifies, set_completed-Justifies,
            passes-Justifies, set_resolver-Justifies, clear-Justifies, cleanup_resolver-Justifies,
            save-Justifies,
          )
          depth 12

    abandon-Justifies : Relates Justifies (abandon env)
    unfolding abandon
    abandon-Justifies =
        search
          (
            relates_rules, Justifies-order, cancel_and_confirm-Justifies, set_completed-Justifies,
            set_resolver-Justifies, clear-Justifies, cleanup_resolver-Justifies,
          )
          depth 12

    report-Justifies : (s : TunnelSession) → Relates Justifies (report env s)
    unfolding report
    report-Justifies s = record { at = λ w h. h }

    verdict-Justifies :
        (s : TunnelSession) (b : Bool) (w : World) (older : List Effect)
        → w.history ≡ saved s ∷ ran dns_connect true ∷ verified s.pid true ∷ older
        → IsJustified profile w.history
        → IsJustified profile (verdict env s b w).1.history
    unfolding verdict ◌>>=◌ report
    verdict-Justifies s true w older e h = ((older, ap (λ t. checked true ∷ t) e), h)
    verdict-Justifies s false w older e h =
        (abandon-Justifies).at (record w { history = checked false ∷ w.history }) h

    pub continue-Justifies :
        {A B : Type 0} (r : Result Exn A) (f : A → M B) (w : World)
        → IsJustified profile w.history
        → ((a : A) → IsJustified profile (f a w).1.history)
        → IsJustified profile (continue r f w).1.history
    continue-Justifies (ok a) f w h next = next a
    continue-Justifies (err e) f w h next = h

    check_up-Justifies :
        (s : TunnelSession) (w : World) (older : List Effect)
        → w.history ≡ ran dns_connect true ∷ verified s.pid true ∷ older
        → IsJustified profile w.history
        → IsJustified profile (check_up env s w).1.history
    unfolding check_up ◌>>=◌ run_health save
    check_up-Justifies s w older e h =
        let w' = record w { file = holds s; history = saved s ∷ w.history } in
        let healthy =
          continue-Justifies (env.health w'.history s.interface)
            (λ checks. verdict env s (all (λ (c : HealthCheckResult). c.passed) checks)) w' h
            (λ checks. verdict-Justifies s _ w' older (ap (λ t. saved s ∷ t) e) h) in
        ground (arith, healthy)

    on_setup_error-Justifies :
        (s : TunnelSession) (e : Exn) → Relates Justifies (on_setup_error env s e)
    on_setup_error-Justifies s (tunnel_error (dns_setup b d)) = dns_setup_failed-Justifies b _ s
    on_setup_error-Justifies s _ = search (relates_rules, Justifies-order)

    dns_setup_failed_raises :
        (b : Bool) (e : TunnelError) (s : TunnelSession) (w : World)
        → is_ok (dns_setup_failed env b e s w).0 ≡ false
    unfolding dns_setup_failed ◌>>=◌
    dns_setup_failed_raises true e s w = ground arith
    dns_setup_failed_raises false e s w = ground arith

    on_setup_error_raises :
        (s : TunnelSession) (e : Exn) (w : World) → is_ok (on_setup_error env s e w).0 ≡ false
    unfolding ◌>>=◌
    on_setup_error_raises s (tunnel_error (dns_setup b d)) w = dns_setup_failed_raises b _ s w
    on_setup_error_raises s _ w = refl

    continue_raised :
        {A B : Type 0} (r : Result Exn A) (f : A → M B) (w : World)
        → is_ok r ≡ false
        → IsJustified profile w.history
        → IsJustified profile (continue r f w).1.history
    continue_raised (ok a) f w e h = cc
    continue_raised (err x) f w e h = h

    connected_up :
        (s : TunnelSession) (r : Result Exn (Unit {0})) (w : World) (older : List Effect)
        → w.history ≡ ran dns_connect (is_ok r) ∷ verified s.pid true ∷ older
        → IsJustified profile w.history
        → IsJustified profile
            (let (r', w') = handle r (on_setup_error env s) w in
              continue r' (λ _. check_up env s) w').1.history
    connected_up s (ok a) w older e h = check_up-Justifies s w older e h
    connected_up s (err x) w older e h =
        continue_raised (on_setup_error env s x w).0 (λ _. check_up env s) _
          (on_setup_error_raises s x w) ((on_setup_error-Justifies s x).at w h)

    pub bring_up-Justifies :
        (s : TunnelSession) (w : World) (older : List Effect)
        → w.history ≡ verified s.pid true ∷ older
        → IsJustified profile w.history
        → IsJustified profile (bring_up env s w).1.history
    unfolding bring_up ◌>>=◌ catch run_privileged_operation
    bring_up-Justifies s w older e h =
        let exit = env.privileged w.history dns_connect in
        let r = outcome dns_connect exit in
        connected_up s r
          (record w {
            resolver_installed = true;
            resolver_files = remaining dns_connect exit w.resolver_files;
            history = ran dns_connect (is_ok r) ∷ w.history;
          })
          older (ap (λ t. ran dns_connect (is_ok r) ∷ t) e) h
