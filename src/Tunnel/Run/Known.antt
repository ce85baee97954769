-- ===== src/Tunnel/Run/Known.antt =====
-- What a run knows of the resolver files: where they may stand, its local variable tells so.
use meraki_openconnect.Prelude.{
  ℕ, ◌≡◌, refl, ap, ◌∙◌, Bool, true, false, Option, ◌∷◌, Text, Result, ok, err, arith, is_some,
  if◌then◌else◌,
}
use meraki_openconnect.Tunnel.Errors.{Exn, TunnelError, tunnel_error, dns_setup}
use meraki_openconnect.Tunnel.Frame.{Frame}
use meraki_openconnect.Tunnel.Session.{TunnelSession}
use meraki_openconnect.Tunnel.World.{
  World, ran, Effect, M, ◌>>=◌, catch, handle, continue, when, pure, log, set_completed,
  set_resolver, set_connected, ◌>>◌, dns_connect,
}
use meraki_openconnect.Tunnel.World.Relates.{
  IsPreorder, Relates, relates_rules, Relates-bind, Relates-raise,
}
use meraki_openconnect.Tunnel.Helper.{
  Environment, Exit, exited, killed, not_started, interrupted, run_privileged_operation,
  verify_worker, write, save, clear, outcome, remaining, is_ok,
}
use meraki_openconnect.Tunnel.Run.{
  await_confirmation, passes, cancel_and_confirm, cleanup_resolver, dns_setup_failed, run_health,
  report, abandon, verdict, check_up, on_setup_error, bring_up, on_interrupt,
}

-- No resolver files may stand, or the local variable tells of them and a session is connected.
abbrev pub IsSound : World → Type 0
IsSound w = w.resolver_files ≡ true → (w.resolver_installed ≡ true) × (is_some w.connected ≡ true)

abbrev pub IsGone : World → Type 0
IsGone w = w.resolver_files ≡ false

pub gone-IsSound : (w : World) → IsGone w → IsSound w
gone-IsSound w g h = cc

-- What is sound stays so, and no resolver files are placed.
abbrev pub Keeps : World → World → Type 0
Keeps u v = (IsSound u → IsSound v) × (IsGone u → IsGone v)

pub Keeps-order : IsPreorder Keeps
Keeps-order = record {
  reflexive = λ w. (λ h. h, λ h. h);
  transitive = λ u v w first second. (λ h. second.0 (first.0 h), λ h. second.1 (first.1 h));
}

-- No resolver files are placed.
abbrev Clears : World → World → Type 0
Clears u v = IsGone u → IsGone v

Clears-order : IsPreorder Clears
Clears-order = record {
  reflexive = λ w h. h;
  transitive = λ u v w first second h. second (first h);
}

weaken : {A : Type 0} {m : M A} → Relates Keeps m → Relates Clears m
weaken r = record { at = λ w. (r.at w).1 }

set_resolver-Clears : (b : Bool) → Relates Clears (set_resolver b)
unfolding ◌>>=◌
set_resolver-Clears b = record { at = λ w h. h }

pub set_completed-Keeps : Relates Keeps set_completed
unfolding ◌>>=◌
set_completed-Keeps = record { at = λ w. (λ h. h, λ h. h) }

pub set_connected-Keeps : (s : TunnelSession) → Relates Keeps (set_connected s)
unfolding ◌>>=◌
set_connected-Keeps s = record { at = λ w. (λ h k. ((h k).0, refl), λ h. h) }

pub log-Keeps : (e : Effect) → Relates Keeps (log e)
unfolding ◌>>=◌
log-Keeps e = record { at = λ w. (λ h. h, λ h. h) }

await_confirmation-Keeps : Relates Keeps await_confirmation
unfolding await_confirmation
await_confirmation-Keeps = record { at = λ w. (λ h. h, λ h. h) }

passes-Keeps : (e : Exn) → Relates Keeps (passes e)
passes-Keeps (tunnel_error e) = search (relates_rules, Keeps-order)
passes-Keeps _ = search (relates_rules, Keeps-order)

rolled_back :
    (exit : Exit) (d : Option Text)
    → outcome dns_connect exit ≡ err (tunnel_error (dns_setup true d))
    → remaining dns_connect exit false ≡ false
unfolding outcome
rolled_back (exited code stderr) d h = ground arith
rolled_back (killed stderr) d h = cc
rolled_back not_started d h = cc
rolled_back interrupted d h = cc

continue-IsSound :
    {A B : Type 0} (r : Result Exn A) (k : A → M B) (w : World)
    → IsSound w
    → ((a : A) → Relates Keeps (k a))
    → IsSound (continue r k w).1
continue-IsSound (ok a) k w h rest = ((rest a).at w).0 h
continue-IsSound (err e) k w h rest = h

skipped-Keeps : (m : M (Unit {0})) → Relates Keeps (when false m)
unfolding when ◌>>=◌
skipped-Keeps m = record { at = λ w. (λ h. h, λ h. h) }

started-Keeps :
    {A : Type 0} (k : Bool → M A) → Relates Keeps (k false) → Relates Keeps (pure false >>= k)
unfolding ◌>>=◌
started-Keeps k f = record { at = λ w. f.at w }

module _ (env : Environment) where
  pub write-Keeps : (frame : Frame) → Relates Keeps (write env frame)
  unfolding write
  write-Keeps frame = record { at = λ w. ground arith }

  save-Keeps : (s : TunnelSession) → Relates Keeps (save env s)
  unfolding save
  save-Keeps s = record { at = λ w. ground arith }

  pub clear-Keeps : Relates Keeps (clear env)
  unfolding clear
  clear-Keeps = record { at = λ w. ground arith }

  verify_worker-Keeps : (pid : ℕ) → Relates Keeps (verify_worker env pid)
  unfolding verify_worker
  verify_worker-Keeps pid = record { at = λ w. (λ h. h, λ h. h) }

  run_health-Keeps : (s : TunnelSession) → Relates Keeps (run_health env s)
  unfolding run_health
  run_health-Keeps s = record { at = λ w. (λ h. h, λ h. h) }

  report-Keeps : (s : TunnelSession) → Relates Keeps (report env s)
  unfolding report
  report-Keeps s = record { at = λ w. (λ h. h, λ h. h) }

  cancel_and_confirm-Keeps : Relates Keeps (cancel_and_confirm env)
  unfolding cancel_and_confirm
  cancel_and_confirm-Keeps =
      search (relates_rules, Keeps-order, write-Keeps, await_confirmation-Keeps)

  -- Behind a cleanup that tells of its success no resolver files stand.
  cleanup_resolver_lem :
      (w : World)
      → ((cleanup_resolver env w).0 ≡ ok true → IsGone (cleanup_resolver env w).1)
        × Keeps w (cleanup_resolver env w).1
  unfolding cleanup_resolver run_privileged_operation outcome ◌>>=◌ catch
  cleanup_resolver_lem w = ground arith

  cleaned :
      {A : Type 0} (k : Bool → M A) (r : Result Exn Bool) (u v : World)
      → (r ≡ ok true → IsGone v)
      → Keeps u v
      → Relates Clears (k true)
      → Relates Keeps (k false)
      → Keeps u (continue r k v).1
  cleaned k (ok true) u v gone step t f =
      let g = t.at v (gone refl) in (λ h. gone-IsSound (k true v).1 g, λ h. g)
  cleaned k (ok false) u v gone step t f = Keeps-order.transitive u v (k false v).1 step (f.at v)
  cleaned k (err e) u v gone step t f = step

  -- What follows the cleanup may rely on its success.
  cleanup-then :
      {A : Type 0} (k : Bool → M A)
      → Relates Clears (k true)
      → Relates Keeps (k false)
      → Relates Keeps (cleanup_resolver env >>= k)
  unfolding ◌>>=◌
  cleanup-then k t f = record {
    at = λ w.
        let (gone, step) = cleanup_resolver_lem w in
        cleaned k (cleanup_resolver env w).0 w (cleanup_resolver env w).1 gone step t f;
  }

  cleanup_if-then :
      {A : Type 0} (b : Bool) (k : Bool → M A)
      → Relates Clears (k true)
      → Relates Keeps (k false)
      → Relates Keeps ((if b then cleanup_resolver env else pure false) >>= k)
  cleanup_if-then true k t f = cleanup-then k t f
  cleanup_if-then false k t f = started-Keeps k f

  save-Clears : (s : TunnelSession) → Relates Clears (save env s)
  save-Clears s = weaken (save-Keeps s)

  cleanup_resolver-Clears : Relates Clears (cleanup_resolver env)
  cleanup_resolver-Clears = record { at = λ w. (cleanup_resolver_lem w).1.1 }

  clear-Clears : Relates Clears (clear env)
  clear-Clears = weaken clear-Keeps

  abandon-Keeps : Relates Keeps (abandon env)
  unfolding abandon
  abandon-Keeps =
      search
        (
          relates_rules, Keeps-order, Clears-order, cancel_and_confirm-Keeps, set_completed-Keeps,
          cleanup-then, set_resolver-Clears, clear-Clears, skipped-Keeps,
        )
        depth 12

  verdict-Keeps : (s : TunnelSession) (b : Bool) → Relates Keeps (verdict env s b)
  unfolding verdict
  verdict-Keeps s b =
      search (relates_rules, Keeps-order, log-Keeps, report-Keeps, abandon-Keeps) depth 9

  check_up-Keeps : (s : TunnelSession) → Relates Keeps (check_up env s)
  unfolding check_up
  check_up-Keeps s =
      search (relates_rules, Keeps-order, save-Keeps, run_health-Keeps, verdict-Keeps) depth 9

  -- A complete rollback has placed no resolver files, and behind any other failure the variable stays.
  rolled_back-Clears :
      (e : TunnelError) (s : TunnelSession) → Relates Clears (dns_setup_failed env true e s)
  unfolding dns_setup_failed
  rolled_back-Clears e s =
      let stopping : Relates Clears (catch (do cancel_and_confirm env; set_completed) passes) =
        weaken (
          search
            (
              relates_rules, Keeps-order, cancel_and_confirm-Keeps, set_completed-Keeps,
              passes-Keeps,
            )
            depth 9) in
      Relates-bind Clears-order _ _ stopping
        (λ _. search (relates_rules, Clears-order, set_resolver-Clears, clear-Clears) depth 9)

  not_rolled_back-Keeps :
      (e : TunnelError) (s : TunnelSession) → Relates Keeps (dns_setup_failed env false e s)
  unfolding dns_setup_failed
  not_rolled_back-Keeps e s =
      search
        (
          relates_rules, Keeps-order, Clears-order, cancel_and_confirm-Keeps, set_completed-Keeps,
          passes-Keeps, cleanup-then, set_resolver-Clears, clear-Clears, save-Keeps,
        )
        depth 12

  pub on_interrupt-Keeps : Relates Keeps (on_interrupt env)
  unfolding on_interrupt
  on_interrupt-Keeps =
      search
        (
          relates_rules, Keeps-order, Clears-order, cancel_and_confirm-Keeps, set_completed-Keeps,
          passes-Keeps, cleanup_if-then, set_resolver-Clears, clear-Clears, clear-Keeps,
          skipped-Keeps,
        )
        depth 14

  on_setup_error-Keeps :
      (s : TunnelSession) (exit : Exit) (w : World) (e : Exn)
      → outcome dns_connect exit ≡ err e
      → w.resolver_installed ≡ true
      → is_some w.connected ≡ true
      → w.resolver_files ≡ remaining dns_connect exit false
      → IsSound (on_setup_error env s e w).1
  unfolding outcome
  on_setup_error-Keeps s exit w (tunnel_error (dns_setup true d)) h i c f =
      gone-IsSound (dns_setup_failed env true (dns_setup true d) s w).1
        ((rolled_back-Clears (dns_setup true d) s).at w (f ∙ rolled_back exit d h))
  on_setup_error-Keeps s exit w (tunnel_error (dns_setup false d)) h i c f =
      ((not_rolled_back-Keeps (dns_setup false d) s).at w).0 (λ _. (i, c))
  on_setup_error-Keeps s exit w e h i c f = ((Relates-raise Keeps-order e).at w).0 (λ _. (i, c))

  connected_up :
      (s : TunnelSession) (exit : Exit) (r : Result Exn (Unit {0})) (w : World)
      → outcome dns_connect exit ≡ r
      → w.resolver_installed ≡ true
      → is_some w.connected ≡ true
      → w.resolver_files ≡ remaining dns_connect exit false
      → IsSound
          (let (r', w') = handle r (on_setup_error env s) w in
            continue r' (λ _. check_up env s) w').1
  connected_up s exit (ok a) w h i c f = ((check_up-Keeps s).at w).0 (λ _. (i, c))
  connected_up s exit (err e) w h i c f =
      continue-IsSound (on_setup_error env s e w).0 (λ _. check_up env s) _
        (on_setup_error-Keeps s exit w e h i c f) (λ _. check_up-Keeps s)

  -- The set up of the resolver where no resolver files stand.
  pub bring_up-IsSound :
      (s : TunnelSession) (w : World)
      → IsGone w
      → is_some w.connected ≡ true
      → IsSound (bring_up env s w).1
  unfolding bring_up ◌>>=◌ catch run_privileged_operation
  bring_up-IsSound s w g c =
      let exit = env.privileged w.history dns_connect in
      let r = outcome dns_connect exit in
      connected_up s exit r
        (record w {
          resolver_installed = true;
          resolver_files = remaining dns_connect exit w.resolver_files;
          history = ran dns_connect (is_ok r) ∷ w.history;
        })
        refl refl c (ap (remaining dns_connect exit) g)
