-- ===== src/Tunnel/Run/Startup.antt =====
-- `run_tunnel` as a whole: the tests before the worker is started, and what follows.
use meraki_openconnect.Prelude.{
  ℕ, ◌≡◌, ◌⊎◌, inl, refl, Bool, true, false, not, ◌&&◌, Option, none, some, List, ◌∷◌, Text,
  text_eq, text_eq_iff, Result, ok, err, arith, is_some, if◌then◌else◌,
}
use meraki_openconnect.Profile.Model.{OrganizationProfile}
use meraki_openconnect.Settings.Checks.{MachineSettings}
use meraki_openconnect.Readiness.{extension_receipt_matches, policy_receipts_match}
use meraki_openconnect.Readiness.Collect.{or_false}
use meraki_openconnect.Tunnel.Errors.{
  Exn, TunnelError, tunnel_error, helper_outdated, policy_outdated, not_ready, already_recorded,
  pin_changed, worker_not_started,
}
use meraki_openconnect.Tunnel.Session.{TunnelSession}
use meraki_openconnect.Tunnel.World.{World, started, absent, M, ◌>>=◌, ◌>>◌, fail, lift, log, when}
use meraki_openconnect.Tunnel.Helper.{Environment, is_ok, clear_legacy}
use meraki_openconnect.Tunnel.Store.{load, read_state-none}
use meraki_openconnect.Tunnel.Run.{attend}

-- What the tests before the start find on the machine.
pub record Machine : Type 0 where
  -- `installed_policy_digest()`
  pub helper_digest : Option Text
  -- `privileged_component_installed` of the helper and of the native client
  pub helper_installed : Bool
  pub native_installed : Bool
  -- `gateway_tls_pin` of the gateway's host
  pub tls_pin : Text → Result Exn Text
  -- `subprocess.Popen` succeeds
  pub starts : Bool

abbrev test : Bool → TunnelError → M (Unit {0})
test b e = when (not b) (fail e)

-- `_verify_privileged_helper`
pub verify_privileged_helper : Option Text → Option Text → Result Exn (Unit {0})
verify_privileged_helper none expected = err (tunnel_error helper_outdated)
verify_privileged_helper (some digest) none = ok tt
verify_privileged_helper (some digest) (some expected) =
    if text_eq digest expected then ok tt else err (tunnel_error policy_outdated)

module _ (sha256_hex : List ℕ → Text) (machine : Machine) where
  -- `_require_readiness`: the tests that it makes, where a `ValueError` counts as no match.
  unfoldable pub is_ready : OrganizationProfile → MachineSettings → Bool
  is_ready profile settings =
      (extension_receipt_matches sha256_hex profile settings
        && or_false (policy_receipts_match sha256_hex profile settings machine.helper_digest))
      && machine.helper_installed
      && machine.native_installed

  -- `_start_worker`
  pub start_worker : M (Unit {0})
  start_worker = do
    lift (verify_privileged_helper machine.helper_digest none)
    test machine.starts worker_not_started
    log started

  -- `run_tunnel` up to the start of the worker.
  pub start : Environment → OrganizationProfile → MachineSettings → M (Unit {0})
  start env profile settings = do
    test (is_ready profile settings) not_ready
    found ← load env (some profile.gateway.host)
    test (not (is_some found)) already_recorded
    pin ← lift (machine.tls_pin profile.gateway.host)
    test (text_eq pin settings.server_cert_pin) pin_changed
    start_worker

  -- `run_tunnel`, whose local variables start as none and false.
  pub run_tunnel : Environment → OrganizationProfile → MachineSettings → M TunnelSession
  run_tunnel env profile settings = do start env profile settings; attend env profile

  -- How the tests before the start end: with an exception and nothing done, or passed.
  abbrev pub Started :
      OrganizationProfile → MachineSettings → World → Result Exn (Unit {0}) → World → Type 0
  Started profile settings w r w' =
      ((is_ok r ≡ false) × (w' ≡ w))
      ⊎ ((r ≡ ok tt)
          × (w' ≡ record w { history = started ∷ w.history })
          × (is_ready profile settings ≡ true)
          × (w.file ≡ absent)
          × (machine.tls_pin profile.gateway.host ≡ ok settings.server_cert_pin))

  start_worker-Started :
      (w : World)
      → ((is_ok (start_worker w).0 ≡ false) × ((start_worker w).1 ≡ w))
        ⊎ (start_worker w ≡ (ok tt, record w { history = started ∷ w.history }))
  unfolding start_worker verify_privileged_helper ◌>>=◌ when
  start_worker-Started w = ground arith

  check_pin-Started :
      (r : Result Exn Text) (expected : Text) (w : World)
      → let (r', w') =
          (lift r >>= λ pin. test (text_eq pin expected) pin_changed >>= λ _. start_worker) w in
        ((is_ok r' ≡ false) × (w' ≡ w))
        ⊎ ((r' ≡ ok tt) × (w' ≡ record w { history = started ∷ w.history }) × (r ≡ ok expected))
  unfolding ◌>>=◌ when
  check_pin-Started (err e) expected w = inl (refl, refl)
  check_pin-Started (ok pin) expected w =
      ground (arith, start_worker-Started w, text_eq_iff pin expected)

  start-Started :
      (env : Environment) (profile : OrganizationProfile) (settings : MachineSettings) (w : World)
      → Started profile settings w (start env profile settings w).0 (start env profile settings w).1
  unfolding start load clear_legacy ◌>>=◌ when
  start-Started env profile settings w = ground (
    arith,
    read_state-none (some profile.gateway.host) w.file,
    check_pin-Started (machine.tls_pin profile.gateway.host) settings.server_cert_pin w,
  )

  -- Either a run raises before it has done anything but remove legacy files, or setup is ready, no session was recorded,
  -- the gateway has the pinned certificate, and the run goes on behind the start of the worker.
  pub run_tunnel-Started :
      (env : Environment) (profile : OrganizationProfile) (settings : MachineSettings) (w : World)
      → ((is_ok (run_tunnel env profile settings w).0 ≡ false)
          × ((run_tunnel env profile settings w).1 ≡ w))
        ⊎ ((run_tunnel env profile settings w
              ≡ attend env profile (record w { history = started ∷ w.history }))
            × (is_ready profile settings ≡ true)
            × (w.file ≡ absent)
            × (machine.tls_pin profile.gateway.host ≡ ok settings.server_cert_pin))
  unfolding run_tunnel ◌>>=◌
  run_tunnel-Started env profile settings w = ground (arith, start-Started env profile settings w)
