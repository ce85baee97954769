-- ===== src/Tunnel/Run/Tests.antt =====
-- The theorems on runs, applied to a whole session, and to one whose resolver files are stuck.
use meraki_openconnect.Prelude.{◌≡◌, ◌⊎◌, refl, true, false, [], ◌∷◌, codes, ok, err}
use meraki_openconnect.Tunnel.Errors.{eof, keyboard_interrupt}
use meraki_openconnect.Tunnel.World.{holds, absent, started, catch, ◌>>=◌, when}
use meraki_openconnect.Tunnel.Helper.{is_ok, run_privileged_operation, write, clear, close}
use meraki_openconnect.Tunnel.Run.{
  loop, on_exception, finalize, attend, stop_worker, drop_resolver, clear_store, close_worker,
  release, cleanup_resolver,
}
use meraki_openconnect.Tunnel.Run.Known.{IsSound}
use meraki_openconnect.Tunnel.Run.Cleanup.{Ended, attend-Ended}
use meraki_openconnect.Tunnel.Run.Retains.{finalize_retains}
use meraki_openconnect.Tunnel.Run.Stops.{was_closed, was_stopped, finalize_stops}
use meraki_openconnect.Tunnel.Run.Grounds.{IsJustified}
use meraki_openconnect.Tunnel.Run.Justified.{attend-IsJustified}
use meraki_openconnect.Tunnel.Run.Startup.{run_tunnel, is_ready, run_tunnel-Started}
use meraki_openconnect.Tests.Data.{
  example_profile, example_settings, working, stuck, session, whole_session, recorded, machine,
  constant_digest,
}

attend-IsJustified_example :
    IsJustified example_profile (attend working example_profile whole_session).1.history
attend-IsJustified_example = attend-IsJustified example_profile working whole_session tt

nothing_placed : IsSound whole_session
nothing_placed h = cc

attend-Ended_example :
    Ended
      (catch (λ v. loop working example_profile v.inbox v) (on_exception working) whole_session).0
      (attend working example_profile whole_session).0
      (attend working example_profile whole_session).1
attend-Ended_example = attend-Ended working example_profile whole_session nothing_placed

finalize_stops_example :
    ((finalize working (err eof) recorded).0 ≡ err keyboard_interrupt)
    ⊎ ((was_closed (finalize working (err eof) recorded).1 ≡ true)
        × ((recorded.completed ≡ true)
            ⊎ (was_stopped (finalize working (err eof) recorded).1 ≡ true)))
finalize_stops_example = finalize_stops working (err eof) recorded

still_installed : (finalize stuck (err eof) recorded).1.resolver_files ≡ true
unfolding finalize stop_worker release drop_resolver clear_store close_worker cleanup_resolver
    run_privileged_operation write clear close ◌>>=◌ catch when
still_installed = refl

finalize_retains_example : (finalize stuck (err eof) recorded).1.file ≡ holds session
finalize_retains_example = finalize_retains stuck (err eof) recorded (λ h. refl) still_installed

run_tunnel-Started_example :
    ((is_ok
          (run_tunnel constant_digest machine working example_profile example_settings
            whole_session).0
        ≡ false)
      × ((run_tunnel constant_digest machine working example_profile example_settings
            whole_session).1
          ≡ whole_session))
    ⊎ ((run_tunnel constant_digest machine working example_profile example_settings whole_session
          ≡ attend working example_profile (record whole_session { history = started ∷ [] }))
        × (is_ready constant_digest machine example_profile example_settings ≡ true)
        × (whole_session.file ≡ absent)
        × (machine.tls_pin (codes "vpn.example.com") ≡ ok example_settings.server_cert_pin))
run_tunnel-Started_example =
    run_tunnel-Started constant_digest machine working example_profile example_settings
      whole_session
