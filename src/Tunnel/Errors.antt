-- ===== src/Tunnel/Errors.antt =====
-- The exceptions that meet in tunnel.py. A `TunnelError` is told apart by its message; of the
-- others only the class matters to the handlers.
use meraki_openconnect.Prelude.{ℕ, Bool, Option, Text}

pub data TunnelError : Type 0 where
  frame_field_count fields_not_printable ended_mid_frame field_lengths : TunnelError
  unknown_type : ℕ → TunnelError
  state_invalid cleanup_timed_out cleanup_failed worker_not_started : TunnelError
  unsupported_operation resolver_cleanup helper_outdated policy_outdated not_ready : TunnelError
  -- `_DnsSetupError`: `rollback_complete` and the diagnostic
  dns_setup : Bool → Option Text → TunnelError
  connection_state cleanup_protocol already_recorded pin_changed invalid_stage : TunnelError
  unexpected_webview repeated_connected identity_unverified verification_failed : TunnelError
  invalid_failure early_disconnect unexpected_message cancelled exited_unconfirmed : TunnelError
  worker_failed : Text → Text → TunnelError
  not_disconnected : TunnelError

-- `os_error` stands for `OSError` and its subclasses, `BrokenPipeError` among them; `other` for any
-- other exception of a call, such as a `PinError` or a `CallbackError`.
pub data Exn : Type 0 where
  tunnel_error : TunnelError → Exn
  eof os_error keyboard_interrupt other : Exn
