-- ===== src/Tunnel/Session.antt =====
-- `TunnelSession`, and what tunnel.py reads off frames, processes and URLs.
use meraki_openconnect.Prelude.{
  ℕ, Bool, true, false, not, ◌&&◌, Option, none, some, [], ◌∷◌, Text, codes, text_eq, one_of,
  starts_with, Result, ok, err, ◌>>=◌, ◌>>◌, require, length, get_or, drop, all, leb, ltb, ◌==◌,
  is_digit, if◌then◌else◌,
}
use meraki_openconnect.Ip.{is_ipv4, decimal_value}
use meraki_openconnect.Url.{
  urlsplit, hostname, Port, default, number, invalid, port, has_username, has_password,
}
use meraki_openconnect.Profile.Model.{OrganizationProfile}
use meraki_openconnect.Tunnel.Errors.{Exn, tunnel_error, other, connection_state}
use meraki_openconnect.Tunnel.Frame.{Frame}

pub record TunnelSession : Type 0 where
  pub pid : ℕ
  pub gateway : Text
  pub interface : Option Text
  pub address : Option Text
  pub transport : Option Text

-- `frame.fields[i]`; `Frame` has checked that the field is there.
abbrev pub field : Frame → ℕ → Text
field frame i = get_or frame.fields i []

-- `_STAGES` and `_FAILURES`
abbrev pub is_stage : Text → Bool
is_stage s =
    one_of s (codes "init" ∷ codes "auth" ∷ codes "cstp" ∷ codes "tun" ∷ codes "mainloop" ∷ [])

abbrev pub is_failure : Text → Bool
is_failure s = one_of s (
    codes "initialization-failed"
    ∷ codes "policy"
    ∷ codes "pin-config-invalid"
    ∷ codes "authentication-failed"
    ∷ codes "connection-rejected"
    ∷ codes "tunnel-setup-failed"
    ∷ codes "connection-report-failed"
    ∷ codes "cancel-watcher-failed"
    ∷ [])

-- `_INTERFACE`: `utun[0-9]+\Z`
abbrev pub is_interface : Text → Bool
is_interface s = starts_with s (codes "utun") && leb 5 (length s) && all is_digit (drop 4 s)

-- `pid_text.isascii() and pid_text.isdecimal()`
abbrev pub is_decimal : Text → Bool
is_decimal s = leb 1 (length s) && all is_digit s

-- `int(text)` of decimal digits: Python refuses more than 4300 of them with a `ValueError`.
abbrev int_of_digits : Text → Result Exn ℕ
int_of_digits s = if leb (length s) 4300 then ok (decimal_value 0 s) else err other

-- `_session_from_frame`. An address that is none and one of version 6 raise the same error.
unfoldable pub session_from_frame : Frame → Text → Result Exn TunnelSession
session_from_frame frame gateway = do
  require (is_decimal (field frame 0)) (tunnel_error connection_state)
  pid ← int_of_digits (field frame 0)
  require (is_ipv4 (field frame 2)) (tunnel_error connection_state)
  require
      (ltb 1 pid
        && is_interface (field frame 1)
        && one_of (field frame 3) (codes "dtls" ∷ codes "cstp-fallback" ∷ []))
      (tunnel_error connection_state)
  ok (record {
    pid = pid;
    gateway = gateway;
    interface = some (field frame 1);
    address = some (field frame 2);
    transport = some (field frame 3);
  })

abbrev is_https_port : Port → Bool
is_https_port default = true
is_https_port (number n) = n == 443
is_https_port invalid = false

abbrev is_host : Option Text → Text → Bool
is_host none host = false
is_host (some name) host = text_eq name host

-- `_webview_url_is_allowed`; a port that is no number is a `ValueError`, which is caught.
unfoldable pub webview_url_is_allowed : Text → OrganizationProfile → Bool
webview_url_is_allowed uri profile = elim (urlsplit uri) [
  | none ↦ false
  | some parsed ↦
      text_eq parsed.scheme (codes "https")
      && is_host (hostname parsed) profile.gateway.host
      && is_https_port (port parsed)
      && not (has_username parsed)
      && not (has_password parsed)
      && text_eq parsed.path profile.authentication.login_path
      && length parsed.fragment == 0
]
