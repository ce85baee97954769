-- ===== src/Tunnel/Helper.antt =====
-- The processes that tunnel.py runs, and the state file. What the system answers is an environment
-- that may depend on all that the controller has done.
use meraki_openconnect.Prelude.{
  ℕ, Bool, true, false, ◌&&◌, ◌||◌, Option, none, some, List, [], ◌∷◌, Text, codes, text_eq, Result,
  ok, err, length, all, leb, ◌==◌, is_lower, is_upper, starts_with, drop, if◌then◌else◌,
}
use meraki_openconnect.Health.{HealthCheckResult}
use meraki_openconnect.Tunnel.Errors.{
  TunnelError, Exn, tunnel_error, os_error, keyboard_interrupt, dns_setup, resolver_cleanup,
}
use meraki_openconnect.Tunnel.Frame.{Frame}
use meraki_openconnect.Tunnel.Session.{TunnelSession}
use meraki_openconnect.Tunnel.World.{
  Effect, sent, ran, verified, saved, cleared, closed, absent, holds, Operation, dns_connect,
  vpn_connect, M,
}

-- How `subprocess.run` ends: with an exit code and its standard error, by a signal, not at all
-- (`OSError`), or by an interrupt of the controller.
pub data Exit : Type 0 where
  exited : ℕ → Text → Exit
  killed : Text → Exit
  not_started interrupted : Exit

-- How a write to the worker's pipe ends.
pub data Sending : Type 0 where
  delivered broken interrupted : Sending

-- How far a write of the state file gets: an `OSError` before the file is replaced or after it.
pub data Saving : Type 0 where
  done failed_before failed_after : Saving

-- How far a removal gets: of `tunnel.json`, then of the legacy files.
pub data Clearing : Type 0 where
  done failed_before failed_after : Clearing

-- How `worker.close` ends; `failed` is an `OSError` or a `TunnelError`.
pub data Closing : Type 0 where
  done failed interrupted : Closing

pub record Environment : Type 0 where
  pub privileged : List Effect → Operation → Exit
  -- the standard output of `ps`, and whether it exits with 0
  pub ps : List Effect → ℕ → Text × Bool
  pub send : List Effect → Frame → Sending
  pub save : List Effect → TunnelSession → Saving
  pub clear : List Effect → Clearing
  -- whether `_clear_legacy` raises no `OSError` in `TunnelStore.load`
  pub clear_legacy : List Effect → Bool
  -- `_browser_token`
  pub browser_token : List Effect → Text → Result Exn Text
  -- `run_health_checks` on the interface
  pub health : List Effect → Option Text → Result Exn (List HealthCheckResult)
  -- `on_connected`
  pub report : List Effect → TunnelSession → Result Exn (Unit {0})
  -- `worker.close()`
  pub close : List Effect → Closing

abbrev pub native_path : Text
native_path = codes "/Library/PrivilegedHelperTools/io.github.k0nkupa.meraki-openconnect.native"

-- The last character is a line break, which is dropped.
pub chomp : Text → Text
chomp [] = []
chomp (c ∷ []) = if c == 0x0a then [] else c ∷ []
chomp (c ∷ d ∷ s) = c ∷ chomp (d ∷ s)

abbrev is_letter : ℕ → Bool
is_letter c = is_lower c || is_upper c

abbrev letters_first : Text → Bool
letters_first [] = false
letters_first (c ∷ s) =
    is_letter c && leb (length s) 100 && all (λ x. is_letter x || x == b' ' || x == b'-') s

-- `meraki-openconnect-root: ([A-Za-z][A-Za-z -]{0,100})\n?`, matched whole.
pub diagnostic : Text → Option Text
unfolding chomp
diagnostic stderr =
    let body = chomp (drop 25 stderr) in
    if starts_with stderr (codes "meraki-openconnect-root: ") && letters_first body
    then some body
    else none

-- What `_run_privileged_operation` raises when its command does not succeed. No exit code is 1
-- after a signal.
abbrev setup_or_cleanup : Operation → Bool → Option Text → TunnelError
setup_or_cleanup dns_connect complete detail = dns_setup complete detail
setup_or_cleanup _ complete detail = resolver_cleanup

unfoldable pub outcome : Operation → Exit → Result Exn (Unit {0})
unfolding diagnostic
outcome operation (exited code stderr) =
    if code == 0
    then ok tt
    else err (tunnel_error (setup_or_cleanup operation (code == 1) (diagnostic stderr)))
outcome operation (killed stderr) =
    err (tunnel_error (setup_or_cleanup operation false (diagnostic stderr)))
outcome operation not_started = err (tunnel_error (setup_or_cleanup operation false none))
outcome operation interrupted = err keyboard_interrupt

abbrev pub is_ok {ℓ} : {A : Type ℓ} → Result Exn A → Bool
is_ok (ok a) = true
is_ok (err e) = false

-- `str.isspace`
abbrev is_space : ℕ → Bool
is_space c =
    leb 0x09 c && leb c 0x0d
    || leb 0x1c c && leb c 0x20
    || c == 0x85
    || c == 0xa0
    || c == 0x1680
    || leb 0x2000 c && leb c 0x200a
    || c == 0x2028
    || c == 0x2029
    || c == 0x202f
    || c == 0x205f
    || c == 0x3000

unfoldable pub lstrip : Text → Text
lstrip [] = []
lstrip (c ∷ s) = let rest = lstrip s in if is_space c then rest else c ∷ s

unfoldable pub rstrip : Text → Text
rstrip [] = []
rstrip (c ∷ s) = let rest = rstrip s in if is_space c && length rest == 0 then [] else c ∷ rest

pub first_word : Text → Text × Text
first_word [] = ([], [])
first_word (c ∷ s) =
    let (word, rest) = first_word s in if is_space c then ([], c ∷ s) else (c ∷ word, rest)

-- `stdout.strip().split(maxsplit=1) == ["0", NATIVE_PATH]`
pub is_worker_line : Text → Bool
unfolding lstrip rstrip first_word
is_worker_line stdout =
    let (word, rest) = first_word (rstrip (lstrip stdout)) in
    text_eq word (codes "0") && text_eq (lstrip rest) native_path

-- Whether resolver files may stand after an operation of the helper. A dns-connect places them,
-- and is rolled back where it exits with 1; it leaves them unknown in all other cases. A disconnection
-- that succeeds has removed them.
abbrev pub remaining : Operation → Exit → Bool → Bool
remaining dns_connect (exited code stderr) before = if code == 1 then before else true
remaining dns_connect exit before = true
remaining vpn_connect exit before = before
remaining operation (exited code stderr) before = if code == 0 then false else before
remaining operation exit before = before

module _ (env : Environment) where
  -- `_run_privileged_operation`
  unfoldable pub run_privileged_operation : Operation → M (Unit {0})
  unfolding outcome
  run_privileged_operation operation w =
      let exit = env.privileged w.history operation in
      let r = outcome operation exit in
      (
        r,
        record w {
          history = ran operation (is_ok r) ∷ w.history;
          resolver_files = remaining operation exit w.resolver_files;
        },
      )

  -- `_verify_worker`
  unfoldable pub verify_worker : ℕ → M Bool
  unfolding is_worker_line
  verify_worker pid w =
      let (stdout, success) = env.ps w.history pid in
      let answer = success && is_worker_line stdout in
      (ok answer, record w { history = verified pid answer ∷ w.history })

  -- `worker.write_frame`
  unfoldable pub write : Frame → M (Unit {0})
  write frame w = elim (env.send w.history frame) [
    | delivered ↦ (ok tt, record w { history = sent frame true ∷ w.history })
    | broken ↦ (err os_error, record w { history = sent frame false ∷ w.history })
    | interrupted ↦ (err keyboard_interrupt, record w { history = sent frame false ∷ w.history })
  ]

  -- `TunnelStore.save`
  unfoldable pub save : TunnelSession → M (Unit {0})
  save session w = elim (env.save w.history session) [
    | done ↦ (ok tt, record w { file = holds session; history = saved session ∷ w.history })
    | failed_before ↦ (err os_error, w)
    | failed_after ↦
        (err os_error, record w { file = holds session; history = saved session ∷ w.history })
  ]

  -- `_clear_legacy` at the beginning of `TunnelStore.load`; the legacy files are read by nothing.
  unfoldable pub clear_legacy : M (Unit {0})
  clear_legacy w = (if env.clear_legacy w.history then ok tt else err os_error, w)

  -- `TunnelStore.clear`
  unfoldable pub clear : M (Unit {0})
  clear w = elim (env.clear w.history) [
    | done ↦ (ok tt, record w { file = absent; history = cleared ∷ w.history })
    | failed_before ↦ (err os_error, w)
    | failed_after ↦ (err os_error, record w { file = absent; history = cleared ∷ w.history })
  ]

  -- `worker.close`
  unfoldable pub close : M (Unit {0})
  close w =
      let w' = record w { history = closed ∷ w.history } in
      elim (env.close w.history) [
        | done ↦ (ok tt, w')
        | failed ↦ (err os_error, w')
        | interrupted ↦ (err keyboard_interrupt, w')
      ]
