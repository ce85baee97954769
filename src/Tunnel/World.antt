-- ===== src/Tunnel/World.antt =====
-- What the controller acts on: the worker's frames, the state file, the processes that it starts,
-- and the local variables of `run_tunnel` that its `finally` reads.
pub mod Relates
use meraki_openconnect.Prelude.{
  some, ℕ, Bool, true, false, Option, List, ◌∷◌, Text, Result, ok, err,
}
use meraki_openconnect.Tunnel.Errors.{Exn, tunnel_error, TunnelError}
use meraki_openconnect.Tunnel.Frame.{Frame}
use meraki_openconnect.Tunnel.Session.{TunnelSession}

-- What `worker.read_frame` meets: a frame, an exception (a broken protocol, an interrupt), or 15
-- seconds without a frame. After the last event the pipe is at its end.
pub data Event : Type 0 where
  arrives : Frame → Event
  breaks : Exn → Event
  silence : Event

-- `tunnel.json`: absent, not a session, or the session that it decodes to.
pub data StateFile : Type 0 where
  absent unreadable : StateFile
  holds : TunnelSession → StateFile

pub data Operation : Type 0 where
  vpn_connect vpn_disconnect dns_connect dns_disconnect : Operation

-- What the controller has done, with the answer where there is one.
pub data Effect : Type 0 where
  started : Effect
  sent : Frame → Bool → Effect
  ran : Operation → Bool → Effect
  verified : ℕ → Bool → Effect
  asked : Text → Effect
  checked : Bool → Effect
  reported : TunnelSession → Effect
  saved : TunnelSession → Effect
  cleared : Effect
  closed : Effect

pub record World : Type 0 where
  pub inbox : List Event
  -- the latest first
  pub history : List Effect
  pub file : StateFile
  pub connected : Option TunnelSession
  pub completed : Bool
  pub resolver_installed : Bool
  -- no local variable: whether files of the helper's rules may stand in the resolver directory
  pub resolver_files : Bool

-- An action may raise, and keeps what it did before it raised.
abbrev pub M : Type 0 → Type 0
M A = World → Result Exn A × World

module _ {A : Type 0} where
  pub pure : A → M A
  pure a w = (ok a, w)

  pub raise : Exn → M A
  raise e w = (err e, w)

  -- `raise TunnelError(…)`
  pub fail : TunnelError → M A
  fail e w = (err (tunnel_error e), w)

  -- What a call of code elsewhere returns or raises.
  pub lift : Result Exn A → M A
  lift r w = (r, w)

  pub gets : (World → A) → M A
  gets f w = (ok (f w), w)

pub modify : (World → World) → M (Unit {0})
modify f w = (ok tt, f w)

pub log : Effect → M (Unit {0})
log e w = (ok tt, record w { history = e ∷ w.history })

pub set_completed : M (Unit {0})
set_completed w = (ok tt, record w { completed = true })

pub set_resolver : Bool → M (Unit {0})
set_resolver b w = (ok tt, record w { resolver_installed = b })

pub set_connected : TunnelSession → M (Unit {0})
set_connected session w = (ok tt, record w { connected = some session })

module _ {A B : Type 0} where
  abbrev pub continue : Result Exn A → (A → M B) → M B
  continue (ok a) f w = f a w
  continue (err e) f w = (err e, w)

  infixl 5 ◌>>=◌ ◌>>◌
  -- Opening this opens the actions above too.
  unfoldable pub ◌>>=◌ : M A → (A → M B) → M B
  unfolding pure raise fail lift gets modify log set_completed set_resolver set_connected
  ◌>>=◌ m f w = let (r, w') = m w in continue r f w'

  abbrev pub ◌>>◌ : M A → M B → M B
  m >> k = m >>= λ _. k

abbrev pub handle : {A : Type 0} → Result Exn A → (Exn → M A) → M A
handle (ok a) h w = (ok a, w)
handle (err e) h w = h e w

-- `try: m except …: h`, where the handler passes on what it does not catch.
unfoldable pub catch : {A : Type 0} → M A → (Exn → M A) → M A
catch m h w = let (r, w') = m w in handle r h w'

unfoldable pub when : Bool → M (Unit {0}) → M (Unit {0})
unfolding pure
when true m = m
when false m = pure tt
