-- ===== src/Tunnel/Run/Interrupt.antt =====
-- An interrupt of `run_tunnel`: the cancellation, and its confirmation by the worker.
use meraki_openconnect.Prelude.{
  ◌≡◌, inl, inr, refl, Bool, true, false, List, [], ◌∷◌, ◌++◌, Text, ap, ◌∙◌, ◌↔◌, Bool-cases, ok,
  arith, all,
}
use meraki_openconnect.Tunnel.Frame.{Frame, MessageType, disconnected}
use meraki_openconnect.Tunnel.World.{World, Event, arrives, breaks, silence}
use meraki_openconnect.Tunnel.Run.{confirm, passed_over, is_disconnected}

-- A frame that the confirmation passes over: a valid stage or failure.
abbrev pub are_passed_over : List Frame → Bool
are_passed_over frames = all (λ f. passed_over f) frames

open_type :
    (type : MessageType) (fields : List Text)
    → passed_over (record { type = type; fields = fields }) ≡ true
    → is_disconnected (record { type = type; fields = fields }) ≡ false
open_type disconnected fields h = cc
open_type _ fields h = refl

pub arrivals : List Frame → List Event
arrivals [] = []
arrivals (f ∷ fs) = arrives f ∷ arrivals fs

confirm-arrivals :
    (fs : List Frame) (d : Frame) (rest : List Event)
    → are_passed_over fs ≡ true
    → is_disconnected d ≡ true
    → confirm (arrivals fs ++ arrives d ∷ rest) ≡ (ok tt, rest)
unfolding confirm arrivals
confirm-arrivals [] d rest h e = ground arith
confirm-arrivals (f ∷ fs) d rest h e =
    ground (arith, confirm-arrivals fs d rest, open_type f.type f.fields)

-- What a confirmation has read: stages and failures, and then a disconnection.
abbrev pub Confirms : List Event → List Event → Type 0
Confirms events rest =
    (fs : List Frame) × (d : Frame) × (events ≡ arrivals fs ++ arrives d ∷ rest)
    × (are_passed_over fs ≡ true)
    × (is_disconnected d ≡ true)

confirm-Confirms :
    (events rest : List Event) → confirm events ≡ (ok tt, rest) → Confirms events rest
unfolding confirm arrivals
confirm-Confirms [] rest h = cc
confirm-Confirms (silence ∷ events) rest h = cc
confirm-Confirms (breaks e ∷ events) rest h = cc
confirm-Confirms (arrives f ∷ events) rest h = elim (Bool-cases (is_disconnected f)) [
  | inl d ↦ ([], f, ground arith, refl, d)
  | inr n ↦ elim (Bool-cases (passed_over f)) [
    | inr m ↦ cc
    | inl p ↦
        let (fs, d, e, a, b) = confirm-Confirms events rest (ground arith) in
        (f ∷ fs, d, ap (λ t. arrives f ∷ t) e, ground arith, b)
  ]
]

-- The loop of `_cancel_and_confirm` returns exactly where stages and failures that the protocol
-- knows are followed by a disconnection, and it leaves what follows that.
pub confirm_iff :
    (events rest : List Event) → (confirm events ≡ (ok tt, rest)) ↔ Confirms events rest
confirm_iff events rest = (
  confirm-Confirms events rest,
  λ (fs, d, e, a, b). ap confirm e ∙ confirm-arrivals fs d rest a b,
)
