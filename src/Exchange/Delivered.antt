-- ===== src/Exchange/Delivered.antt =====
-- What `wait` returns is what the peer of the exchange sent.
use meraki_openconnect.Prelude.{
  ◌≡◌, refl, sym, ap, ◌∙◌, Bool, true, false, Option, none, some, List, [], ◌∷◌, Text, Result, ok,
  err, if◌then◌else◌, Bool-cases, inl, inr,
}
use mathlib.Core.Path.{subst}
use meraki_openconnect.Json.{Fields}
use meraki_openconnect.Exchange.Message.{Codec, MessageError, read_message}
use meraki_openconnect.Exchange.Server.{
  Phase, asking, answering, closed, ExchangeError, unavailable, max_message_bytes, Protocol,
  Exchange, Event, arrives, fails, undecodable, start, fail, finish, on_request, receive, keep,
  on_result, serve, serve_all, wait, connection_failed, bad_message, invalid_request,
}

module _ {A : Type 0} (codec : Codec) (protocol : Protocol A) where
  receive_closed :
      (p : Phase) (event : Event) (x : Exchange A)
      → p ≡ closed
      → (receive codec protocol p event x).0 ≡ x
  receive_closed closed event x h = refl
  receive_closed asking event x h = cc
  receive_closed answering event x h = cc

  closed_lem :
      (events : List Event) (x : Exchange A)
      → x.phase ≡ closed
      → serve_all codec protocol events x ≡ x
  unfolding serve_all serve
  closed_lem [] x h = refl
  closed_lem (event ∷ events) x h =
      ap (serve_all codec protocol events) (receive_closed x.phase event x h)
      ∙ closed_lem events x h

  -- A request, and what it is a result of.
  abbrev pub Asks : Result MessageError Fields → Type 0
  Asks (ok fs) = protocol.is_request fs ≡ true
  Asks (err e) = ⊥

  abbrev pub Gives : Result MessageError Fields → A → Type 0
  Gives (ok fs) a = protocol.accept fs ≡ some a
  Gives (err e) a = ⊥

  abbrev read : Text → Result MessageError Fields
  read raw = read_message codec max_message_bytes raw

  -- The events start with a request and then a message that gives the result.
  abbrev pub IsDelivered : List Event → A → Type 0
  IsDelivered (arrives request true ∷ arrives result true ∷ events) a =
      Asks (read request) × Gives (read result) a
  IsDelivered events a = ⊥

  -- A result that was waited for was delivered, and cannot be waited for again.
  abbrev pub IsWaited : List Event → Result ExchangeError A × Exchange A → Type 0
  IsWaited events (ok a, x) = IsDelivered events a × ((wait x).0 ≡ err unavailable)
  IsWaited events (err e, x) = Unit

  abbrev asked : Exchange A
  asked = record start { phase = answering }

  abbrev IsTaken : Bool → (A → Type 0) → Result ExchangeError A × Exchange A → Type 0
  IsTaken can_write P (ok a, x) = (can_write ≡ true) × P a × ((wait x).0 ≡ err unavailable)
  IsTaken can_write P (err e, x) = Unit

  keep-IsTaken :
      (can_write : Bool) (o : Option A)
      → IsTaken can_write (λ a. o ≡ some a) (wait (keep codec protocol can_write o asked).0)
  unfolding wait
  keep-IsTaken can_write none = tt
  keep-IsTaken true (some a) = (refl, refl, refl)
  keep-IsTaken false (some a) = tt

  on_result-IsTaken :
      (can_write : Bool) (r : Result MessageError Fields)
      → IsTaken can_write (Gives r) (wait (on_result codec protocol can_write r asked).0)
  unfolding wait
  on_result-IsTaken can_write (err e) = tt
  on_result-IsTaken can_write (ok fs) = keep-IsTaken can_write (protocol.accept fs)

  keep-closed :
      (can_write : Bool) (o : Option A) (x : Exchange A)
      → (keep codec protocol can_write o x).0.phase ≡ closed
  keep-closed can_write none x = refl
  keep-closed true (some a) x = refl
  keep-closed false (some a) x = refl

  on_result-closed :
      (can_write : Bool) (r : Result MessageError Fields) (x : Exchange A)
      → (on_result codec protocol can_write r x).0.phase ≡ closed
  on_result-closed can_write (err e) x = refl
  on_result-closed can_write (ok fs) x = keep-closed can_write (protocol.accept fs) x

  -- The events behind the request.
  AreResults : List Event → Result ExchangeError A × Exchange A → Type 0
  AreResults (arrives raw can_write ∷ events) w = IsTaken can_write (Gives (read raw)) w
  AreResults events (ok a, x) = ⊥
  AreResults events (err e, x) = Unit

  -- What holds of a closed exchange holds of it behind more events.
  stays :
      (P : Result ExchangeError A × Exchange A → Type 0) (events : List Event) (x : Exchange A)
      → x.phase ≡ closed
      → P (wait x)
      → P (wait (serve_all codec protocol events x))
  stays P events x h p = subst (λ y. P (wait y)) (sym (closed_lem events x h)) p

  asked-AreResults :
      (events : List Event) → AreResults events (wait (serve_all codec protocol events asked))
  unfolding AreResults serve_all serve wait
  asked-AreResults [] = tt
  asked-AreResults (fails ∷ events) =
      stays (AreResults (fails ∷ events)) events (fail connection_failed asked) refl tt
  asked-AreResults (undecodable ∷ events) =
      stays (AreResults (undecodable ∷ events)) events (finish asked) refl tt
  asked-AreResults (arrives raw can_write ∷ events) =
      stays (AreResults (arrives raw can_write ∷ events)) events
        (on_result codec protocol can_write (read raw) asked).0
        (on_result-closed can_write (read raw) asked) (on_result-IsTaken can_write (read raw))

  results-IsWaited :
      (request : Text) (events : List Event) (w : Result ExchangeError A × Exchange A)
      → Asks (read request)
      → AreResults events w
      → IsWaited (arrives request true ∷ events) w
  unfolding AreResults
  results-IsWaited request [] (ok a, x) q h = elim h [ ]
  results-IsWaited request (fails ∷ events) (ok a, x) q h = elim h [ ]
  results-IsWaited request (undecodable ∷ events) (ok a, x) q h = elim h [ ]
  results-IsWaited request (arrives raw true ∷ events) (ok a, x) q h = ((q, h.1), h.2)
  results-IsWaited request (arrives raw false ∷ events) (ok a, x) q h = cc
  results-IsWaited request events (err e, x) q h = tt

  answered-IsWaited :
      (request : Text) (can_write : Bool) (events : List Event)
      → Asks (read request)
      → IsWaited (arrives request can_write ∷ events) (
          wait (
            serve_all codec protocol events
              (if can_write then asked else fail connection_failed start)))
  unfolding wait
  answered-IsWaited request true events q =
      results-IsWaited request events _ q (asked-AreResults events)
  answered-IsWaited request false events q =
      stays (IsWaited (arrives request false ∷ events)) events (fail connection_failed start) refl
        tt

  request-IsWaited :
      (request : Text) (can_write : Bool) (r : Result MessageError Fields) (events : List Event)
      → read request ≡ r
      → IsWaited
          (arrives request can_write ∷ events)
          (wait (serve_all codec protocol events (on_request codec protocol can_write r start).0))
  unfolding wait
  request-IsWaited request can_write (err e) events h =
      stays (IsWaited (arrives request can_write ∷ events)) events (fail (bad_message e) start) refl
        tt
  request-IsWaited request can_write (ok fs) events h = elim (Bool-cases (protocol.is_request fs)) [
    | inl y ↦ rw y (answered-IsWaited request can_write events (subst Asks (sym h) y))
    | inr n ↦ rw n (
        stays (IsWaited (arrives request can_write ∷ events)) events (fail invalid_request start)
          refl tt)
  ]

  -- Whatever happens on the socket: `wait` returns a result only if a request and then a message with
  -- this result were read and both answers written, and a second `wait` returns none.
  pub wait-IsDelivered :
      (events : List Event) → IsWaited events (wait (serve_all codec protocol events start))
  unfolding serve_all serve wait
  wait-IsDelivered [] = tt
  wait-IsDelivered (fails ∷ events) =
      stays (IsWaited (fails ∷ events)) events (fail connection_failed start) refl tt
  wait-IsDelivered (undecodable ∷ events) =
      stays (IsWaited (undecodable ∷ events)) events (finish start) refl tt
  wait-IsDelivered (arrives raw can_write ∷ events) =
      request-IsWaited raw can_write (read raw) events refl
