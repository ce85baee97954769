-- ===== src/Tunnel/World/Relates.antt =====
-- Rules for what every run of an action does from its first world to its last, one for each way to
-- build an action.
use meraki_openconnect.Prelude.{Bool, true, false, Result, ok, err, if◌then◌else◌}
use meraki_openconnect.Tunnel.Errors.{Exn, TunnelError}
use meraki_openconnect.Tunnel.World.{
  World, M, pure, raise, fail, lift, gets, ◌>>=◌, catch, handle, continue, when,
}

pub record IsPreorder (R : World → World → Type 0) : Type 0 where
  pub reflexive : (w : World) → R w w
  pub transitive : (u v w : World) → R u v → R v w → R u w

-- Whether the action returns or raises, its last world stands in the relation to its first.
pub record Relates (R : World → World → Type 0) {A : Type 0} (m : M A) : Type 0 where
  pub at : (w : World) → R w (m w).1

module _ {R : World → World → Type 0} (order : IsPreorder R) where
  module _ {A : Type 0} where
    pub Relates-pure : (a : A) → Relates R (pure a)
    unfolding pure
    Relates-pure a = record { at = λ w. order.reflexive w }

    pub Relates-raise : (e : Exn) → Relates R (raise {A = A} e)
    unfolding raise
    Relates-raise e = record { at = λ w. order.reflexive w }

    pub Relates-fail : (e : TunnelError) → Relates R (fail {A = A} e)
    unfolding fail
    Relates-fail e = record { at = λ w. order.reflexive w }

    pub Relates-lift : (r : Result Exn A) → Relates R (lift r)
    unfolding lift
    Relates-lift r = record { at = λ w. order.reflexive w }

    pub Relates-gets : (f : World → A) → Relates R (gets f)
    unfolding gets
    Relates-gets f = record { at = λ w. order.reflexive w }

    pub Relates-if :
        (b : Bool) (m n : M A) → Relates R m → Relates R n → Relates R (if b then m else n)
    Relates-if true m n hm hn = hm
    Relates-if false m n hm hn = hn

    handled :
        (r : Result Exn A) (h : Exn → M A) (u v : World)
        → R u v
        → ((e : Exn) → Relates R (h e))
        → R u (handle r h v).1
    handled (ok a) h u v step rest = step
    handled (err e) h u v step rest = order.transitive u v _ step ((rest e).at v)

    pub Relates-catch :
        (m : M A) (h : Exn → M A)
        → Relates R m
        → ((e : Exn) → Relates R (h e))
        → Relates R (catch m h)
    unfolding catch
    Relates-catch m h hm hh = record { at = λ w. handled (m w).0 h w (m w).1 (hm.at w) hh }

  pub Relates-when : (b : Bool) (m : M (Unit {0})) → Relates R m → Relates R (when b m)
  unfolding when
  Relates-when true m hm = hm
  Relates-when false m hm = record { at = λ w. order.reflexive w }

  module _ {A B : Type 0} where
    continued :
        (r : Result Exn A) (f : A → M B) (u v : World)
        → R u v
        → ((a : A) → Relates R (f a))
        → R u (continue r f v).1
    continued (ok a) f u v step rest = order.transitive u v _ step ((rest a).at v)
    continued (err e) f u v step rest = step

    pub Relates-bind :
        (m : M A) (f : A → M B) → Relates R m → ((a : A) → Relates R (f a)) → Relates R (m >>= f)
    unfolding ◌>>=◌
    Relates-bind m f hm hf = record { at = λ w. continued (m w).0 f w (m w).1 (hm.at w) hf }

pub ruleset relates_rules = (
  Relates-pure, Relates-raise, Relates-fail, Relates-lift, Relates-gets, Relates-if, Relates-catch,
  Relates-when, Relates-bind,
)
