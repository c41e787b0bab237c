-- ===== src/Prelude/Actions/Keeps.antt =====
-- Invariants of actions, with one rule for each way to build an action.
use mathlib.Core.Bool.{Bool, true, false}
use mathlib.Core.Option.{Option, none, some}
use vm_forgeyard.Prelude.Tests.{if◌then◌else◌}
use vm_forgeyard.Prelude.Results.{Result, ok, err}
use vm_forgeyard.Prelude.Actions.{
  Act, pure, raise, lift, gets, or_fail, attempt, recover, modify, fail_if, when, continue, ◌>>=◌,
  ◌>>◌,
}

-- An action keeps a predicate, whether it returns or raises.
pub record Keeps {S E A : Type 0} (P : S → Type 0) (m : Act S E A) : Type 0 where
  pub at : (s : S) → P s → P (m s).0

module _ {S E A : Type 0} {P : S → Type 0} where
  pub Keeps-pure : (a : A) → Keeps P (pure {E = E} a)
  Keeps-pure a = record { at = λ s h. h }

  pub Keeps-raise : (e : E) → Keeps P (raise {A = A} e)
  Keeps-raise e = record { at = λ s h. h }

  pub Keeps-lift : (r : Result E A) → Keeps P (lift r)
  Keeps-lift r = record { at = λ s h. h }

  pub Keeps-gets : (f : S → A) → Keeps P (gets {E = E} f)
  Keeps-gets f = record { at = λ s h. h }

  pub Keeps-or_fail : (o : Option A) (e : E) → Keeps P (or_fail o e)
  Keeps-or_fail none e = record { at = λ s h. h }
  Keeps-or_fail (some a) e = record { at = λ s h. h }

  pub Keeps-if : (b : Bool) (m n : Act S E A) → Keeps P m → Keeps P n → Keeps P (if b then m else n)
  Keeps-if true m n km kn = km
  Keeps-if false m n km kn = kn

  recovered :
      (p : S × Result E A) (k : E → Act S E A)
      → ((e : E) → Keeps P (k e))
      → P p.0
      → P (recover p k).0
  recovered (s, ok a) k kk h = h
  recovered (s, err e) k kk h = (kk e).at s h

  pub Keeps-attempt :
      (m : Act S E A) (k : E → Act S E A)
      → Keeps P m
      → ((e : E) → Keeps P (k e))
      → Keeps P (attempt m k)
  Keeps-attempt m k km kk = record { at = λ s h. recovered (m s) k kk (km.at s h) }

module _ {S E : Type 0} {P : S → Type 0} where
  pub Keeps-fail_if : (b : Bool) (e : E) → Keeps P (fail_if b e)
  Keeps-fail_if true e = record { at = λ s h. h }
  Keeps-fail_if false e = record { at = λ s h. h }

  pub Keeps-when : (b : Bool) (m : Act S E (Unit {0})) → Keeps P m → Keeps P (when b m)
  Keeps-when true m km = record { at = λ s h. km.at s h }
  Keeps-when false m km = record { at = λ s h. h }

  pub Keeps-modify : (f : S → S) → ((s : S) → P s → P (f s)) → Keeps P (modify {E = E} f)
  Keeps-modify f kf = record { at = kf }

module _ {S E A B : Type 0} {P : S → Type 0} where
  continued :
      (p : S × Result E A) (f : A → Act S E B)
      → ((a : A) → Keeps P (f a))
      → P p.0
      → P (continue p f).0
  continued (s, ok a) f kf h = (kf a).at s h
  continued (s, err e) f kf h = h

  pub Keeps-bind :
      (m : Act S E A) (f : A → Act S E B)
      → Keeps P m
      → ((a : A) → Keeps P (f a))
      → Keeps P (m >>= f)
  Keeps-bind m f km kf = record { at = λ s h. continued (m s) f kf (km.at s h) }

  pub Keeps-then : (m : Act S E A) (k : Act S E B) → Keeps P m → Keeps P k → Keeps P (m >> k)
  Keeps-then m k km kk = record { at = λ s h. continued (m s) (λ _. k) (λ _. kk) (km.at s h) }

pub ruleset keeps_rules = (
  Keeps-pure, Keeps-raise, Keeps-lift, Keeps-gets, Keeps-or_fail, Keeps-if, Keeps-attempt,
  Keeps-fail_if, Keeps-when, Keeps-bind, Keeps-then,
)
