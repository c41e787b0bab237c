-- ===== src/Prelude/Actions/Returns.antt =====
-- Actions that never raise, with one rule for each way to build an action.
use mathlib.Core.Path.{◌≡◌, refl}
use mathlib.Core.Bool.{Bool, true, false}
use vm_forgeyard.Prelude.Tests.{if◌then◌else◌}
use vm_forgeyard.Prelude.Results.{Result, ok, err}
use vm_forgeyard.Prelude.Actions.{
  Act, pure, gets, attempt, recover, modify, when, continue, ◌>>=◌, ◌>>◌,
}

pub record Returns {S E A : Type 0} (m : Act S E A) : Type 0 where
  pub at : (s : S) → (a : A) × ((m s).1 ≡ ok a)

module _ {S E A : Type 0} where
  pub Returns-pure : (a : A) → Returns (pure {S = S} {E = E} a)
  Returns-pure a = record { at = λ s. (a, refl) }

  pub Returns-gets : (f : S → A) → Returns (gets {E = E} f)
  Returns-gets f = record { at = λ s. (f s, refl) }

  pub Returns-if :
      (b : Bool) (m n : Act S E A) → Returns m → Returns n → Returns (if b then m else n)
  Returns-if true m n km kn = km
  Returns-if false m n km kn = kn

  recovered : (p : S × Result E A) (k : E → Act S E A) (a : A) → p.1 ≡ ok a → (recover p k).1 ≡ ok a
  recovered (s, ok b) k a h = h
  recovered (s, err e) k a h = cc

  pub Returns-attempt : (m : Act S E A) (k : E → Act S E A) → Returns m → Returns (attempt m k)
  Returns-attempt m k km = record {
    at = λ s. ((km.at s).0, recovered (m s) k (km.at s).0 (km.at s).1);
  }

  handled :
      (p : S × Result E A) (k : E → Act S E A)
      → ((e : E) → Returns (k e))
      → (a : A) × ((recover p k).1 ≡ ok a)
  handled (s, ok b) k kk = (b, refl)
  handled (s, err e) k kk = (kk e).at s

  -- A handler that never raises catches what the body raises.
  pub Returns-handle :
      (m : Act S E A) (k : E → Act S E A) → ((e : E) → Returns (k e)) → Returns (attempt m k)
  Returns-handle m k kk = record { at = λ s. handled (m s) k kk }

module _ {S E : Type 0} where
  pub Returns-modify : (f : S → S) → Returns (modify {E = E} f)
  Returns-modify f = record { at = λ s. (tt, refl) }

  pub Returns-when : (b : Bool) (m : Act S E (Unit {0})) → Returns m → Returns (when b m)
  Returns-when true m km = record { at = λ s. km.at s }
  Returns-when false m km = record { at = λ s. (tt, refl) }

module _ {S E A B : Type 0} where
  continued :
      (p : S × Result E A) (f : A → Act S E B)
      → (a : A) × (p.1 ≡ ok a)
      → ((a : A) → Returns (f a))
      → (b : B) × ((continue p f).1 ≡ ok b)
  continued (s, ok a) f h kf = (kf a).at s
  continued (s, err e) f h kf = cc

  pub Returns-bind :
      (m : Act S E A) (f : A → Act S E B)
      → Returns m
      → ((a : A) → Returns (f a))
      → Returns (m >>= f)
  Returns-bind m f km kf = record { at = λ s. continued (m s) f (km.at s) kf }

  pub Returns-then : (m : Act S E A) (k : Act S E B) → Returns m → Returns k → Returns (m >> k)
  Returns-then m k km kk = record { at = λ s. continued (m s) (λ _. k) (km.at s) (λ _. kk) }

pub ruleset returns_rules = (
  Returns-pure, Returns-gets, Returns-if, Returns-modify, Returns-when, Returns-bind, Returns-then,
)
