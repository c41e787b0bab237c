-- ===== src/Prelude/Actions.antt =====
-- Handlers: actions on a state that may raise. Each method commits by itself, so what was written
-- before a raise stays written, and the state comes back beside the error too.
pub mod Keeps
pub mod Returns
pub mod Triples
use mathlib.Core.Bool.{Bool, true, false}
use mathlib.Core.Option.{Option, none, some}
use vm_forgeyard.Prelude.Results.{Result, ok, err}

abbrev pub Act : Type 0 → Type 0 → Type 0 → Type 0
Act S E A = S → S × Result E A

module _ {S E A : Type 0} where
  abbrev pub pure : A → Act S E A
  pure a s = (s, ok a)

  abbrev pub raise : E → Act S E A
  raise e s = (s, err e)

  abbrev pub lift : Result E A → Act S E A
  lift r s = (s, r)

  abbrev pub gets : (S → A) → Act S E A
  gets f s = (s, ok (f s))

  abbrev pub or_fail : Option A → E → Act S E A
  or_fail none e s = (s, err e)
  or_fail (some a) e s = (s, ok a)

  abbrev pub recover : S × Result E A → (E → Act S E A) → S × Result E A
  recover (s, ok a) k = (s, ok a)
  recover (s, err e) k = k e s

  -- try: m, except Exception as e: k e
  abbrev pub attempt : Act S E A → (E → Act S E A) → Act S E A
  attempt m k s = recover (m s) k

module _ {S E : Type 0} where
  abbrev pub modify : (S → S) → Act S E (Unit {0})
  modify f s = (f s, ok tt)

  -- if test: raise e
  abbrev pub fail_if : Bool → E → Act S E (Unit {0})
  fail_if true e s = (s, err e)
  fail_if false e s = (s, ok tt)

  -- if test: m
  abbrev pub when : Bool → Act S E (Unit {0}) → Act S E (Unit {0})
  when true m s = m s
  when false m s = (s, ok tt)

module _ {S E A B : Type 0} where
  abbrev pub continue : S × Result E A → (A → Act S E B) → S × Result E B
  continue (s, ok a) f = f a s
  continue (s, err e) f = (s, err e)

  infixl 5 ◌>>=◌ ◌>>◌
  abbrev pub ◌>>=◌ : Act S E A → (A → Act S E B) → Act S E B
  ◌>>=◌ m f s = continue (m s) f

  abbrev pub ◌>>◌ : Act S E A → Act S E B → Act S E B
  ◌>>◌ m k s = continue (m s) (λ _. k)
