-- ===== src/Prelude/Actions/Triples.antt =====
-- What an action makes of a state: it returns with a condition on the state afterwards, or it raises
-- a known error with one. There is a rule for each way to build an action.
use mathlib.Core.Path.{◌≡◌, refl, ap, sym, subst}
use mathlib.Core.Bool.{Bool, true, false}
use vm_forgeyard.Prelude.Results.{Result, ok, err, ok-injective, err-injective}
use vm_forgeyard.Prelude.Actions.{Act, pure, when, continue, ◌>>=◌, ◌>>◌}

-- In a state with P the action returns, and the state afterwards has Q of the result.
pub record Achieves {S E A : Type 0} (P : S → Type 0) (m : Act S E A) (Q : A → S → Type 0)
    : Type 0 where
  pub at : (s : S) → P s → (a : A) × ((m s).1 ≡ ok a) × Q a (m s).0

-- In a state with P the action raises, and the state afterwards has Q.
pub record Fails {S E A : Type 0} (P : S → Type 0) (m : Act S E A) (e : E) (Q : S → Type 0)
    : Type 0 where
  pub at : (s : S) → P s → ((m s).1 ≡ err e) × Q (m s).0

module _ {S E A : Type 0} where
  pub Achieves-pure : (P : S → Type 0) (a : A) → Achieves P (pure {S = S} {E = E} a) (λ _. P)
  Achieves-pure P a = record { at = λ s h. (a, refl, h) }

module _ {S E : Type 0} where
  pub Achieves-when :
      (P : S → Type 0) (b : Bool) (m : Act S E (Unit {0}))
      → Achieves P m (λ _. P)
      → Achieves P (when b m) (λ _. P)
  Achieves-when P true m h = h
  Achieves-when P false m h = record { at = λ s p. (tt, refl, p) }

  pub Fails-when :
      (P Q : S → Type 0) (b : Bool) (m : Act S E (Unit {0})) (e : E)
      → b ≡ true
      → Fails P m e Q
      → Fails P (when b m) e Q
  Fails-when P Q b m e hit h = rw hit h

module _ {S E A B : Type 0} where
  continued :
      (p : S × Result E A) (f : A → Act S E B) (Q : A → S → Type 0) (R : B → S → Type 0)
      → (a : A) × (p.1 ≡ ok a) × Q a p.0
      → ((a : A) → Achieves (Q a) (f a) R)
      → (b : B) × ((continue p f).1 ≡ ok b) × R b (continue p f).0
  continued (s, ok a) f Q R h k = (k a).at s (subst (λ x. Q x s) (ok-injective h.0 a (sym h.1)) h.2)
  continued (s, err e) f Q R h k = cc h.1

  pub Achieves-bind :
      (P : S → Type 0) (m : Act S E A) (f : A → Act S E B) (Q : A → S → Type 0) (R : B → S → Type 0)
      → Achieves P m Q
      → ((a : A) → Achieves (Q a) (f a) R)
      → Achieves P (m >>= f) R
  Achieves-bind P m f Q R h k = record { at = λ s p. continued (m s) f Q R (h.at s p) k }

  pub Achieves-then :
      (P Q : S → Type 0) (m : Act S E A) (k : Act S E B) (R : B → S → Type 0)
      → Achieves P m (λ _. Q)
      → Achieves Q k R
      → Achieves P (m >> k) R
  Achieves-then P Q m k R h g = record {
    at = λ s p. continued (m s) (λ _. k) (λ _. Q) R (h.at s p) (λ _. g);
  }

  failed_later :
      (p : S × Result E A) (f : A → Act S E B) (Q : A → S → Type 0) (R : S → Type 0) (e : E)
      → (a : A) × (p.1 ≡ ok a) × Q a p.0
      → ((a : A) → Fails (Q a) (f a) e R)
      → ((continue p f).1 ≡ err e) × R (continue p f).0
  failed_later (s, ok a) f Q R e h k =
      (k a).at s (subst (λ x. Q x s) (ok-injective h.0 a (sym h.1)) h.2)
  failed_later (s, err d) f Q R e h k = cc h.1

  -- The error comes from what follows.
  pub Fails-bind :
      (P : S → Type 0) (m : Act S E A) (f : A → Act S E B) (Q : A → S → Type 0) (R : S → Type 0)
      (e : E)
      → Achieves P m Q
      → ((a : A) → Fails (Q a) (f a) e R)
      → Fails P (m >>= f) e R
  Fails-bind P m f Q R e h k = record { at = λ s p. failed_later (m s) f Q R e (h.at s p) k }

  failed_first :
      (p : S × Result E A) (f : A → Act S E B) (Q : S → Type 0) (e : E)
      → (p.1 ≡ err e) × Q p.0
      → ((continue p f).1 ≡ err e) × Q (continue p f).0
  failed_first (s, ok a) f Q e h = cc h.0
  failed_first (s, err d) f Q e h = (ap (λ x. err x) (err-injective d e h.0), h.1)

  -- The error comes from the first action.
  pub Fails-first :
      (P Q : S → Type 0) (m : Act S E A) (f : A → Act S E B) (e : E)
      → Fails P m e Q
      → Fails P (m >>= f) e Q
  Fails-first P Q m f e h = record { at = λ s p. failed_first (m s) f Q e (h.at s p) }
