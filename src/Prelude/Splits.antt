-- ===== src/Prelude/Splits.antt =====
-- Python's `split`, `partition`, `strip` and tests that ignore case, on the native texts.
use Prim.Native.Nat.{ℕ, ◌+◌}
use Prim.Native.Char.{Char, code}
use Prim.Native.String.{String, [], ◌∷◌, ◌++◌, char_at}
use mathlib.Core.Path.{◌≡◌, refl, ap, ◌∙◌}
use mathlib.Core.Logic.{inl, inr}
use mathlib.Core.Bool.{Bool, true, false, ◌&&◌, ◌||◌}
use mathlib.Core.Option
use mathlib.Core.Option.{Option, none, some}
use text.Mathlib.Text.{◌==◌}
use text.Mathlib.TextLemmas.{nil-append, cons-append}
use vm_forgeyard.Prelude.Tests.{leb, ◌=ℕ◌, if◌then◌else◌, Bool-cases}

-- What stands before and after the first character with the code, if there is one.
unfoldable pub cut : ℕ → String → Option (String × String)
cut k [] = none
cut k (c ∷ s) =
    let rest = cut k s in
    if code c =ℕ k then some ([], s) else Option.map (λ p. (c ∷ p.0, p.1)) rest

-- pattern[:-1], where the pattern ends with the character.
unfoldable pub without_end : ℕ → String → Option String
without_end k [] = none
without_end k (c ∷ []) = if code c =ℕ k then some [] else none
without_end k (c ∷ (d ∷ s)) = Option.map (λ t. c ∷ t) (without_end k (d ∷ s))

-- Python's whitespace in the characters below 256.
abbrev pub is_space : Char → Bool
is_space c =
    (leb 9 (code c) && leb (code c) 13)
    || ((leb 28 (code c) && leb (code c) 32) || (code c =ℕ 133 || code c =ℕ 160))

unfoldable pub lstrip : String → String
lstrip [] = []
lstrip (c ∷ s) = let rest = lstrip s in if is_space c then rest else c ∷ s

unfoldable pub rstrip : String → String
rstrip [] = []
rstrip (c ∷ s) = let rest = rstrip s in if is_space c && rest == [] then [] else c ∷ rest

abbrev pub strip : String → String
strip s = lstrip (rstrip s)

abbrev lower : ℕ → ℕ
lower n = if leb 65 n && leb n 90 then n + 32 else n

-- s.lower().startswith(t), for a lower-case t of letters and spaces of ASCII.
unfoldable pub starts_with_lower : String → String → Bool
starts_with_lower s [] = true
starts_with_lower [] (d ∷ t) = false
starts_with_lower (c ∷ s) (d ∷ t) = lower (code c) =ℕ code d && starts_with_lower s t

-- s.lower() == t, for such a t.
unfoldable pub equals_lower : String → String → Bool
equals_lower [] [] = true
equals_lower [] (d ∷ t) = false
equals_lower (c ∷ s) [] = false
equals_lower (c ∷ s) (d ∷ t) = lower (code c) =ℕ code d && equals_lower s t

Option-map-none {ℓ κ} :
    {A : Type ℓ} {B : Type κ} (o : Option A) (f : A → B) → Option.map f o ≡ none → o ≡ none
Option-map-none none f h = refl
Option-map-none (some a) f h = cc

-- A separator behind a text without one is where the text is cut.
pub cut-append :
    (k : ℕ) (c : Char) (s t : String)
    → (code c =ℕ k) ≡ true
    → cut k s ≡ none
    → cut k (s ++ (c ∷ t)) ≡ some (s, t)
unfolding cut
cut-append k c [] t h free = rw (nil-append (c ∷ t), h)
cut-append k c (d ∷ s) t h free = elim (Bool-cases (code d =ℕ k)) [
  | inl e ↦ cc
  | inr e ↦ rw (
    cons-append d s (c ∷ t),
    e,
    cut-append k c s t h (Option-map-none (cut k s) _ (rw e at free)),
  )
]

abbrev underscore : Char
underscore = char_at "_" 0

-- The same at an underscore.
pub cut-underscore : (s t : String) → cut 95 s ≡ none → cut 95 (s ++ ("_" ++ t)) ≡ some (s, t)
cut-underscore s t free =
    ap (λ x. cut 95 (s ++ x))
      (cons-append underscore [] t ∙ ap (λ x. underscore ∷ x) (nil-append t))
    ∙ cut-append 95 underscore s t refl free
