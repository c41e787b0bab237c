-- ===== src/Prelude/Keys.antt =====
-- Keys of a table: no two rows are the same under a test, and how the statements keep it so.
use mathlib.Core.Path.{◌≡◌}
use mathlib.Core.Logic.{inl, inr}
use mathlib.Core.Bool.{Bool, false}
use mathlib.Core.List.{List, [], ◌∷◌, ◌++◌}
use vm_forgeyard.Prelude.Tests.{if◌then◌else◌, Bool-cases}
use vm_forgeyard.Prelude.Lists.{All, All-append}
use vm_forgeyard.Prelude.Rows.{select, update}

module _ {ℓ} {R : Type ℓ} where
  -- No row is the same as a later one.
  abbrev pub Apart : (R → R → Bool) → List R → Type 0
  Apart same [] = Unit
  Apart same (r ∷ rs) = All (λ s. same r s ≡ false) rs × Apart same rs

  pub Apart-append :
      (same : R → R → Bool) (rs : List R) (x : R)
      → Apart same rs
      → All (λ r. same r x ≡ false) rs
      → Apart same (rs ++ x ∷ [])
  Apart-append same [] x h k = (tt, tt)
  Apart-append same (r ∷ rs) x h k =
      (All-append (λ s. same r s ≡ false) rs (x ∷ []) h.0 (k.0, tt), Apart-append same rs x h.1 k.1)

  pub All-select :
      (P : R → Type 0) (test : R → Bool) (rs : List R) → All P rs → All P (select test rs)
  All-select P test [] h = tt
  All-select P test (r ∷ rs) h = elim (Bool-cases (test r)) [
    | inl e ↦ rw e (h.0, All-select P test rs h.1)
    | inr e ↦ rw e (All-select P test rs h.1)
  ]

  pub Apart-select :
      (same : R → R → Bool) (test : R → Bool) (rs : List R)
      → Apart same rs
      → Apart same (select test rs)
  Apart-select same test [] h = tt
  Apart-select same test (r ∷ rs) h = elim (Bool-cases (test r)) [
    | inl e ↦ rw e (All-select (λ s. same r s ≡ false) test rs h.0, Apart-select same test rs h.1)
    | inr e ↦ rw e (Apart-select same test rs h.1)
  ]

  All-changed :
      (same : R → R → Bool) (test : R → Bool) (change : R → R)
      → ((r s : R) → same (change r) s ≡ same r s)
      → ((r s : R) → same r (change s) ≡ same r s)
      → (r : R) (rs : List R) → All (λ s. same r s ≡ false) rs
      → All (λ s. same (if test r then change r else r) s ≡ false) (update test change rs)
  All-changed same test change left right r [] h = tt
  All-changed same test change left right r (s ∷ rs) h = (
    elim (Bool-cases (test r)) [
      | inl e ↦ elim (Bool-cases (test s)) [
        | inl f ↦ rw (e, f, left r (change s), right r s, h.0)
        | inr f ↦ rw (e, f, left r s, h.0)
      ]
      | inr e ↦ elim (Bool-cases (test s)) [
        | inl f ↦ rw (e, f, right r s, h.0)
        | inr f ↦ rw (e, f, h.0)
      ]
    ],
    All-changed same test change left right r rs h.1,
  )

  -- A change that does not touch the key.
  pub Apart-update :
      (same : R → R → Bool) (test : R → Bool) (change : R → R)
      → ((r s : R) → same (change r) s ≡ same r s)
      → ((r s : R) → same r (change s) ≡ same r s)
      → (rs : List R) → Apart same rs
      → Apart same (update test change rs)
  Apart-update same test change left right [] h = tt
  Apart-update same test change left right (r ∷ rs) h = (
    All-changed same test change left right r rs h.0,
    Apart-update same test change left right rs h.1,
  )
