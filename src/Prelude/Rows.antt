-- ===== src/Prelude/Rows.antt =====
-- SQLite tables as lists of rows in rowid order, and the statements that the registry runs on them.
-- A row condition of SQL is a Boolean test.
use mathlib.Core.Path.{◌≡◌, refl, subst}
use mathlib.Core.Logic.{inl, inr}
use mathlib.Core.Bool.{Bool, true, false, not, ◌||◌}
use mathlib.Core.Option
use mathlib.Core.Option.{Option, none, some, some-injective}
use mathlib.Core.List.{List, [], ◌∷◌, ◌++◌}
use native.Mathlib.Omega.{arith}
use vm_forgeyard.Prelude.Tests.{if◌then◌else◌, Bool-cases}
use vm_forgeyard.Prelude.Lists.{All}

module _ {ℓ} {R : Type ℓ} where
  -- SELECT * ... WHERE test, all rows.
  abbrev pub select : (R → Bool) → List R → List R
  select test [] = []
  select test (r ∷ rs) = let rest = select test rs in if test r then r ∷ rest else rest

  -- SELECT * ... WHERE test ORDER BY id LIMIT 1, or the one row of a unique key.
  abbrev pub fetch : (R → Bool) → List R → Option R
  fetch test [] = none
  fetch test (r ∷ rs) = let rest = fetch test rs in if test r then some r else rest

  -- SELECT * ... WHERE test ORDER BY id DESC LIMIT 1
  abbrev pub fetch_last : (R → Bool) → List R → Option R
  fetch_last test [] = none
  fetch_last test (r ∷ rs) = elim (fetch_last test rs) [
    | some x ↦ some x
    | none ↦ if test r then some r else none
  ]

  -- UPDATE ... SET change WHERE test
  abbrev pub update : (R → Bool) → (R → R) → List R → List R
  update test change [] = []
  update test change (r ∷ rs) = (if test r then change r else r) ∷ update test change rs

  -- DELETE ... WHERE test
  abbrev pub delete : (R → Bool) → List R → List R
  delete test rs = select (λ r. not (test r)) rs

  -- Whether a row meets the test.
  abbrev pub any : (R → Bool) → List R → Bool
  any test [] = false
  any test (r ∷ rs) = test r || any test rs

  pub All-update :
      (P Q : R → Type 0) (test : R → Bool) (change : R → R)
      → ((r : R) → P r → Q (if test r then change r else r))
      → (rs : List R) → All P rs
      → All Q (update test change rs)
  All-update P Q test change f [] h = tt
  All-update P Q test change f (r ∷ rs) h = (f r h.0, All-update P Q test change f rs h.1)

  -- A row that no test meets is not fetched, and the other way round.
  pub fetch-none :
      (test : R → Bool) (rs : List R) → fetch test rs ≡ none → All (λ r. test r ≡ false) rs
  fetch-none test [] h = tt
  fetch-none test (r ∷ rs) h = (ground arith, fetch-none test rs (ground arith))

  -- What is fetched meets the test.
  pub fetch-meets : (test : R → Bool) (rs : List R) (x : R) → fetch test rs ≡ some x → test x ≡ true
  fetch-meets test [] x h = ground arith
  fetch-meets test (r ∷ rs) x h = ground (arith, fetch-meets test rs x)

  -- What holds of all rows holds of the one that is fetched.
  pub fetch-All :
      (P : R → Type 0) (test : R → Bool) (rs : List R) (x : R)
      → fetch test rs ≡ some x
      → All P rs
      → P x
  fetch-All P test [] x h all = ground arith
  fetch-All P test (r ∷ rs) x h all = elim (Bool-cases (test r)) [
    | inl e ↦ subst P (some-injective r x (rw e at h)) all.0
    | inr e ↦ fetch-All P test rs x (rw e at h) all.1
  ]

  pub select-append :
      (test : R → Bool) (xs ys : List R) → select test (xs ++ ys) ≡ select test xs ++ select test ys
  select-append test [] ys = ground arith
  select-append test (x ∷ xs) ys = ground (arith, select-append test xs ys)

  pub any-append :
      (test : R → Bool) (xs ys : List R) → any test (xs ++ ys) ≡ (any test xs || any test ys)
  any-append test [] ys = ground arith
  any-append test (x ∷ xs) ys = ground (arith, any-append test xs ys)

  pub All-delete :
      (P : R → Type 0) (test : R → Bool) (rs : List R) → All P rs → All P (delete test rs)
  All-delete P test [] h = tt
  All-delete P test (r ∷ rs) h = elim (Bool-cases (test r)) [
    | inl e ↦ rw e (All-delete P test rs h.1)
    | inr e ↦ rw e (h.0, All-delete P test rs h.1)
  ]

  pub delete-misses : (test : R → Bool) (rs : List R) → All (λ r. test r ≡ false) (delete test rs)
  delete-misses test [] = tt
  delete-misses test (r ∷ rs) = ground (arith, delete-misses test rs)

  -- What is deleted is not fetched.
  pub fetch-delete : (test : R → Bool) (rs : List R) → fetch test (delete test rs) ≡ none
  fetch-delete test [] = refl
  fetch-delete test (r ∷ rs) = elim (Bool-cases (test r)) [
    | inl e ↦ rw e (fetch-delete test rs)
    | inr e ↦ rw e (rw e (fetch-delete test rs))
  ]

  -- A row that an update changes is found by what it has become.
  pub any-update_hit :
      (pick hit test : R → Bool) (change : R → R) (rs : List R) (x : R)
      → fetch pick rs ≡ some x
      → hit x ≡ true
      → test (change x) ≡ true
      → any test (update hit change rs) ≡ true
  any-update_hit pick hit test change [] x e h k = cc
  any-update_hit pick hit test change (r ∷ rs) x e h k = elim (Bool-cases (pick r)) [
    | inl f ↦
        subst
          (λ (y : R).
            hit y ≡ true
            → test (change y) ≡ true
            → (test (if hit r then change r else r) || any test (update hit change rs)) ≡ true)
          (some-injective r x (rw f at e)) (λ h' k'. rw (h', k')) h k
    | inr f ↦ ground (arith, any-update_hit pick hit test change rs x (rw f at e) h k)
  ]

  -- What an update spares is still found.
  pub any-update_keep :
      (hit test : R → Bool) (change : R → R) (rs : List R)
      → All (λ r. test r ≡ true → test (if hit r then change r else r) ≡ true) rs
      → any test rs ≡ true
      → any test (update hit change rs) ≡ true
  any-update_keep hit test change [] keep h = cc
  any-update_keep hit test change (r ∷ rs) keep h =
      ground (arith, keep.0, any-update_keep hit test change rs keep.1)

  -- A fact about every row is one about all rows.
  pub All-every : (P : R → Type 0) → ((r : R) → P r) → (rs : List R) → All P rs
  All-every P f [] = tt
  All-every P f (r ∷ rs) = (f r, All-every P f rs)

  -- An update that neither hits nor makes a row of the test leaves what is fetched.
  pub fetch-update_other :
      (test hit : R → Bool) (change : R → R) (rs : List R)
      → All (λ r. hit r ≡ true → test r ≡ false) rs
      → ((r : R) → hit r ≡ true → test (change r) ≡ false)
      → fetch test (update hit change rs) ≡ fetch test rs
  fetch-update_other test hit change [] misses makes = refl
  fetch-update_other test hit change (r ∷ rs) misses makes = elim (Bool-cases (hit r)) [
    | inl f ↦ rw (f, misses.0 f, makes r f) (fetch-update_other test hit change rs misses.1 makes)
    | inr f ↦ elim (Bool-cases (test r)) [
      | inl e ↦ rw (f, e)
      | inr e ↦ rw (f, e) (fetch-update_other test hit change rs misses.1 makes)
    ]
  ]

  -- An update keeps which keys are there.
  pub fetch-update_key :
      (test hit : R → Bool) (change : R → R) (rs : List R)
      → ((r : R) → test (change r) ≡ test r)
      → fetch test (update hit change rs)
        ≡ Option.map (λ r. if hit r then change r else r) (fetch test rs)
  fetch-update_key test hit change [] same = refl
  fetch-update_key test hit change (r ∷ rs) same = elim (Bool-cases (hit r)) [
    | inl f ↦ elim (Bool-cases (test r)) [
      | inl e ↦ rw (f, same r, e, f)
      | inr e ↦ rw (f, same r, e) (fetch-update_key test hit change rs same)
    ]
    | inr f ↦ elim (Bool-cases (test r)) [
      | inl e ↦ rw (f, e, f)
      | inr e ↦ rw (f, e) (fetch-update_key test hit change rs same)
    ]
  ]

  -- A row that is appended is fetched if no other meets the test.
  pub fetch-append :
      (test : R → Bool) (rs : List R) (x : R)
      → fetch test rs ≡ none
      → test x ≡ true
      → fetch test (rs ++ x ∷ []) ≡ some x
  fetch-append test [] x h k = rw k
  fetch-append test (r ∷ rs) x h k = elim (Bool-cases (test r)) [
    | inl e ↦ ground (arith, e)
    | inr e ↦ rw e (fetch-append test rs x (rw e at h) k)
  ]
