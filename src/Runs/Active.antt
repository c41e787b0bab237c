-- ===== src/Runs/Active.antt =====
-- The active tests of a workflow are those that its last run declares.
use vm_forgeyard.Prelude.{
  ℕ, ◌≡◌, sym, subst, inl, inr, String, Bool, true, false, not, ◌&&◌, List, [], ◌∷◌, if◌then◌else◌,
  Bool-cases, All, All-map, All-zip, arith, eq_iff, eq_refl,
}
use vm_forgeyard.Prelude.Rows.{
  select, update, any, any-append, any-update_keep, All-update, All-every,
}
use vm_forgeyard.Auth.Policy.{is_in}
use vm_forgeyard.Runs.{CatalogEntry, RunTables}
use vm_forgeyard.Runs.Catalog.{
  Workflow, of_workflow, is_entry, seen, declare_test, declare_tests, retired_tests, new_entry,
  is_retired, inactive, reconcile_workflow_test_catalog,
}
use vm_forgeyard.Runs.Retired.{
  tests_of, IsKnown, old-IsKnown, tests-IsKnown, is_in-retired, left-IsDeclared,
}

-- An entry of a test that is active.
abbrev is_active : Workflow → String → CatalogEntry → Bool
is_active w s e = is_entry w s e && e.active

any-seen :
    (w : Workflow) (run_id : ℕ) (s : String) (catalog : List CatalogEntry)
    → any (is_entry w s) catalog ≡ true
    → any (is_active w s) (update (is_entry w s) (seen run_id) catalog) ≡ true
any-seen w run_id s [] h = h
any-seen w run_id s (e ∷ es) h = elim (Bool-cases (is_entry w s e)) [
  | inl k ↦ rw (k, k)
  | inr k ↦ ground (arith, any-seen w run_id s es (rw k at h))
]

module _ (w : Workflow) (run_id : ℕ) (s : String) where
  test-active :
      (catalog : List CatalogEntry) → any (is_active w s) (declare_test w run_id s catalog) ≡ true
  unfolding declare_test
  test-active catalog = elim (Bool-cases (any (is_entry w s) catalog)) [
    | inl k ↦ rw (declare_test, k) (any-seen w run_id s catalog k)
    | inr k ↦
        rw (declare_test, k, any-append (is_active w s) catalog (new_entry w run_id s ∷ []))
          (ground (arith, eq_refl w.namespace, eq_refl w.name, eq_refl w.version, eq_refl s))
  ]

  seen_active :
      (b : Bool) (e : CatalogEntry)
      → is_active w s e ≡ true
      → is_active w s (if b then seen run_id e else e) ≡ true
  seen_active true e h = ground (arith, h)
  seen_active false e h = h

  kept-active :
      (t : String) (catalog : List CatalogEntry)
      → any (is_active w s) catalog ≡ true
      → any (is_active w s) (declare_test w run_id t catalog) ≡ true
  unfolding declare_test
  kept-active t catalog h = elim (Bool-cases (any (is_entry w t) catalog)) [
    | inl k ↦
        rw (declare_test, k)
          (any-update_keep (is_entry w t) (is_active w s) (seen run_id) catalog
            (All-every _ (λ e. seen_active (is_entry w t e) e) catalog) h)
    | inr k ↦
        rw (declare_test, k, any-append (is_active w s) catalog (new_entry w run_id t ∷ []), h)
  ]

  tests-kept :
      (tests : List String) (catalog : List CatalogEntry)
      → any (is_active w s) catalog ≡ true
      → any (is_active w s) (declare_tests w run_id tests catalog) ≡ true
  unfolding declare_tests
  tests-kept [] catalog h = h
  tests-kept (t ∷ ts) catalog h =
      tests-kept ts (declare_test w run_id t catalog) (kept-active t catalog h)

  -- A declared test is not retired.
  spared :
      (declared tests : List String) (e : CatalogEntry)
      → is_in s declared ≡ true
      → is_active w s e ≡ true
      → is_active w s
          (if is_retired w (select (λ t. not (is_in t declared)) tests) e then inactive e else e)
        ≡ true
  spared declared tests e listed h =
      let same : e.test_id ≡ s = (eq_iff e.test_id s).0 (ground (arith, h)) in
      let here = subst (λ r. is_in r declared ≡ true) (sym same) listed in
      let member = is_in-retired e.test_id declared tests in
      let stays : is_retired w (select (λ t. not (is_in t declared)) tests) e ≡ false =
        ground (arith, here, member) in
      rw stays h

tests-active :
    (w : Workflow) (run_id : ℕ) (tests : List String) (catalog : List CatalogEntry)
    → All (λ s. any (is_active w s) (declare_tests w run_id tests catalog) ≡ true) tests
unfolding declare_tests
tests-active w run_id [] catalog = tt
tests-active w run_id (s ∷ ss) catalog = (
  tests-kept w run_id s ss (declare_test w run_id s catalog) (test-active w run_id s catalog),
  tests-active w run_id ss (declare_test w run_id s catalog),
)

all-listed : (ss : List String) → All (λ s. is_in s ss ≡ true) ss
all-listed [] = tt
all-listed (s ∷ ss) = (
  rw (eq_refl s),
  All-map {P = λ t. is_in t ss ≡ true} {Q = λ t. is_in t (s ∷ ss) ≡ true} (λ t h. ground (arith, h))
      ss (all-listed ss),
)

-- When the catalog has followed a run, the active tests of its workflow are exactly those that the
-- run declares: an active entry of the workflow is for a declared test, and each declared test has
-- an active entry.
pub catalog_follows :
    (w : Workflow) (run_id : ℕ) (declared : List String) (t : RunTables)
    → All
        (λ (e : CatalogEntry).
          of_workflow w e ≡ true → e.active ≡ true → is_in e.test_id declared ≡ true)
        (reconcile_workflow_test_catalog w run_id declared t).catalog
      × All
          (λ s.
            any
              (λ (e : CatalogEntry). is_entry w s e && e.active)
              (reconcile_workflow_test_catalog w run_id declared t).catalog
            ≡ true)
          declared
unfolding reconcile_workflow_test_catalog retired_tests
catalog_follows w run_id declared t =
    let old = tests_of w t.catalog in
    let made = declare_tests w run_id declared t.catalog in
    let retired = select (λ s. not (is_in s declared)) old in
    (
      All-update (IsKnown w declared old) _ (is_retired w retired) inactive
          (λ e known. left-IsDeclared w declared old e known) made
          (tests-IsKnown w run_id declared old declared t.catalog (all-listed declared)
            (old-IsKnown w declared t.catalog)),
      All-map {P = λ s. (is_in s declared ≡ true) × (any (is_active w s) made ≡ true)}
          {Q = λ s. any (is_active w s) (update (is_retired w retired) inactive made) ≡ true}
          (λ s h.
            any-update_keep (is_retired w retired) (is_active w s) inactive made
              (All-every _ (λ e. spared w run_id s declared old e h.0) made) h.1)
          declared
          (All-zip _ _ declared (all-listed declared) (tests-active w run_id declared t.catalog)),
    )
