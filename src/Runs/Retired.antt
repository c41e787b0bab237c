-- ===== src/Runs/Retired.antt =====
-- Which entries of the catalog a run makes inactive.
use vm_forgeyard.Prelude.{
  ℕ, ◌≡◌, refl, sym, subst, inl, inr, String, true, false, not, ◌&&◌, ◌||◌, List, [], ◌∷◌, ◌==◌,
  if◌then◌else◌, map, Bool-cases, All, All-map, All-append, arith, eq_iff, eq_refl,
}
use vm_forgeyard.Prelude.Rows.{select, any, All-update}
use vm_forgeyard.Auth.Policy.{is_in}
use vm_forgeyard.Runs.{CatalogEntry}
use vm_forgeyard.Runs.Catalog.{
  Workflow, of_workflow, is_entry, seen, declare_test, declare_tests, is_retired, inactive,
}

-- The tests of a workflow in the catalog.
abbrev pub tests_of : Workflow → List CatalogEntry → List String
tests_of w catalog = map (λ (e : CatalogEntry). e.test_id) (select (of_workflow w) catalog)

-- An entry of the workflow is for a test of a list or of another one.
abbrev pub IsKnown : Workflow → List String → List String → CatalogEntry → Type 0
IsKnown w declared old e =
    of_workflow w e ≡ true → (is_in e.test_id declared || is_in e.test_id old) ≡ true

pub old-IsKnown :
    (w : Workflow) (declared : List String) (catalog : List CatalogEntry)
    → All (IsKnown w declared (tests_of w catalog)) catalog
old-IsKnown w declared [] = tt
old-IsKnown w declared (e ∷ es) = elim (Bool-cases (of_workflow w e)) [
  | inl k ↦
      let grown : tests_of w (e ∷ es) ≡ e.test_id ∷ tests_of w es = rw k in
      subst (λ old. All (IsKnown w declared old) (e ∷ es)) (sym grown)
        (
          λ h. ground (arith, eq_refl e.test_id),
          All-map {P = IsKnown w declared (tests_of w es)}
              {Q = IsKnown w declared (e.test_id ∷ tests_of w es)} (λ x h m. ground (arith, h m)) es
              (old-IsKnown w declared es),
        )
  | inr k ↦
      let same : tests_of w (e ∷ es) ≡ tests_of w es = rw k in
      subst (λ old. All (IsKnown w declared old) (e ∷ es)) (sym same)
        (λ h. cc (h, k), old-IsKnown w declared es)
]

module _ (w : Workflow) (run_id : ℕ) (declared old : List String) where
  seen-IsKnown :
      (test_id : String) (e : CatalogEntry)
      → IsKnown w declared old e
      → IsKnown w declared old (if is_entry w test_id e then seen run_id e else e)
  seen-IsKnown test_id e h = elim (Bool-cases (is_entry w test_id e)) [
    | inl k ↦ rw k h
    | inr k ↦ rw k h
  ]

  test-IsKnown :
      (test_id : String) (catalog : List CatalogEntry)
      → is_in test_id declared ≡ true
      → All (IsKnown w declared old) catalog
      → All (IsKnown w declared old) (declare_test w run_id test_id catalog)
  unfolding declare_test
  test-IsKnown test_id catalog listed all = elim (Bool-cases (any (is_entry w test_id) catalog)) [
    | inl k ↦
        rw (All, declare_test, k)
          (All-update (IsKnown w declared old) (IsKnown w declared old) (is_entry w test_id)
            (seen run_id) (seen-IsKnown test_id) catalog all)
    | inr k ↦
        rw (All, declare_test, k)
          (All-append (IsKnown w declared old) catalog _ all (λ h. rw listed, tt))
  ]

  pub tests-IsKnown :
      (tests : List String) (catalog : List CatalogEntry)
      → All (λ test_id. is_in test_id declared ≡ true) tests
      → All (IsKnown w declared old) catalog
      → All (IsKnown w declared old) (declare_tests w run_id tests catalog)
  unfolding declare_tests
  tests-IsKnown [] catalog listed all = all
  tests-IsKnown (s ∷ ss) catalog listed all =
      tests-IsKnown ss (declare_test w run_id s catalog) listed.1
        (test-IsKnown s catalog listed.0 all)

-- A test that is not declared any more is one of the retired ones.
pub is_in-retired :
    (s : String) (declared tests : List String)
    → is_in s (select (λ t. not (is_in t declared)) tests)
      ≡ (is_in s tests && not (is_in s declared))
is_in-retired s declared [] = refl
is_in-retired s declared (t ∷ ts) =
    let rest = is_in-retired s declared ts in
    elim (Bool-cases (is_in t declared)) [
      | inl e ↦ elim (Bool-cases (t == s)) [
        | inl f ↦
            let listed = subst (λ r. is_in r declared ≡ true) ((eq_iff t s).0 f) e in
            rw e (ground (arith, rest, listed))
        | inr f ↦ rw (e, f) rest
      ]
      | inr e ↦ elim (Bool-cases (t == s)) [
        | inl f ↦
            let gone = subst (λ r. is_in r declared ≡ false) ((eq_iff t s).0 f) e in
            rw (e, f) (ground (arith, gone))
        | inr f ↦ rw (e, f) rest
      ]
    ]

-- An active entry of the workflow is for a declared test.
abbrev pub IsDeclared : Workflow → List String → CatalogEntry → Type 0
IsDeclared w declared e = of_workflow w e ≡ true → e.active ≡ true → is_in e.test_id declared ≡ true

pub left-IsDeclared :
    (w : Workflow) (declared tests : List String) (e : CatalogEntry)
    → IsKnown w declared tests e
    → IsDeclared w declared
        (if is_retired w (select (λ t. not (is_in t declared)) tests) e then inactive e else e)
left-IsDeclared w declared tests e known =
    let retired = select (λ t. not (is_in t declared)) tests in
    let member = is_in-retired e.test_id declared tests in
    elim (Bool-cases (is_retired w retired e)) [
      | inl b ↦
          subst (λ r. IsDeclared w declared (if r then inactive e else e)) (sym b) (λ h k. cc k)
      | inr b ↦
          subst (λ r. IsDeclared w declared (if r then inactive e else e)) (sym b)
            (λ h k. ground (arith, h, b, known h, member))
    ]
