-- ===== src/Runs/Catalog.antt =====
-- src/kvm_control/db.py: `_reconcile_workflow_test_catalog`, by which the catalog of the tests of a
-- workflow becomes the tests that a run declares.
use Prim.Native.Nat.{Ordering}
use Prim.Native.String.{compare}
use vm_forgeyard.Prelude.{
  ℕ, String, Bool, true, false, not, ◌&&◌, Option, none, some, List, [], ◌∷◌, ◌++◌, ◌==◌, ◌=ℕ◌,
  if◌then◌else◌, map,
}
use vm_forgeyard.Prelude.Rows.{select, update, delete, any}
use vm_forgeyard.Auth.Policy.{is_in}
use vm_forgeyard.Runs.{RunTables, Run, RunStage, RunEvent, CatalogEntry}

-- The key of a workflow.
pub record Workflow : Type 0 where
  pub namespace : String
  pub name : String
  pub version : String

abbrev pub of_workflow : Workflow → CatalogEntry → Bool
of_workflow w e =
    e.namespace == w.namespace && (e.workflow_name == w.name && e.workflow_version == w.version)

abbrev pub run_of_workflow : Workflow → Run → Bool
run_of_workflow w r =
    r.namespace == w.namespace && (r.workflow_name == w.name && r.workflow_version == w.version)

abbrev pub is_entry : Workflow → String → CatalogEntry → Bool
is_entry w test_id e = of_workflow w e && e.test_id == test_id

abbrev pub seen : ℕ → CatalogEntry → CatalogEntry
seen run_id e = record e { last_seen_run_id = run_id; active = true }

abbrev pub new_entry : Workflow → ℕ → String → CatalogEntry
new_entry w run_id test_id = record {
  namespace = w.namespace;
  workflow_name = w.name;
  workflow_version = w.version;
  test_id = test_id;
  last_seen_run_id = run_id;
  active = true;
}

-- INSERT ... ON CONFLICT ... DO UPDATE
unfoldable pub declare_test : Workflow → ℕ → String → List CatalogEntry → List CatalogEntry
declare_test w run_id test_id catalog =
    if any (is_entry w test_id) catalog
    then update (is_entry w test_id) (seen run_id) catalog
    else catalog ++ new_entry w run_id test_id ∷ []

unfoldable pub declare_tests : Workflow → ℕ → List String → List CatalogEntry → List CatalogEntry
unfolding declare_test
declare_tests w run_id [] catalog = catalog
declare_tests w run_id (test_id ∷ tests) catalog =
    declare_tests w run_id tests (declare_test w run_id test_id catalog)

-- current - declared
unfoldable pub retired_tests : Workflow → List String → List CatalogEntry → List String
retired_tests w declared catalog =
    select (λ test_id. not (is_in test_id declared))
      (map (λ (e : CatalogEntry). e.test_id) (select (of_workflow w) catalog))

abbrev pub is_retired : Workflow → List String → CatalogEntry → Bool
is_retired w retired e = of_workflow w e && is_in e.test_id retired

abbrev pub inactive : CatalogEntry → CatalogEntry
inactive e = record e { active = false }

abbrev is_history : List Run → Workflow → ℕ → Bool
is_history runs w run_id = any (λ (r : Run). r.id =ℕ run_id && run_of_workflow w r) runs

abbrev in_stages : Option String → List String → Bool
in_stages none retired = false
in_stages (some stage_id) retired = is_in stage_id retired

-- Retired tests become inactive, and the stages and events of theirs go. Without retired tests the
-- three statements would change nothing.
unfoldable pub reconcile_workflow_test_catalog : Workflow → ℕ → List String → RunTables → RunTables
unfolding declare_tests retired_tests
reconcile_workflow_test_catalog w run_id declared t =
    let retired = retired_tests w declared t.catalog in
    record t {
      catalog = update (is_retired w retired) inactive (declare_tests w run_id declared t.catalog);
      stages =
          delete (λ (s : RunStage). is_history t.runs w s.run_id && is_in s.stage_id retired)
            t.stages;
      run_events =
          delete (λ (e : RunEvent). is_history t.runs w e.run_id && in_stages e.stage_id retired)
            t.run_events;
    }

abbrev is_less : String → String → Bool
is_less s t = elim (compare s t) [ Ordering.lt ↦ true | _ ↦ false ]

abbrev pub insert_sorted : String → List String → List String
insert_sorted s [] = s ∷ []
insert_sorted s (t ∷ ts) =
    let rest = insert_sorted s ts in
    if s == t then t ∷ ts else if is_less s t then s ∷ t ∷ ts else t ∷ rest

-- sorted(set(...))
unfoldable pub sorted_set : List String → List String
sorted_set [] = []
sorted_set (s ∷ ss) = insert_sorted s (sorted_set ss)
