-- ===== src/Reconcile/Deferred.antt =====
-- A deletion that was asked for survives the inspections, and the cleanup carries it out.
use vm_forgeyard.Prelude.{
  ℕ, ◌≡◌, refl, ap, ◌∙◌, inl, inr, String, true, Option, none, some, List, [], ◌∷◌, ◌==◌, ◌||◌,
  Option-cases, Bool-cases, All, All-map, eq_iff,
}
use mathlib.Core.Option.{some-injective}
use vm_forgeyard.Prelude.Rows.{fetch}
use vm_forgeyard.Prelude.Keys.{Apart}
use vm_forgeyard.Prelude.Actions.{◌>>◌, continue}
use vm_forgeyard.Prelude.Actions.Keeps.{Keeps, keeps_rules, Keeps-if, Keeps-bind, Keeps-pure}
use vm_forgeyard.Prelude.Actions.Returns.{
  Returns, returns_rules, Returns-if, Returns-bind, Returns-handle, Returns-pure,
}
use vm_forgeyard.Vm.{VmInstance, VmUpdate, with_vm_id}
use vm_forgeyard.Vm.Queries.{get_vm, list_vms}
use vm_forgeyard.Vm.Keys.{same_id}
use vm_forgeyard.Control.{Control, Host, ExecutorResult, begin_operation, end_operation}
use vm_forgeyard.Cleanup.{cleanup_stale_stopped_ephemeral_vms}
use vm_forgeyard.Cleanup.Pass.{Answers}
use vm_forgeyard.Cleanup.Pass.Due.{cleanup-removes}
use vm_forgeyard.Reconcile.{
  reconciled_updates, apply_inspection, reconcile_one, reconcile_all,
  reconcile_registered_vm_runtime_states, is_settled,
}
use vm_forgeyard.Reconcile.Marked.{
  HasDoomed, Spares, patch-HasDoomed, begin-HasDoomed, end-HasDoomed,
}

-- A doomed machine keeps its status.
reconciled-Spares :
    (layer3_mtime : String → Option ℕ) (now : ℕ) (vm : VmInstance) (result : ExecutorResult)
    → vm.status ≡ "deleting"
    → All Spares (reconciled_updates layer3_mtime now vm result)
unfolding reconciled_updates
reconciled-Spares layer3_mtime now vm result doomed = elim (Option-cases result.power_state) [
  | inl e ↦ rw (All, e) tt
  | inr e ↦ elim (Bool-cases (e.0 == "running" || e.0 == "paused")) [
    | inl f ↦ rw (All, e.1, f, doomed) (tt, (tt, tt))
    | inr f ↦ elim (Bool-cases (e.0 == "stopped")) [
      | inl g ↦ rw (All, e.1, f, g, doomed) (tt, (tt, (tt, tt)))
      | inr g ↦ elim (Bool-cases (e.0 == "failed")) [
        | inl k ↦ rw (All, e.1, f, g, k, doomed) (tt, (tt, (tt, tt)))
        | inr k ↦ rw (All, e.1, f, g, k) tt
      ]
    ]
  ]
]

-- In a table with unique keys, the rows with the key of a doomed machine are that machine.
only_doomed :
    (id : String) (vms : List VmInstance) (vm : VmInstance)
    → Apart same_id vms
    → fetch (with_vm_id id) vms ≡ some vm
    → vm.status ≡ "deleting"
    → All (λ (r : VmInstance). (r.vm_id == id) ≡ true → r.status ≡ "deleting") vms
only_doomed id [] vm apart h d = tt
only_doomed id (r ∷ rs) vm apart h d = elim (Bool-cases (r.vm_id == id)) [
  | inl e ↦ (
    λ k. ap (λ (x : VmInstance). x.status) (some-injective r vm (rw e at h)) ∙ d,
    All-map (λ x differs k. cc (rw ((eq_iff r.vm_id id).0 e) at differs, k)) rs apart.0,
  )
  | inr e ↦ (λ k. cc, only_doomed id rs vm apart.1 (rw e at h) d)
]

module _ {Net : Type 0} (h : Host Net) (now : ℕ) (layer3_mtime : String → Option ℕ) where
  apply-HasDoomed :
      (id : String) (vm : VmInstance) (us : List VmUpdate)
      → ((vm.vm_id == id) ≡ true → All Spares us)
      → Keeps (λ s. HasDoomed id s.vms) (apply_inspection h now layer3_mtime vm us)
  unfolding apply_inspection
  apply-HasDoomed id vm [] spares = search keeps_rules
  apply-HasDoomed id vm (u ∷ us) spares = search (keeps_rules, patch-HasDoomed)

  one-HasDoomed :
      (id : String) (vm : VmInstance)
      → ((vm.vm_id == id) ≡ true → vm.status ≡ "deleting")
      → Keeps (λ s. HasDoomed id s.vms) (reconcile_one h now layer3_mtime vm)
  unfolding reconcile_one
  one-HasDoomed id vm doomed =
      let applied = λ (result : ExecutorResult).
        apply-HasDoomed id vm (reconciled_updates layer3_mtime now vm result)
          (λ e. reconciled-Spares layer3_mtime now vm result (doomed e)) in
      search (keeps_rules, begin-HasDoomed, end-HasDoomed, applied) depth 14

  all-HasDoomed :
      (id : String) (vms : List VmInstance)
      → All (λ (vm : VmInstance). (vm.vm_id == id) ≡ true → vm.status ≡ "deleting") vms
      → Keeps (λ s. HasDoomed id s.vms) (reconcile_all h now layer3_mtime vms)
  unfolding reconcile_all
  all-HasDoomed id [] doomed = search keeps_rules
  all-HasDoomed id (vm ∷ vms) doomed =
      let one = one-HasDoomed id vm doomed.0 in
      let rest = all-HasDoomed id vms doomed.1 in
      Keeps-if (is_settled h now layer3_mtime vm) _ _ rest
        (Keeps-bind _ _ one (λ result. Keeps-bind _ _ rest (λ results. Keeps-pure _)))

  reconcile-HasDoomed :
      (id : String) (s : Control)
      → HasDoomed id s.vms
      → HasDoomed id (reconcile_registered_vm_runtime_states h now layer3_mtime s).0.vms
  unfolding reconcile_registered_vm_runtime_states list_vms get_vm
  reconcile-HasDoomed id s marked =
      let all =
        all-HasDoomed id s.vms (only_doomed id s.vms marked.1 marked.0.0 marked.2 marked.3.0) in
      (Keeps-bind (reconcile_all h now layer3_mtime s.vms) _ all (λ results. Keeps-pure _)).at s
        marked

  begin-Returns :
      (action : String) (vm_id : Option String) (namespace status : String)
      (category reason : Option String)
      → Returns (begin_operation now action vm_id namespace status category reason)
  unfolding begin_operation
  begin-Returns action vm_id namespace status category reason = record { at = λ s. (_, refl) }

  end-Returns :
      (op : ℕ) (status : String) (reason : Option String)
      → Returns (end_operation now op status reason)
  unfolding end_operation
  end-Returns op status reason = record { at = λ s. (tt, refl) }

  one-Returns : (vm : VmInstance) → Returns (reconcile_one h now layer3_mtime vm)
  unfolding reconcile_one
  one-Returns vm = search (returns_rules, begin-Returns, end-Returns, Returns-handle) depth 12

  all-Returns : (vms : List VmInstance) → Returns (reconcile_all h now layer3_mtime vms)
  unfolding reconcile_all
  all-Returns [] = Returns-pure []
  all-Returns (vm ∷ vms) =
      let rest = all-Returns vms in
      Returns-if (is_settled h now layer3_mtime vm) _ _ rest (
        Returns-bind _ _ (one-Returns vm)
          (λ result. Returns-bind _ _ rest (λ results. Returns-pure _)))

  -- The inspection of the machines never raises, whatever the executor answers.
  reconcile-Returns : Returns (reconcile_registered_vm_runtime_states h now layer3_mtime)
  unfolding reconcile_registered_vm_runtime_states list_vms
  reconcile-Returns = record {
    at = λ s.
        (Returns-bind (reconcile_all h now layer3_mtime s.vms) _ (all-Returns s.vms)
            (λ results. Returns-pure _)).at
          s;
  }

  -- In a table with unique keys, a machine that is marked for deletion, is ephemeral and has its layer 3
  -- disk, and for which the executor answers every call, is gone when the inspections and the cleanup
  -- that follow a start are over, whatever the inspections find.
  pub deferred-removed :
      (ttl : ℕ) (s : Control) (vm_id : String)
      → HasDoomed vm_id s.vms
      → Answers h vm_id
      → get_vm
          ((reconcile_registered_vm_runtime_states h now layer3_mtime
              >> cleanup_stale_stopped_ephemeral_vms h now layer3_mtime ttl)
            s).0.vms
          vm_id
        ≡ none
  deferred-removed ttl s vm_id marked answers =
      let after = reconcile_registered_vm_runtime_states h now layer3_mtime s in
      let left = reconcile-HasDoomed vm_id s marked in
      ap
        (λ r.
          get_vm
            (continue (after.0, r)
              (λ _. cleanup_stale_stopped_ephemeral_vms h now layer3_mtime ttl)).0.vms
            vm_id)
        (reconcile-Returns.at s).1
      ∙ cleanup-removes h now layer3_mtime ttl after.0 vm_id left.1 left.2
          (left.3.1, left.3.2, inl left.3.0) left.0 answers
