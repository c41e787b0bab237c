-- ===== src/Reconcile/Tests.antt =====
-- The inspections after a start on concrete machines.
use vm_forgeyard.Prelude.{ℕ, ◌≤◌, ◌≡◌, refl, none, some, [], ◌∷◌, arith}
use vm_forgeyard.Prelude.Actions.{◌>>◌}
use vm_forgeyard.Vm.{VmInstance}
use vm_forgeyard.Vm.Queries.{get_vm}
use vm_forgeyard.Control.{ExecutorResult}
use vm_forgeyard.Control.Samples.{answer, answering, web, with_vms}
use vm_forgeyard.Cleanup.{cleanup_stale_stopped_ephemeral_vms}
use vm_forgeyard.Reconcile.{reconcile_registered_vm_runtime_states, stopped_at_for_inspected_state}
use vm_forgeyard.Reconcile.Deferred.{deferred-removed}
use vm_forgeyard.Reconcile.Stopping.{IsLostAt, reconcile-IsBetween}

-- Its deletion was asked for while it ran.
abbrev marked : VmInstance
marked = record web { status = "deleting"; power_state = "running"; stopped_at = none }

deferred-removed_example :
    get_vm
      ((reconcile_registered_vm_runtime_states answering 9 (λ path. none)
          >> cleanup_stale_stopped_ephemeral_vms answering 9 (λ path. none) 0)
        (with_vms (marked ∷ []))).0.vms
      "ci-web"
    ≡ none
unfolding get_vm
deferred-removed_example =
    deferred-removed answering 9 (λ path. none) 0 (with_vms (marked ∷ [])) "ci-web"
      (((tt, tt), (tt, tt)), marked, refl, (refl, refl, refl))
      (λ action payload same. (answer, refl))

-- The host was started again at 7, after the last update at 5.
abbrev after_boot : ExecutorResult
after_boot = record answer { host_booted_at = some 7; inspected_at = some 8 }

reconcile-IsBetween_example :
    (time : ℕ) × (stopped_at_for_inspected_state (λ path. none) 9 marked after_boot ≡ some time)
    × (5 ≤ time)
    × (time ≤ 9)
    × IsLostAt 5 9 after_boot time
reconcile-IsBetween_example =
    reconcile-IsBetween (λ path. none) 9 marked after_boot "stopped" refl refl refl refl
      (omega arith) (omega arith, omega arith) (omega arith)
