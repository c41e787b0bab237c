-- ===== src/Cleanup/Tests.antt =====
-- A pass of the cleanup on concrete machines.
use vm_forgeyard.Prelude.{◌+◌, ◌≡◌, refl, inl, inr, none, some, [], ◌∷◌, length, ok, arith}
use vm_forgeyard.Prelude.Rows.{delete}
use vm_forgeyard.Vm.{VmInstance}
use vm_forgeyard.Vm.Queries.{get_vm}
use vm_forgeyard.Control.{Control}
use vm_forgeyard.Control.Samples.{answer, answering, refusing, web, with_vms}
use vm_forgeyard.Cleanup.{CleanupReport, cleanup_stale_stopped_ephemeral_vms}
use vm_forgeyard.Cleanup.Pass.{is_reported}
use vm_forgeyard.Cleanup.Pass.Due.{IsDue, cleanup-table, cleanup-spares, cleanup-removes}

cleanup-table_example :
    (after : Control) × (report : CleanupReport) × (cleanup_stale_stopped_ephemeral_vms refusing 99
        (λ path. none)
        60
        (with_vms (web ∷ []))
      ≡ (after, ok report))
    × (length report.cleaned + length report.failed ≡ report.candidates)
    × (after.vms ≡ delete (λ (vm : VmInstance). is_reported report.cleaned vm.vm_id) (web ∷ []))
cleanup-table_example = cleanup-table refusing 99 (λ path. none) 60 (with_vms (web ∷ []))

-- It has been stopped for 4 seconds only.
young : ¬ IsDue (λ path. none) 60 9 web
young due = elim due.2 [ inl e ↦ cc | inr k ↦ omega (arith, k.2) ]

cleanup-spares_example :
    get_vm
      (cleanup_stale_stopped_ephemeral_vms answering 9
        (λ path. none)
        60
        (with_vms (web ∷ []))).0.vms
      "ci-web"
    ≡ some web
unfolding get_vm
cleanup-spares_example =
    cleanup-spares answering 9 (λ path. none) 60 (with_vms (web ∷ [])) "ci-web" web
      ((tt, tt), (tt, tt)) refl young

cleanup-removes_example :
    get_vm
      (cleanup_stale_stopped_ephemeral_vms answering 99
        (λ path. none)
        60
        (with_vms (web ∷ []))).0.vms
      "ci-web"
    ≡ none
unfolding get_vm
cleanup-removes_example =
    cleanup-removes answering 99 (λ path. none) 60 (with_vms (web ∷ [])) "ci-web" web refl
      (refl, refl, inr (inl refl, omega arith, omega arith)) ((tt, tt), (tt, tt))
      (λ action payload same. (answer, refl))
