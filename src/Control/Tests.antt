-- ===== src/Control/Tests.antt =====
-- The endpoints of machines on a concrete host.
use vm_forgeyard.Prelude.{
  ◌≡◌, ◌⊎◌, refl, String, true, none, some, [], ◌∷◌, ok, err, fstring, append, arith,
}
use vm_forgeyard.Vm.{VmInstance}
use vm_forgeyard.Vm.Queries.{get_vm, counted, current_capacity}
use vm_forgeyard.Vm.Admission.{IsWithin}
use vm_forgeyard.Addresses.{
  IpReservation, reserve_ip, reserve_for, reserve_new, network_hosts, network_for_segment,
  outside_pool, ip_in_dynamic_dhcp_pool, in_range, segment_for_network, own_network, generate_mac,
  insert_reservation,
}
use vm_forgeyard.Control.{http_error}
use vm_forgeyard.Control.Operate.{start_vm, restart_vm}
use vm_forgeyard.Control.Create.{create_ordered, finish_create, Disks}
use vm_forgeyard.Control.Deletion.{delete_now, delete_later}
use vm_forgeyard.Control.Starting.{starts-IsWithin}
use vm_forgeyard.Control.Removing.{IsFree, created_or_undone, deleted_or_kept}
use vm_forgeyard.Control.Leaving.{unknown_image_keeps_address, delete_later-HasDoomed}
use vm_forgeyard.Control.Samples.{
  answering, refusing, admin, web, with_vms, order, letters, one_segment,
}
use vm_forgeyard.Reconcile.Marked.{HasDoomed}

starts-IsWithin_example :
    IsWithin answering.limits
      (current_capacity (start_vm answering 9 admin "ci-web" (with_vms (web ∷ []))).0.vms)
    × IsWithin answering.limits
        (current_capacity (restart_vm answering 9 admin "ci-web" (with_vms (web ∷ []))).0.vms)
unfolding current_capacity counted
starts-IsWithin_example =
    starts-IsWithin answering 9 admin "ci-web" (with_vms (web ∷ [])) ((tt, tt), (tt, tt))
      ((tt, tt), tt) (omega arith, omega arith, omega arith)

abbrev disks : Disks
disks = record {
  image = none;
  layer2_path = "/l2/ci--alpine.qcow2";
  layer3_path = "/l3/ci--web.qcow2";
}

created_or_undone_example :
    ((row : VmInstance) × ((finish_create refusing 9
          (order none)
          disks
          web
          1
          (with_vms (web ∷ []))).1
        ≡ ok row))
    ⊎ ((reason : String) × ((finish_create refusing 9
            (order none)
            disks
            web
            1
            (with_vms (web ∷ []))).1
          ≡ err (http_error 503 reason))
        × IsFree "ci-web" "ci" "web"
            (finish_create refusing 9 (order none) disks web 1 (with_vms (web ∷ []))).0)
created_or_undone_example =
    created_or_undone refusing 9 (order none) disks web 1 (with_vms (web ∷ []))

deleted_or_kept_example :
    (((delete_now answering 9 web true (with_vms (web ∷ []))).1 ≡ ok tt)
      × (get_vm (delete_now answering 9 web true (with_vms (web ∷ []))).0.vms "ci-web" ≡ none))
    ⊎ ((reason : String) × ((delete_now answering 9 web true (with_vms (web ∷ []))).1
          ≡ err (http_error 503 reason))
        × ((delete_now answering 9 web true (with_vms (web ∷ []))).0.vms ≡ web ∷ []))
deleted_or_kept_example = deleted_or_kept answering 9 web true (with_vms (web ∷ []))

abbrev row : IpReservation
row = record { namespace = "ci"; vm_slot = "web"; ip_address = "a"; mac_address = "m1" }

reserved_row : reserve_ip letters one_segment ("m1" ∷ []) [] "ci" "web" "dev" ≡ ok (row ∷ [], row)
unfolding reserve_ip reserve_for reserve_new network_hosts network_for_segment outside_pool
    ip_in_dynamic_dhcp_pool in_range segment_for_network own_network generate_mac insert_reservation
    fstring append
reserved_row = refl

unknown_image_keeps_address_example :
    create_ordered answering 9 (order (some "img")) (with_vms [])
    ≡ (record (with_vms []) { reservations = row ∷ [] }, err (http_error 404 "image not found"))
unknown_image_keeps_address_example =
    unknown_image_keeps_address answering 9 (order (some "img")) "img" (with_vms []) (row ∷ []) row
      refl refl reserved_row

delete_later-HasDoomed_example :
    ((delete_later answering 9 web (with_vms (web ∷ []))).1 ≡ ok tt)
    × HasDoomed "ci-web" (delete_later answering 9 web (with_vms (web ∷ []))).0.vms
unfolding get_vm
delete_later-HasDoomed_example =
    delete_later-HasDoomed answering 9 web (with_vms (web ∷ [])) ((tt, tt), (tt, tt)) refl refl
