-- ===== src/Lib.antt =====
-- vm-forgeyard: a host-local control plane for KVM machines.
--
-- The services keep their state in one SQLite database, whose methods are `Registry` in
-- src/kvm_control/db.py. A namespace asks for locks on resources; whoever holds one may have
-- firewall and workaround rules with it. Virtual machines of a namespace live in slots, have reserved
-- addresses and count against the capacity of the host. Requests come in over two HTTP services,
-- src/kvm_control/control_api.py and src/kvm_control/lock_api.py, and are authenticated by
-- src/kvm_control/auth.py, with the tokens of the registry and the access lists of the configuration.
--
-- A table is the list of its rows in rowid order, and a method of `Registry` is a function from the
-- tables to the tables after it and its result; where it can raise it returns a `Result`, and a raise
-- leaves no table, as the transaction is rolled back. The SQL statements are those of Prelude/Rows:
-- select, fetch, update, delete and an append for INSERT, with the keys that SQLite enforces written
-- out as tests that fail with an integrity error. `now` is the time of the call, in whole seconds, as
-- CURRENT_TIMESTAMP has it.
--
-- - Prelude: tests on numbers and texts, results, rows, keys of tables, and the splitting of texts;
--   Actions has handlers, which keep what they wrote before they raise.
-- - Event: the rows of status_events that methods record (record_status_event, _status_level).
-- - Lock: lock_resources and lock_requests; Requests has ensure_lock_request, release_lock and the
--   readers, Leases the leases of namespace locks, Gate ensure_lock of control_api.py, Invariant the
--   consistency of the two tables.
-- - Vm: vm_instances; Queries has the readers and the capacity counts (current_capacity,
--   ensure_capacity), Writes upsert_vm, patch_vm and delete_vm.
-- - Tokens: auth_tokens and repository_self_registration_keys.
-- - Auth: auth.py; Secrets the texts of tokens, Policy the access lists, Namespaces the namespace and
--   the zones of a principal, Login authenticate_request over the tables of Tokens, Usernames the
--   usernames and the self-registration keys of control_api.py.
-- - Addresses: ip_reservations with reserve_ip.
-- - Operations: operations with create_operation and update_operation.
-- - Firewall: the four tables of rules; Rules has egress and ingress, Access the access rules,
--   Workarounds the endpoint workarounds, Reconciliation firewall.py, and Endpoints the endpoints of
--   lock requests of lock_api.py and of release in control_api.py, which combine Auth, Lock, the rules
--   and their reconciliation; Syncing, Releasing, Answering and Deletion say what a release leaves.
-- - Archive: trash_items with record_archived_vm and list_archived_vms.
-- - Control: the endpoints of machines in control_api.py, as handlers on the tables above; Access has
--   their checks, Ordering and Create create_vm, Operate _operate_vm with its callers, Deletion
--   delete_vm and the retention, Inspect _sync_vm_runtime_state. Frame, Unchanged and Load say what
--   they keep, Starting, Removing and Leaving what they promise.
-- - Runs: the tables of runs; Pauses, Stages, Records and Catalog have their methods, Effective what
--   the pauses do to the durations, Retired and Active what a run does to the catalog.
-- - Cleanup: vm_cleanup.py; Pass says what a pass does, Pass/Due to which machines.
-- - Reconcile: reconcile.py; Stopping is about the times that it records, Marked and Deferred about
--   machines that are to be deleted.
--
-- The executor is a parameter: a function from an action and its payload to a result or the text of
-- an error. The sizes of machines are integers, since CreateVmRequest admits negative ones; the
-- limits of the configuration are natural numbers.
--
-- Loops are structural recursion on rows, texts or lists, so no fuel is needed; _generate_mac, which
-- draws until an address is free, goes through a list of draws. Parameters stand for hashlib, base64
-- and ipaddress.
--
-- Not modelled: the JSON details of events, operations and archived disks, the bodies of responses,
-- the order of some listings (each file says which), the status bus, the estimates and reports of
-- runs, the wait for readiness, the promotion of disks, the catalogs of images and documents, the
-- privileged helper and everything that only passes values to a library or to a command.
pub mod Addresses
pub mod Archive
pub mod Auth
pub mod Cleanup
pub mod Control
pub mod Event
pub mod Firewall
pub mod Lock
pub mod Operations
pub mod Prelude
pub mod Reconcile
pub mod Runs
pub mod Tokens
pub mod Vm
