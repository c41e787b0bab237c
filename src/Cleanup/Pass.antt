-- ===== src/Cleanup/Pass.antt =====
-- What one pass of the cleanup does to the table of machines, whatever the executor answers.
pub mod Due
use vm_forgeyard.Prelude.{
  ℕ, ◌+◌, ◌≡◌, refl, sym, ap, ◌∙◌, ◌⊎◌, inl, inr, String, Bool, true, false, not, ◌||◌, Option,
  none, some, List, [], ◌∷◌, ◌==◌, length, Result, ok, err, Result-cases, Bool-cases, All, All-map,
  arith, eq_refl, eq_iff, subst,
}
use vm_forgeyard.Prelude.Rows.{any, delete}
use vm_forgeyard.Prelude.Actions.{recover, continue}
use vm_forgeyard.Prelude.Actions.Returns.{
  Returns, returns_rules, Returns-pure, Returns-attempt, Returns-when, Returns-then, Returns-bind,
}
use vm_forgeyard.Prelude.Actions.Keeps.{Keeps, keeps_rules}
use vm_forgeyard.Vm.{VmInstance}
use vm_forgeyard.Vm.Writes.{delete_vm}
use vm_forgeyard.Operations.{create_operation}
use vm_forgeyard.Control.{
  Control, Host, Payload, ExecutorResult, Exn, text_of_exn, remove, begin_operation, end_operation,
  execute, archive_vm, disk_payload,
}
use vm_forgeyard.Control.Unchanged.{HasVms, trashed-HasVms, stop-HasVms}
use vm_forgeyard.Control.Deletion.{stop_vm_for_cleanup, archive_trashed, stop_payload}
use vm_forgeyard.Cleanup.{
  Candidate, Cleaned, CleanupFailure, cleaned_of, failure_of, cleaned_in, failed_in, cleanup_disks,
  cleanup_failed, cleanup_done, cleanup_one, cleanup_all,
}

-- The machine is one of those that are reported as cleaned.
abbrev pub is_reported : List Cleaned → String → Bool
is_reported cleaned vm_id = any (λ (c : Cleaned). vm_id == c.vm_id) cleaned

abbrev pub is_candidate : List Candidate → String → Bool
is_candidate candidates vm_id = any (λ (c : Candidate). vm_id == c.vm.vm_id) candidates

-- The executor answers every call for a machine.
abbrev pub Answers : {Net : Type 0} → Host Net → String → Type 0
Answers h vm_id =
    (action : String) (payload : Payload)
    → payload.vm_id ≡ vm_id
    → (r : ExecutorResult) × (h.run action payload ≡ ok r)

module _ {Net : Type 0} (h : Host Net) (now : ℕ) where
  executed-Returns :
      (action : String) (payload : Payload)
      → (r : ExecutorResult) × (h.run action payload ≡ ok r)
      → Returns (execute h action payload)
  executed-Returns action payload r = record { at = λ s. (r.0, rw r.1) }

  disks-HasVms :
      (vms : List VmInstance) (c : Candidate) (id : ℕ)
      → Keeps (HasVms vms) (cleanup_disks h now c id)
  unfolding cleanup_disks
  disks-HasVms vms c id = search (keeps_rules, trashed-HasVms, stop-HasVms) depth 12

  stop-Returns :
      (vm : VmInstance) (id : ℕ) (b : Bool)
      → Answers h vm.vm_id
      → Returns (stop_vm_for_cleanup h now vm id b)
  unfolding stop_vm_for_cleanup
  stop-Returns vm id true answers =
      Returns-attempt _ _ (executed-Returns "stop-vm" (stop_payload h now vm id) (answers _ _ refl))
  stop-Returns vm id false answers =
      executed-Returns "stop-vm" (stop_payload h now vm id) (answers _ _ refl)

  trashed-Returns :
      (vm : VmInstance) (path : Option String) (reason : String)
      → Returns (archive_trashed h now vm path reason)
  unfolding archive_trashed archive_vm
  trashed-Returns vm none reason = search returns_rules
  trashed-Returns vm (some path) reason =
      Returns-when (not (path == "")) (archive_vm now vm path reason)
        (record { at = λ s. (tt, refl) })

  -- When all calls are answered, the disks go.
  disks-Returns :
      (c : Candidate) (id : ℕ) → Answers h c.vm.vm_id → Returns (cleanup_disks h now c id)
  unfolding cleanup_disks
  disks-Returns c id answers = Returns-then _ _ (stop-Returns c.vm id _ answers) (
      Returns-bind _ _
        (executed-Returns "delete-layer3" (disk_payload (some id) c.vm) (answers _ _ refl))
        (λ deleted. Returns-then _ _ (trashed-Returns c.vm deleted.trashed_path c.cleanup_reason) (
          Returns-then _ _
            (executed-Returns "delete-runtime"
              (record (disk_payload none c.vm) { namespace = some c.vm.namespace })
              (answers _ _ refl))
            (Returns-pure tt))))

  -- What a result of one turn leaves of the table.
  abbrev left_by : Result CleanupFailure Cleaned → List VmInstance → List VmInstance
  left_by (ok c) vms = delete_vm vms c.vm_id
  left_by (err f) vms = vms

  abbrev IsOf : Candidate → Result CleanupFailure Cleaned → Type 0
  IsOf c (ok d) = d ≡ cleaned_of c
  IsOf c (err f) = (e : Exn) × (f ≡ failure_of c (text_of_exn h e))

  -- One turn never raises: it answers for its candidate, which it deletes or leaves in the table.
  one-Turn :
      (c : Candidate) (s : Control)
      → (after : Control) × (r : Result CleanupFailure Cleaned) × (cleanup_one h now c s
          ≡ (after, ok r))
        × (after.vms ≡ left_by r s.vms)
        × IsOf c r
        × (Answers h c.vm.vm_id → r ≡ ok (cleaned_of c))
  unfolding cleanup_one cleanup_done cleanup_failed begin_operation end_operation remove delete_vm
      create_operation
  one-Turn c s =
      let id = s.operations.next_id in
      let s1 =
        (begin_operation now "cleanup-stale-ephemeral-vm" (some c.vm.vm_id) c.vm.namespace "running"
          none none s).0 in
      let d = cleanup_disks h now c id s1 in
      let kept = (disks-HasVms s.vms c id).at s1 refl in
      let turn = λ (r : Result Exn (Unit {0})).
        recover (continue (d.0, r) (λ _. cleanup_done h now c id)) (cleanup_failed h now c id) in
      elim (Result-cases d.1) [
        | inl e ↦ (
          (cleanup_failed h now c id e.0 d.0).0,
          err (failure_of c (text_of_exn h e.0)),
          ap turn e.1,
          kept,
          (e.0, refl),
          λ answers. cc (e.1, ((disks-Returns c id answers).at s1).1),
        )
        | inr e ↦ (
          (cleanup_done h now c id d.0).0,
          ok (cleaned_of c),
          ap turn e.1,
          ap (λ vms. delete_vm vms c.vm.vm_id) kept,
          refl,
          λ _. refl,
        )
      ]

  -- A pass over candidates, and what it does to the table.
  pub record Pass (cs : List Candidate) (s : Control) : Type 0 where
    pub after : Control
    pub results : List (Result CleanupFailure Cleaned)
    pub returns : cleanup_all h now cs s ≡ (after, ok results)
    pub table :
        after.vms ≡ delete (λ (vm : VmInstance). is_reported (cleaned_in results) vm.vm_id) s.vms
    pub count : length (cleaned_in results) + length (failed_in results) ≡ length cs
    pub known : All (λ (c : Cleaned). is_candidate cs c.vm_id ≡ true) (cleaned_in results)
    pub answered :
        (vm_id : String)
        → Answers h vm_id
        → is_candidate cs vm_id ≡ true
        → is_reported (cleaned_in results) vm_id ≡ true

  delete-delete :
      (p q : VmInstance → Bool) (vms : List VmInstance)
      → delete q (delete p vms) ≡ delete (λ vm. p vm || q vm) vms
  delete-delete p q [] = refl
  delete-delete p q (vm ∷ vms) = ground (arith, delete-delete p q vms)

  delete-none : (vms : List VmInstance) → delete (λ _. false) vms ≡ vms
  delete-none [] = refl
  delete-none (vm ∷ vms) = ap (λ rest. vm ∷ rest) (delete-none vms)

  widen_id :
      (c : Candidate) (cs : List Candidate) (d : Cleaned)
      → d ≡ cleaned_of c
      → is_candidate (c ∷ cs) d.vm_id ≡ true
  widen_id c cs d of = rw (of, eq_refl c.vm.vm_id)

  widened :
      (c : Candidate) (cs : List Candidate) (cleaned : List Cleaned)
      → All (λ (d : Cleaned). is_candidate cs d.vm_id ≡ true) cleaned
      → All (λ (d : Cleaned). is_candidate (c ∷ cs) d.vm_id ≡ true) cleaned
  widened c cs cleaned known = All-map (λ d k. ground (arith, k)) cleaned known

  pass-empty : (s : Control) → Pass [] s
  unfolding cleanup_all
  pass-empty s = record {
    after = s;
    results = [];
    returns = refl;
    table = sym (delete-none s.vms);
    count = refl;
    known = tt;
    answered = λ vm_id a k. cc;
  }

  pass-more :
      (c : Candidate) (cs : List Candidate) (s s1 : Control) (r : Result CleanupFailure Cleaned)
      → cleanup_one h now c s ≡ (s1, ok r)
      → s1.vms ≡ left_by r s.vms
      → IsOf c r
      → (Answers h c.vm.vm_id → r ≡ ok (cleaned_of c))
      → Pass cs s1
      → Pass (c ∷ cs) s
  unfolding cleanup_all delete_vm
  pass-more c cs s s1 (ok d) runs table of answers rest = record {
    after = rest.after;
    results = ok d ∷ rest.results;
    returns = rw (cleanup_all, runs, rest.returns);
    table =
        rest.table
        ∙ ap (delete _) table
        ∙ delete-delete (λ (vm : VmInstance). vm.vm_id == d.vm_id) _ s.vms;
    count = omega (arith, rest.count);
    known = (widen_id c cs d of, widened c cs (cleaned_in rest.results) rest.known);
    answered = λ vm_id a k. elim (Bool-cases (vm_id == c.vm.vm_id)) [
      | inl e ↦ rw (of, e)
      | inr e ↦ ground (arith, rest.answered vm_id a (rw e at k))
    ];
  }
  pass-more c cs s s1 (err f) runs table of answers rest = record {
    after = rest.after;
    results = err f ∷ rest.results;
    returns = rw (cleanup_all, runs, rest.returns);
    table = rest.table ∙ ap (delete _) table;
    count = omega (arith, rest.count);
    known = widened c cs (cleaned_in rest.results) rest.known;
    answered = λ vm_id a k. elim (Bool-cases (vm_id == c.vm.vm_id)) [
      | inl e ↦ cc (answers (subst (Answers h) ((eq_iff vm_id c.vm.vm_id).0 e) a))
      | inr e ↦ rest.answered vm_id a (rw e at k)
    ];
  }

  pub pass : (cs : List Candidate) (s : Control) → Pass cs s
  pass [] s = pass-empty s
  pass (c ∷ cs) s =
      let turn = one-Turn c s in
      pass-more c cs s turn.0 turn.1 turn.2 turn.3 turn.4 turn.5 (pass cs turn.0)
