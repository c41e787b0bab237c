-- ===== src/Cleanup/Pass/Due.antt =====
-- Which machines a pass of the cleanup deletes.
use vm_forgeyard.Prelude.{
  ℕ, ◌+◌, ◌≤◌, ◌<◌, ◌≡◌, refl, sym, ap, ◌∙◌, ◌⊎◌, ◌↔◌, inl, inr, String, Bool, true, false, ◌&&◌,
  ◌||◌, Option, none, some, List, [], ◌∷◌, ◌==◌, length, if◌then◌else◌, ok, Bool-cases, All, arith,
  eq_iff, subst,
}
use mathlib.Core.Option.{some-injective}
use vm_forgeyard.Prelude.Rows.{any, delete, fetch}
use vm_forgeyard.Prelude.Keys.{Apart}
use vm_forgeyard.Vm.{VmInstance, with_vm_id}
use vm_forgeyard.Vm.Queries.{get_vm, is_stopped_ephemeral, list_stopped_ephemeral_vms}
use vm_forgeyard.Vm.Keys.{IsKeyed, same_id}
use vm_forgeyard.Control.{Control, Host}
use vm_forgeyard.Cleanup.{
  Candidate, Cleaned, CleanupReport, stopped_reference_time, is_expired, select_candidates,
  cleaned_in, failed_in, cleanup_stale_stopped_ephemeral_vms,
}
use vm_forgeyard.Cleanup.Pass.{is_reported, is_candidate, Answers, pass}

-- Since when a machine has been stopped, as far as is known.
abbrev pub stopped_since : (String → Option ℕ) → VmInstance → ℕ
stopped_since layer3_mtime vm = elim vm.stopped_at [
  | some time ↦ time
  | none ↦ elim (layer3_mtime vm.layer3_path) [ some time ↦ time | none ↦ vm.updated_at ]
]

-- An ephemeral machine with a disk, whose deletion was asked for or that has been stopped for the
-- time that the configuration gives, which is not 0.
abbrev pub IsDue : (String → Option ℕ) → ℕ → ℕ → VmInstance → Type 0
IsDue layer3_mtime ttl now vm =
    (vm.retention ≡ "ephemeral")
    × (vm.layer3_presence ≡ "present")
    × ((vm.status ≡ "deleting")
        ⊎ (((vm.power_state ≡ "stopped") ⊎ (vm.power_state ≡ "failed"))
            × (0 < ttl)
            × (stopped_since layer3_mtime vm + ttl ≤ now)))

-- Deleting all rows with some keys hides those keys and no other.
fetch-delete_keys :
    (gone : String → Bool) (vm_id : String) (vms : List VmInstance)
    → fetch (with_vm_id vm_id) (delete (λ (vm : VmInstance). gone vm.vm_id) vms)
      ≡ (if gone vm_id then none else fetch (with_vm_id vm_id) vms)
fetch-delete_keys gone vm_id [] = elim (Bool-cases (gone vm_id)) [ inl e ↦ rw e | inr e ↦ rw e ]
fetch-delete_keys gone vm_id (vm ∷ vms) = elim (Bool-cases (vm.vm_id == vm_id)) [
  | inl e ↦
      let same = ap gone ((eq_iff vm.vm_id vm_id).0 e) in
      let rest = fetch-delete_keys gone vm_id vms in
      elim (Bool-cases (gone vm_id)) [
        | inl g ↦ rw (same, g) (rw g at rest)
        | inr g ↦ rw (same, g, e)
      ]
  | inr e ↦ elim (Bool-cases (gone vm.vm_id)) [
    | inl f ↦ rw (f, e) (fetch-delete_keys gone vm_id vms)
    | inr f ↦ rw (f, e) (fetch-delete_keys gone vm_id vms)
  ]
]

known_time :
    (stopped changed : Option ℕ) (updated : ℕ)
    → Path
        (Option ℕ)
        (elim stopped [
          | some time ↦ some time
          | none ↦ elim changed [ some time ↦ some time | none ↦ some updated ]
        ])
        (some (elim stopped [
          | some time ↦ time
          | none ↦ elim changed [ some time ↦ time | none ↦ updated ]
        ]))
known_time (some time) changed updated = refl
known_time none (some time) updated = refl
known_time none none updated = refl

any-other :
    (test : VmInstance → Bool) (vm_id : String) (rs : List VmInstance)
    → All (λ (r : VmInstance). (r.vm_id == vm_id) ≡ false) rs
    → any (λ (r : VmInstance). vm_id == r.vm_id && test r) rs ≡ false
any-other test vm_id [] h = refl
any-other test vm_id (r ∷ rs) h =
    ground (arith, eq_iff r.vm_id vm_id, eq_iff vm_id r.vm_id, h.0, any-other test vm_id rs h.1)

-- In a table with unique keys, one row with a key stands for all rows with it.
any-keyed :
    (test : VmInstance → Bool) (vms : List VmInstance) (vm_id : String) (vm : VmInstance)
    → Apart same_id vms
    → fetch (with_vm_id vm_id) vms ≡ some vm
    → any (λ (r : VmInstance). vm_id == r.vm_id && test r) vms ≡ test vm
any-keyed test [] vm_id vm apart h = cc
any-keyed test (r ∷ rs) vm_id vm apart h = elim (Bool-cases (r.vm_id == vm_id)) [
  | inl e ↦
      let same = (eq_iff r.vm_id vm_id).0 e in
      let others =
        any-other test vm_id rs
          (subst (λ id. All (λ (x : VmInstance). (x.vm_id == id) ≡ false) rs) same apart.0) in
      ap (λ b. (vm_id == r.vm_id && test r) || b) others
      ∙ ground (arith, eq_iff vm_id r.vm_id, same)
      ∙ ap test (some-injective r vm (rw e at h))
  | inr e ↦ ground (
    arith,
    eq_iff r.vm_id vm_id,
    eq_iff vm_id r.vm_id,
    any-keyed test rs vm_id vm apart.1 (rw e at h),
  )
]

reported_candidate :
    (cs : List Candidate) (vm_id : String) (cleaned : List Cleaned)
    → All (λ (c : Cleaned). is_candidate cs c.vm_id ≡ true) cleaned
    → is_reported cleaned vm_id ≡ true
    → is_candidate cs vm_id ≡ true
reported_candidate cs vm_id [] known h = cc
reported_candidate cs vm_id (c ∷ rest) known h = elim (Bool-cases (vm_id == c.vm_id)) [
  | inl e ↦ rw ((eq_iff vm_id c.vm_id).0 e) known.0
  | inr e ↦ reported_candidate cs vm_id rest known.1 (rw e at h)
]

module _ (layer3_mtime : String → Option ℕ) (ttl now : ℕ) where
  unfoldable is_due : VmInstance → Bool
  is_due vm =
      is_stopped_ephemeral vm
      && (vm.status == "deleting" || is_expired ttl now (stopped_reference_time layer3_mtime vm))

  reference_known :
      (vm : VmInstance)
      → stopped_reference_time layer3_mtime vm ≡ some (stopped_since layer3_mtime vm)
  unfolding stopped_reference_time
  reference_known vm = known_time vm.stopped_at (layer3_mtime vm.layer3_path) vm.updated_at

  is_due_iff : (vm : VmInstance) → (is_due vm ≡ true) ↔ IsDue layer3_mtime ttl now vm
  unfolding is_due
  is_due_iff vm = rw (reference_known vm) (
    λ h. elim (Bool-cases (vm.status == "deleting")) [
      | inl e ↦ (
        ground (arith, eq_iff vm.retention "ephemeral"),
        ground (arith, eq_iff vm.layer3_presence "present"),
        inl ((eq_iff vm.status "deleting").0 e),
      )
      | inr e ↦ (
        ground (arith, eq_iff vm.retention "ephemeral"),
        ground (arith, eq_iff vm.layer3_presence "present"),
        inr (
            (
              elim (Bool-cases (vm.power_state == "stopped")) [
                | inl f ↦ inl ((eq_iff vm.power_state "stopped").0 f)
                | inr f ↦ inr (ground (arith, eq_iff vm.power_state "failed"))
              ],
              ground arith,
              ground arith,
            )),
      )
    ],
    λ h. elim h.2 [
      | inl e ↦ rw (h.0, h.1, e) (ground arith)
      | inr k ↦ elim k.0 [
        | inl e ↦ rw (h.0, h.1, e) (ground (arith, k.1, k.2))
        | inr e ↦ rw (h.0, h.1, e) (ground (arith, k.1, k.2))
      ]
    ],
  )

  is_candidate-select :
      (vms : List VmInstance) (vm_id : String)
      → is_candidate (select_candidates layer3_mtime ttl now (list_stopped_ephemeral_vms vms)) vm_id
        ≡ any (λ (vm : VmInstance). vm_id == vm.vm_id && is_due vm) vms
  unfolding list_stopped_ephemeral_vms select_candidates is_due
  is_candidate-select [] vm_id = refl
  is_candidate-select (vm ∷ vms) vm_id =
      let rest = is_candidate-select vms vm_id in
      elim (Bool-cases (is_stopped_ephemeral vm)) [
        | inr e ↦ rw e (ground (arith, e, rest))
        | inl e ↦
            elim (Bool-cases (
              vm.status == "deleting"
              || is_expired ttl now (stopped_reference_time layer3_mtime vm))) [
                | inl f ↦ rw (e, f) (ground (arith, rest))
                | inr f ↦ rw (e, f) (ground (arith, rest))
              ]
      ]

module _ {Net : Type 0} (h : Host Net) (now : ℕ) (layer3_mtime : String → Option ℕ) (ttl : ℕ) where
  abbrev chosen : Control → List Candidate
  chosen s = select_candidates layer3_mtime ttl now (list_stopped_ephemeral_vms s.vms)

  -- A pass of the cleanup always returns a report. It counts every candidate as cleaned or as
  -- failed, and the table afterwards is the one before without the machines reported as cleaned.
  pub cleanup-table :
      (s : Control)
      → (after : Control) × (report : CleanupReport) × (cleanup_stale_stopped_ephemeral_vms h now
            layer3_mtime ttl s
          ≡ (after, ok report))
        × (length report.cleaned + length report.failed ≡ report.candidates)
        × (after.vms ≡ delete (λ (vm : VmInstance). is_reported report.cleaned vm.vm_id) s.vms)
  unfolding cleanup_stale_stopped_ephemeral_vms
  cleanup-table s =
      let p = pass h now (chosen s) s in
      (
        p.after,
        record {
          ttl_seconds = ttl;
          candidates = length (chosen s);
          cleaned = cleaned_in p.results;
          failed = failed_in p.results;
        },
        rw p.returns,
        p.count,
        p.table,
      )

  reported-IsDue :
      (s : Control) (vm_id : String) (vm : VmInstance)
      → IsKeyed s.vms
      → get_vm s.vms vm_id ≡ some vm
      → is_candidate (chosen s) vm_id ≡ is_due layer3_mtime ttl now vm
  unfolding get_vm
  reported-IsDue s vm_id vm keyed known =
      is_candidate-select layer3_mtime ttl now s.vms vm_id
      ∙ any-keyed (is_due layer3_mtime ttl now) s.vms vm_id vm keyed.0 known

  after_pass :
      (s : Control) (vm_id : String)
      → get_vm (cleanup_stale_stopped_ephemeral_vms h now layer3_mtime ttl s).0.vms vm_id ≡ (
          if is_reported (cleaned_in (pass h now (chosen s) s).results) vm_id
          then none
          else get_vm s.vms vm_id)
  unfolding cleanup_stale_stopped_ephemeral_vms get_vm
  after_pass s vm_id =
      let p = pass h now (chosen s) s in
      rw p.returns (
        ap (λ vms. fetch (with_vm_id vm_id) vms) p.table
        ∙ fetch-delete_keys (is_reported (cleaned_in p.results)) vm_id s.vms)

  -- Whatever the executor answers, a pass of the cleanup leaves a machine that is not due as it is.
  pub cleanup-spares :
      (s : Control) (vm_id : String) (vm : VmInstance)
      → IsKeyed s.vms
      → get_vm s.vms vm_id ≡ some vm
      → ¬ IsDue layer3_mtime ttl now vm
      → get_vm (cleanup_stale_stopped_ephemeral_vms h now layer3_mtime ttl s).0.vms vm_id ≡ some vm
  cleanup-spares s vm_id vm keyed known spared =
      let p = pass h now (chosen s) s in
      elim (Bool-cases (is_reported (cleaned_in p.results) vm_id)) [
        | inl e ↦
            elim (spared (
              (is_due_iff layer3_mtime ttl now vm).0 (
                sym (reported-IsDue s vm_id vm keyed known)
                ∙ reported_candidate (chosen s) vm_id (cleaned_in p.results) p.known e))) [ ]
        | inr e ↦ after_pass s vm_id ∙ rw e known
      ]

  -- A machine that is due, and for which the executor answers every call, is gone after the pass.
  pub cleanup-removes :
      (s : Control) (vm_id : String) (vm : VmInstance)
      → get_vm s.vms vm_id ≡ some vm
      → IsDue layer3_mtime ttl now vm
      → IsKeyed s.vms
      → Answers h vm_id
      → get_vm (cleanup_stale_stopped_ephemeral_vms h now layer3_mtime ttl s).0.vms vm_id ≡ none
  cleanup-removes s vm_id vm known due keyed answers =
      let p = pass h now (chosen s) s in
      after_pass s vm_id
      ∙ rw (
          p.answered vm_id answers
            (reported-IsDue s vm_id vm keyed known ∙ (is_due_iff layer3_mtime ttl now vm).1 due))
