-- ===== src/Reconcile/Stopping.antt =====
-- When a machine that an inspection finds stopped is said to have stopped.
use vm_forgeyard.Prelude.{
  ℕ, ◌≤◌, ◌<◌, ◌≡◌, subst, leb, inl, inr, String, true, Option, none, some, Bool-cases,
  Option-cases, arith,
}
use vm_forgeyard.Vm.{VmInstance, is_stopped_state, is_active_state}
use vm_forgeyard.Control.{ExecutorResult}
use vm_forgeyard.Reconcile.{lost_at, or_time, stopped_at_for_inspected_state}

-- A time that is known lies between two others.
abbrev pub IsBetween : ℕ → ℕ → Option ℕ → Type 0
IsBetween first last none = Unit
IsBetween first last (some time) = (first ≤ time) × (time ≤ last)

-- The host started before a time.
abbrev pub IsBefore : ℕ → Option ℕ → Type 0
IsBefore last none = Unit
IsBefore last (some time) = time ≤ last

lost_at-IsBetween :
    (booted : Option ℕ) (updated inspected now : ℕ)
    → IsBefore now booted
    → updated ≤ inspected
    → inspected ≤ now
    → (updated ≤ lost_at booted updated inspected) × (lost_at booted updated inspected ≤ now)
lost_at-IsBetween none updated inspected now h k l = (k, l)
lost_at-IsBetween (some booted) updated inspected now h k l =
    elim (Bool-cases (leb updated booted)) [
      | inl e ↦ rw e (ground (arith, e), h)
      | inr e ↦ rw e (k, l)
    ]

-- What the time of a stop is by: the start of the host, if that was not before the last update, and
-- else the inspection.
abbrev pub IsLostAt : ℕ → ℕ → ExecutorResult → ℕ → Type 0
IsLostAt updated now result time =
    ((booted : ℕ) → result.host_booted_at ≡ some booted → updated ≤ booted → time ≡ booted)
    × ((booted : ℕ)
        → result.host_booted_at ≡ some booted
        → booted < updated
        → time ≡ or_time result.inspected_at now)
    × (result.host_booted_at ≡ none → time ≡ or_time result.inspected_at now)

lost_at-IsLostAt :
    (updated now : ℕ) (result : ExecutorResult)
    → IsLostAt updated now result
        (lost_at result.host_booted_at updated (or_time result.inspected_at now))
lost_at-IsLostAt updated now result =
    (λ booted e h. rw e (ground (arith, h)), λ booted e h. rw e (ground (arith, h)), λ e. rw e)

-- A machine that was active and has no stopping time yet, when an inspection between its last update
-- and now finds it stopped or failed, is said to have stopped at a time that is not before its last
-- update and not after now, if the host was not started after now: at the start of the host, if that
-- was not before the last update, and else at the time of the inspection, or now if that is not known.
pub reconcile-IsBetween :
    (layer3_mtime : String → Option ℕ) (now : ℕ) (vm : VmInstance) (result : ExecutorResult)
    (state : String)
    → result.power_state ≡ some state
    → is_stopped_state state ≡ true
    → is_active_state vm.power_state ≡ true
    → vm.stopped_at ≡ none
    → vm.updated_at ≤ now
    → IsBetween vm.updated_at now result.inspected_at
    → IsBefore now result.host_booted_at
    → (time : ℕ) × (stopped_at_for_inspected_state layer3_mtime now vm result ≡ some time)
      × (vm.updated_at ≤ time)
      × (time ≤ now)
      × IsLostAt vm.updated_at now result time
unfolding stopped_at_for_inspected_state
reconcile-IsBetween layer3_mtime now vm result state found stopped active fresh updated between
      booted =
    elim (Option-cases result.inspected_at) [
      | inl e ↦
          let range =
            lost_at-IsBetween result.host_booted_at vm.updated_at now now booted updated
              (omega arith) in
          (
            lost_at result.host_booted_at vm.updated_at now,
            rw (found, stopped, fresh, active, e),
            range.0,
            range.1,
            subst
                (λ i.
                  IsLostAt vm.updated_at now result (lost_at result.host_booted_at vm.updated_at i))
                (rw e) (lost_at-IsLostAt vm.updated_at now result),
          )
      | inr e ↦
          let within = subst (IsBetween vm.updated_at now) e.1 between in
          let range =
            lost_at-IsBetween result.host_booted_at vm.updated_at e.0 now booted within.0
              within.1 in
          (
            lost_at result.host_booted_at vm.updated_at e.0,
            rw (found, stopped, fresh, active, e.1),
            range.0,
            range.1,
            subst
                (λ i.
                  IsLostAt vm.updated_at now result (lost_at result.host_booted_at vm.updated_at i))
                (rw e.1) (lost_at-IsLostAt vm.updated_at now result),
          )
    ]
