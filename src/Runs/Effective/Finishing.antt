-- ===== src/Runs/Effective/Finishing.antt =====
-- What finishing a run does to its pauses and its durations.
use vm_forgeyard.Prelude.{
  ℕ, ◌+◌, ◌-◌, ◌*◌, ◌≤◌, ◌≡◌, refl, ap, sym, subst, ◌∙◌, inl, inr, String, Bool, true, false, not,
  ◌&&◌, Option, none, some, List, [], ◌∷◌, ◌==◌, ◌=ℕ◌, if◌then◌else◌, is_none, ok, map, Bool-cases,
  Option-cases, All, All-map, All-zip, arith, eq_iff, eq_refl,
}
use vm_forgeyard.Prelude.Integers.{pos, ⊖-pos}
use vm_forgeyard.Prelude.Actions.{continue}
use vm_forgeyard.Prelude.Rows.{
  any, fetch-meets, fetch_last, update, All-update, All-every, select, fetch-update_key,
}
use vm_forgeyard.Vm.Queries.{distinct}
use vm_forgeyard.Runs.{Run, PausePeriod, RunTables, get_run, with_run_id}
use vm_forgeyard.Runs.Pauses.{
  is_open, with_pause_id, closed, finish_run_pause, paused_seconds_between, is_disk_full, total,
  maximum,
}
use vm_forgeyard.Runs.Records.{
  open_reasons, close_pauses, write_finished, finish_closed, finish_run, finished_run,
  duration_since,
}
use vm_forgeyard.Runs.Effective.{IsLaid, IsSettled, total-bound}
use vm_forgeyard.Runs.Effective.Closing.{last-none, closed-IsLaid, last-IsLastOpen, IsLastOpen}

-- The pauses of a run that are open are for one of the reasons.
abbrev IsOpenFor : ℕ → List String → PausePeriod → Type 0
IsOpenFor run_id reasons p =
    (p.run_id =ℕ run_id && is_none p.finished_at) ≡ true
    → any (λ reason. p.reason == reason) reasons ≡ true

unhit-IsOpenFor :
    (run_id : ℕ) (reason : String) (reasons : List String) (p : PausePeriod)
    → is_open run_id reason p ≡ false
    → IsOpenFor run_id (reason ∷ reasons) p
    → IsOpenFor run_id reasons p
unhit-IsOpenFor run_id reason reasons p shut h k = ground (arith, shut, h k, k)

closed-IsOpenFor :
    (now run_id : ℕ) (reason : String) (reasons : List String) (x p : PausePeriod)
    → (is_open run_id reason p ≡ true → (p.id =ℕ x.id) ≡ true)
    → IsOpenFor run_id (reason ∷ reasons) p
    → IsOpenFor run_id reasons (if with_pause_id x.id p then closed now p else p)
closed-IsOpenFor now run_id reason reasons x p only h = elim (Bool-cases (p.id =ℕ x.id)) [
  | inl e ↦ rw e (λ k. ground arith)
  | inr e ↦ elim (Bool-cases (is_open run_id reason p)) [
    | inl f ↦ cc (only f, e)
    | inr f ↦ rw e (unhit-IsOpenFor run_id reason reasons p f h)
  ]
]

-- The reasons of the open pauses are among those that are listed.
any-others :
    (test : String → Bool) (s : String) (ts : List String)
    → test s ≡ false
    → any test ts ≡ true
    → any test (select (λ t. not (t == s)) ts) ≡ true
any-others test s [] miss h = h
any-others test s (t ∷ ts) miss h = elim (Bool-cases (t == s)) [
  | inl e ↦ rw e (any-others test s ts miss (rw ((eq_iff t s).0 e, miss) at h))
  | inr e ↦ elim (Bool-cases (test t)) [
    | inl f ↦ rw (e, f)
    | inr f ↦ rw (e, f) (any-others test s ts miss (rw f at h))
  ]
]

any-distinct :
    (test : String → Bool) (ss : List String) → any test ss ≡ true → any test (distinct ss) ≡ true
any-distinct test [] h = h
any-distinct test (s ∷ ss) h = elim (Bool-cases (test s)) [
  | inl e ↦ rw e
  | inr e ↦ rw e (any-others test s (distinct ss) e (any-distinct test ss (rw e at h)))
]

abbrev reasons_of : ℕ → List PausePeriod → List String
reasons_of run_id ps =
    map (λ (p : PausePeriod). p.reason)
      (select (λ (p : PausePeriod). p.run_id =ℕ run_id && is_none p.finished_at) ps)

any-reason : (run_id : ℕ) (ps : List PausePeriod) → All (IsOpenFor run_id (reasons_of run_id ps)) ps
any-reason run_id [] = tt
any-reason run_id (p ∷ ps) = elim (Bool-cases (p.run_id =ℕ run_id && is_none p.finished_at)) [
  | inl e ↦
      let grown : reasons_of run_id (p ∷ ps) ≡ p.reason ∷ reasons_of run_id ps = rw e in
      subst (λ rs. All (IsOpenFor run_id rs) (p ∷ ps)) (sym grown)
        (
          λ k. rw (eq_refl p.reason),
          All-map {P = IsOpenFor run_id (reasons_of run_id ps)}
              {Q = IsOpenFor run_id (p.reason ∷ reasons_of run_id ps)}
              (λ q h k. ground (arith, h k)) ps (any-reason run_id ps),
        )
  | inr e ↦
      let same : reasons_of run_id (p ∷ ps) ≡ reasons_of run_id ps = rw e in
      subst (λ rs. All (IsOpenFor run_id rs) (p ∷ ps)) (sym same)
        (λ k. cc (k, e), any-reason run_id ps)
]

paused_bound :
    (instant run_id start now : ℕ) (ps : List PausePeriod) (started : Option ℕ)
    → started ≡ some start
    → total instant start none (select (is_disk_full run_id none) ps) + start * 1000 ≤ now * 1000
    → start * 1000 + paused_seconds_between instant ps run_id started none none ≤ now * 1000
unfolding paused_seconds_between
paused_bound instant run_id start now ps started e h = rw e (omega (arith, h))

-- The time since a start, less a part of it.
since :
    (now : ℕ) (started : Option ℕ) (start part : ℕ)
    → started ≡ some start
    → start * 1000 + part ≤ now * 1000
    → duration_since now started part ≡ some (pos (now * 1000 - (start * 1000 + part)))
since now started start part e h = rw e (ap some (⊖-pos (now * 1000) (start * 1000 + part) h))

module _ (shown : ℕ → String) (now : ℕ) where
  all-IsOpenFor :
      (run_id : ℕ) (ps : List PausePeriod)
      → All (IsOpenFor run_id (open_reasons shown now run_id ps)) ps
  all-IsOpenFor run_id ps =
      All-map {P = IsOpenFor run_id (reasons_of run_id ps)}
        {Q = IsOpenFor run_id (open_reasons shown now run_id ps)}
        (λ p h k. any-distinct (λ reason. p.reason == reason) (reasons_of run_id ps) (h k)) ps
        (any-reason run_id ps)

  -- What closing pauses leaves.
  record Closed (run_id : ℕ) (reasons : List String) (t : RunTables) : Type 0 where
    after : RunTables
    returns : close_pauses shown now run_id reasons t ≡ (after, ok tt)
    runs : after.runs ≡ t.runs
    laid : IsLaid now after.next_pause after.pauses
    shut : All (IsOpenFor run_id []) after.pauses

  close :
      (run_id : ℕ) (reasons : List String) (t : RunTables)
      → IsLaid now t.next_pause t.pauses
      → All (IsOpenFor run_id reasons) t.pauses
      → Closed run_id reasons t
  unfolding close_pauses finish_run_pause
  close run_id [] t laid h = record {
    after = t;
    returns = refl;
    runs = refl;
    laid = laid;
    shut = h;
  }
  close run_id (reason ∷ reasons) t laid h =
      elim (Option-cases (fetch_last (is_open run_id reason) t.pauses)) [
        | inl e ↦
            let rest = close run_id reasons t laid (
              All-map (λ p x. unhit-IsOpenFor run_id reason reasons p x.0 x.1) t.pauses
                (All-zip _ _ t.pauses (last-none (is_open run_id reason) t.pauses e) h)) in
            record {
              after = rest.after;
              returns = rw (finish_run_pause, e) rest.returns;
              runs = rest.runs;
              laid = rest.laid;
              shut = rest.shut;
            }
        | inr e ↦
            let pauses = update (with_pause_id e.0.id) (closed now) t.pauses in
            let rest =
              close run_id reasons (record t { pauses = pauses })
                (closed-IsLaid now t.next_pause run_id reason t.pauses e.0 laid e.1)
                (All-update
                  (λ p. IsLastOpen run_id reason e.0 p × IsOpenFor run_id (reason ∷ reasons) p)
                  (IsOpenFor run_id reasons) (with_pause_id e.0.id) (closed now)
                  (λ p x. closed-IsOpenFor now run_id reason reasons e.0 p x.0.0 x.1) t.pauses
                  (All-zip _ _ t.pauses (last-IsLastOpen run_id reason t.pauses e.0 laid.0 e.1)
                    h)) in
            record {
              after = rest.after;
              returns = rw (finish_run_pause, e.1) rest.returns;
              runs = rest.runs;
              laid = rest.laid;
              shut = rest.shut;
            }
      ]

  shut-IsSettled : (run_id : ℕ) (p : PausePeriod) → IsOpenFor run_id [] p → IsSettled run_id p
  shut-IsSettled run_id p shut h = elim (Option-cases p.finished_at) [
    | inr e ↦ rw e.1
    | inl e ↦
        let met : (p.run_id =ℕ run_id && is_none p.finished_at) ≡ true = rw e (ground arith) in
        cc (shut met)
  ]

  -- The row that finishing writes.
  abbrev done : ℕ → ℕ → String → Option String → RunTables → Run → Run
  done instant run_id status notes t run =
      finished_run shown now status notes
        (paused_seconds_between instant t.pauses run_id run.started_at none none) run

  written_returns :
      (run_id : ℕ) (status : String) (notes : Option String) (paused : ℕ) (t : RunTables)
      (run : Run)
      → get_run t.runs run_id ≡ some run
      → (write_finished shown now run_id status notes paused t).1
        ≡ ok (finished_run shown now status notes paused run)
  unfolding write_finished get_run
  written_returns run_id status notes paused t run known =
      let found =
        fetch-update_key (with_run_id run_id) (with_run_id run_id)
          (finished_run shown now status notes paused) t.runs (λ r. refl) in
      let hit = fetch-meets (with_run_id run_id) t.runs run known in
      rw (write_finished, found, known, hit)

  closed_returns :
      (instant run_id : ℕ) (status : String) (notes : Option String) (t : RunTables) (run : Run)
      → get_run t.runs run_id ≡ some run
      → (finish_closed shown now instant run_id status notes t).1
        ≡ ok (done instant run_id status notes t run)
  unfolding finish_closed
  closed_returns instant run_id status notes t run known =
      rw (finish_closed, known)
        (written_returns run_id status notes
          (paused_seconds_between instant t.pauses run_id run.started_at none none) t run known)

  closing_first :
      (instant run_id : ℕ) (status : String) (notes : Option String) (t : RunTables) (run : Run)
      → get_run t.runs run_id ≡ some run
      → finish_run shown now instant run_id status notes t
        ≡ continue
            (close_pauses shown now run_id (open_reasons shown now run_id t.pauses) t)
            (λ _. finish_closed shown now instant run_id status notes)
  unfolding finish_run
  closing_first instant run_id status notes t run known = rw (finish_run, known)

  -- Finishing a known run, whose pauses are in order and which has started, returns a run whose
  -- pauses take at most its duration, so that its effective duration, which is the rest, is not
  -- negative; `instant` may be any present time.
  pub finish_run-Effective :
      (instant run_id : ℕ) (status : String) (notes : Option String) (t : RunTables) (run : Run)
      (start : ℕ)
      → IsLaid now t.next_pause t.pauses
      → get_run t.runs run_id ≡ some run
      → run.started_at ≡ some start
      → start ≤ now
      → (result : Run) × ((finish_run shown now instant run_id status notes t).1 ≡ ok result)
        × (result.paused_duration_s ≤ (now - start) * 1000)
        × (result.duration_s ≡ some (pos ((now - start) * 1000)))
        × (result.effective_duration_s
            ≡ some (pos ((now - start) * 1000 - result.paused_duration_s)))
  finish_run-Effective instant run_id status notes t run start laid known started le =
      let reasons = open_reasons shown now run_id t.pauses in
      let c = close run_id reasons t laid (all-IsOpenFor run_id t.pauses) in
      let settled = All-map (λ p h. shut-IsSettled run_id p h) c.after.pauses c.shut in
      let same = subst (λ runs. get_run runs run_id ≡ some run) (sym c.runs) known in
      let result = done instant run_id status notes c.after run in
      let reach =
        total-bound instant run_id start now start c.after.pauses c.laid.0 c.laid.1 settled
          (All-every (λ p. is_disk_full run_id none p ≡ true → start ≤ maximum p.started_at start)
            (λ p e. ground arith) c.after.pauses)
          le in
      let bound =
        paused_bound instant run_id start now c.after.pauses run.started_at started reach in
      (
        result,
        ap (λ p. p.1)
              (closing_first instant run_id status notes t run known
                ∙ ap (λ p. continue p (λ _. finish_closed shown now instant run_id status notes))
                    c.returns)
            ∙ closed_returns instant run_id status notes c.after run same,
        omega (arith, bound),
        since now run.started_at start 0 started (omega (arith, le))
            ∙ ap (λ n. some (pos n)) (omega arith),
        since now run.started_at start result.paused_duration_s started bound
            ∙ ap (λ n. some (pos n)) (omega arith),
      )
