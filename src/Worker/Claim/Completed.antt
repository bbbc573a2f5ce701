-- ===== src/Worker/Claim/Completed.antt =====
-- What a run has behind it when the worker reports it as completed.
use agente_inteligente_comer.Prelude.{
  ℕ, zero, suc, ◌≡◌, refl, subst, true, false, ◌||◌, [], Option, none, some, arith, inl, inr,
  Bool-cases, Option-cases, Sum-cases,
}
use agente_inteligente_comer.Contracts.{RunStatus, ClaimedRun}
use agente_inteligente_comer.Tasks.{WorkerTask, claim_task}
use agente_inteligente_comer.Store.{Stats}
use agente_inteligente_comer.Events.{RunSummary, summary}
use agente_inteligente_comer.Events.Cancelled.{IsClean, cancelled-IsClean, idle-IsClean}
use agente_inteligente_comer.Worker.{CrmPort, Services, Outcome, returned, raised, running}
use agente_inteligente_comer.Worker.Claim.{
  renew_run_lease, cancel_asked, after_task, with_task, idle, next_task, turn, turns, process_claim,
}
use agente_inteligente_comer.Worker.Reports.{
  Control, WorkerConfig, Database, Verdict, is_lost, Ending, closed, ends_early, ends_idle, deliver,
  queue_report, ending_of, step_of, cancelled_tasks, cancel_open, complete_claim, cancel_claim,
}

-- A report of `completed` is of a clean run.
abbrev Fair : Ending → Type 0
Fair (closed RunStatus.completed s) = IsClean s
Fair _ = Unit

abbrev FairStep : Option Ending → Type 0
FairStep none = Unit
FairStep (some ending) = Fair ending

Fair-closed :
    (status : RunStatus) (s : RunSummary)
    → (status ≡ RunStatus.completed → IsClean s)
    → Fair (closed status s)
Fair-closed RunStatus.completed s h = h refl
Fair-closed RunStatus.pending s h = tt
Fair-closed RunStatus.running s h = tt
Fair-closed RunStatus.paused s h = tt
Fair-closed RunStatus.partial s h = tt
Fair-closed RunStatus.failed s h = tt
Fair-closed RunStatus.cancel_requested s h = tt
Fair-closed RunStatus.cancelled s h = tt

-- The choice of the status, with or without candidates up to the limit.
ends_early_completed :
    (limit : ℕ) (s : RunSummary) (extra : Stats)
    → ends_early limit s ≡ some (RunStatus.completed, extra)
    → (s.failed ≡ 0) × (s.dead_letters ≡ 0) × (s.rejected_invalid ≡ 0)
unfolding ends_early
ends_early_completed limit s extra h = (ground (arith, h), ground (arith, h), ground (arith, h))

ends_idle_completed : (s : RunSummary) → ends_idle s ≡ some RunStatus.completed → IsClean s
unfolding ends_idle
ends_idle_completed s h =
    idle-IsClean s (ground (arith, h)) (ground (arith, h)) (ground (arith, h)) (ground (arith, h))

module _ {W : Type 0} (crm : CrmPort W) (services : Services W) (control : Control W)
    (config : WorkerConfig)
    (execute_task : ℕ → ClaimedRun → WorkerTask → Database → W → (Database × W) × Verdict)
    (run_id : ℕ) (claim : ClaimedRun) where
  Fair-outcome : (o : Outcome) (ending : Ending) → Fair ending → Fair (ending_of o ending)
  Fair-outcome (returned b) ending f = f
  Fair-outcome (raised e) ending f = tt
  Fair-outcome running ending f = tt

  complete-Fair :
      (status : RunStatus) (extra : Stats) (db : Database) (w : W)
      → (status ≡ RunStatus.completed → IsClean (summary run_id db.store db.records))
      → Fair (complete_claim crm services control run_id claim status extra db w).1
  unfolding complete_claim
  complete-Fair status extra db w h =
      let s = summary run_id db.store db.records in
      Fair-outcome (queue_report crm services control run_id claim status extra s db w).1
        (closed status s) (Fair-closed status s h)

  cancel-Fair :
      (db : Database) (w : W) → Fair (cancel_claim crm services control run_id claim db w).1
  unfolding cancel_claim
  cancel-Fair db w =
      let open_ = cancel_open crm services control run_id db w in
      complete-Fair RunStatus.cancelled [] open_.0 open_.1 (λ e. absurd (ground (arith, e)))

  step-Fair : (o : Outcome) → FairStep (step_of o)
  step-Fair (returned true) = tt
  step-Fair (returned false) = tt
  step-Fair (raised e) = tt
  step-Fair running = tt

  after-Fair :
      (verdict : Verdict) (db : Database) (w : W)
      → FairStep (after_task crm services control config execute_task run_id claim verdict db w).1
  unfolding after_task
  after-Fair verdict db w = elim (Bool-cases (control.cancel_requested w)) [
    | inl c ↦ rw (after_task, c) (cancel-Fair db w)
    | inr c ↦ elim (Bool-cases (is_lost verdict || control.lease_lost w)) [
      | inl l ↦ rw (after_task, c, l) tt
      | inr l ↦ rw (after_task, c, l) (step-Fair (deliver crm services run_id claim db w).1)
    ]
  ]

  task-Fair :
      (task : WorkerTask) (db : Database) (w : W)
      → FairStep (with_task crm services control config execute_task run_id claim task db w).1
  unfolding with_task
  task-Fair task db w =
      let h = renew_run_lease crm services control config execute_task claim w in
      let c =
        cancel_asked crm services control config execute_task h.1.cancel_requested claim h.0 in
      let x = execute_task run_id claim task db c.0 in
      elim (Bool-cases h.1.lease_valid) [
        | inr l ↦ rw (with_task, l) tt
        | inl l ↦ elim (Sum-cases c.1) [
          | inl (e, p) ↦ rw (with_task, l, p) tt
          | inr (b, p) ↦ elim (Bool-cases b) [
            | inl t ↦ rw (with_task, l, p, t) (cancel-Fair db c.0)
            | inr t ↦ rw (with_task, l, p, t) (after-Fair x.1 x.0.0 x.0.1)
          ]
        ]
      ]

  idle-Fair :
      (db : Database) (w : W)
      → FairStep (idle crm services control config execute_task run_id claim db w).1
  unfolding idle
  idle-Fair db w =
      let s = summary run_id db.store db.records in
      elim (Option-cases (ends_idle s)) [
        | inl e ↦ rw (idle, e) tt
        | inr (status, e) ↦
            rw (idle, e)
              (complete-Fair status [] db w
                (λ k. ends_idle_completed s (subst (λ x. ends_idle s ≡ some x) k e)))
      ]

  next-Fair :
      (db : Database) (w : W)
      → FairStep (next_task crm services control config execute_task run_id claim db w).1
  unfolding next_task
  next-Fair db w =
      let t = services.now_utc w in
      let r =
        claim_task (control.locked t.0) run_id config.worker_id config.lease_seconds t.1
          db.store.tasks in
      elim (Option-cases r.1) [
        | inl e ↦ rw (next_task, e) (idle-Fair _ _)
        | inr (task, e) ↦ rw (next_task, e) (task-Fair task _ _)
      ]

  early-IsClean :
      (extra : Stats) (db : Database)
      → ends_early claim.snapshot.campaign.max_candidates (summary run_id db.store db.records)
        ≡ some (RunStatus.completed, extra)
      → IsClean (summary run_id (cancelled_tasks run_id db).store db.records)
  early-IsClean extra db e =
      let k = ends_early_completed _ (summary run_id db.store db.records) extra e in
      cancelled-IsClean run_id db.store db.records k.0 k.1 k.2

  turn-Fair :
      (db : Database) (w : W)
      → FairStep (turn crm services control config execute_task run_id claim db w).1
  unfolding turn
  turn-Fair db w =
      let c =
        cancel_asked crm services control config execute_task (control.cancel_requested w) claim
          w in
      let s = summary run_id db.store db.records in
      let limit = claim.snapshot.campaign.max_candidates in
      elim (Bool-cases (control.lease_lost w)) [
        | inl l ↦ rw (turn, l) tt
        | inr l ↦ elim (Sum-cases c.1) [
          | inl (e, p) ↦ rw (turn, l, p) tt
          | inr (b, p) ↦ elim (Bool-cases b) [
            | inl t ↦ rw (turn, l, p, t) (cancel-Fair db c.0)
            | inr t ↦ elim (Option-cases (ends_early limit s)) [
              | inl e ↦ rw (turn, l, p, t, e) (next-Fair db c.0)
              | inr (x, e) ↦
                  rw (turn, l, p, t, e)
                    (complete-Fair x.0 x.1 (cancelled_tasks run_id db) c.0 (λ k.
                      early-IsClean x.1 db (subst (λ y. ends_early limit s ≡ some (y, x.1)) k e)))
            ]
          ]
        ]
      ]

  turns-Fair :
      (fuel : ℕ) (db : Database) (w : W)
      → Fair (turns crm services control config execute_task fuel run_id claim db w).1
  unfolding turns
  turns-Fair zero db w = tt
  turns-Fair (suc fuel) db w =
      let r = turn crm services control config execute_task run_id claim db w in
      let f = turn-Fair db w in
      elim (Option-cases r.1) [
        | inl e ↦ rw (turns, e) (turns-Fair fuel r.0.0 r.0.1)
        | inr (ending, e) ↦ rw (turns, e) (rw e at f)
      ]

  process-Fair :
      (fuel : ℕ) (db : Database) (w : W)
      → Fair (process_claim crm services control config execute_task fuel run_id claim db w).1
  unfolding process_claim
  process-Fair fuel db w =
      let r = deliver crm services run_id claim db w in
      let f = step-Fair r.1 in
      elim (Option-cases (step_of r.1)) [
        | inl e ↦ rw (process_claim, e) (turns-Fair fuel r.0.0 r.0.1)
        | inr (ending, e) ↦ rw (process_claim, e) (rw e at f)
      ]

  -- Whatever a task's execution, the CRM and the heartbeats do, a run that the worker reports as
  -- completed has at that moment no pending and no running task, no failed one, no message that the CRM
  -- has refused for good and no candidate counted as invalid.
  pub process_claim-IsClean :
      (fuel : ℕ) (db : Database) (w : W) (s : RunSummary)
      → (process_claim crm services control config execute_task fuel run_id claim db w).1
        ≡ closed RunStatus.completed s
      → IsClean s
  process_claim-IsClean fuel db w s h = subst Fair h (process-Fair fuel db w)
