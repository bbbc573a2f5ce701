-- ===== src/Worker/Claim.antt =====
-- A claimed run from its tasks to its end: the loop of `_process_claim`. The flags that the heartbeats
-- set are read from the outside.
pub mod Completed
mod Tests
use agente_inteligente_comer.Prelude.{
  ℕ, zero, suc, String, Bool, true, false, not, ◌||◌, List, [], ◌∷◌, ◌++◌, Option, none, some, ltb,
  leb, if◌then◌else◌, ◌⊎◌, inl, inr,
}
use agente_inteligente_comer.Contracts.{RunStatus, ProspectingRunSnapshot, ClaimedRun}
use agente_inteligente_comer.Tasks.{TaskRow, WorkerTask, claim_task, cancel_tasks}
use agente_inteligente_comer.Store.{Stats, OutboxKind, Payload, terminal_of, Store}
use agente_inteligente_comer.Outbox.{queue_terminal}
use agente_inteligente_comer.Outbox.Weight.{load}
use agente_inteligente_comer.Events.{
  RunEvent, EventRecord, save_event, RunSummary, work_remaining, summary,
}
use agente_inteligente_comer.Worker.{
  CrmPort, Services, Raised, CompletionReport, Outcome, returned, raised, running, deliver_outbox,
}
use agente_inteligente_comer.Worker.Reports.{
  HeartbeatResult, Control, WorkerConfig, Database, Verdict, over, halted, lost, Ending, left,
  closed, broken, busy, ends_early, ends_idle, cancelled_tasks, ending_of, step_of, is_lost,
  deliver, queue_report, complete_claim, cancel_claim,
}

module _ {W : Type 0} (crm : CrmPort W) (services : Services W) (control : Control W)
    (config : WorkerConfig)
    (execute_task : ℕ → ClaimedRun → WorkerTask → Database → W → (Database × W) × Verdict) where
  abbrev valid : W × (Raised ⊎ HeartbeatResult) → W × HeartbeatResult
  valid (w, inl e) = (w, record { lease_valid = false; cancel_requested = false })
  valid (w, inr result) = (w, result)

  -- `_renew_run_lease`: an error counts as a lost lease.
  pub renew_run_lease : ClaimedRun → W → W × HeartbeatResult
  renew_run_lease claim w =
      valid (control.heartbeat claim.snapshot.crm_run_id claim.lease_token config.lease_seconds w)

  -- `flag or await self.crm.is_cancel_requested(...)`.
  abbrev cancel_asked : Bool → ClaimedRun → W → W × (Raised ⊎ Bool)
  cancel_asked true claim w = (w, inr true)
  cancel_asked false claim w =
      control.is_cancel_requested claim.snapshot.crm_run_id claim.lease_token w

  -- The end of one turn of the loop, or the state from which the next turn starts.
  abbrev Step : Type 0
  Step = (Database × W) × Option Ending

  abbrev ended : (Database × W) × Ending → Step
  ended (state, ending) = (state, some ending)

  -- After a task: the run's flags, then the outbox.
  pub after_task : ℕ → ClaimedRun → Verdict → Database → W → Step
  unfolding cancel_claim
  after_task run_id claim verdict db w = elim (control.cancel_requested w) [
    | true ↦ ended (cancel_claim crm services control run_id claim db w)
    | false ↦ elim (is_lost verdict || control.lease_lost w) [
      | true ↦ ((db, w), some left)
      | false ↦ let r = deliver crm services run_id claim db w in (r.0, step_of r.1)
    ]
  ]

  -- A claimed task, from the renewal of the run's lease on.
  pub with_task : ℕ → ClaimedRun → WorkerTask → Database → W → Step
  unfolding after_task renew_run_lease cancel_claim
  with_task run_id claim task db w =
      let h = renew_run_lease claim w in
      elim h.1.lease_valid [
        | false ↦ ((db, h.0), some left)
        | true ↦
            let c = cancel_asked h.1.cancel_requested claim h.0 in
            elim c.1 [
              | inl e ↦ ((db, c.0), some (broken e))
              | inr true ↦ ended (cancel_claim crm services control run_id claim db c.0)
              | inr false ↦
                  let x = execute_task run_id claim task db c.0 in
                  after_task run_id claim x.1 x.0.0 x.0.1
            ]
      ]

  -- No task to claim.
  pub idle : ℕ → ClaimedRun → Database → W → Step
  unfolding ends_idle complete_claim
  idle run_id claim db w = elim (ends_idle (summary run_id db.store db.records)) [
    | none ↦ ((db, control.sleep w), none)
    | some status ↦ ended (complete_claim crm services control run_id claim status [] db w)
  ]

  pub next_task : ℕ → ClaimedRun → Database → W → Step
  unfolding with_task idle
  next_task run_id claim db w =
      let t = services.now_utc w in
      let r =
        claim_task (control.locked t.0) run_id config.worker_id config.lease_seconds t.1
          db.store.tasks in
      let claimed = record db { store = record db.store { tasks = r.0 } } in
      elim r.1 [
        | none ↦ idle run_id claim claimed t.0
        | some task ↦ with_task run_id claim task claimed t.0
      ]

  -- One turn of the loop.
  pub turn : ℕ → ClaimedRun → Database → W → Step
  unfolding next_task ends_early complete_claim cancel_claim
  turn run_id claim db w = elim (control.lease_lost w) [
    | true ↦ ((db, w), some left)
    | false ↦
        let c = cancel_asked (control.cancel_requested w) claim w in
        elim c.1 [
          | inl e ↦ ((db, c.0), some (broken e))
          | inr true ↦ ended (cancel_claim crm services control run_id claim db c.0)
          | inr false ↦
              elim (ends_early claim.snapshot.campaign.max_candidates
                (summary run_id db.store db.records)) [
                  | some (status, extra) ↦ ended (
                      complete_claim crm services control run_id claim status extra
                        (cancelled_tasks run_id db) c.0)
                  | none ↦ next_task run_id claim db c.0
                ]
        ]
  ]

  pub turns : ℕ → ℕ → ClaimedRun → Database → W → (Database × W) × Ending
  unfolding turn
  turns zero run_id claim db w = ((db, w), busy)
  turns (suc fuel) run_id claim db w =
      let r = turn run_id claim db w in
      elim r.1 [ some ending ↦ (r.0, ending) | none ↦ turns fuel run_id claim r.0.0 r.0.1 ]

  -- `_process_claim`, once `ensure_run` has taken the run over: the outbox first, then the loop.
  pub process_claim : ℕ → ℕ → ClaimedRun → Database → W → (Database × W) × Ending
  unfolding turns
  process_claim fuel run_id claim db w =
      let r = deliver crm services run_id claim db w in
      elim (step_of r.1) [
        | none ↦ turns fuel run_id claim r.0.0 r.0.1
        | some ending ↦ (r.0, ending)
      ]
