-- ===== src/Worker/Reports.antt =====
-- The values of the loop of `_process_claim`, and the end of a run: `_complete` and `_cancel`. What is
-- done with a task is an argument, given in Worker/Execute.
use agente_inteligente_comer.Prelude.{
  ℕ, suc, String, Bool, true, false, ◌||◌, List, [], ◌∷◌, Option, none, some, ltb, leb,
  if◌then◌else◌, ◌⊎◌,
}
use agente_inteligente_comer.Contracts.{RunStatus, ClaimedRun}
use agente_inteligente_comer.Tasks.{cancel_tasks}
use agente_inteligente_comer.Store.{Stats, OutboxKind, Payload, terminal_of, Store}
use agente_inteligente_comer.Outbox.{queue_terminal}
use agente_inteligente_comer.Outbox.Weight.{load}
use agente_inteligente_comer.Candidates.{CandidateRow}
use agente_inteligente_comer.Events.{
  RunEvent, EventRecord, save_event, RunSummary, work_remaining, summary,
}
use agente_inteligente_comer.Worker.{
  CrmPort, Services, Raised, CompletionReport, Outcome, returned, raised, running, deliver_outbox,
}

-- app/crm/port.py
pub record HeartbeatResult : Type 0 where
  pub lease_valid : Bool
  pub cancel_requested : Bool

-- What else the loop asks of the outside: two calls of the CRM, the flags of the run's heartbeat, the
-- rows that another transaction holds, a pause, and how a report and a UUID are written down.
pub record Control (W : Type 0) : Type 0 where
  pub heartbeat : String → String → ℕ → W → W × (Raised ⊎ HeartbeatResult)
  pub is_cancel_requested : String → String → W → W × (Raised ⊎ Bool)
  pub lease_lost : W → Bool
  pub cancel_requested : W → Bool
  pub locked : W → ℕ → Bool
  pub sleep : W → W
  pub dump_report : CompletionReport → Payload
  pub uuid_text : ℕ → String

pub record WorkerConfig : Type 0 where
  pub worker_id : String
  pub lease_seconds : ℕ

-- The tables, with those of the events and the candidates.
pub record Database : Type 0 where
  pub store : Store
  pub records : List EventRecord
  pub candidates : List CandidateRow

-- How the execution of a task ends: with the task finished or failed, halted by a flag that another
-- coroutine has set, or with the outbox stuck, after which it sets `lease_lost`.
pub data Verdict : Type 0 where
  over halted lost : Verdict

-- How the processing of a claim ends: the lease is not the worker's any more or the outbox is stuck,
-- or a report was queued with the status and the counts that it gives, or an error leaves the loop, or
-- the fuel is used up.
pub data Ending : Type 0 where
  left : Ending
  closed : RunStatus → RunSummary → Ending
  broken : Raised → Ending
  busy : Ending

abbrev pub status_value : RunStatus → String
status_value RunStatus.pending = "pending"
status_value RunStatus.running = "running"
status_value RunStatus.paused = "paused"
status_value RunStatus.partial = "partial"
status_value RunStatus.completed = "completed"
status_value RunStatus.failed = "failed"
status_value RunStatus.cancel_requested = "cancel_requested"
status_value RunStatus.cancelled = "cancelled"

-- `{**summary.__dict__, **extra}`, with `True` as 1.
abbrev pub report_stats : RunSummary → Stats → Stats
report_stats s extra =
    ("pending", s.pending)
    ∷ ("running", s.running)
    ∷ ("completed", s.completed)
    ∷ ("failed", s.failed)
    ∷ ("cancelled", s.cancelled)
    ∷ ("candidates", s.candidates)
    ∷ ("dead_letters", s.dead_letters)
    ∷ ("crm_accepted", s.crm_accepted)
    ∷ ("rejected_limit", s.rejected_limit)
    ∷ ("rejected_invalid", s.rejected_invalid)
    ∷ ("budget_limited", s.budget_limited)
    ∷ extra

-- Why a run ends before another task is claimed: with which status, and what the report adds.
unfoldable pub ends_early : ℕ → RunSummary → Option (RunStatus × Stats)
ends_early max_candidates s =
    if ltb 0 s.dead_letters
    then some (RunStatus.partial, ("delivery_failed", 1) ∷ [])
    else (if leb max_candidates s.candidates
        then some (
          if ltb 0 s.failed || ltb 0 s.dead_letters || ltb 0 s.rejected_invalid
              then RunStatus.partial
              else RunStatus.completed,
          ("limit_reached", 1) ∷ [],
        )
        else none)

-- The status of a run without a task to claim, once no work remains.
unfoldable pub ends_idle : RunSummary → Option RunStatus
ends_idle s =
    if work_remaining s
    then none
    else some (
        if ltb 0 s.failed
          || ltb 0 s.dead_letters
          || ltb 0 s.rejected_invalid
          || ltb 0 s.budget_limited
        then RunStatus.partial
        else RunStatus.completed)

abbrev pub cancelled_tasks : ℕ → Database → Database
cancelled_tasks run_id db = record db {
  store = record db.store { tasks = cancel_tasks run_id db.store.tasks };
}

abbrev pub ending_of : Outcome → Ending → Ending
ending_of (returned _) ending = ending
ending_of (raised e) ending = broken e
ending_of running ending = busy

abbrev pub step_of : Outcome → Option Ending
step_of (returned true) = none
step_of (returned false) = some left
step_of (raised e) = some (broken e)
step_of running = some busy

abbrev pub is_lost : Verdict → Bool
is_lost lost = true
is_lost _ = false

module _ {W : Type 0} (crm : CrmPort W) (services : Services W) where
  -- `_deliver_outbox`, with as many rounds as it can take.
  abbrev pub deliver : ℕ → ClaimedRun → Database → W → (Database × W) × Outcome
  deliver run_id claim db w =
      let r =
        deliver_outbox crm services (suc (load db.store.outbox)) run_id claim.snapshot.crm_run_id
          claim.lease_token db.store w in
      ((record db { store = r.0.0 }, r.0.1), r.1)

module _ {W : Type 0} (crm : CrmPort W) (services : Services W) (control : Control W) where
  -- The report of a run with these counts, queued and sent with what waits before it.
  unfoldable pub queue_report :
      ℕ → ClaimedRun → RunStatus → Stats → RunSummary → Database → W → (Database × W) × Outcome
  queue_report run_id claim status extra s db w =
      let ids = services.uuid4 w in
      let t = services.now_utc ids.0 in
      let report = control.dump_report (record { status = status; stats = report_stats s extra }) in
      let store =
        queue_terminal (ids.1 0) t.1 run_id OutboxKind.complete report
          (terminal_of claim.snapshot.crm_run_id (status_value status)) db.store in
      deliver crm services run_id claim (record db { store = store }) t.0

  -- `_complete`.
  unfoldable pub complete_claim :
      ℕ → ClaimedRun → RunStatus → Stats → Database → W → (Database × W) × Ending
  unfolding queue_report
  complete_claim run_id claim status extra db w =
      let s = summary run_id db.store db.records in
      let r = queue_report run_id claim status extra s db w in
      (r.0, ending_of r.1 (closed status s))

  -- The store without open tasks, and with the event of the cancellation.
  unfoldable pub cancel_open : ℕ → Database → W → Database × W
  cancel_open run_id db w =
      let stopped = cancelled_tasks run_id db in
      let ids = services.uuid4 w in
      let t = services.now_utc ids.0 in
      let event : RunEvent = record {
        event_id = control.uuid_text (ids.1 0);
        budget_limited = false;
        body = record { task_status = none; task_id = none; body = "run_cancelled" };
      } in
      let saved =
        save_event (ids.1 1) t.1 run_id none event (stopped.records, stopped.store.outbox) in
      (record stopped { store = record stopped.store { outbox = saved.1 }; records = saved.0 }, t.0)

  -- `_cancel`.
  unfoldable pub cancel_claim : ℕ → ClaimedRun → Database → W → (Database × W) × Ending
  unfolding complete_claim cancel_open
  cancel_claim run_id claim db w =
      let open_ = cancel_open run_id db w in
      complete_claim run_id claim RunStatus.cancelled [] open_.0 open_.1
