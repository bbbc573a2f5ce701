-- ===== src/Events.antt =====
-- The events of a run and its summary: `save_event`, `summary` and `RunSummary` of
-- app/prospecting/store.py. Of an event's metrics only the flag `budget_limited` is read.
mod Summary
pub mod Cancelled
mod Tests
use agente_inteligente_comer.Prelude.{
  ℕ, suc, String, Bool, true, false, ◌&&◌, ◌||◌, List, [], ◌∷◌, ◌++◌, Option, none, some, ltb, ◌==◌,
  if◌then◌else◌, str_eq, any, select, length,
}
use agente_inteligente_comer.Contracts.{TaskStatus}
use agente_inteligente_comer.Tasks.{TaskRow}
use agente_inteligente_comer.Table.{get}
use agente_inteligente_comer.Store.{
  Stats, RunRow, OutboxKind, events, is_dead, Element, Payload, items, IdempotencyKey, event_of,
  OutboxRow, Store, run_key, counter,
}
use agente_inteligente_comer.Outbox.{queue_outbox}

pub record RunEvent : Type 0 where
  pub event_id : String
  pub budget_limited : Bool
  pub body : Element

-- `ProspectingEventRecord` of app/db/models.py.
pub record EventRecord : Type 0 where
  pub run_id : ℕ
  pub event_id : String
  pub task_id : Option ℕ
  pub budget_limited : Bool

-- `id` is the id of the message that the call may queue.
unfoldable pub save_event :
    ℕ
    → ℕ
    → ℕ
    → Option ℕ
    → RunEvent
    → List EventRecord × List OutboxRow
    → List EventRecord × List OutboxRow
save_event id now run_id task event (records, outbox) = (
  if any (λ r. str_eq r.event_id event.event_id) records
      then records
      else records
        ++ record {
          run_id = run_id;
          event_id = event.event_id;
          task_id = task;
          budget_limited = event.budget_limited;
        }
          ∷ [],
  queue_outbox id now run_id events (event_of run_id event.event_id) (items (event.body ∷ []))
      outbox,
)

pub record RunSummary : Type 0 where
  pub pending : ℕ
  pub running : ℕ
  pub completed : ℕ
  pub failed : ℕ
  pub cancelled : ℕ
  pub candidates : ℕ
  pub dead_letters : ℕ
  pub crm_accepted : ℕ
  pub rejected_limit : ℕ
  pub rejected_invalid : ℕ
  pub budget_limited : ℕ

unfoldable pub work_remaining : RunSummary → Bool
work_remaining s = ltb 0 s.pending || ltb 0 s.running

abbrev pub same_status : TaskStatus → TaskStatus → Bool
same_status TaskStatus.pending TaskStatus.pending = true
same_status TaskStatus.running TaskStatus.running = true
same_status TaskStatus.completed TaskStatus.completed = true
same_status TaskStatus.failed TaskStatus.failed = true
same_status TaskStatus.cancelled TaskStatus.cancelled = true
same_status _ _ = false

-- The run's tasks of a status, counted.
unfoldable pub count_tasks : ℕ → TaskStatus → List TaskRow → ℕ
count_tasks run_id status tasks =
    length (select (λ t. t.run_id == run_id && same_status t.status status) tasks)

unfoldable pub baseline : Option RunRow → ℕ
baseline none = 0
baseline (some r) = r.remote_candidates_baseline

unfoldable pub run_stats : Option RunRow → Option Stats
run_stats none = none
run_stats (some r) = r.stats

unfoldable pub summary : ℕ → Store → List EventRecord → RunSummary
summary run_id s records =
    let run = get run_key run_id s.runs in
    record {
      pending = count_tasks run_id TaskStatus.pending s.tasks;
      running = count_tasks run_id TaskStatus.running s.tasks;
      completed = count_tasks run_id TaskStatus.completed s.tasks;
      failed = count_tasks run_id TaskStatus.failed s.tasks;
      cancelled = count_tasks run_id TaskStatus.cancelled s.tasks;
      candidates = baseline run;
      dead_letters = length (select (λ m. m.run_id == run_id && is_dead m.status) s.outbox);
      crm_accepted = counter "crm_accepted" (run_stats run);
      rejected_limit = counter "rejected_limit" (run_stats run);
      rejected_invalid = counter "rejected_invalid" (run_stats run);
      budget_limited = length (select (λ e. e.run_id == run_id && e.budget_limited) records);
    }
