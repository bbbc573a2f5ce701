-- ===== src/Events/Cancelled.antt =====
-- The summary of a run whose open tasks were cancelled.
use agente_inteligente_comer.Prelude.{
  ℕ, ◌≡◌, refl, Bool, false, ◌&&◌, List, [], ◌∷◌, arith, ◌==◌, select,
}
use agente_inteligente_comer.Contracts.{TaskStatus}
use agente_inteligente_comer.Tasks.{TaskRow, cancel_row, cancel_tasks}
use agente_inteligente_comer.Store.{Store}
use agente_inteligente_comer.Events.{
  EventRecord, RunSummary, same_status, count_tasks, work_remaining, summary,
}

abbrev counted : ℕ → TaskStatus → TaskRow → Bool
counted run_id status t = t.run_id == run_id && same_status t.status status

-- No open task of the run is left, and no other status but `cancelled` is given.
cancel_row-open :
    (run_id : ℕ) (t : TaskRow)
    → (counted run_id TaskStatus.pending (cancel_row run_id t) ≡ false)
      × (counted run_id TaskStatus.running (cancel_row run_id t) ≡ false)
      × (counted run_id TaskStatus.failed (cancel_row run_id t)
          ≡ counted run_id TaskStatus.failed t)
unfolding cancel_row
cancel_row-open run_id t = go t.status
  where
    go :
        (s : TaskStatus)
        → (counted run_id TaskStatus.pending (cancel_row run_id (record t { status = s })) ≡ false)
          × (counted run_id TaskStatus.running (cancel_row run_id (record t { status = s }))
              ≡ false)
          × (counted run_id TaskStatus.failed (cancel_row run_id (record t { status = s }))
              ≡ (t.run_id == run_id && same_status s TaskStatus.failed))
    go TaskStatus.pending = (ground arith, ground arith, ground arith)
    go TaskStatus.running = (ground arith, ground arith, ground arith)
    go TaskStatus.completed = (ground arith, ground arith, ground arith)
    go TaskStatus.failed = (ground arith, ground arith, ground arith)
    go TaskStatus.cancelled = (ground arith, ground arith, ground arith)

count-cancel :
    (run_id : ℕ) (tasks : List TaskRow)
    → (count_tasks run_id TaskStatus.pending (cancel_tasks run_id tasks) ≡ 0)
      × (count_tasks run_id TaskStatus.running (cancel_tasks run_id tasks) ≡ 0)
      × (count_tasks run_id TaskStatus.failed (cancel_tasks run_id tasks)
          ≡ count_tasks run_id TaskStatus.failed tasks)
unfolding count_tasks cancel_tasks select
count-cancel run_id [] = (refl, refl, refl)
count-cancel run_id (t ∷ tasks) =
    let one = cancel_row-open run_id t in
    let rest = count-cancel run_id tasks in
    (rw (one.0, rest.0) refl, rw (one.1, rest.1) refl, ground (arith, one.2, rest.2))

-- A run that may be reported as completed: nothing is open, and nothing has failed.
pub record IsClean (s : RunSummary) : Type 0 where
  pub pending : s.pending ≡ 0
  pub running : s.running ≡ 0
  pub failed : s.failed ≡ 0
  pub dead_letters : s.dead_letters ≡ 0
  pub rejected_invalid : s.rejected_invalid ≡ 0

abbrev cancelled : ℕ → Store → Store
cancelled run_id s = record s { tasks = cancel_tasks run_id s.tasks }

pub cancelled-IsClean :
    (run_id : ℕ) (s : Store) (records : List EventRecord)
    → (summary run_id s records).failed ≡ 0
    → (summary run_id s records).dead_letters ≡ 0
    → (summary run_id s records).rejected_invalid ≡ 0
    → IsClean (summary run_id (cancelled run_id s) records)
unfolding summary
cancelled-IsClean run_id s records f d r =
    let c = count-cancel run_id s.tasks in
    record {
      pending = c.0;
      running = c.1;
      failed = rw c.2 f;
      dead_letters = d;
      rejected_invalid = r;
    }

pub idle-IsClean :
    (s : RunSummary)
    → work_remaining s ≡ false
    → s.failed ≡ 0
    → s.dead_letters ≡ 0
    → s.rejected_invalid ≡ 0
    → IsClean s
unfolding work_remaining
idle-IsClean s w f d r = record {
  pending = ground (arith, w);
  running = ground (arith, w);
  failed = f;
  dead_letters = d;
  rejected_invalid = r;
}
