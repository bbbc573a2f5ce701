-- ===== src/Events/Summary.antt =====
-- An event is recorded and sent once, and a summary counts every task of its run.
use agente_inteligente_comer.Prelude.{
  ℕ, ◌+◌, String, ◌≡◌, refl, Bool, true, ◌&&◌, ◌||◌, List, [], ◌∷◌, ◌++◌, Option, arith, ltb, ◌==◌,
  str_eq, any, select, length, Bool-cases, inl, inr,
}
use text.Mathlib.TextPositions.{eq_refl}
use agente_inteligente_comer.Contracts.{TaskStatus, is_pending, is_running}
use agente_inteligente_comer.Tasks.{TaskRow}
use agente_inteligente_comer.Store.{OutboxRow, Store}
use agente_inteligente_comer.Outbox.Queue.{queue_outbox_once}
use agente_inteligente_comer.Events.{
  RunEvent, EventRecord, save_event, work_remaining, count_tasks, summary,
}

abbrev known : String → List EventRecord → Bool
known event_id records = any (λ r. str_eq r.event_id event_id) records

known-snoc :
    (event_id : String) (records : List EventRecord) (r : EventRecord)
    → str_eq r.event_id event_id ≡ true
    → known event_id (records ++ r ∷ []) ≡ true
unfolding any
known-snoc event_id [] r h = ground (arith, h)
known-snoc event_id (x ∷ records) r h = ground (arith, known-snoc event_id records r h)

-- The tasks of a run, counted.
pub tasks_of : ℕ → List TaskRow → ℕ
tasks_of run_id tasks = length (select (λ t. t.run_id == run_id) tasks)

counts :
    (run_id : ℕ) (tasks : List TaskRow)
    → count_tasks run_id TaskStatus.pending tasks
        + count_tasks run_id TaskStatus.running tasks
        + count_tasks run_id TaskStatus.completed tasks
        + count_tasks run_id TaskStatus.failed tasks
        + count_tasks run_id TaskStatus.cancelled tasks
      ≡ tasks_of run_id tasks
unfolding count_tasks select tasks_of
counts run_id [] = refl
counts run_id (t ∷ tasks) = ground (arith, counts run_id tasks)

pub unfinished : ℕ → TaskRow → Bool
unfinished run_id t = t.run_id == run_id && (is_pending t.status || is_running t.status)

remaining :
    (run_id : ℕ) (tasks : List TaskRow)
    → (ltb 0 (count_tasks run_id TaskStatus.pending tasks)
        || ltb 0 (count_tasks run_id TaskStatus.running tasks))
      ≡ any (unfinished run_id) tasks
unfolding count_tasks select any unfinished
remaining run_id [] = refl
remaining run_id (t ∷ tasks) = ground (arith, remaining run_id tasks)

-- A summary counts every task of the run under exactly one status, and work remains exactly where
-- some task of the run is pending or running.
pub summary_lem :
    (run_id : ℕ) (s : Store) (records : List EventRecord)
    → let r = summary run_id s records in
      (r.pending + r.running + r.completed + r.failed + r.cancelled ≡ tasks_of run_id s.tasks)
      × (work_remaining r ≡ any (unfinished run_id) s.tasks)
unfolding summary work_remaining
summary_lem run_id s records = (counts run_id s.tasks, remaining run_id s.tasks)

-- An event that is saved again for its run, for whatever task and whenever, adds no record and no
-- message.
pub save_event_once :
    (id now id' now' run_id : ℕ) (task task' : Option ℕ) (event : RunEvent)
    (records : List EventRecord) (outbox : List OutboxRow)
    → save_event id' now' run_id task' event (save_event id now run_id task event (records, outbox))
      ≡ save_event id now run_id task event (records, outbox)
unfolding save_event
save_event_once id now id' now' run_id task task' event records outbox =
    elim (Bool-cases (known event.event_id records)) [
      | inl e ↦ rw (e, e, queue_outbox_once) refl
      | inr e ↦
          rw
            (
              e,
              known-snoc event.event_id records
                  (record {
                    run_id = run_id;
                    event_id = event.event_id;
                    task_id = task;
                    budget_limited = event.budget_limited;
                  })
                  (eq_refl event.event_id),
              queue_outbox_once,
            )
            refl
    ]
