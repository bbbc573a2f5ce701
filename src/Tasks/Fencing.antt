-- ===== src/Tasks/Fencing.antt =====
-- A worker whose task has gone to another one can do nothing to it any more; and a failed attempt
-- leaves the task to be tried again while attempts remain.
use agente_inteligente_comer.Prelude.{
  ℕ, ◌≤◌, String, ◌≡◌, Bool, false, List, none, arith, str_eq, ltb,
}
use agente_inteligente_comer.Tasks.{
  TaskRow, WorkerTask, claimable, finish_task, fail_task, heartbeat_task, fail,
}
use agente_inteligente_comer.Tasks.Claim.{Claimed}

-- Once a task is claimed by `w`, another worker's `finish_task` raises, its `fail_task` changes
-- nothing, and its `heartbeat_task` returns False and changes nothing.
pub stale_worker_refused :
    (locked : ℕ → Bool) (run_id : ℕ) (w : String) (lease_seconds now : ℕ)
    (rows rows' : List TaskRow) (task : WorkerTask)
    → Claimed locked run_id w lease_seconds now rows rows' task
    → (stale : String) → str_eq w stale ≡ false
    → (results rejected : ℕ) (error : String) (seconds_more later : ℕ)
    → (finish_task task.id stale results rejected rows' ≡ none)
      × (fail_task task.id stale error later rows' ≡ rows')
      × (heartbeat_task task.id stale seconds_more later rows' ≡ (rows', false))
unfolding finish_task fail_task heartbeat_task
stale_worker_refused locked run_id w lease_seconds now rows rows' task c stale ne results rejected
      error seconds_more later =
    (
      ground (arith, c.after task.id),
      ground (arith, c.after task.id),
      ground (arith, c.after task.id),
    )

-- After a failed attempt of a task of the run, at any later time at which nobody locks the row, it can
-- be claimed exactly where attempts remain.
pub claimable-fail :
    (t : TaskRow) (error : String) (now later : ℕ)
    → now ≤ later
    → claimable (λ _. false) t.run_id later (fail error now t) ≡ ltb t.attempt_count t.max_attempts
unfolding claimable
claimable-fail t error now later h = ground arith
