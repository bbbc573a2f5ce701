-- ===== src/Tasks/Calls.antt =====
-- Sequences of calls of the task methods, as the workers make them on one table.
use agente_inteligente_comer.Prelude.{ℕ, ◌+◌, String, Bool, List, [], ◌∷◌, Option, none, some}
use agente_inteligente_comer.Tasks.{
  TaskRow, WorkerTask, claim_task, heartbeat_task, finish_task, fail_task, cancel_tasks,
}

-- Each constructor has its method's arguments, the clock last.
pub data Call : Type 0 where
  claims : (ℕ → Bool) → ℕ → String → ℕ → ℕ → Call
  heartbeats : ℕ → String → ℕ → ℕ → Call
  finishes : ℕ → String → ℕ → ℕ → Call
  fails : ℕ → String → String → ℕ → Call
  cancels : ℕ → Call

-- A method that raises leaves the table as it was.
abbrev pub committed : List TaskRow → Option (List TaskRow) → List TaskRow
committed rows none = rows
committed rows (some rows') = rows'

unfoldable pub step : List TaskRow → Call → List TaskRow
step rows (claims locked run_id worker_id lease_seconds now) =
    (claim_task locked run_id worker_id lease_seconds now rows).0
step rows (heartbeats task_id worker_id lease_seconds now) =
    (heartbeat_task task_id worker_id lease_seconds now rows).0
step rows (finishes task_id worker_id results rejected) =
    committed rows (finish_task task_id worker_id results rejected rows)
step rows (fails task_id worker_id error now) = fail_task task_id worker_id error now rows
step rows (cancels run_id) = cancel_tasks run_id rows

unfoldable pub run : List TaskRow → List Call → List TaskRow
run rows [] = rows
run rows (c ∷ cs) = run (step rows c) cs

abbrev pub one_if : Option WorkerTask → ℕ
one_if none = 0
one_if (some _) = 1

-- How many tasks a call hands out.
unfoldable pub granted : List TaskRow → Call → ℕ
granted rows (claims locked run_id worker_id lease_seconds now) =
    one_if (claim_task locked run_id worker_id lease_seconds now rows).1
granted rows _ = 0

unfoldable pub grants : List TaskRow → List Call → ℕ
grants rows [] = 0
grants rows (c ∷ cs) = granted rows c + grants (step rows c) cs
