-- ===== src/Tasks/Keys.antt =====
-- The calls keep the ids of the rows unique.
use agente_inteligente_comer.Prelude.{ℕ, refl, String, Bool, List, arith}
use agente_inteligente_comer.Table.{Unique, KeepsKey}
use agente_inteligente_comer.Table.Laws.{Unique-map, Unique-modify}
use agente_inteligente_comer.Tasks.{
  TaskRow, key, sweep, claim, claim_task, cancel_tasks, cancel_row, renew, finish, fail,
  holds_lease, owns_task,
}
use agente_inteligente_comer.Tasks.Writes.{
  heartbeat-guarded, finish-guarded, fail-guarded, guarded-Unique,
}
use agente_inteligente_comer.Tasks.Claim.{swept, sweep-KeepsKey, claim-KeepsKey, claim_task_cases}
use agente_inteligente_comer.Tasks.Calls.{Call, claims, heartbeats, finishes, fails, cancels, step}

pub cancel_KeepsKey : (run_id : ℕ) → KeepsKey key (cancel_row run_id)
unfolding cancel_row
cancel_KeepsKey run_id t = ground arith

module _ (rows : List TaskRow) (u : Unique key rows) where
  pub swept-Unique :
      (locked : ℕ → Bool) (run_id : ℕ) (worker_id : String) (lease_seconds now : ℕ)
      → Unique key (swept locked run_id worker_id lease_seconds now rows)
  swept-Unique locked run_id worker_id lease_seconds now =
      Unique-map key (sweep locked run_id now)
        (sweep-KeepsKey locked run_id worker_id lease_seconds now) rows u

  claim-Unique :
      (locked : ℕ → Bool) (run_id : ℕ) (worker_id : String) (lease_seconds now : ℕ)
      → Unique key (claim_task locked run_id worker_id lease_seconds now rows).0
  claim-Unique locked run_id worker_id lease_seconds now =
      claim_task_cases locked run_id worker_id lease_seconds now (λ r. Unique key r.0) rows u
        (λ _. swept-Unique locked run_id worker_id lease_seconds now)
        λ t found could _.
          Unique-modify key t.id (claim worker_id lease_seconds now)
            (claim-KeepsKey locked run_id worker_id lease_seconds now)
            (swept locked run_id worker_id lease_seconds now rows)
            (swept-Unique locked run_id worker_id lease_seconds now)

  pub step-Unique : (c : Call) → Unique key (step rows c)
  unfolding step cancel_tasks
  step-Unique (claims locked run_id worker_id lease_seconds now) =
      claim-Unique locked run_id worker_id lease_seconds now
  step-Unique (heartbeats task_id worker_id lease_seconds now) =
      rw (heartbeat-guarded rows task_id worker_id lease_seconds now) (
        guarded-Unique task_id (holds_lease worker_id now) (renew lease_seconds now) (λ r. refl)
          rows u)
  step-Unique (finishes task_id worker_id results rejected) =
      rw (finish-guarded rows task_id worker_id results rejected)
        (guarded-Unique task_id (owns_task worker_id) (finish results rejected) (λ r. refl) rows u)
  step-Unique (fails task_id worker_id error now) =
      rw (fail-guarded rows task_id worker_id error now)
        (guarded-Unique task_id (owns_task worker_id) (fail error now) (λ r. refl) rows u)
  step-Unique (cancels run_id) = Unique-map key (cancel_row run_id) (cancel_KeepsKey run_id) rows u
