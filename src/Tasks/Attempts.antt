-- ===== src/Tasks/Attempts.antt =====
-- What holds of every row between two calls, and how often tasks are handed out.
use agente_inteligente_comer.Prelude.{
  ℕ, ◌+◌, ◌-◌, ◌≤◌, String, ◌≡◌, refl, Bool, true, false, ◌||◌, List, [], ◌∷◌, none, arith, All,
  total, is_some,
}
use agente_inteligente_comer.Contracts.{is_pending, is_running}
use agente_inteligente_comer.Table.{Unique}
use agente_inteligente_comer.Table.Laws.{All-map, All-modify, total-modify, total-map-le}
use agente_inteligente_comer.Tasks.{
  TaskRow, key, sweep, claimable, claim, cancel_tasks, cancel_row, renew, finish, fail, holds_lease,
  owns_task,
}
use agente_inteligente_comer.Tasks.Writes.{
  heartbeat-guarded, finish-guarded, fail-guarded, guarded-All, total-guarded,
}
use agente_inteligente_comer.Tasks.Claim.{swept, claim_task_cases}
use agente_inteligente_comer.Tasks.Keys.{step-Unique, swept-Unique}
use agente_inteligente_comer.Tasks.Calls.{
  Call, claims, heartbeats, finishes, fails, cancels, step, run, one_if, granted, grants,
}

-- A row that waits or runs is within its attempts, a running one has an expiry, and any other row
-- has no owner.
pub record IsValid (t : TaskRow) : Type 0 where
  pub within :
      (is_pending t.status || is_running t.status) ≡ true → t.attempt_count ≤ t.max_attempts
  pub leased : is_running t.status ≡ true → is_some t.lease_expires_at ≡ true
  pub unowned : is_running t.status ≡ false → t.lease_owner ≡ none

sweep-IsValid :
    (locked : ℕ → Bool) (run_id now : ℕ) (t : TaskRow)
    → IsValid t
    → IsValid (sweep locked run_id now t)
unfolding sweep
sweep-IsValid locked run_id now t v = ground arith

claim-IsValid :
    (locked : ℕ → Bool) (run_id : ℕ) (w : String) (lease_seconds now : ℕ) (t : TaskRow)
    → claimable locked run_id now t ≡ true
    → IsValid (claim w lease_seconds now t)
unfolding claimable
claim-IsValid locked run_id w lease_seconds now t c = ground arith

renew-IsValid :
    (w : String) (lease_seconds now : ℕ) (t : TaskRow)
    → holds_lease w now t ≡ true
    → IsValid t
    → IsValid (renew lease_seconds now t)
unfolding holds_lease
renew-IsValid w lease_seconds now t h v = ground arith

finish-IsValid :
    (w : String) (results rejected : ℕ) (t : TaskRow)
    → owns_task w t ≡ true
    → IsValid t
    → IsValid (finish results rejected t)
finish-IsValid w results rejected t h v = ground arith

fail-IsValid :
    (w error : String) (now : ℕ) (t : TaskRow)
    → owns_task w t ≡ true
    → IsValid t
    → IsValid (fail error now t)
unfolding owns_task
fail-IsValid w error now t h v = ground arith

cancel-IsValid : (run_id : ℕ) (t : TaskRow) → IsValid t → IsValid (cancel_row run_id t)
unfolding cancel_row
cancel-IsValid run_id t v = ground arith

-- Every call, refused or not, keeps every row of a table with unique ids valid.
pub step-IsValid :
    (rows : List TaskRow) (c : Call)
    → Unique key rows
    → All IsValid rows
    → All IsValid (step rows c)
unfolding step cancel_tasks
step-IsValid rows (claims locked run_id w lease_seconds now) u v =
    claim_task_cases locked run_id w lease_seconds now (λ r. All IsValid r.0) rows u (λ _. valid)
      λ t found could _.
        All-modify key IsValid t.id (claim w lease_seconds now)
          (swept locked run_id w lease_seconds now rows) t
          (swept-Unique rows u locked run_id w lease_seconds now) valid found
          (claim-IsValid locked run_id w lease_seconds now t could)
  where
    valid : All IsValid (swept locked run_id w lease_seconds now rows)
    valid = All-map key IsValid (sweep locked run_id now) (sweep-IsValid locked run_id now) rows v
step-IsValid rows (heartbeats task_id w lease_seconds now) u v =
    rw (heartbeat-guarded rows task_id w lease_seconds now) (
      guarded-All task_id (holds_lease w now) (renew lease_seconds now) (λ r. refl) IsValid
        (renew-IsValid w lease_seconds now) rows u v)
step-IsValid rows (finishes task_id w results rejected) u v =
    rw (finish-guarded rows task_id w results rejected) (
      guarded-All task_id (owns_task w) (finish results rejected) (λ r. refl) IsValid
        (finish-IsValid w results rejected) rows u v)
step-IsValid rows (fails task_id w error now) u v = rw (fail-guarded rows task_id w error now) (
    guarded-All task_id (owns_task w) (fail error now) (λ r. refl) IsValid
      (fail-IsValid w error now) rows u v)
step-IsValid rows (cancels run_id) u v =
    All-map key IsValid (cancel_row run_id) (cancel-IsValid run_id) rows v

-- The attempts that a row has left.
abbrev pub left : TaskRow → ℕ
left t = t.max_attempts - t.attempt_count

sweep-left :
    (locked : ℕ → Bool) (run_id now : ℕ) (t : TaskRow) → left (sweep locked run_id now t) ≤ left t
unfolding sweep
sweep-left locked run_id now t = ground arith

cancel-left : (run_id : ℕ) (t : TaskRow) → left (cancel_row run_id t) ≤ left t
unfolding cancel_row
cancel-left run_id t = ground arith

claim-left :
    (locked : ℕ → Bool) (run_id : ℕ) (w : String) (lease_seconds now : ℕ) (t : TaskRow)
    → claimable locked run_id now t ≡ true
    → 1 + left (claim w lease_seconds now t) ≤ left t
unfolding claimable
claim-left locked run_id w lease_seconds now t c = ground arith

step-left :
    (rows : List TaskRow) (c : Call)
    → Unique key rows
    → granted rows c + total left (step rows c) ≤ total left rows
unfolding step granted cancel_tasks
step-left rows (claims locked run_id w lease_seconds now) u =
    claim_task_cases locked run_id w lease_seconds now
      (λ r. one_if r.1 + total left r.0 ≤ total left rows) rows u (λ _. omega (arith, less))
      λ t found could _. omega (
        arith,
        less,
        claim-left locked run_id w lease_seconds now t could,
        total-modify key left t.id (claim w lease_seconds now)
            (swept locked run_id w lease_seconds now rows) t
            (swept-Unique rows u locked run_id w lease_seconds now) found,
      )
  where
    less : total left (swept locked run_id w lease_seconds now rows) ≤ total left rows
    less = total-map-le key left (sweep locked run_id now) (sweep-left locked run_id now) rows
step-left rows (heartbeats task_id w lease_seconds now) u =
    rw (heartbeat-guarded rows task_id w lease_seconds now) (
      omega (
        arith,
        total-guarded task_id (holds_lease w now) (renew lease_seconds now) (λ r. refl) left
            (λ t. omega arith) rows u,
      ))
step-left rows (finishes task_id w results rejected) u =
    rw (finish-guarded rows task_id w results rejected) (
      omega (
        arith,
        total-guarded task_id (owns_task w) (finish results rejected) (λ r. refl) left
            (λ t. omega arith) rows u,
      ))
step-left rows (fails task_id w error now) u = rw (fail-guarded rows task_id w error now) (
    omega (
      arith,
      total-guarded task_id (owns_task w) (fail error now) (λ r. refl) left (λ t. omega arith) rows
          u,
    ))
step-left rows (cancels run_id) u =
    omega (arith, total-map-le key left (cancel_row run_id) (cancel-left run_id) rows)

-- Whatever the calls on a table with unique ids, the tasks handed out and the attempts left at the end
-- are together no more than the attempts left at the start.
pub grants-le-left :
    (rows : List TaskRow) (cs : List Call)
    → Unique key rows
    → grants rows cs + total left (run rows cs) ≤ total left rows
unfolding grants run
grants-le-left rows [] u = omega arith
grants-le-left rows (c ∷ cs) u =
    omega (arith, step-left rows c u, grants-le-left (step rows c) cs (step-Unique rows u c))
