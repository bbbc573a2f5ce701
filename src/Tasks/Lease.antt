-- ===== src/Tasks/Lease.antt =====
-- While a lease runs, its task belongs to one worker: no call of anybody else touches the row.
use agente_inteligente_comer.Prelude.{
  ℕ, ◌≤◌, String, ◌≡◌, refl, ◌⊎◌, Bool, true, false, List, [], ◌∷◌, map, some, arith, ◌==◌, str_eq,
  inl, inr, Bool-cases, map_left, All,
}
use agente_inteligente_comer.Contracts.{is_running}
use agente_inteligente_comer.Table.{get, Unique}
use agente_inteligente_comer.Table.Laws.{get-map, get-modify}
use agente_inteligente_comer.Tasks.{
  TaskRow, key, sweep, claimable, claim, claim_task, cancel_tasks, cancel_row, renew, finish, fail,
  holds_lease, owns_task,
}
use agente_inteligente_comer.Tasks.Writes.{
  heartbeat-guarded, finish-guarded, fail-guarded, get-guarded,
}
use agente_inteligente_comer.Tasks.Keys.{cancel_KeepsKey, step-Unique}
use agente_inteligente_comer.Tasks.Claim.{sweep-KeepsKey, claim-KeepsKey, claim_task_cases}
use agente_inteligente_comer.Tasks.Calls.{
  Call, claims, heartbeats, finishes, fails, cancels, step, run,
}

-- The row runs for the worker until the given time.
pub record Held (worker_id : String) (until : ℕ) (t : TaskRow) : Type 0 where
  pub runs : is_running t.status ≡ true
  pub owner : t.lease_owner ≡ some worker_id
  pub expires : t.lease_expires_at ≡ some until

-- A call of somebody else, in time, about any task.
abbrev pub Foreign : String → ℕ → TaskRow → Call → Type 0
Foreign w until t (claims locked run_id worker_id lease_seconds now) = now ≤ until
Foreign w until t (heartbeats task_id worker_id lease_seconds now) =
    (str_eq w worker_id ≡ false) ⊎ ((task_id == t.id) ≡ false)
Foreign w until t (finishes task_id worker_id results rejected) =
    (str_eq w worker_id ≡ false) ⊎ ((task_id == t.id) ≡ false)
Foreign w until t (fails task_id worker_id error now) =
    (str_eq w worker_id ≡ false) ⊎ ((task_id == t.id) ≡ false)
Foreign w until t (cancels run_id) = (t.run_id == run_id) ≡ false

module _ {w : String} {until : ℕ} (t : TaskRow) (h : Held w until t) where
  swept_Held : (locked : ℕ → Bool) (run_id now : ℕ) → now ≤ until → sweep locked run_id now t ≡ t
  unfolding sweep
  swept_Held locked run_id now le = ground (arith, h.runs, h.expires)

  not_claimable :
      (locked : ℕ → Bool) (run_id now : ℕ) → now ≤ until → claimable locked run_id now t ≡ false
  unfolding claimable
  not_claimable locked run_id now le = ground (arith, h.runs, h.expires)

  not_owned : (worker_id : String) → str_eq w worker_id ≡ false → owns_task worker_id t ≡ false
  unfolding owns_task
  not_owned worker_id ne = ground (arith, h.owner)

  not_leased :
      (worker_id : String) (now : ℕ)
      → str_eq w worker_id ≡ false
      → holds_lease worker_id now t ≡ false
  unfolding holds_lease
  not_leased worker_id now ne = ground (arith, h.owner)

  module _ (rows : List TaskRow) (there : get key t.id rows ≡ some t) where
    held-claim :
        (locked : ℕ → Bool) (run_id : ℕ) (worker_id : String) (lease_seconds now : ℕ)
        → Unique key rows
        → now ≤ until
        → get key t.id (claim_task locked run_id worker_id lease_seconds now rows).0 ≡ some t
    held-claim locked run_id worker_id lease_seconds now unique le =
        claim_task_cases locked run_id worker_id lease_seconds now (λ r. get key t.id r.0 ≡ some t)
          rows unique (λ _. stays)
          λ u found could _. elim (Bool-cases (u.id == t.id)) [
            | inl e ↦
                let same : u.id ≡ t.id = ground arith in
                let u' : u ≡ t = ground (arith, rw same at found, stays) in
                let could' : claimable locked run_id now t ≡ true = rw u' at could in
                absurd (ground (arith, not_claimable locked run_id now le))
            | inr e ↦
                rw
                  (
                    get-modify key u.id (claim worker_id lease_seconds now)
                        (claim-KeepsKey locked run_id worker_id lease_seconds now) t.id
                        (map (sweep locked run_id now) rows),
                    e,
                  )
                  stays
          ]
      where
        stays : get key t.id (map (sweep locked run_id now) rows) ≡ some t
        stays = ground (
          arith,
          there,
          swept_Held locked run_id now le,
          get-map key (sweep locked run_id now)
              (sweep-KeepsKey locked run_id worker_id lease_seconds now) t.id rows,
        )

    held-cancel :
        (run_id : ℕ)
        → (t.run_id == run_id) ≡ false
        → get key t.id (cancel_tasks run_id rows) ≡ some t
    unfolding cancel_tasks
    held-cancel run_id other = ground (
      arith,
      there,
      not_cancelled,
      get-map key (cancel_row run_id) (cancel_KeepsKey run_id) t.id rows,
    )
      where
        not_cancelled : cancel_row run_id t ≡ t
        not_cancelled = unfold cancel_row in ground arith

    -- A call of anybody else, made while the lease runs, leaves the row as it is.
    step-Held :
        (c : Call) → Unique key rows → Foreign w until t c → get key t.id (step rows c) ≡ some t
    unfolding step
    step-Held (claims locked run_id worker_id lease_seconds now) unique le =
        held-claim locked run_id worker_id lease_seconds now unique le
    step-Held (heartbeats task_id worker_id lease_seconds now) unique ne =
        rw (heartbeat-guarded rows task_id worker_id lease_seconds now) (
          get-guarded task_id (holds_lease worker_id now) (renew lease_seconds now) (λ r. refl) rows
            t there (map_left (not_leased worker_id now) ne))
    step-Held (finishes task_id worker_id results rejected) unique ne =
        rw (finish-guarded rows task_id worker_id results rejected) (
          get-guarded task_id (owns_task worker_id) (finish results rejected) (λ r. refl) rows t
            there (map_left (not_owned worker_id) ne))
    step-Held (fails task_id worker_id error now) unique ne =
        rw (fail-guarded rows task_id worker_id error now) (
          get-guarded task_id (owns_task worker_id) (fail error now) (λ r. refl) rows t there
            (map_left (not_owned worker_id) ne))
    step-Held (cancels run_id) unique other = held-cancel run_id other

  -- In a table with unique ids, whatever calls others make before the lease ends, but for a
  -- cancellation of its run, in any order, the worker still has its row: the same attempt, the same
  -- owner, the same expiry.
  pub run-Held :
      (cs : List Call) (rows : List TaskRow)
      → Unique key rows
      → get key t.id rows ≡ some t
      → All (Foreign w until t) cs
      → get key t.id (run rows cs) ≡ some t
  unfolding run
  run-Held [] rows unique there foreign = there
  run-Held (c ∷ cs) rows unique there foreign =
      run-Held cs (step rows c) (step-Unique rows unique c)
        (step-Held rows there c unique foreign.0) foreign.1
