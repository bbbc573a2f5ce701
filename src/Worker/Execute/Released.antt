-- ===== src/Worker/Execute/Released.antt =====
-- How the execution of a task leaves it: not owned any more, or not written at all.
use agente_inteligente_comer.Prelude.{
  ℕ, suc, ◌+◌, ◌-◌, ◌∙◌, ◌||◌, none, String, ◌≡◌, refl, Bool, true, false, List, some, arith, inl,
  inr, ◌⊎◌, Bool-cases, Option-cases, Sum-cases, take, length,
}
use agente_inteligente_comer.Contracts.{ClaimedRun}
use agente_inteligente_comer.Table.{get}
use agente_inteligente_comer.Dedup.{ProspectCandidate}
use agente_inteligente_comer.Tasks.{TaskRow, WorkerTask, key, owns_task, finish_task}
use agente_inteligente_comer.Tasks.Released.{finish_task-owns, fail_task-owns}
use agente_inteligente_comer.Worker.{CrmPort, Services, Raised, Outcome, returned, raised, running}
use agente_inteligente_comer.Outbox.Weight.{load}
use agente_inteligente_comer.Worker.Termination.{all_sent}
use agente_inteligente_comer.Worker.Untouched.{delivery-tasks}
use agente_inteligente_comer.Worker.Reports.{
  Control, WorkerConfig, Database, Verdict, over, halted, lost, deliver,
}
use agente_inteligente_comer.Worker.Execute.{
  Research, qualified, log, search_until_stopped, discoveries, keep, save, investigate, attempt,
  give_up, execute_task,
}

module _ {W : Type 0} (crm : CrmPort W) (services : Services W) (control : Control W)
    (config : WorkerConfig) (research : Research W) (run_id : ℕ) (claim : ClaimedRun)
    (task : WorkerTask) where
  -- The task's row, where there is one, is not the worker's.
  abbrev Freed : Database → Type 0
  Freed db =
      (t : TaskRow) → get key task.id db.store.tasks ≡ some t → owns_task config.worker_id t ≡ false

  -- No task was written.
  abbrev pub Kept : Database → Database → Type 0
  Kept db db' = (db'.store.tasks ≡ db.store.tasks) × (db'.candidates ≡ db.candidates)

  -- What the body comes to with a verdict: the task's end, or that it stops before any write to a task
  -- or a candidate. An error is left to the `except` clause.
  abbrev Attempted : (Verdict → Type 0) → Database → Database → (Raised ⊎ Verdict) → Type 0
  Attempted reason db db' (inl e) = Unit
  Attempted reason db db' (inr verdict) =
      ((verdict ≡ over) × Freed db') ⊎ (Kept db db' × reason verdict)

  log-tasks :
      (status stage : String) (limited : Bool) (db : Database) (w : W)
      → (log crm services control config research run_id task status stage limited db
          w).0.store.tasks
        ≡ db.store.tasks
  unfolding log
  log-tasks status stage limited db w = refl

  keep-Attempted :
      (reason : Verdict → Type 0) (limited : Bool) (found : List ProspectCandidate) (db : Database)
      (w : W)
      → let r = keep crm services control config research run_id task limited found db w in
        Attempted reason db r.0.0 r.1
  unfolding keep
  keep-Attempted reason limited found db w =
      let good = qualified research.judge found in
      let s =
        save crm services control config research run_id task (take task.max_results good) db w in
      elim (Sum-cases s.1) [
        | inl (e, p) ↦ rw (keep, p) tt
        | inr (saved, p) ↦
            let rejected = length found - length good + (length good - task.max_results) in
            elim (Option-cases
              (finish_task task.id config.worker_id saved rejected s.0.0.store.tasks)) [
                | inl e ↦ rw (keep, p, e) tt
                | inr (tasks, e) ↦
                    rw (keep, p, e)
                      (inl (
                        refl,
                        λ t g.
                            finish_task-owns task.id config.worker_id s.0.0.store.tasks saved
                              rejected tasks t e
                              (rw (log-tasks "completed" "task_completed" limited _ _) at g),
                      ))
              ]
      ]

  -- A flag is set: the cancellation before the search, or one of the three after it.
  abbrev Flagged : W → Type 0
  Flagged w =
      let found = (research.search task w).0 in
      (control.cancel_requested w ≡ true)
      ⊎ ((research.task_lease_lost found
            || control.lease_lost found
            || control.cancel_requested found)
          ≡ true)

  search-stops :
      (w : W)
      → (search_until_stopped crm services control config research task w).1 ≡ inr none
      → Flagged w
  unfolding search_until_stopped
  search-stops w h =
      let r = research.search task w in
      elim (Bool-cases
        (research.task_lease_lost r.0 || control.lease_lost r.0 || control.cancel_requested r.0)) [
          | inl e ↦ inr e
          | inr e ↦ elim (Sum-cases r.1) [
            | inl (x, p) ↦ absurd (ground (arith, rw (search_until_stopped, e, p) at h))
            | inr (x, p) ↦ absurd (ground (arith, rw (search_until_stopped, e, p) at h))
          ]
        ]

  investigate-Attempted :
      (reason : Verdict → Type 0) (db : Database) (w : W)
      → (Flagged w → reason halted)
      → let r = investigate crm services control config research run_id claim task db w in
        Attempted reason db r.0.0 r.1
  unfolding investigate
  investigate-Attempted reason db w flagged =
      let r = search_until_stopped crm services control config research task w in
      elim (Bool-cases (control.cancel_requested w)) [
        | inl c ↦ rw (investigate, c) (inr ((refl, refl), flagged (inl c)))
        | inr c ↦ elim (Sum-cases r.1) [
          | inl (e, p) ↦ rw (investigate, c, p) tt
          | inr (found, p) ↦ elim (Option-cases found) [
            | inl n ↦
                rw (investigate, c, p, n) (inr ((refl, refl), flagged (search-stops w (rw n at p))))
            | inr (result, n) ↦
                let d =
                  discoveries crm services control config research run_id claim task
                    result.candidates db r.0 in
                elim (Sum-cases d.1) [
                  | inl (e, q) ↦ rw (investigate, c, p, n, q) tt
                  | inr (cs, q) ↦
                      rw (investigate, c, p, n, q)
                        (keep-Attempted reason result.budget_limited cs db d.0)
                ]
          ]
        ]
      ]

  outcome_cases :
      (o : Outcome)
      → (o ≡ returned true) ⊎ (o ≡ returned false) ⊎ (o ≡ running) ⊎ ((e : Raised) × (o ≡ raised e))
  outcome_cases (returned true) = inl refl
  outcome_cases (returned false) = inr (inl refl)
  outcome_cases running = inr (inr (inl refl))
  outcome_cases (raised e) = inr (inr (inr (e, refl)))

  -- The delivery of the outbox that comes before the search.
  abbrev first_delivery : Database → W → (Database × W) × Outcome
  first_delivery db w =
      let started =
        log crm services control config research run_id task "running" "task_started" false db w in
      deliver crm services run_id claim started.0 started.1

  -- Why the worker stops and keeps the task: its outbox is stuck, or a flag is set.
  abbrev pub Reason : Database → W → Verdict → Type 0
  Reason db w verdict =
      let d = first_delivery db w in
      ((verdict ≡ lost) × (all_sent d.1 ≡ false)) ⊎ ((verdict ≡ halted) × Flagged d.0.1)

  attempt-Attempted :
      (db : Database) (w : W)
      → let r = attempt crm services control config research run_id claim task db w in
        Attempted (Reason db w) db r.0.0 r.1
  unfolding attempt
  attempt-Attempted db w =
      let started =
        log crm services control config research run_id task "running" "task_started" false db w in
      let d = first_delivery db w in
      let same : d.0.0.store.tasks ≡ db.store.tasks =
        delivery-tasks crm services run_id claim.snapshot.crm_run_id claim.lease_token
          (suc (load started.0.store.outbox)) started.0.store started.1
        ∙ log-tasks "running" "task_started" false db w in
      let tried = investigate crm services control config research run_id claim task d.0.0 d.0.1 in
      elim (outcome_cases d.1) [
        | inl e ↦
            rw (attempt, e)
              (unkept d.0.0 tried.0.0 tried.1 same refl
                (investigate-Attempted (Reason db w) d.0.0 d.0.1 (λ f. inr (refl, f))))
        | inr (inl e) ↦ rw (attempt, e) (inr ((same, refl), inl (refl, rw e)))
        | inr (inr (inl e)) ↦ rw (attempt, e) (inr ((same, refl), inl (refl, rw e)))
        | inr (inr (inr (x, e))) ↦ rw (attempt, e) tt
      ]
    where
      unkept :
          (mid db' : Database) (r : Raised ⊎ Verdict)
          → mid.store.tasks ≡ db.store.tasks
          → mid.candidates ≡ db.candidates
          → Attempted (Reason db w) mid db' r
          → Attempted (Reason db w) db db' r
      unkept mid db' (inl e) h k a = a
      unkept mid db' (inr v) h k (inl a) = inl a
      unkept mid db' (inr v) h k (inr (a, b)) = inr ((a.0 ∙ h, a.1 ∙ k), b)

  give_up-Freed :
      (e : Raised) (db : Database) (w : W)
      → Freed (give_up crm services control config research run_id task e db w).0
  unfolding give_up log
  give_up-Freed e db w = λ t g. fail_task-owns task.id config.worker_id db.store.tasks _ _ t g

  -- An execution of a task, however it goes, ends in one of two ways. Either the worker does not own
  -- the task's row any more, whatever was saved or raised on the way. Or no task and no candidate was
  -- written, and the reason is one of two: the outbox could not be emptied before the search, or a flag
  -- was set, the cancellation before the search or the loss of a lease or the cancellation after it.
  pub execute_task-owns :
      (db : Database) (w : W) (t : TaskRow)
      → let r = execute_task crm services control config research run_id claim task db w in
        get key task.id r.0.0.store.tasks ≡ some t
        → ((r.1 ≡ over) × (owns_task config.worker_id t ≡ false))
          ⊎ (Kept db r.0.0 × Reason db w r.1)
  unfolding execute_task
  execute_task-owns db w t g =
      let a = attempt crm services control config research run_id claim task db w in
      let ends = attempt-Attempted db w in
      elim (Sum-cases a.1) [
        | inl (e, p) ↦
            rw (execute_task, p)
              (inl (refl, give_up-Freed e a.0.0 a.0.1 t (rw (execute_task, p) at g)))
        | inr (verdict, p) ↦ elim (rw p at ends) [
          | inl f ↦ rw (execute_task, p) (inl (f.0, f.1 t (rw (execute_task, p) at g)))
          | inr k ↦ rw (execute_task, p) (inr k)
        ]
      ]
