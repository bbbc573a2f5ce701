-- ===== src/Runs/Sync.antt =====
-- Taking over the tasks that the CRM plans: what becomes of the rows.
use mathlib.Core.Option
use agente_inteligente_comer.Prelude.{
  ℕ, ◌≤◌, ◌≡◌, refl, ◌∙◌, subst, Bool, true, false, List, [], ◌∷◌, ◌++◌, Option, none, some, arith,
  ◌==◌, if◌then◌else◌, is_some, first, All, inl, inr, Bool-cases, some_eq,
}
use agente_inteligente_comer.Contracts.{
  TaskStatus, is_completed, Territory, ProspectingRunSnapshot, ClaimedTask,
}
use agente_inteligente_comer.Table.{get, modify, Unique, KeepsKey}
use agente_inteligente_comer.Table.Laws.{
  get-modify, get-snoc, Fresh-of_none, Unique-snoc, Unique-modify, All-snoc, All-modify_every,
}
use agente_inteligente_comer.Tasks.{TaskRow, key}
use agente_inteligente_comer.Tasks.Attempts.{IsValid}
use agente_inteligente_comer.Plan.{Result, returned, raised, ◌>>=◌, validate_claimed_task}
use agente_inteligente_comer.Runs.{
  new_task, assign, preserve_local_completion, update_task, sync_task, sync_tasks,
}

pub ok_eq : {A : Type 0} (a b : A) → returned a ≡ returned b → a ≡ b
ok_eq a b h = cc

pub >>=-ok :
    {A B : Type 0} (m : Result A) (f : A → Result B) {b : B}
    → (m >>= f) ≡ returned b
    → (a : A) × (m ≡ returned a) × (f a ≡ returned b)
>>=-ok (returned a) f h = (a, refl, h)
>>=-ok (raised e) f h = cc

-- No two tasks of the plan have one id.
abbrev pub Distinct : List ClaimedTask → Type 0
Distinct [] = Unit
Distinct (c ∷ cs) = All (λ d. (d.task_id == c.task_id) ≡ false) cs × Distinct cs

module _ (s : ProspectingRunSnapshot) (existing : List TaskRow) (completions : List ℕ)
    (run_id now : ℕ) where
  update_KeepsKey :
      (c : ClaimedTask) (y : Territory) → KeepsKey key (update_task completions now c y)
  unfolding update_task
  update_KeepsKey c y t = refl

  -- A task that is taken over is the row of its id, assigned anew, or a new row.
  sync_task_cases {ℓ} :
      (P : List TaskRow → Type ℓ) (c : ClaimedTask) (rows rows' : List TaskRow)
      → sync_task s existing completions run_id now c rows ≡ returned rows'
      → ((y : Territory)
          → is_some (get key c.task_id existing) ≡ true
          → P (modify key c.task_id (update_task completions now c y) rows))
      → ((y : Territory)
          → is_some (get key c.task_id existing) ≡ false
          → is_some (get key c.task_id rows) ≡ false
          → P (rows ++ assign c y now false (new_task c.task_id run_id now) ∷ []))
      → P rows'
  unfolding sync_task
  sync_task_cases P c rows rows' h updated added =
      let (y, e, k) = >>=-ok (validate_claimed_task s c) _ h in
      elim (Bool-cases (is_some (get key c.task_id existing))) [
        | inl p ↦ subst P (ok_eq _ _ (rw p at k)) (updated y p)
        | inr p ↦ elim (Bool-cases (is_some (get key c.task_id rows))) [
          | inl q ↦ absurd (ground arith)
          | inr q ↦ subst P (ok_eq _ _ (rw (p, q) at k)) (added y p q)
        ]
      ]

  update-IsValid :
      (c : ClaimedTask) (y : Territory) (b : Bool) (t : TaskRow)
      → c.attempts ≤ c.max_attempts
      → (b ≡ true → is_completed t.status ≡ true)
      → IsValid (assign c y now b t)
  update-IsValid c y true t le done = ground arith
  update-IsValid c y false t le done = ground arith

  updated-IsValid :
      (c : ClaimedTask) (y : Territory)
      → c.attempts ≤ c.max_attempts
      → (t : TaskRow) → IsValid (update_task completions now c y t)
  unfolding update_task
  updated-IsValid c y le t =
      update-IsValid c y (preserve_local_completion completions c t) t le
        (unfold preserve_local_completion in λ h. ground arith)

  abbrev Good : List TaskRow → Type 0
  Good rows = Unique key rows × All IsValid rows

  sync_task-Good :
      (c : ClaimedTask) (rows rows' : List TaskRow)
      → c.attempts ≤ c.max_attempts
      → sync_task s existing completions run_id now c rows ≡ returned rows'
      → Good rows
      → Good rows'
  sync_task-Good c rows rows' le h g =
      sync_task_cases Good c rows rows' h
        (λ y _. (
          Unique-modify key c.task_id (update_task completions now c y) (update_KeepsKey c y) rows
              g.0,
          All-modify_every key IsValid c.task_id (update_task completions now c y)
              (λ t _. updated-IsValid c y le t) rows g.1,
        ))
        λ y _ absent. (
          Unique-snoc key rows (assign c y now false (new_task c.task_id run_id now)) g.0
              (Fresh-of_none key c.task_id rows (none_of absent)),
          All-snoc key IsValid rows (assign c y now false (new_task c.task_id run_id now)) g.1 (
              update-IsValid c y false (new_task c.task_id run_id now) le
                (λ e. absurd (ground arith))),
        )
    where
      none_of : {o : Option TaskRow} → is_some o ≡ false → o ≡ none
      none_of {o} e = ground arith

  -- Where the CRM plans tasks whose attempts are within their limits, the table that results from
  -- taking them over has unique ids and valid rows, if it had them before.
  pub sync_tasks-Good :
      (cs : List ClaimedTask) (rows rows' : List TaskRow)
      → All (λ c. c.attempts ≤ c.max_attempts) cs
      → Unique key rows
      → All IsValid rows
      → sync_tasks s existing completions run_id now cs rows ≡ returned rows'
      → Unique key rows' × All IsValid rows'
  unfolding sync_tasks
  sync_tasks-Good [] rows rows' le u v h = subst Good (ok_eq _ _ h) (u, v)
  sync_tasks-Good (c ∷ cs) rows rows' le u v h =
      let (mid, e, k) = >>=-ok (sync_task s existing completions run_id now c rows) _ h in
      let g = sync_task-Good c rows mid le.0 e (u, v) in sync_tasks-Good cs mid rows' le.1 g.0 g.1 k

  -- The row of another id.
  sync_task-other :
      (i : ℕ) (c : ClaimedTask) (rows rows' : List TaskRow)
      → (c.task_id == i) ≡ false
      → sync_task s existing completions run_id now c rows ≡ returned rows'
      → get key i rows' ≡ get key i rows
  sync_task-other i c rows rows' ne h =
      sync_task_cases (λ r. get key i r ≡ get key i rows) c rows rows' h
        (λ y _. ground (
          arith,
          get-modify key c.task_id (update_task completions now c y) (update_KeepsKey c y) i rows,
        ))
        λ y _ _.
          ground (arith, get-snoc key i rows (assign c y now false (new_task c.task_id run_id now)))

  -- Taking over the CRM's plan leaves the rows whose ids it does not name.
  pub sync_tasks-other :
      (i : ℕ) (cs : List ClaimedTask) (rows rows' : List TaskRow)
      → All (λ c. (c.task_id == i) ≡ false) cs
      → sync_tasks s existing completions run_id now cs rows ≡ returned rows'
      → get key i rows' ≡ get key i rows
  unfolding sync_tasks
  sync_tasks-other i [] rows rows' ne h = rw (ok_eq _ _ h)
  sync_tasks-other i (c ∷ cs) rows rows' ne h =
      let (mid, e, k) = >>=-ok (sync_task s existing completions run_id now c rows) _ h in
      sync_tasks-other i cs mid rows' ne.1 k ∙ sync_task-other i c rows mid ne.0 e

  -- A row that the store has, after its own task is taken over.
  sync_task-own :
      (c : ClaimedTask) (rows rows' : List TaskRow) (t : TaskRow)
      → is_some (get key c.task_id existing) ≡ true
      → get key c.task_id rows ≡ some t
      → sync_task s existing completions run_id now c rows ≡ returned rows'
      → (y : Territory) × (get key c.task_id rows' ≡ some (update_task completions now c y t))
  sync_task-own c rows rows' t known there h =
      sync_task_cases
        (λ r. (y : Territory) × (get key c.task_id r ≡ some (update_task completions now c y t))) c
        rows rows' h
        (λ y _. (
          y,
          ground (
            arith,
            there,
            get-modify key c.task_id (update_task completions now c y) (update_KeepsKey c y)
                c.task_id rows,
          ),
        ))
        λ y unknown _. absurd (ground (arith, known, unknown))

  own_row :
      (cs : List ClaimedTask) (rows rows' : List TaskRow) (c : ClaimedTask) (t : TaskRow)
      → Distinct cs
      → first (λ d. d.task_id == c.task_id) cs ≡ some c
      → is_some (get key c.task_id existing) ≡ true
      → get key c.task_id rows ≡ some t
      → sync_tasks s existing completions run_id now cs rows ≡ returned rows'
      → (y : Territory) × (get key c.task_id rows' ≡ some (update_task completions now c y t))
  unfolding sync_tasks first
  own_row [] rows rows' c t distinct found known there h = absurd (Option.none-ne-some _ found)
  own_row (d ∷ cs) rows rows' c t distinct found known there h =
      let (mid, e, k) = >>=-ok (sync_task s existing completions run_id now d rows) _ h in
      elim (Bool-cases (d.task_id == c.task_id)) [
        | inl same ↦
            let d' : d ≡ c = some_eq _ _ (rw same at found) in
            let (y, own) = sync_task-own c rows mid t known there (rw d' at e) in
            (y, sync_tasks-other c.task_id cs mid rows' (rw d' at distinct.0) k ∙ own)
        | inr other ↦
            own_row cs mid rows' c t distinct.1 (rw other at found) known
              (sync_task-other c.task_id d rows mid other e ∙ there) k
      ]

  update-fields :
      (c : ClaimedTask) (y : Territory) (t : TaskRow)
      → ((update_task completions now c y t).status
          ≡ (if preserve_local_completion completions c t then TaskStatus.completed else c.status))
        × ((update_task completions now c y t).attempt_count
            ≡ (if preserve_local_completion completions c t then t.attempt_count else c.attempts))
  unfolding update_task preserve_local_completion
  update-fields c y t = (ground arith, ground arith)

  -- The row that a task of the plan has in the store, after all of the plan is taken over.
  pub sync_tasks-own :
      (cs : List ClaimedTask) (rows rows' : List TaskRow) (c : ClaimedTask) (t : TaskRow)
      → Distinct cs
      → first (λ d. d.task_id == c.task_id) cs ≡ some c
      → is_some (get key c.task_id existing) ≡ true
      → get key c.task_id rows ≡ some t
      → sync_tasks s existing completions run_id now cs rows ≡ returned rows'
      → (t' : TaskRow) × (get key c.task_id rows' ≡ some t')
        × (t'.status ≡ (
            if preserve_local_completion completions c t then TaskStatus.completed else c.status))
        × (t'.attempt_count
            ≡ (if preserve_local_completion completions c t then t.attempt_count else c.attempts))
        × (t'.lease_owner ≡ none)
  sync_tasks-own cs rows rows' c t distinct found known there h =
      let (y, e) = own_row cs rows rows' c t distinct found known there h in
      (
        update_task completions now c y t,
        e,
        (update-fields c y t).0,
        (update-fields c y t).1,
        unfold update_task in refl,
      )
