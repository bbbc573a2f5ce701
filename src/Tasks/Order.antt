-- ===== src/Tasks/Order.antt =====
-- Which task `claim_task` takes, and when it takes none.
use agente_inteligente_comer.Prelude.{
  ℕ, String, ◌≡◌, not, Bool, true, false, ◌&&◌, ◌||◌, List, Option, none, some, arith, ◌==◌, ltb,
  leb, inl, inr, Bool-cases, subst, All, least_bound, least-none, All-unselect, All-imp, All-unmap,
}
use agente_inteligente_comer.Table.{get, Unique}
use agente_inteligente_comer.Tasks.{
  TaskRow, WorkerTask, key, sweep, claimable, before, next_task, claim_task, source_priority,
}
use agente_inteligente_comer.Tasks.Claim.{swept, claim_task_cases, swept-claimable}

abbrev lex : ℕ → ℕ → ℕ → ℕ → ℕ → ℕ → Bool
lex p c i q d j = ltb p q || p == q && (ltb c d || c == d && leb i j)

lex_total : (p c i q d j : ℕ) → lex p c i q d j ≡ false → lex q d j p c i ≡ true
lex_total p c i q d j h = ground arith

lex_trans :
    (p c i q d j r e k : ℕ)
    → lex p c i q d j ≡ true
    → lex q d j r e k ≡ true
    → lex p c i r e k ≡ true
lex_trans p c i q d j r e k h g = ground arith

before_total : (t u : TaskRow) → before t u ≡ false → before u t ≡ true
unfolding before
before_total t u =
    lex_total (source_priority t.source) t.created_at t.id (source_priority u.source) u.created_at
      u.id

before_trans : (t u v : TaskRow) → before t u ≡ true → before u v ≡ true → before t v ≡ true
unfolding before
before_trans t u v =
    lex_trans (source_priority t.source) t.created_at t.id (source_priority u.source) u.created_at
      u.id (source_priority v.source) v.created_at v.id

module _ (locked : ℕ → Bool) (run_id : ℕ) (worker_id : String) (lease_seconds now : ℕ) where
  -- A row that can be claimed is not swept.
  unswept : (t : TaskRow) → claimable locked run_id now t ≡ true → sweep locked run_id now t ≡ t
  unfolding claimable sweep
  unswept t c = ground arith

  least_swept :
      (rows : List TaskRow) (t : TaskRow)
      → next_task locked run_id now (swept locked run_id worker_id lease_seconds now rows) ≡ some t
      → All (λ u. claimable locked run_id now u ≡ true → before t u ≡ true) rows
  unfolding next_task
  least_swept rows t e =
      All-imp _ _
        (λ u f c. let s : sweep locked run_id now u ≡ u = unswept u c in rw s at (f (rw s c))) rows
        (All-unmap (λ v. claimable locked run_id now v ≡ true → before t v ≡ true)
          (sweep locked run_id now) rows
          (All-unselect (λ v. before t v ≡ true) (claimable locked run_id now) _
            (least_bound before before_total before_trans _ t e)))

  idle_row :
      (u : TaskRow)
      → (claimable locked run_id now (sweep locked run_id now u) ≡ true → ⊥)
      → claimable locked run_id now u ≡ false
  idle_row u f = elim (Bool-cases (claimable locked run_id now u)) [
    | inl c ↦ absurd (f (rw (unswept u c) c))
    | inr c ↦ c
  ]

  idle_swept :
      (rows : List TaskRow)
      → next_task locked run_id now (swept locked run_id worker_id lease_seconds now rows) ≡ none
      → All (λ u. claimable locked run_id now u ≡ false) rows
  unfolding next_task
  idle_swept rows e = All-imp _ _ idle_row rows (
      All-unmap (λ v. claimable locked run_id now v ≡ true → ⊥) (sweep locked run_id now) rows
        (All-unselect (λ _. ⊥) (claimable locked run_id now) _ (least-none before (λ _. ⊥) _ e)))

  abbrev Least : List TaskRow → Option WorkerTask → Type 0
  Least rows none = All (λ u. claimable locked run_id now u ≡ false) rows
  Least rows (some task) =
      (t : TaskRow)
      → get key task.id rows ≡ some t
      → All (λ u. claimable locked run_id now u ≡ true → before t u ≡ true) rows

  claim_task-Least :
      (rows : List TaskRow)
      → Unique key rows
      → Least rows (claim_task locked run_id worker_id lease_seconds now rows).1
  claim_task-Least rows u =
      claim_task_cases locked run_id worker_id lease_seconds now (λ r. Least rows r.1) rows u
        (λ e. idle_swept rows e)
        λ t found could e t' g.
          let t'' : t ≡ t' = ground (
            arith,
            g,
            swept-claimable locked run_id worker_id lease_seconds now rows t.id t found could,
          ) in
          rw t'' at (least_swept rows t e)

  -- The task handed out is of a row that stands before every row that could be claimed, by source,
  -- age and id.
  pub claim_task-before :
      (rows rows' : List TaskRow) (task : WorkerTask) (t : TaskRow)
      → Unique key rows
      → claim_task locked run_id worker_id lease_seconds now rows ≡ (rows', some task)
      → get key task.id rows ≡ some t
      → All (λ u. (not (claimable locked run_id now u) || before t u) ≡ true) rows
  claim_task-before rows rows' task t u h g =
      All-imp _ _ (λ v f. no_or v (before t v) f) rows
        (subst (λ r. Least rows r.1) h (claim_task-Least rows u) t g)
    where
      no_or :
          (v : TaskRow) (b : Bool)
          → (claimable locked run_id now v ≡ true → b ≡ true)
          → (not (claimable locked run_id now v) || b) ≡ true
      no_or v b f = elim (Bool-cases (claimable locked run_id now v)) [
        | inl c ↦ rw (c, f c)
        | inr c ↦ rw c
      ]

  -- No task is handed out only where no row could be claimed.
  pub claim_task-idle :
      (rows rows' : List TaskRow)
      → Unique key rows
      → claim_task locked run_id worker_id lease_seconds now rows ≡ (rows', none)
      → All (λ u. claimable locked run_id now u ≡ false) rows
  claim_task-idle rows rows' u h = subst (λ r. Least rows r.1) h (claim_task-Least rows u)
