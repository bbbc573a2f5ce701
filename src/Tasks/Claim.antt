-- ===== src/Tasks/Claim.antt =====
-- What `claim_task` hands out, and what it does to the table.
use mathlib.Core.Option
use mathlib.Core.Option.{none-ne-some}
use agente_inteligente_comer.Prelude.{
  ℕ, String, ◌≡◌, refl, Bool, true, List, map, Option, none, some, arith, ◌==◌, if◌then◌else◌, inl,
  inr, Option-cases, subst,
}
use agente_inteligente_comer.Table.{get, modify, Unique, KeepsKey}
use agente_inteligente_comer.Table.Laws.{get-map, get-modify, least-select, Unique-map}
use agente_inteligente_comer.Tasks.{
  TaskRow, WorkerTask, key, sweep, claimable, before, claim, worker_task, next_task, claim_task,
}

module _ (locked : ℕ → Bool) (run_id : ℕ) (worker_id : String) (lease_seconds now : ℕ) where
  pub sweep-KeepsKey : KeepsKey key (sweep locked run_id now)
  unfolding sweep
  sweep-KeepsKey t = ground arith

  pub claim-KeepsKey : KeepsKey key (claim worker_id lease_seconds now)
  claim-KeepsKey t = refl

  abbrev pub swept : List TaskRow → List TaskRow
  swept rows = map (sweep locked run_id now) rows

  pub next_task_row :
      (rows : List TaskRow) (t : TaskRow)
      → Unique key rows
      → next_task locked run_id now rows ≡ some t
      → (get key t.id rows ≡ some t) × (claimable locked run_id now t ≡ true)
  unfolding next_task
  next_task_row rows t u h = least-select key before (claimable locked run_id now) rows t h u

  -- The cases of `claim_task`, with the row that it picks.
  pub claim_task_cases {ℓ} :
      (P : List TaskRow × Option WorkerTask → Type ℓ) (rows : List TaskRow)
      → Unique key rows
      → (next_task locked run_id now (swept rows) ≡ none → P (swept rows, none))
      → ((t : TaskRow)
          → get key t.id (swept rows) ≡ some t
          → claimable locked run_id now t ≡ true
          → next_task locked run_id now (swept rows) ≡ some t
          → P (
            modify key t.id (claim worker_id lease_seconds now) (swept rows),
            some (worker_task (claim worker_id lease_seconds now t)),
          ))
      → P (claim_task locked run_id worker_id lease_seconds now rows)
  unfolding claim_task
  claim_task_cases P rows u idle picked =
      elim (Option-cases (next_task locked run_id now (map (sweep locked run_id now) rows))) [
        | inl e ↦ rw e (idle e)
        | inr (t, e) ↦
            let found =
              next_task_row (map (sweep locked run_id now) rows) t
                (Unique-map key (sweep locked run_id now) sweep-KeepsKey rows u) e in
            rw e (picked t found.0 found.1 e)
      ]

  pub claimable-sweep :
      (t : TaskRow)
      → claimable locked run_id now (sweep locked run_id now t) ≡ true
      → sweep locked run_id now t ≡ t
  unfolding claimable sweep
  claimable-sweep t h = ground arith

  -- A swept row that can be claimed is as it was before the sweep.
  pub swept-claimable :
      (rows : List TaskRow) (i : ℕ) (t : TaskRow)
      → get key i (swept rows) ≡ some t
      → claimable locked run_id now t ≡ true
      → get key i rows ≡ some t
  swept-claimable rows i t g c = elim (Option-cases (get key i rows)) [
    | inl e ↦ absurd (
        none-ne-some t
          (ground (arith, e, get-map key (sweep locked run_id now) sweep-KeepsKey i rows)))
    | inr (t0, e) ↦
        let e1 : sweep locked run_id now t0 ≡ t =
          ground (arith, e, get-map key (sweep locked run_id now) sweep-KeepsKey i rows) in
        let e2 : sweep locked run_id now t0 ≡ t0 = claimable-sweep t0 (rw e1 c) in
        rw (e, ← e2, e1) refl
  ]

  -- What a successful claim means: a row that could be claimed, now running for the worker with one
  -- more attempt and a lease from `now`, and every other row as the sweep leaves it.
  pub record Claimed (rows rows' : List TaskRow) (task : WorkerTask) : Type 0 where
    pub row : TaskRow
    pub was : get key task.id rows ≡ some row
    pub could : claimable locked run_id now row ≡ true
    pub handed : task ≡ worker_task (claim worker_id lease_seconds now row)
    pub after :
        (j : ℕ)
        → get key j rows' ≡ (
            if task.id == j
            then some (claim worker_id lease_seconds now row)
            else Option.map (sweep locked run_id now) (get key j rows))

  claim_at :
      (rows : List TaskRow) (t : TaskRow)
      → get key t.id (swept rows) ≡ some t
      → claimable locked run_id now t ≡ true
      → Claimed rows
          (modify key t.id (claim worker_id lease_seconds now) (swept rows))
          (worker_task (claim worker_id lease_seconds now t))
  claim_at rows t g c = record {
    row = t;
    was = swept-claimable rows t.id t g c;
    could = c;
    handed = refl;
    after = λ j. ground (
      arith,
      g,
      get-modify key t.id (claim worker_id lease_seconds now) claim-KeepsKey j (swept rows),
      get-map key (sweep locked run_id now) sweep-KeepsKey j rows,
    );
  }

  abbrev Result : List TaskRow → List TaskRow × Option WorkerTask → Type 0
  Result rows (rows', none) = Unit
  Result rows (rows', some task) = Claimed rows rows' task

  -- A task that `claim_task` hands out from a table with unique ids was a claimable row of it, is
  -- returned as it is claimed, and the table afterwards is the swept one with that row claimed.
  pub claim_task-Claimed :
      (rows rows' : List TaskRow) (task : WorkerTask)
      → Unique key rows
      → claim_task locked run_id worker_id lease_seconds now rows ≡ (rows', some task)
      → Claimed rows rows' task
  claim_task-Claimed rows rows' task u h =
      subst (Result rows) h
        (claim_task_cases (Result rows) rows u (λ _. tt) (λ t g c _. claim_at rows t g c))
