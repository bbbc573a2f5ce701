-- ===== src/Tasks/Writes.antt =====
-- The methods that write one row behind a test have one shape, and so have their proofs.
use agente_inteligente_comer.Prelude.{
  ℕ, ◌≤◌, String, ◌≡◌, ◌⊎◌, Bool, true, false, List, none, some, arith, ◌==◌, if◌then◌else◌, inl,
  inr, Option-cases, Bool-cases, total, All,
}
use agente_inteligente_comer.Table.{get, modify, Unique, KeepsKey}
use agente_inteligente_comer.Table.Laws.{
  get-modify, Unique-modify, total-modify, All-modify, get_holds,
}
use agente_inteligente_comer.Tasks.{
  TaskRow, key, heartbeat_task, finish_task, fail_task, renew, finish, fail, holds_lease, owns_task,
}
use agente_inteligente_comer.Tasks.Calls.{committed}

-- Write the row of an id where it is there and passes a test.
pub guarded : ℕ → (TaskRow → Bool) → (TaskRow → TaskRow) → List TaskRow → List TaskRow
guarded i test f rows = elim (get key i rows) [
  | none ↦ rows
  | some u ↦ if test u then modify key i f rows else rows
]

module _ (rows : List TaskRow) (task_id : ℕ) (worker_id : String) where
  pub heartbeat-guarded :
      (lease_seconds now : ℕ)
      → (heartbeat_task task_id worker_id lease_seconds now rows).0
        ≡ guarded task_id (holds_lease worker_id now) (renew lease_seconds now) rows
  unfolding heartbeat_task guarded
  heartbeat-guarded lease_seconds now = ground arith

  pub finish-guarded :
      (results rejected : ℕ)
      → committed rows (finish_task task_id worker_id results rejected rows)
        ≡ guarded task_id (owns_task worker_id) (finish results rejected) rows
  unfolding finish_task guarded
  finish-guarded results rejected = ground arith

  pub fail-guarded :
      (error : String) (now : ℕ)
      → fail_task task_id worker_id error now rows
        ≡ guarded task_id (owns_task worker_id) (fail error now) rows
  unfolding fail_task guarded
  fail-guarded error now = ground arith

module _ (i : ℕ) (test : TaskRow → Bool) (f : TaskRow → TaskRow) (keeps : KeepsKey key f) where
  pub guarded_cases {ℓ} :
      (P : List TaskRow → Type ℓ) (rows : List TaskRow)
      → P rows
      → ((t : TaskRow) → get key i rows ≡ some t → test t ≡ true → P (modify key i f rows))
      → P (guarded i test f rows)
  unfolding guarded
  guarded_cases P rows same written = elim (Option-cases (get key i rows)) [
    | inl e ↦ rw (e, guarded) same
    | inr (t, e) ↦ elim (Bool-cases (test t)) [
      | inl p ↦ rw (e, guarded, p) (written t e p)
      | inr p ↦ rw (e, guarded, p) same
    ]
  ]

  pub guarded-Unique : (rows : List TaskRow) → Unique key rows → Unique key (guarded i test f rows)
  guarded-Unique rows u =
      guarded_cases (Unique key) rows u (λ t _ _. Unique-modify key i f keeps rows u)

  -- A row that fails the test, or has another id, stays.
  pub get-guarded :
      (rows : List TaskRow) (t : TaskRow)
      → get key t.id rows ≡ some t
      → (test t ≡ false) ⊎ ((i == t.id) ≡ false)
      → get key t.id (guarded i test f rows) ≡ some t
  get-guarded rows t there ne =
      guarded_cases (λ r. get key t.id r ≡ some t) rows there
        λ u found passed. elim (Bool-cases (i == t.id)) [
          | inl e ↦
              let same : i ≡ t.id = ground arith in
              let u' : u ≡ t = ground (arith, rw same at found) in
              let passed' : test t ≡ true = rw u' at passed in absurd (ground arith)
          | inr e ↦ rw (get-modify key i f keeps t.id rows, e) there
        ]

  pub guarded-All {κ} :
      (P : TaskRow → Type κ)
      → ((t : TaskRow) → test t ≡ true → P t → P (f t))
      → (rows : List TaskRow) → Unique key rows
      → All P rows
      → All P (guarded i test f rows)
  guarded-All P kept rows u a = guarded_cases (All P) rows a λ t found passed.
      All-modify key P i f rows t u a found (kept t passed (get_holds key P i rows t a found))

  pub total-guarded :
      (g : TaskRow → ℕ)
      → ((t : TaskRow) → g (f t) ≤ g t)
      → (rows : List TaskRow) → Unique key rows
      → total g (guarded i test f rows) ≤ total g rows
  total-guarded g less rows u =
      guarded_cases (λ r. total g r ≤ total g rows) rows (omega arith)
        λ t found _. omega (arith, total-modify key g i f rows t u found, less t)
