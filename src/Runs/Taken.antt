-- ===== src/Runs/Taken.antt =====
-- What the plan of the CRM makes of a row that the store has, with the outbox that it looks into.
use mathlib.Core.Option
use agente_inteligente_comer.Prelude.{
  ℕ, String, ◌≡◌, refl, ap, ◌∙◌, Bool, true, false, ◌&&◌, ◌||◌, List, [], ◌∷◌, ◌++◌, Option, none,
  some, arith, ◌==◌, if◌then◌else◌, is_some, any, first, select, each, map, inl, inr, Bool-cases,
  some_eq, holds_text,
}
use agente_inteligente_comer.Contracts.{
  TaskStatus, is_pending, is_running, is_completed, ClaimedTask, ClaimedRun,
}
use agente_inteligente_comer.Table.{get, KeepsKey}
use agente_inteligente_comer.Table.Laws.{get-map, get_key}
use agente_inteligente_comer.Tasks.{TaskRow, key}
use agente_inteligente_comer.Store.{Element, OutboxRow, is_queued, is_events}
use agente_inteligente_comer.Plan.{returned}
use agente_inteligente_comer.Runs.{
  elements, completed_ids_of, completed_task_ids, queued_completions, preserve_local_completion,
  sync_tasks, drop_task, plan_tasks,
}
use agente_inteligente_comer.Runs.Sync.{ok_eq, >>=-ok, Distinct, sync_tasks-own}

abbrev pub is_task : ℕ → Option ℕ → Bool
is_task id none = false
is_task id (some i) = id == i

-- A queued message of the run's events says that the task is completed.
unfoldable pub report_waits : ℕ → ℕ → List OutboxRow → Bool
report_waits run_id id outbox =
    any
      (λ m.
        (m.run_id == run_id && is_events m.kind && is_queued m.status)
        && any (λ e. holds_text e.task_status "completed" && is_task id e.task_id)
            (elements m.payload))
      outbox

module _ {A : Type 0} (p : A → Bool) where
  any_append : (xs ys : List A) → any p (xs ++ ys) ≡ any p xs || any p ys
  unfolding any
  any_append [] ys = refl
  any_append (x ∷ xs) ys = ground (arith, any_append xs ys)

  any-each :
      {B : Type 0} (f : B → List A) (xs : List B) → any p (each f xs) ≡ any (λ x. any p (f x)) xs
  unfolding any each
  any-each f [] = refl
  any-each f (x ∷ xs) = ground (arith, any_append (f x) (each f xs), any-each f xs)

  any-select-map :
      {B : Type 0} (g : B → Bool) (f : B → A) (xs : List B)
      → any p (map f (select g xs)) ≡ any (λ x. g x && p (f x)) xs
  unfolding any select
  any-select-map g f [] = refl
  any-select-map g f (x ∷ xs) = ground (arith, any-select-map g f xs)

any-same :
    {A : Type 0} (p q : A → Bool) → ((x : A) → p x ≡ q x) → (xs : List A) → any p xs ≡ any q xs
unfolding any
any-same p q h [] = refl
any-same p q h (x ∷ xs) = rw (h x, any-same p q h xs)

completed_ids_lem :
    (id : ℕ) (status : Option String) (task : Option ℕ) (e : Element)
    → any (λ i. id == i) (completed_ids_of (record e { task_status = status; task_id = task }))
      ≡ holds_text status "completed" && is_task id task
unfolding any
completed_ids_lem id none task e = refl
completed_ids_lem id (some s) none e = ground arith
completed_ids_lem id (some s) (some i) e = ground arith

queued_completions_lem :
    (run_id id : ℕ) (outbox : List OutboxRow)
    → any (λ i. id == i) (queued_completions run_id outbox) ≡ report_waits run_id id outbox
unfolding queued_completions completed_task_ids report_waits
queued_completions_lem run_id id outbox =
    let done : Element → Bool = λ e. holds_text e.task_status "completed" && is_task id e.task_id in
    rw
      (
        any-each (λ i. id == i) (λ p. each completed_ids_of (elements p))
            (map (λ m. m.payload)
              (select (λ m. m.run_id == run_id && is_events m.kind && is_queued m.status) outbox)),
        any-select-map (λ p. any (λ i. id == i) (each completed_ids_of (elements p)))
            (λ m. m.run_id == run_id && is_events m.kind && is_queued m.status) (λ m. m.payload)
            outbox,
      )
      (any-same _ _
        (λ m.
          ap (λ b. (m.run_id == run_id && is_events m.kind && is_queued m.status) && b)
            (any-each (λ i. id == i) completed_ids_of (elements m.payload)
              ∙ any-same _ done (λ e. completed_ids_lem id e.task_status e.task_id e)
                  (elements m.payload)))
        outbox)

get-select :
    (p : TaskRow → Bool) (i : ℕ) (rows : List TaskRow) (t : TaskRow)
    → get key i rows ≡ some t
    → p t ≡ true
    → is_some (get key i (select p rows)) ≡ true
unfolding get select
get-select p i [] t h k = absurd (Option.none-ne-some _ h)
get-select p i (r ∷ rows) t h k = elim (Bool-cases (key r == i)) [
  | inl e ↦ rw (some_eq r t (rw e at h), k, ← some_eq r t (rw e at h), e) refl
  | inr e ↦ elim (Bool-cases (p r)) [
    | inl q ↦ rw (q, e) (get-select p i rows t (rw e at h) k)
    | inr q ↦ rw q (get-select p i rows t (rw e at h) k)
  ]
]

any-first :
    {A : Type 0} (p : A → Bool) (xs : List A) (x : A) → first p xs ≡ some x → any p xs ≡ true
unfolding any first
any-first p [] x h = absurd (Option.none-ne-some _ h)
any-first p (y ∷ xs) x h = elim (Bool-cases (p y)) [
  | inl e ↦ rw e refl
  | inr e ↦ rw e (any-first p xs x (rw e at h))
]

drop_KeepsKey : (run_id : ℕ) (cs : List ClaimedTask) → KeepsKey key (drop_task run_id cs)
unfolding drop_task
drop_KeepsKey run_id cs t = ground arith

-- A row that the plan names is not dropped.
drop_named :
    (run_id : ℕ) (cs : List ClaimedTask) (t : TaskRow)
    → any (λ c. c.task_id == t.id) cs ≡ true
    → drop_task run_id cs t ≡ t
unfolding drop_task
drop_named run_id cs t h = ground (arith, h)

get-drop :
    (run_id : ℕ) (cs : List ClaimedTask) (c : ClaimedTask) (rows : List TaskRow) (t : TaskRow)
    → first (λ d. d.task_id == c.task_id) cs ≡ some c
    → get key c.task_id rows ≡ some t
    → get key c.task_id (map (drop_task run_id cs) rows) ≡ some t
get-drop run_id cs c rows t found there =
    let same : t.id ≡ c.task_id = get_key key c.task_id rows t there in
    let named : any (λ d. d.task_id == t.id) cs ≡ true =
      rw same (any-first (λ d. d.task_id == c.task_id) cs c found) in
    rw (get-map key (drop_task run_id cs) (drop_KeepsKey run_id cs) c.task_id rows, there)
      (ap some (drop_named run_id cs t named))

-- A plan of the CRM without repeated ids, taken over without an error, gives a row of the run that it
-- names the CRM's status and attempts, except where the row is completed here, the CRM still has it
-- open, and a queued message of the run's events reports its completion: then the row stays completed,
-- with its attempts. In every case nobody owns it.
pub plan_tasks-own :
    (fresh : ℕ → ℕ) (max_attempts now : ℕ) (claim : ClaimedRun) (is_new : Bool) (run_id : ℕ)
    (outbox : List OutboxRow) (rows rows' : List TaskRow) (cs : List ClaimedTask) (c : ClaimedTask)
    (t : TaskRow)
    → claim.tasks ≡ some cs
    → Distinct cs
    → first (λ d. d.task_id == c.task_id) cs ≡ some c
    → get key c.task_id rows ≡ some t
    → (t.run_id == run_id) ≡ true
    → plan_tasks fresh max_attempts now claim is_new run_id outbox rows ≡ returned rows'
    → let kept =
        is_completed t.status
        && (is_pending c.status || is_running c.status)
        && report_waits run_id c.task_id outbox in
      (t' : TaskRow) × (get key c.task_id rows' ≡ some t')
      × (t'.status ≡ (if kept then TaskStatus.completed else c.status))
      × (t'.attempt_count ≡ (if kept then t.attempt_count else c.attempts))
      × (t'.lease_owner ≡ none)
unfolding plan_tasks preserve_local_completion
plan_tasks-own fresh max_attempts now claim is_new run_id outbox rows rows' cs c t planned distinct
      found there mine h =
    let existing = select (λ r. r.run_id == run_id) rows in
    let completions = queued_completions run_id outbox in
    let (mid, e, k) =
      >>=-ok (sync_tasks claim.snapshot existing completions run_id now cs rows) _
        (rw (plan_tasks, planned) at h) in
    let (t', g, status, attempts, owner) =
      sync_tasks-own claim.snapshot existing completions run_id now cs rows mid c t distinct found
        (get-select (λ r. r.run_id == run_id) c.task_id rows t there mine) there e in
    (
      t',
      rw (← ok_eq _ _ k) (get-drop run_id cs c mid t' found g),
      rw (← queued_completions_lem run_id c.task_id outbox) status,
      rw (← queued_completions_lem run_id c.task_id outbox) attempts,
      owner,
    )
