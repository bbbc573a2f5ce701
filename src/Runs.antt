-- ===== src/Runs.antt =====
-- How a claimed run is taken over by `SQLWorkerStore` (app/prospecting/store.py): `ensure_run`.
-- `now` is the value of `now_utc()`; the ids of inserted rows are given.
pub mod Sync
pub mod Taken
mod Tests
use agente_inteligente_comer.Prelude.{
  ℕ, zero, suc, ◌+◌, max, String, Bool, true, false, not, ◌&&◌, ◌||◌, List, [], ◌∷◌, ◌++◌, map,
  Option, none, some, ltb, ◌==◌, if◌then◌else◌, is_some, any, first, select, each, str_eq, text_or,
}
use agente_inteligente_comer.Contracts.{
  SourceName, google_places, brave_search, RunStatus, TaskStatus, same_source, is_pending,
  is_running, is_completed, Territory, ProspectingRunSnapshot, ClaimedTask, ClaimedRun,
}
use agente_inteligente_comer.Plan.{
  TaskSpec, expand_task_specs, Result, returned, raised, duplicate_key, ◌>>=◌,
  validate_claimed_task,
}
use agente_inteligente_comer.Table.{get, modify}
use agente_inteligente_comer.Tasks.{TaskRow, key}
use agente_inteligente_comer.Store.{
  RunRow, OutboxRow, Element, Payload, items, object, Store, run_key, is_queued, is_events,
}

abbrev pub elements : Payload → List Element
elements (items xs) = xs
elements (object x) = x ∷ []

abbrev pub completed_ids_of : Element → List ℕ
completed_ids_of e = elim e.task_status [
  | none ↦ []
  | some s ↦ elim e.task_id [ none ↦ [] | some i ↦ if str_eq s "completed" then i ∷ [] else [] ]
]

-- `_completed_task_ids_from_event_payloads`.
pub completed_task_ids : List Payload → List ℕ
completed_task_ids payloads = each (λ p. each completed_ids_of (elements p)) payloads

pub queued_completions : ℕ → List OutboxRow → List ℕ
unfolding completed_task_ids
queued_completions run_id outbox = completed_task_ids (
    map (λ m. m.payload)
      (select (λ m. m.run_id == run_id && is_events m.kind && is_queued m.status) outbox))

-- A row as the constructor and the columns' defaults leave it.
abbrev pub new_task : ℕ → ℕ → ℕ → TaskRow
new_task id run_id now = record {
  id = id;
  run_id = run_id;
  source = google_places;
  keyword = "";
  region_code = "";
  region_name = "";
  comuna_code = "";
  comuna_name = "";
  max_results = 20;
  status = TaskStatus.pending;
  attempt_count = 0;
  max_attempts = 3;
  available_at = now;
  lease_owner = none;
  lease_expires_at = none;
  heartbeat_at = none;
  results_count = 0;
  rejected_count = 0;
  error_log = none;
  created_at = now;
}

-- The work is done here and its report still waits in the outbox.
pub preserve_local_completion : List ℕ → ClaimedTask → TaskRow → Bool
preserve_local_completion completions c t =
    is_completed t.status
    && (is_pending c.status || is_running c.status)
    && any (λ i. c.task_id == i) completions

abbrev pub assign : ClaimedTask → Territory → ℕ → Bool → TaskRow → TaskRow
assign c territory now preserve t =
    let status = if preserve then t.status else c.status in
    record t {
      source = c.source;
      keyword = c.keyword;
      region_code = c.region_code;
      region_name = text_or c.region_name territory.region_name;
      comuna_code = c.comuna_code;
      comuna_name = text_or c.comuna_name territory.comuna_name;
      max_results = c.max_results;
      max_attempts = c.max_attempts;
      results_count = c.candidates_found;
      rejected_count = c.results_discarded;
      status = status;
      attempt_count = if preserve then t.attempt_count else c.attempts;
      lease_owner = none;
      heartbeat_at = none;
      lease_expires_at = if is_running status then some now else none;
    }

pub update_task : List ℕ → ℕ → ClaimedTask → Territory → TaskRow → TaskRow
unfolding preserve_local_completion
update_task completions now c territory t =
    assign c territory now (preserve_local_completion completions c t) t

-- `existing` are the run's rows before the call. A row of another run with the id is a clash of
-- primary keys.
pub sync_task :
    ProspectingRunSnapshot
    → List TaskRow
    → List ℕ
    → ℕ
    → ℕ
    → ClaimedTask
    → List TaskRow
    → Result (List TaskRow)
unfolding update_task
sync_task s existing completions run_id now c rows = do
  territory ← validate_claimed_task s c
  if is_some (get key c.task_id existing)
      then returned (modify key c.task_id (update_task completions now c territory) rows)
      else if is_some (get key c.task_id rows)
      then raised duplicate_key
      else returned (rows ++ assign c territory now false (new_task c.task_id run_id now) ∷ [])

pub sync_tasks :
    ProspectingRunSnapshot
    → List TaskRow
    → List ℕ
    → ℕ
    → ℕ
    → List ClaimedTask
    → List TaskRow
    → Result (List TaskRow)
sync_tasks s existing completions run_id now [] rows = returned rows
sync_tasks s existing completions run_id now (c ∷ cs) rows = do
  rows' ← sync_task s existing completions run_id now c rows
  sync_tasks s existing completions run_id now cs rows'

-- A row of the run that the CRM no longer plans.
pub drop_task : ℕ → List ClaimedTask → TaskRow → TaskRow
drop_task run_id cs t =
    if t.run_id == run_id && not (any (λ c. c.task_id == t.id) cs)
    then record t { status = TaskStatus.cancelled; lease_owner = none; lease_expires_at = none }
    else t

-- The rows of a local expansion; `fresh i` is the id of the i-th.
pub plan_rows : (ℕ → ℕ) → ℕ → ℕ → ℕ → ℕ → List TaskSpec → List TaskRow
plan_rows fresh i run_id now attempts [] = []
plan_rows fresh i run_id now attempts (x ∷ xs) =
    record (new_task (fresh i) run_id now) {
      source = x.source;
      keyword = x.keyword;
      region_code = x.region_code;
      region_name = x.region_name;
      comuna_code = x.comuna_code;
      comuna_name = x.comuna_name;
      max_results = x.max_results;
      max_attempts = attempts;
    }
    ∷ plan_rows fresh (i + 1) run_id now attempts xs

pub plan_tasks :
    (ℕ → ℕ) → ℕ → ℕ → ClaimedRun → Bool → ℕ → List OutboxRow → List TaskRow → Result (List TaskRow)
plan_tasks fresh task_max_attempts now claim is_new run_id outbox rows = elim claim.tasks [
  | some cs ↦ (do
    rows' ←
        sync_tasks claim.snapshot (select (λ t. t.run_id == run_id) rows)
          (queued_completions run_id outbox) run_id now cs rows
    returned (map (drop_task run_id cs) rows'))
  | none ↦ returned (
      if is_new
      then rows ++ plan_rows fresh 0 run_id now task_max_attempts (expand_task_specs claim.snapshot)
      else rows)
]

abbrev pub new_run : ℕ → ℕ → ClaimedRun → RunRow
new_run id now claim = record {
  id = id;
  crm_run_id = claim.snapshot.crm_run_id;
  snapshot = claim.snapshot;
  status = RunStatus.running;
  remote_candidates_baseline = 0;
  crm_worker_id = none;
  crm_lease_token = none;
  crm_lease_expires_at = none;
  started_at = some now;
  finished_at = none;
  stats = none;
  error_log = none;
}

pub take_over : ClaimedRun → Option String → RunRow → RunRow
take_over claim worker_id r = record r {
  remote_candidates_baseline = max r.remote_candidates_baseline claim.candidates_found;
  crm_worker_id = elim worker_id [ none ↦ r.crm_worker_id | some w ↦ some w ];
  crm_lease_token = some claim.lease_token;
  crm_lease_expires_at = some claim.lease_expires_at;
  status = RunStatus.running;
}

abbrev pub with_run : List RunRow → Option RunRow → RunRow → List RunRow
with_run runs none r = runs ++ r ∷ []
with_run runs (some _) r = runs

pub ensure_run : ℕ → (ℕ → ℕ) → ClaimedRun → ℕ → Option String → ℕ → Store → Result (Store × ℕ)
unfolding plan_tasks take_over
ensure_run fresh_run fresh claim task_max_attempts worker_id now s =
    let found = first (λ r. str_eq r.crm_run_id claim.snapshot.crm_run_id) s.runs in
    let run : RunRow = elim found [ none ↦ new_run fresh_run now claim | some r ↦ r ] in
    let runs = with_run s.runs found run in
    do
      tasks ←
          plan_tasks fresh task_max_attempts now claim (not (is_some found)) run.id s.outbox s.tasks
      returned (
        record s { tasks = tasks; runs = modify run_key run.id (take_over claim worker_id) runs },
        run.id,
      )
