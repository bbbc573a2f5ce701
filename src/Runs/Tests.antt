-- ===== src/Runs/Tests.antt =====
-- Plans of the CRM taken over into concrete tables.
use agente_inteligente_comer.Prelude.{
  ℕ, ◌≡◌, refl, true, List, [], ◌∷◌, none, some, arith, All, if◌then◌else◌, any, first, select,
  each, ◌&&◌, ◌||◌, false,
}
use agente_inteligente_comer.Contracts.{
  google_places, TaskStatus, Territory, ProspectingRunSnapshot, ClaimedTask, ClaimedRun,
}
use agente_inteligente_comer.Table.{get, modify, Unique}
use agente_inteligente_comer.Tasks.{TaskRow, key}
use agente_inteligente_comer.Tasks.Attempts.{IsValid}
use agente_inteligente_comer.Plan.{returned, validate_claimed_task}
use agente_inteligente_comer.Runs.{
  assign, preserve_local_completion, update_task, sync_task, sync_tasks, plan_tasks, drop_task,
  queued_completions, completed_task_ids,
}
use agente_inteligente_comer.Runs.Sync.{sync_tasks-Good}
use agente_inteligente_comer.Runs.Taken.{report_waits, plan_tasks-own}
use agente_inteligente_comer.Store.{OutboxRow, OutboxKind, items, event_of}
use agente_inteligente_comer.Outbox.{new_message}

abbrev santiago : Territory
santiago = record {
  region_code = "13";
  region_name = "Metropolitana";
  comuna_code = "13101";
  comuna_name = "Santiago";
}

abbrev sample : ProspectingRunSnapshot
sample = record {
  crm_run_id = "run";
  campaign = record {
    territories = santiago ∷ [];
    keywords = "clima" ∷ [];
    sources = google_places ∷ [];
    target_types = [];
    max_results_per_task = 20;
    max_candidates = 50;
  };
}

abbrev planned : ClaimedTask
planned = record {
  task_id = 2;
  source = google_places;
  keyword = "clima";
  region_code = "13";
  region_name = some "Metropolitana";
  comuna_code = "13101";
  comuna_name = some "Santiago";
  status = TaskStatus.running;
  attempts = 1;
  candidates_found = 0;
  results_discarded = 0;
  max_results = 20;
  max_attempts = 3;
}

abbrev row : ℕ → TaskStatus → ℕ → TaskRow
row id status attempts = record {
  id = id;
  run_id = 7;
  source = google_places;
  keyword = "clima";
  region_code = "13";
  region_name = "Metropolitana";
  comuna_code = "13101";
  comuna_name = "Santiago";
  max_results = 20;
  status = status;
  attempt_count = attempts;
  max_attempts = 3;
  available_at = 0;
  lease_owner = none;
  lease_expires_at = none;
  heartbeat_at = none;
  results_count = 0;
  rejected_count = 0;
  error_log = none;
  created_at = id;
}

-- Task 2 is completed here with two attempts, and its report waits in the outbox.
abbrev rows : List TaskRow
rows = row 1 TaskStatus.pending 0 ∷ row 2 TaskStatus.completed 2 ∷ []

abbrev waiting : List ℕ
waiting = 2 ∷ []

abbrev taken_over : List TaskRow
taken_over =
    row 1 TaskStatus.pending 0
    ∷ assign planned santiago 1000 true (row 2 TaskStatus.completed 2)
    ∷ []

synced : sync_tasks sample rows waiting 7 1000 (planned ∷ []) rows ≡ returned taken_over
unfolding sync_tasks sync_task update_task preserve_local_completion get modify
    validate_claimed_task any first
synced = refl

rows-Unique : Unique key rows
rows-Unique = ((refl, tt), (tt, tt))

rows-IsValid : All IsValid rows
rows-IsValid = (
  record {
    within = λ _. omega arith;
    leased = λ e. absurd (ground (arith, e));
    unowned = λ _. refl;
  },
  (
    record {
      within = λ e. absurd (ground (arith, e));
      leased = λ e. absurd (ground (arith, e));
      unowned = λ _. refl;
    },
    tt,
  ),
)

sync_tasks-Good_example : Unique key taken_over × All IsValid taken_over
sync_tasks-Good_example =
    sync_tasks-Good sample rows waiting 7 1000 (planned ∷ []) rows taken_over (omega arith, tt)
      rows-Unique rows-IsValid synced

-- The report of task 2, which waits.
abbrev report : OutboxRow
report =
    new_message 3 900 7 OutboxKind.events (event_of 7 "done")
      (items (record { task_status = some "completed"; task_id = some 2; body = "" } ∷ []))

abbrev claimed : ClaimedRun
claimed = record {
  snapshot = sample;
  lease_token = "token";
  lease_expires_at = 2000;
  candidates_found = 0;
  tasks = some (planned ∷ []);
}

-- Task 1 is not planned any more.
abbrev planned_rows : List TaskRow
planned_rows =
    record (row 1 TaskStatus.pending 0) { status = TaskStatus.cancelled }
    ∷ assign planned santiago 1000 true (row 2 TaskStatus.completed 2)
    ∷ []

taken : plan_tasks (λ i. i) 3 1000 claimed false 7 (report ∷ []) rows ≡ returned planned_rows
unfolding plan_tasks queued_completions completed_task_ids each sync_tasks sync_task update_task
    preserve_local_completion get modify validate_claimed_task any first select drop_task
taken = refl

plan_tasks-own_example :
    let kept = true && (false || true) && report_waits 7 2 (report ∷ []) in
    (t' : TaskRow) × (get key 2 planned_rows ≡ some t')
    × (t'.status ≡ (if kept then TaskStatus.completed else TaskStatus.running))
    × (t'.attempt_count ≡ (if kept then 2 else 1))
    × (t'.lease_owner ≡ none)
unfolding get first
plan_tasks-own_example =
    plan_tasks-own (λ i. i) 3 1000 claimed false 7 (report ∷ []) rows planned_rows (planned ∷ [])
      planned (row 2 TaskStatus.completed 2) refl (tt, tt) refl refl refl taken
