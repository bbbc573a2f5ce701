-- ===== src/Events/Tests.antt =====
-- The summary and the events of a concrete run.
use agente_inteligente_comer.Prelude.{ℕ, ◌+◌, ◌≡◌, false, [], ◌∷◌, none, some, any}
use agente_inteligente_comer.Contracts.{google_places, TaskStatus}
use agente_inteligente_comer.Tasks.{TaskRow}
use agente_inteligente_comer.Store.{Store}
use agente_inteligente_comer.Events.{RunEvent, save_event, work_remaining, summary}
use agente_inteligente_comer.Events.Summary.{tasks_of, unfinished, summary_lem, save_event_once}

abbrev row : ℕ → TaskStatus → TaskRow
row id status = record {
  id = id;
  run_id = 7;
  source = google_places;
  keyword = "clima";
  region_code = "13";
  region_name = "Metropolitana";
  comuna_code = "13101";
  comuna_name = "Santiago";
  max_results = 20;
  status = status;
  attempt_count = 0;
  max_attempts = 3;
  available_at = 0;
  lease_owner = none;
  lease_expires_at = none;
  heartbeat_at = none;
  results_count = 0;
  rejected_count = 0;
  error_log = none;
  created_at = id;
}

abbrev store : Store
store = record {
  runs = [];
  tasks = row 1 TaskStatus.pending ∷ row 2 TaskStatus.completed ∷ [];
  outbox = [];
}

summary_lem_example :
    let r = summary 7 store [] in
    (r.pending + r.running + r.completed + r.failed + r.cancelled ≡ tasks_of 7 store.tasks)
    × (work_remaining r ≡ any (unfinished 7) store.tasks)
summary_lem_example = summary_lem 7 store []

abbrev event : RunEvent
event = record {
  event_id = "e1";
  budget_limited = false;
  body = record { task_status = some "completed"; task_id = some 2; body = "" };
}

save_event_once_example :
    save_event 2 2000 7 none event (save_event 1 1000 7 (some 2) event ([], []))
    ≡ save_event 1 1000 7 (some 2) event ([], [])
save_event_once_example = save_event_once 1 1000 2 2000 7 (some 2) none event [] []
