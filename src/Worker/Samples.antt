-- ===== src/Worker/Samples.antt =====
-- Data of the tests: a CRM that takes one candidate at a time and ends no run. Outside, only a clock runs.
use agente_inteligente_comer.Prelude.{
  ℕ, suc, ◌+◌, ◌*◌, String, true, false, List, [], ◌∷◌, Option, none, some, ltb, if◌then◌else◌, ◌⊎◌,
  inl, inr, length, or_else,
}
use agente_inteligente_comer.Contracts.{RunStatus, TaskStatus, google_places, ClaimedRun}
use agente_inteligente_comer.Tasks.{TaskRow}
use agente_inteligente_comer.Dedup.{ProspectLocation, ProspectCandidate}
use agente_inteligente_comer.Worker.Execute.{Research}
use agente_inteligente_comer.Worker.Reports.{Control, WorkerConfig}
use agente_inteligente_comer.Store.{
  RunRow, OutboxKind, queued, Element, Payload, items, object, IdempotencyKey, candidates_of,
  terminal_of, OutboxRow, Store,
}
use agente_inteligente_comer.Worker.{CrmPort, Services, Raised, permanent, retryable}

abbrev pub element : String → Element
element body = record { task_status = none; task_id = none; body = body }

abbrev pub message : ℕ → OutboxKind → IdempotencyKey → Payload → OutboxRow
message id kind key payload = record {
  id = id;
  run_id = 7;
  kind = kind;
  idempotency_key = key;
  payload = payload;
  status = queued;
  attempt_count = 0;
  max_attempts = 10;
  available_at = 0;
  last_error = none;
  delivered_at = none;
  created_at = id;
}

abbrev pub sample_run : RunRow
sample_run = record {
  id = 7;
  crm_run_id = "run";
  snapshot = record {
    crm_run_id = "run";
    campaign = record {
      territories =
          record {
            region_code = "13";
            region_name = "Metropolitana";
            comuna_code = "13101";
            comuna_name = "Santiago";
          }
          ∷ [];
      keywords = [];
      sources = [];
      target_types = [];
      max_results_per_task = 20;
      max_candidates = 50;
    };
  };
  status = RunStatus.running;
  remote_candidates_baseline = 0;
  crm_worker_id = some "w1";
  crm_lease_token = some "lease";
  crm_lease_expires_at = none;
  started_at = none;
  finished_at = none;
  stats = none;
  error_log = none;
}

abbrev pub batch : OutboxRow
batch =
    message 1 OutboxKind.candidates (candidates_of 7 1 1) (items (element "a" ∷ element "b" ∷ []))

abbrev pub end : OutboxRow
end = message 2 OutboxKind.complete (terminal_of "run" "completed") (object (element "done"))

abbrev pub store : Store
store = record { runs = sample_run ∷ []; tasks = []; outbox = batch ∷ [] }

abbrev pub ending : Store
ending = record { runs = sample_run ∷ []; tasks = []; outbox = batch ∷ end ∷ [] }

abbrev pub too_many : Raised
too_many = record {
  error_class = permanent;
  type_name = "CRMPermanentError";
  message = "batch too large";
}

abbrev pub offline : Raised
offline = record { error_class = retryable; type_name = "CRMRetryableError"; message = "503" }

abbrev pub crm : CrmPort ℕ
crm = record {
  append_events = λ _ _ _ _ w. (w, none);
  upsert_candidates = λ _ _ cs _ w.
      if ltb 1 (length cs)
      then (w, inl too_many)
      else (w, inr (record { accepted = 1; rejected_limit = 0; candidates_found = none }));
  complete_run = λ _ _ _ _ _ w. (w, some offline);
  fail_run = λ _ _ _ _ _ w. (w, some offline);
}

abbrev pub elements : Payload → Raised ⊎ List Element
elements (items xs) = inr xs
elements (object x) =
    inl (record { error_class = permanent; type_name = "ValidationError"; message = "" })

abbrev pub services : Services ℕ
services = record {
  now_utc = λ w. (suc w, w);
  uuid4 = λ w. (suc w, λ i. 100 * suc w + i);
  redact = λ t. t;
  parse_events = elements;
  parse_candidates = elements;
  parse_report = λ _. inr (record { status = RunStatus.completed; stats = [] });
  parse_error = λ _. inr "error";
}

abbrev pub control : Control ℕ
control = record {
  heartbeat = λ _ _ _ w. (suc w, inr (record { lease_valid = true; cancel_requested = false }));
  is_cancel_requested = λ _ _ w. (w, inr false);
  lease_lost = λ _. false;
  cancel_requested = λ _. false;
  locked = λ _ _. false;
  sleep = suc;
  dump_report = λ _. object (element "report");
  uuid_text = λ _. "event";
}

abbrev pub config : WorkerConfig
config = record { worker_id = "w1"; lease_seconds = 120 }

abbrev pub claim : ClaimedRun
claim = record {
  snapshot = sample_run.snapshot;
  lease_token = "lease";
  lease_expires_at = 0;
  candidates_found = 0;
  tasks = none;
}

abbrev pub row : ℕ → TaskStatus → Option String → Option ℕ → TaskRow
row id status owner expires = record {
  id = id;
  run_id = 7;
  source = google_places;
  keyword = "climatizacion";
  region_code = "13";
  region_name = "Metropolitana";
  comuna_code = "13101";
  comuna_name = "Santiago";
  max_results = 20;
  status = status;
  attempt_count = 1;
  max_attempts = 3;
  available_at = 0;
  lease_owner = owner;
  lease_expires_at = expires;
  heartbeat_at = none;
  results_count = 0;
  rejected_count = 0;
  error_log = none;
  created_at = id;
}

abbrev pub office : ProspectLocation
office = record {
  region_code = some "13";
  region_name = none;
  comuna_code = some "13101";
  comuna_name = some "Santiago";
  address = none;
}

abbrev pub prospect : ProspectCandidate
prospect = record {
  identity = 1;
  candidate_id = none;
  name = "Frio Sur";
  rut = none;
  provider_ids = [];
  phone = none;
  website = none;
  location = office;
  locations = office ∷ [];
}

-- A source that finds one company, a gate that accepts it, and a save that counts.
abbrev pub research : Research ℕ
research = record {
  search = λ _ w. (suc w, inr (record { candidates = prospect ∷ []; budget_limited = false }));
  task_lease_lost = λ _. false;
  enrich_discovered = none;
  judge = λ c. (c, true);
  normalizers = record {
    normalize_rut = λ t. t;
    normalize_website = λ t. t;
    normalize_phone = λ t. t;
    normalize_name = λ t. some t;
    normalize_geo = λ t. or_else t "";
    normalize_address = λ t. t;
    strip = λ t. t;
    token_sort_ratio = λ _ _. 0;
  };
  codes = record { sha256 = λ t. t; review_payload = λ c. c.name; dump = λ c. element c.name };
  threshold = 9000;
  save_error = too_many;
}
