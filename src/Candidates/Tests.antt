-- ===== src/Candidates/Tests.antt =====
-- A company that is saved twice in a run.
use agente_inteligente_comer.Prelude.{ℕ, ◌+◌, String, [], ◌∷◌, Option, none, some, or_else}
use agente_inteligente_comer.Contracts.{RunStatus, google_places, unique, exact_match}
use agente_inteligente_comer.Tasks.{WorkerTask}
use agente_inteligente_comer.Store.{RunRow, OutboxRow, OutboxKind, items, candidates_of}
use agente_inteligente_comer.Outbox.{new_message}
use agente_inteligente_comer.Dedup.{ProspectCandidate, ProspectLocation, Normalizers}
use agente_inteligente_comer.Candidates.{CandidateRow, Encodings}
use agente_inteligente_comer.Candidates.Queued.{Queued}

abbrev normalizers : Normalizers
normalizers = record {
  normalize_rut = λ t. t;
  normalize_website = λ t. t;
  normalize_phone = λ t. t;
  normalize_name = λ t. some t;
  normalize_geo = λ t. or_else t "";
  normalize_address = λ t. t;
  strip = λ t. t;
  token_sort_ratio = λ _ _. 0;
}

abbrev codes : Encodings
codes = record {
  sha256 = λ t. t;
  review_payload = λ c. c.name;
  dump = λ c. record { task_status = none; task_id = none; body = c.name };
}

abbrev office : ProspectLocation
office = record {
  region_code = some "13";
  region_name = none;
  comuna_code = some "13101";
  comuna_name = some "Santiago";
  address = none;
}

abbrev company : Option String → Option String → ProspectCandidate
company candidate_id phone = record {
  identity = 1;
  candidate_id = candidate_id;
  name = "Frio Sur";
  rut = some "76086428-5";
  provider_ids = [];
  phone = phone;
  website = none;
  location = office;
  locations = office ∷ [];
}

abbrev run : RunRow
run = record {
  id = 7;
  crm_run_id = "run";
  snapshot = record {
    crm_run_id = "run";
    campaign = record {
      territories =
          record {
            region_code = "13";
            region_name = "Metropolitana";
            comuna_code = "13101";
            comuna_name = "Santiago";
          }
          ∷ [];
      keywords = [];
      sources = [];
      target_types = [];
      max_results_per_task = 20;
      max_candidates = 50;
    };
  };
  status = RunStatus.running;
  remote_candidates_baseline = 0;
  crm_worker_id = none;
  crm_lease_token = none;
  crm_lease_expires_at = none;
  started_at = none;
  finished_at = none;
  stats = none;
  error_log = none;
}

abbrev task : WorkerTask
task = record {
  id = 1;
  run_id = 7;
  source = google_places;
  keyword = "climatizacion";
  region_code = "13";
  region_name = "Metropolitana";
  comuna_code = "13101";
  comuna_name = "Santiago";
  max_results = 20;
  attempt_count = 1;
  max_attempts = 3;
}

abbrev fresh : ℕ → ℕ
fresh i = 100 + i

abbrev name : Option String
name = some "prospect_rut:76086428-5"

abbrev known : CandidateRow
known = record {
  id = 5;
  run_id = 7;
  candidate_key = "rut:76086428-5";
  payload = company name none;
  dedup_disposition = unique;
  possible_duplicate_of = none;
}

abbrev foreign : CandidateRow
foreign = record {
  id = 6;
  run_id = 8;
  candidate_key = "phone:222";
  payload = record (company (some "other") (some "222")) { rut = none; name = "Calor Norte" };
  dedup_disposition = unique;
  possible_duplicate_of = none;
}

-- The phone is taken over.
abbrev merged : CandidateRow
merged = record known { payload = company name (some "111"); dedup_disposition = exact_match }

abbrev batch : OutboxRow
batch =
    new_message 9 1000 7 OutboxKind.candidates (candidates_of 7 1 1)
      (items (record { task_status = none; task_id = none; body = "Frio Sur" } ∷ []))
