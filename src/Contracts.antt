-- ===== src/Contracts.antt =====
-- app/prospecting/contracts.py: the values that the CRM and the agent exchange, with the fields
-- that the store and the worker compute with. Texts are compared whole and kept as `String`.
use agente_inteligente_comer.Prelude.{ℕ, String, Bool, true, false, List, Option}

pub data SourceName : Type 0 where
  google_places brave_search official_website : SourceName

pub data RunStatus : Type 0 where
  pending running paused partial completed failed cancel_requested cancelled : RunStatus

-- The `Literal` of `ClaimedTask.status`.
pub data TaskStatus : Type 0 where
  pending running completed failed cancelled : TaskStatus

pub data DedupDisposition : Type 0 where
  unique exact_match possible_duplicate : DedupDisposition

abbrev pub same_source : SourceName → SourceName → Bool
same_source google_places google_places = true
same_source brave_search brave_search = true
same_source official_website official_website = true
same_source _ _ = false

abbrev pub is_pending : TaskStatus → Bool
is_pending TaskStatus.pending = true
is_pending _ = false

abbrev pub is_running : TaskStatus → Bool
is_running TaskStatus.running = true
is_running _ = false

abbrev pub is_completed : TaskStatus → Bool
is_completed TaskStatus.completed = true
is_completed _ = false

pub record Territory : Type 0 where
  pub region_code : String
  pub region_name : String
  pub comuna_code : String
  pub comuna_name : String

pub record ProspectingCampaign : Type 0 where
  pub territories : List Territory
  pub keywords : List String
  pub sources : List SourceName
  pub target_types : List String
  pub max_results_per_task : ℕ
  pub max_candidates : ℕ

pub record ProspectingRunSnapshot : Type 0 where
  pub crm_run_id : String
  pub campaign : ProspectingCampaign

pub record ClaimedTask : Type 0 where
  pub task_id : ℕ
  pub source : SourceName
  pub keyword : String
  pub region_code : String
  pub region_name : Option String
  pub comuna_code : String
  pub comuna_name : Option String
  pub status : TaskStatus
  pub attempts : ℕ
  pub candidates_found : ℕ
  pub results_discarded : ℕ
  pub max_results : ℕ
  pub max_attempts : ℕ

-- `tasks` is `none` where the producer omitted task planning.
pub record ClaimedRun : Type 0 where
  pub snapshot : ProspectingRunSnapshot
  pub lease_token : String
  pub lease_expires_at : ℕ
  pub candidates_found : ℕ
  pub tasks : Option (List ClaimedTask)
