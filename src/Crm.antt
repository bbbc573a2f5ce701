-- ===== src/Crm.antt =====
-- The development CRM, `FakeCRMPort` of app/crm/fake.py: leases on runs and idempotent writes. Its
-- lock puts the calls one after another, so a call is a function of the state, and an exception is an
-- error result, before which no call writes. A digest, a UUID of a text and a fresh lease token are
-- given from outside; a `dict` is an association list in insertion order.

pub mod Writes
use agente_inteligente_comer.Prelude.{
  ℕ, ◌+◌, max, String, Bool, true, false, ◌&&◌, ◌||◌, List, [], ◌∷◌, ◌++◌, map, Option, none, some,
  ltb, leb, ◌==◌, if◌then◌else◌, is_some, or_else, str_eq, select, each, length, not, holds_text,
  text_or, seconds, ◌⊎◌, inl, inr,
}
use agente_inteligente_comer.Contracts.{
  SourceName, RunStatus, TaskStatus, ClaimedTask, ClaimedRun, ProspectingRunSnapshot, Territory,
  is_pending, is_running,
}
use agente_inteligente_comer.Plan.{is_discovery}
use agente_inteligente_comer.Dict.{lookup, insert}
use agente_inteligente_comer.Dedup.{ProspectCandidate}

-- `RunEvent` with the entries of its metrics that the CRM reads.
pub record RunEvent : Type 0 where
  pub task_id : Option ℕ
  pub task_status : Option TaskStatus
  pub attempt : Option ℕ
  pub results_accepted : Option (Option ℕ)
  pub candidates_found : Option ℕ
  pub results_discarded : Option ℕ
  pub message : String

pub record CompletionReport : Type 0 where
  pub status : RunStatus
  pub summary : String

pub record CandidateBatchAck : Type 0 where
  pub accepted : ℕ
  pub rejected_limit : ℕ
  pub candidates_found : ℕ
  pub accepted_candidate_ids : List String

pub record FakeRun : Type 0 where
  pub snapshot : ProspectingRunSnapshot
  pub tasks : List ClaimedTask
  pub status : RunStatus
  pub lease_token : Option String
  pub lease_expires_at : Option ℕ
  pub cancel_requested : Bool
  pub events : List RunEvent
  pub candidates : List (String × ProspectCandidate)
  pub report : Option CompletionReport
  pub error : Option String

pub record FakeCrm : Type 0 where
  pub runs : List (String × FakeRun)
  pub idempotency : List (String × String)
  pub idempotency_results : List (String × CandidateBatchAck)

-- What a call sends, before it is encoded for the digest.
pub data Payload : Type 0 where
  of_events : List RunEvent → Payload
  of_candidates : List ProspectCandidate → Payload
  of_candidate : ProspectCandidate → Payload
  of_report : CompletionReport → Payload
  of_error : String → Payload

pub record Digests : Type 0 where
  pub payload_hash : Payload → String
  pub task_uuid : String → SourceName → String → String → ℕ

-- A missing key of a `dict` is a `KeyError`.
pub data CrmError : Type 0 where
  key_error lease_rejected idempotency_conflict : CrmError

abbrev pub empty_crm : FakeCrm
empty_crm = record { runs = []; idempotency = []; idempotency_results = [] }

-- `runs[run_id]` after the mutation of the object it holds.
abbrev pub put_run : String → FakeRun → FakeCrm → FakeCrm
put_run run_id r crm = record crm { runs = insert run_id r crm.runs }

module _ (d : Digests) where
  open d use {payload_hash, task_uuid}

  pub claimed_tasks : ProspectingRunSnapshot → List ClaimedTask
  claimed_tasks snapshot =
      each
        (λ source.
          each
            (λ keyword.
              map
                (λ (t : Territory). record {
                  task_id = task_uuid snapshot.crm_run_id source keyword t.comuna_code;
                  source = source;
                  keyword = keyword;
                  region_code = t.region_code;
                  region_name = some t.region_name;
                  comuna_code = t.comuna_code;
                  comuna_name = some t.comuna_name;
                  status = TaskStatus.pending;
                  attempts = 0;
                  candidates_found = 0;
                  results_discarded = 0;
                  max_results = snapshot.campaign.max_results_per_task;
                  max_attempts = 3;
                })
                snapshot.campaign.territories)
            snapshot.campaign.keywords)
        (select is_discovery snapshot.campaign.sources)

  pub fresh_run : ProspectingRunSnapshot → FakeRun
  fresh_run snapshot = record {
    snapshot = snapshot;
    tasks = claimed_tasks snapshot;
    status = RunStatus.pending;
    lease_token = none;
    lease_expires_at = none;
    cancel_requested = false;
    events = [];
    candidates = [];
    report = none;
    error = none;
  }

  pub enqueue : ProspectingRunSnapshot → FakeCrm → FakeCrm
  enqueue snapshot crm =
      if is_some (lookup snapshot.crm_run_id crm.runs)
      then crm
      else put_run snapshot.crm_run_id (fresh_run snapshot) crm

  -- `_accept_idempotency`: whether the key is new; a known key demands the payload it came with.
  pub accept_idempotency : String → Payload → FakeCrm → CrmError ⊎ (FakeCrm × Bool)
  accept_idempotency key payload crm = elim (lookup key crm.idempotency) [
    | none ↦
        inr (record crm { idempotency = insert key (payload_hash payload) crm.idempotency }, true)
    | some previous ↦
        if str_eq previous (payload_hash payload)
        then inr (crm, false)
        else inl idempotency_conflict
  ]

abbrev pub cancel_task : ClaimedTask → ClaimedTask
cancel_task t =
    if is_pending t.status || is_running t.status
    then record t { status = TaskStatus.cancelled }
    else t

pub request_cancel : String → FakeCrm → CrmError ⊎ FakeCrm
request_cancel run_id crm = elim (lookup run_id crm.runs) [
  | none ↦ inl key_error
  | some r ↦ inr (
      put_run run_id
        (record r {
          cancel_requested = true;
          status = RunStatus.cancel_requested;
          tasks = map cancel_task r.tasks;
        })
        crm)
]

-- The lease ends at an instant that is not after `now`.
abbrev pub ended : ℕ → Option ℕ → Bool
ended now none = false
ended now (some t) = leb t now

pub claimable : ℕ → FakeRun → Bool
claimable now r = elim r.status [
  | RunStatus.pending ↦ true
  | RunStatus.running ↦ ended now r.lease_expires_at
  | _ ↦ false
]

pub lease : ℕ → String → ℕ → FakeRun → FakeRun
lease now token lease_seconds r = record r {
  status = RunStatus.running;
  lease_token = some token;
  lease_expires_at = some (now + seconds lease_seconds);
}

pub claimed_run : ℕ → String → ℕ → FakeRun → ClaimedRun
claimed_run now token lease_seconds r = record {
  snapshot = r.snapshot;
  lease_token = token;
  lease_expires_at = now + seconds lease_seconds;
  candidates_found = length r.candidates;
  tasks = some r.tasks;
}

-- The loop of `claim_run`: the first claimable run is leased.
pub claim_first :
    ℕ → String → ℕ → List (String × FakeRun) → List (String × FakeRun) × Option ClaimedRun
claim_first now token lease_seconds [] = ([], none)
claim_first now token lease_seconds ((k, r) ∷ rest) =
    let later = claim_first now token lease_seconds rest in
    if claimable now r
    then ((k, lease now token lease_seconds r) ∷ rest, some (claimed_run now token lease_seconds r))
    else ((k, r) ∷ later.0, later.1)

pub claim_run : ℕ → String → ℕ → FakeCrm → FakeCrm × Option ClaimedRun
claim_run now token lease_seconds crm =
    let c = claim_first now token lease_seconds crm.runs in (record crm { runs = c.0 }, c.1)
