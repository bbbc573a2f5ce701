-- ===== src/Crm/Writes.antt =====
-- The calls of `FakeCRMPort` (app/crm/fake.py) that a lease and an idempotency key guard.
pub mod Replay
pub mod Calls
pub mod Bounds
mod Tests
use agente_inteligente_comer.Prelude.{
  ℕ, ◌+◌, max, String, Bool, true, false, ◌&&◌, ◌||◌, List, [], ◌∷◌, ◌++◌, map, Option, none, some,
  ltb, leb, ◌==◌, if◌then◌else◌, is_some, or_else, str_eq, length, not, holds_text, text_or,
  seconds, ◌⊎◌, inl, inr,
}
use agente_inteligente_comer.Contracts.{RunStatus, ClaimedTask}
use agente_inteligente_comer.Dict.{lookup, insert}
use agente_inteligente_comer.Dedup.{ProspectCandidate}
use agente_inteligente_comer.Crm.{
  RunEvent, CompletionReport, CandidateBatchAck, FakeRun, FakeCrm, Payload, of_events,
  of_candidates, of_candidate, of_report, of_error, Digests, CrmError, key_error, lease_rejected,
  idempotency_conflict, put_run, accept_idempotency, ended,
}

-- A valid lease: the token, and an instant in the future.
pub holds : ℕ → String → FakeRun → Bool
holds now lease_token r =
    holds_text r.lease_token lease_token
    && is_some r.lease_expires_at
    && not (ended now r.lease_expires_at)

pub record HeartbeatResult : Type 0 where
  pub lease_valid : Bool
  pub cancel_requested : Bool

abbrev pub no_lease : HeartbeatResult
no_lease = record { lease_valid = false; cancel_requested = false }

pub heartbeat : ℕ → String → String → ℕ → FakeCrm → FakeCrm × HeartbeatResult
heartbeat now run_id lease_token lease_seconds crm = elim (lookup run_id crm.runs) [
  | none ↦ (crm, no_lease)
  | some r ↦
      if holds now lease_token r
      then (
        put_run run_id (record r { lease_expires_at = some (now + seconds lease_seconds) }) crm,
        record { lease_valid = true; cancel_requested = r.cancel_requested },
      )
      else (crm, no_lease)
]

pub is_cancel_requested : String → String → FakeCrm → CrmError ⊎ Bool
is_cancel_requested run_id lease_token crm = elim (lookup run_id crm.runs) [
  | none ↦ inl key_error
  | some r ↦ inr (not (holds_text r.lease_token lease_token) || r.cancel_requested)
]

pub require_lease : ℕ → String → String → FakeCrm → CrmError ⊎ FakeRun
require_lease now run_id lease_token crm = elim (lookup run_id crm.runs) [
  | none ↦ inl key_error
  | some r ↦ if holds now lease_token r then inr r else inl lease_rejected
]

-- The task as an event reports it: the counters only grow.
pub report_task : RunEvent → ClaimedTask → ClaimedTask
report_task e t = record t {
  status = or_else e.task_status t.status;
  attempts = max t.attempts (or_else e.attempt t.attempts);
  candidates_found =
      max t.candidates_found (or_else (or_else e.results_accepted e.candidates_found) 0);
  results_discarded = max t.results_discarded (or_else e.results_discarded t.results_discarded);
}

-- The first task with the event's id.
pub update_task : ℕ → RunEvent → List ClaimedTask → List ClaimedTask
update_task task_id e [] = []
update_task task_id e (t ∷ ts) =
    let rest = update_task task_id e ts in
    if t.task_id == task_id then report_task e t ∷ ts else t ∷ rest

pub report_tasks : List RunEvent → List ClaimedTask → List ClaimedTask
report_tasks [] ts = ts
report_tasks (e ∷ es) ts = elim e.task_id [
  | none ↦ report_tasks es ts
  | some task_id ↦ report_tasks es (update_task task_id e ts)
]

-- What the loop of `upsert_candidates` keeps: the run's candidates, the accepted ids and the rejects.
pub record Intake : Type 0 where
  pub candidates : List (String × ProspectCandidate)
  pub accepted_ids : List String
  pub rejected_limit : ℕ

pub ack_of : Intake → CandidateBatchAck
ack_of i = record {
  accepted = length i.accepted_ids;
  rejected_limit = i.rejected_limit;
  candidates_found = length i.candidates;
  accepted_candidate_ids = i.accepted_ids;
}

-- The stored answer of a key; a key that another call took has none.
pub stored_ack : String → FakeCrm → CrmError ⊎ (FakeCrm × CandidateBatchAck)
stored_ack key crm = elim (lookup key crm.idempotency_results) [
  | none ↦ inl key_error
  | some ack ↦ inr (crm, ack)
]

module _ (d : Digests) where
  open d use {payload_hash}

  pub append_events : ℕ → String → String → List RunEvent → String → FakeCrm → CrmError ⊎ FakeCrm
  append_events now run_id lease_token events key crm =
      elim (require_lease now run_id lease_token crm) [
        | inl e ↦ inl e
        | inr r ↦ elim (accept_idempotency d key (of_events events) crm) [
          | inl e ↦ inl e
          | inr (crm', fresh) ↦ inr (
              if fresh
              then put_run run_id
                  (record r { events = r.events ++ events; tasks = report_tasks events r.tasks })
                  crm'
              else crm')
        ]
      ]

  -- `candidate.candidate_id or self._payload_hash(...)`.
  pub candidate_key : ProspectCandidate → String
  candidate_key c = text_or c.candidate_id (payload_hash (of_candidate c))

  pub take_in : ℕ → ProspectCandidate → Intake → Intake
  take_in max_candidates c i =
      let key = candidate_key c in
      if is_some (lookup key i.candidates)
      then record i { candidates = insert key c i.candidates }
      else if leb max_candidates (length i.candidates)
      then record i { rejected_limit = i.rejected_limit + 1 }
      else record i {
        candidates = insert key c i.candidates;
        accepted_ids = i.accepted_ids ++ key ∷ [];
      }

  pub take_all : ℕ → List ProspectCandidate → Intake → Intake
  take_all max_candidates [] i = i
  take_all max_candidates (c ∷ cs) i = take_all max_candidates cs (take_in max_candidates c i)

  pub intake : FakeRun → List ProspectCandidate → Intake
  intake r cs =
      take_all r.snapshot.campaign.max_candidates cs
        (record { candidates = r.candidates; accepted_ids = []; rejected_limit = 0 })

  pub upsert_candidates :
      ℕ
      → String
      → String
      → List ProspectCandidate
      → String
      → FakeCrm
      → CrmError ⊎ (FakeCrm × CandidateBatchAck)
  upsert_candidates now run_id lease_token candidates key crm =
      elim (require_lease now run_id lease_token crm) [
        | inl e ↦ inl e
        | inr r ↦ elim (accept_idempotency d key (of_candidates candidates) crm) [
          | inl e ↦ inl e
          | inr (crm', fresh) ↦
              if fresh
              then (let i = intake r candidates in
                  inr (
                    record (put_run run_id (record r { candidates = i.candidates }) crm') {
                      idempotency_results = insert key (ack_of i) crm'.idempotency_results;
                    },
                    ack_of i,
                  ))
              else stored_ack key crm'
        ]
      ]

  -- `complete_run` and `fail_run` differ in the payload and in what they set on the run; a known key
  -- is answered before the lease is looked at.
  pub close_run :
      ℕ → String → String → Payload → (FakeRun → FakeRun) → String → FakeCrm → CrmError ⊎ FakeCrm
  close_run now run_id lease_token payload set key crm =
      if is_some (lookup key crm.idempotency)
      then elim (accept_idempotency d key payload crm) [ inl e ↦ inl e | inr (crm', _) ↦ inr crm' ]
      else elim (require_lease now run_id lease_token crm) [
        | inl e ↦ inl e
        | inr r ↦ elim (accept_idempotency d key payload crm) [
          | inl e ↦ inl e
          | inr (crm', fresh) ↦ inr (
              if fresh
              then put_run run_id (record (set r) { lease_token = none; lease_expires_at = none })
                  crm'
              else crm')
        ]
      ]

  pub complete_run : ℕ → String → String → CompletionReport → String → FakeCrm → CrmError ⊎ FakeCrm
  complete_run now run_id lease_token report key crm =
      close_run now run_id lease_token (of_report report)
        (λ r. record r { status = report.status; report = some report }) key crm

  pub fail_run : ℕ → String → String → String → String → FakeCrm → CrmError ⊎ FakeCrm
  fail_run now run_id lease_token error key crm =
      close_run now run_id lease_token (of_error error)
        (λ r. record r { status = RunStatus.failed; error = some error }) key crm
