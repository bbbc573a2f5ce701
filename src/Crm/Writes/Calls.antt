-- ===== src/Crm/Writes/Calls.antt =====
-- Sequences of calls of the development CRM, with the errors that leave it as it was.
use agente_inteligente_comer.Prelude.{ℕ, String, List, [], ◌∷◌, ◌⊎◌, inl, inr}
use agente_inteligente_comer.Contracts.{ProspectingRunSnapshot}
use agente_inteligente_comer.Dedup.{ProspectCandidate}
use agente_inteligente_comer.Crm.{
  RunEvent, CompletionReport, FakeCrm, Digests, CrmError, enqueue, request_cancel, claim_run,
}
use agente_inteligente_comer.Crm.Writes.{
  heartbeat, append_events, upsert_candidates, complete_run, fail_run,
}

-- A call of the port, with the instant and the fresh token it reads.
pub data Call : Type 0 where
  enqueue_call : ProspectingRunSnapshot → Call
  cancel_call : String → Call
  claim_call : ℕ → String → ℕ → Call
  heartbeat_call : ℕ → String → String → ℕ → Call
  events_call : ℕ → String → String → List RunEvent → String → Call
  upsert_call : ℕ → String → String → List ProspectCandidate → String → Call
  complete_call : ℕ → String → String → CompletionReport → String → Call
  fail_call : ℕ → String → String → String → String → Call

-- The state after a call that may raise.
unfoldable pub after : FakeCrm → CrmError ⊎ FakeCrm → FakeCrm
after crm (inl e) = crm
after crm (inr crm') = crm'

unfoldable pub after_batch {ℓ} : {A : Type ℓ} → FakeCrm → CrmError ⊎ (FakeCrm × A) → FakeCrm
after_batch crm (inl e) = crm
after_batch crm (inr r) = r.0

unfoldable pub step : Digests → Call → FakeCrm → FakeCrm
step d (enqueue_call snapshot) crm = enqueue d snapshot crm
step d (cancel_call run_id) crm = after crm (request_cancel run_id crm)
step d (claim_call now token secs) crm = (claim_run now token secs crm).0
step d (heartbeat_call now run_id token secs) crm = (heartbeat now run_id token secs crm).0
step d (events_call now run_id token events key) crm =
    after crm (append_events d now run_id token events key crm)
step d (upsert_call now run_id token candidates key) crm =
    after_batch crm (upsert_candidates d now run_id token candidates key crm)
step d (complete_call now run_id token report key) crm =
    after crm (complete_run d now run_id token report key crm)
step d (fail_call now run_id token error key) crm =
    after crm (fail_run d now run_id token error key crm)

unfoldable pub run_calls : Digests → List Call → FakeCrm → FakeCrm
run_calls d [] crm = crm
run_calls d (c ∷ cs) crm = run_calls d cs (step d c crm)
