-- ===== src/Crm/Writes/Tests.antt =====
-- Calls of the development CRM on a concrete run, with digests that are constant texts.
use agente_inteligente_comer.Prelude.{
  String, ◌≡◌, refl, false, List, [], ◌∷◌, none, some, arith, inr,
}
use agente_inteligente_comer.Contracts.{RunStatus, ProspectingRunSnapshot}
use agente_inteligente_comer.Dict.{lookup, insert}
use agente_inteligente_comer.Dedup.{ProspectCandidate}
use agente_inteligente_comer.Crm.{
  CompletionReport, CandidateBatchAck, FakeRun, FakeCrm, Digests, accept_idempotency,
}
use agente_inteligente_comer.Crm.Writes.{
  holds, require_lease, candidate_key, take_in, take_all, intake, ack_of, upsert_candidates,
  close_run, complete_run,
}
use agente_inteligente_comer.Crm.Writes.Replay.{upsert_candidates_twice, complete_run_twice}
use agente_inteligente_comer.Crm.Writes.Calls.{Call, claim_call, upsert_call, run_calls}
use agente_inteligente_comer.Crm.Writes.Bounds.{IsWithin, run_calls-IsWithin}

abbrev digests : Digests
digests = record { payload_hash = λ _. "digest"; task_uuid = λ _ _ _ _. 1 }

abbrev snapshot : ProspectingRunSnapshot
snapshot = record {
  crm_run_id = "run";
  campaign = record {
    territories = [];
    keywords = [];
    sources = [];
    target_types = [];
    max_results_per_task = 20;
    max_candidates = 1;
  };
}

abbrev leased : FakeRun
leased = record {
  snapshot = snapshot;
  tasks = [];
  status = RunStatus.running;
  lease_token = some "token";
  lease_expires_at = some 9000000;
  cancel_requested = false;
  events = [];
  candidates = [];
  report = none;
  error = none;
}

abbrev crm : FakeCrm
crm = record { runs = ("run", leased) ∷ []; idempotency = []; idempotency_results = [] }

abbrev company : String → ProspectCandidate
company name = record {
  identity = 0;
  candidate_id = some name;
  name = name;
  rut = none;
  provider_ids = [];
  phone = none;
  website = none;
  location = record {
    region_code = none;
    region_name = none;
    comuna_code = none;
    comuna_name = none;
    address = none;
  };
  locations = [];
}

abbrev batch : List ProspectCandidate
batch = company "a" ∷ company "b" ∷ []

abbrev filled : FakeRun
filled = record leased { candidates = ("a", company "a") ∷ [] }

abbrev ack : CandidateBatchAck
ack = record {
  accepted = 1;
  rejected_limit = 1;
  candidates_found = 1;
  accepted_candidate_ids = "a" ∷ [];
}

abbrev after_batch : FakeCrm
after_batch = record {
  runs = ("run", filled) ∷ [];
  idempotency = ("k", "digest") ∷ [];
  idempotency_results = ("k", ack) ∷ [];
}

sent : upsert_candidates digests 1000000 "run" "token" batch "k" crm ≡ inr (after_batch, ack)
unfolding upsert_candidates require_lease holds lookup insert accept_idempotency intake take_all
    take_in candidate_key ack_of
sent = refl

upsert_candidates_twice_example :
    upsert_candidates digests 2000000 "run" "token" batch "k" after_batch ≡ inr (after_batch, ack)
unfolding require_lease holds lookup
upsert_candidates_twice_example =
    upsert_candidates_twice digests 1000000 2000000 "run" "token" "token" batch "k" crm after_batch
      ack filled sent refl

abbrev report : CompletionReport
report = record { status = RunStatus.completed; summary = "done" }

abbrev closed : FakeCrm
closed = record {
  runs =
      (
        "run",
        record leased {
          status = RunStatus.completed;
          report = some report;
          lease_token = none;
          lease_expires_at = none;
        },
      )
      ∷ [];
  idempotency = ("done", "digest") ∷ [];
  idempotency_results = [];
}

completed_once : complete_run digests 1000000 "run" "token" report "done" crm ≡ inr closed
unfolding complete_run close_run require_lease holds lookup insert accept_idempotency
completed_once = refl

complete_run_twice_example :
    complete_run digests 99000000 "run" "other" report "done" closed ≡ inr closed
complete_run_twice_example =
    complete_run_twice digests 1000000 99000000 "run" "token" "other" report "done" crm closed
      completed_once

abbrev calls : List Call
calls =
    upsert_call 1000000 "run" "token" batch "k"
    ∷ claim_call 10000000 "next" 120
    ∷ upsert_call 11000000 "run" "next" batch "k2"
    ∷ []

crm-IsWithin : IsWithin crm
unfolding IsWithin
crm-IsWithin = (omega arith, tt)

run_calls-IsWithin_example : IsWithin (run_calls digests calls crm)
run_calls-IsWithin_example = run_calls-IsWithin digests calls crm crm-IsWithin
