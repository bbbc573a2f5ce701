-- ===== src/Outbox/Tests.antt =====
-- Runs of the outbox at concrete tables.
use agente_inteligente_comer.Prelude.{
  ℕ, ◌+◌, ◌≤◌, String, ◌≡◌, refl, true, false, ◌&&◌, List, [], ◌∷◌, none, some, leb, seconds, All,
  select, length, ◌⊎◌, ◌==◌, ◌++◌,
}
use mathlib.Core.List.{Perm}
use agente_inteligente_comer.Contracts.{RunStatus}
use agente_inteligente_comer.Table.{get}
use agente_inteligente_comer.Store.{
  RunRow, candidates, queued, Element, items, candidates_of, OutboxRow, Store, run_key, message_key,
  counter, is_queued,
}
use agente_inteligente_comer.Outbox.{
  due, get_outbox, mark_outbox_failed, retry_delay, open_batch, discard_candidate_outbox,
  CandidateBatchAck, record_candidate_ack,
}
use agente_inteligente_comer.Outbox.Delivery.{due-mark_outbox_failed, record_candidate_ack_once}
use agente_inteligente_comer.Outbox.Batches.{waiting}
use agente_inteligente_comer.Outbox.Discard.{discard_once}
use agente_inteligente_comer.Outbox.Queue.{IsByAge, get_outbox_lem}

abbrev element : String → Element
element body = record { task_status = none; task_id = none; body = body }

abbrev message : ℕ → List Element → OutboxRow
message id xs = record {
  id = id;
  run_id = 7;
  kind = candidates;
  idempotency_key = candidates_of 7 id 1;
  payload = items xs;
  status = queued;
  attempt_count = 0;
  max_attempts = 10;
  available_at = 0;
  last_error = none;
  delivered_at = none;
  created_at = id;
}

abbrev batch : List Element
batch = element "a" ∷ element "b" ∷ element "c" ∷ []

abbrev outbox : List OutboxRow
outbox = message 1 batch ∷ message 2 (element "d" ∷ []) ∷ []

abbrev sample_run : RunRow
sample_run = record {
  id = 7;
  crm_run_id = "run";
  snapshot = record {
    crm_run_id = "run";
    campaign = record {
      territories = [];
      keywords = [];
      sources = [];
      target_types = [];
      max_results_per_task = 20;
      max_candidates = 50;
    };
  };
  status = RunStatus.running;
  remote_candidates_baseline = 4;
  crm_worker_id = none;
  crm_lease_token = none;
  crm_lease_expires_at = none;
  started_at = none;
  finished_at = none;
  stats = some (("crm_accepted", 4) ∷ []);
  error_log = none;
}

abbrev store : Store
store = record { runs = sample_run ∷ []; tasks = []; outbox = outbox }

due-mark_outbox_failed_example :
    (m' : OutboxRow) × (get message_key 1 (mark_outbox_failed 1 "503" true 1000 outbox).0 ≡ some m')
    × (due 7 9000000 m' ≡ (true && leb (1000 + seconds (retry_delay (0 + 1))) 9000000))
    × (1 ≤ retry_delay (0 + 1))
    × (retry_delay (0 + 1) ≤ 256)
unfolding get
due-mark_outbox_failed_example =
    due-mark_outbox_failed 1 "503" true 1000 9000000 outbox (message 1 batch) refl

abbrev ack : CandidateBatchAck
ack = record { accepted = 2; rejected_limit = 1; candidates_found = some 9 }

record_candidate_ack_once_example :
    record_candidate_ack 7 1 ack 2000 (record_candidate_ack 7 1 ack 1000 store)
    ≡ record_candidate_ack 7 1 ack 1000 store
record_candidate_ack_once_example = record_candidate_ack_once 7 1 ack ack 1000 2000 store

abbrev fresh : ℕ → ℕ
fresh i = 10 + i

discard_once_example :
    let d = discard_candidate_outbox 2 "422" 1000 store in
    (d.1 ≡ true)
    × Perm (waiting store.outbox) (element "d" ∷ waiting d.0.outbox)
    × (r' : RunRow) × (get run_key 7 d.0.runs ≡ some r')
    × (counter "rejected_invalid" r'.stats ≡ counter "rejected_invalid" sample_run.stats + 1)
    × (counter "crm_accepted" r'.stats ≡ counter "crm_accepted" sample_run.stats)
    × (counter "rejected_limit" r'.stats ≡ counter "rejected_limit" sample_run.stats)
    × (discard_candidate_outbox 2 "again" 2000 d.0 ≡ (d.0, false))
unfolding get open_batch
discard_once_example =
    discard_once 2 "422" 1000 store (message 2 (element "d" ∷ [])) (element "d") sample_run refl
      refl refl ((refl, tt), (tt, tt)) "again" 2000

get_outbox_lem_example :
    let sent = get_outbox 7 1 1000 outbox in
    (left : List OutboxRow) × Perm
      (sent ++ left)
      (select (λ m. m.run_id == 7 && is_queued m.status && leb m.available_at 1000) outbox)
    × IsByAge sent
    × All (λ m. All (λ x. m.created_at ≤ x.created_at) left) sent
    × (length sent ≤ 1)
    × ((length sent ≡ 1) ⊎ (left ≡ []))
get_outbox_lem_example = get_outbox_lem 7 1 1000 outbox
