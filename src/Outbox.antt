-- ===== src/Outbox.antt =====
-- The outbox of `SQLWorkerStore` (app/prospecting/store.py): messages for the CRM, their delivery,
-- retries, splits and acknowledgements. `now` is the value of `now_utc()` in the call, and a call that
-- inserts rows is given their ids.
mod Tests
pub mod Delivery
pub mod Queue
pub mod Discard
pub mod Batches
pub mod Weight
pub mod Closing
pub mod Statuses
pub mod Untouched
use agente_inteligente_comer.Prelude.{
  ℕ, ◌+◌, ◌*◌, ◌/◌, ◌^◌, min, max, String, Bool, true, false, not, ◌&&◌, ◌||◌, List, [], ◌∷◌, ◌++◌,
  Option, none, some, ltb, leb, ◌==◌, if◌then◌else◌, is_some, or_else, seconds, clip, any, select,
  take, drop, length,
}
use agente_inteligente_comer.Contracts.{RunStatus}
use agente_inteligente_comer.Dict.{insert}
use agente_inteligente_comer.Table.{get, modify}
use agente_inteligente_comer.Store.{
  Stats, RunRow, OutboxKind, candidates, OutboxStatus, queued, delivered, dead, split, discarded,
  is_queued, is_dead, is_delivered, is_candidates, is_terminal, Element, Payload, items, object,
  IdempotencyKey, part_of, same_key, OutboxRow, Store, run_key, message_key, counter,
}

-- The row that `_queue_outbox` adds, with the columns' defaults.
abbrev pub new_message : ℕ → ℕ → ℕ → OutboxKind → IdempotencyKey → Payload → OutboxRow
new_message id now run_id kind key payload = record {
  id = id;
  run_id = run_id;
  kind = kind;
  idempotency_key = key;
  payload = payload;
  status = queued;
  attempt_count = 0;
  max_attempts = 10;
  available_at = now;
  last_error = none;
  delivered_at = none;
  created_at = now;
}

unfoldable pub queue_outbox :
    ℕ → ℕ → ℕ → OutboxKind → IdempotencyKey → Payload → List OutboxRow → List OutboxRow
queue_outbox id now run_id kind key payload outbox =
    if any (λ m. same_key m.idempotency_key key) outbox
    then outbox
    else outbox ++ new_message id now run_id kind key payload ∷ []

-- `ORDER BY created_at`, with rows of one instant in table order.
unfoldable pub insert_by_age : OutboxRow → List OutboxRow → List OutboxRow
insert_by_age m [] = m ∷ []
insert_by_age m (x ∷ xs) =
    let rest = insert_by_age m xs in if leb m.created_at x.created_at then m ∷ x ∷ xs else x ∷ rest

unfoldable pub by_age : List OutboxRow → List OutboxRow
unfolding insert_by_age
by_age [] = []
by_age (x ∷ xs) = insert_by_age x (by_age xs)

abbrev pub due : ℕ → ℕ → OutboxRow → Bool
due run_id now m = m.run_id == run_id && is_queued m.status && leb m.available_at now

unfoldable pub get_outbox : ℕ → ℕ → ℕ → List OutboxRow → List OutboxRow
get_outbox run_id limit now outbox = take limit (by_age (select (due run_id now) outbox))

unfoldable pub has_pending_outbox : ℕ → List OutboxRow → Bool
has_pending_outbox run_id outbox = any (λ m. m.run_id == run_id && is_queued m.status) outbox

abbrev pub deliver : ℕ → OutboxRow → OutboxRow
deliver now m = record m { status = delivered; delivered_at = some now; last_error = none }

unfoldable pub mark_outbox_delivered : ℕ → ℕ → List OutboxRow → List OutboxRow
mark_outbox_delivered message_id now outbox = modify message_key message_id (deliver now) outbox

abbrev pub retry_delay : ℕ → ℕ
retry_delay attempt_count = min 300 (2 ^ min attempt_count 8)

abbrev pub fail_delivery : String → Bool → ℕ → OutboxRow → OutboxRow
fail_delivery error retryable now m = record m {
  attempt_count = m.attempt_count + 1;
  last_error = some (clip 2000 error);
  status = if retryable then queued else dead;
  available_at = now + seconds (if retryable then retry_delay (m.attempt_count + 1) else 0);
}

unfoldable pub mark_outbox_failed : ℕ → String → Bool → ℕ → List OutboxRow → List OutboxRow × Bool
mark_outbox_failed message_id error retryable now outbox =
    elim (get message_key message_id outbox) [
      | none ↦ (outbox, false)
      | some m ↦
          (modify message_key message_id (fail_delivery error retryable now) outbox, not retryable)
    ]

-- The payload of a batch that has not gone out: a list, of a queued or dead message of candidates.
pub open_batch : OutboxRow → Option (List Element)
open_batch m = elim m.payload [
  | object _ ↦ none
  | items xs ↦
      if is_candidates m.kind && (is_queued m.status || is_dead m.status) then some xs else none
]

abbrev pub close : OutboxStatus → String → ℕ → OutboxRow → OutboxRow
close status error now m = record m {
  status = status;
  delivered_at = some now;
  last_error = some (clip 2000 error);
}

-- `fresh i` is the id of the row for part `i`.
pub split_batch :
    (ℕ → ℕ) → ℕ → String → ℕ → OutboxRow → List Element → List OutboxRow → List OutboxRow × Bool
unfolding queue_outbox
split_batch fresh message_id error now m xs outbox =
    if ltb (length xs) 2
    then (outbox, false)
    else (let half = length xs / 2 in
        let one =
          queue_outbox (fresh 0) now m.run_id candidates (part_of m.id 0) (items (take half xs))
            outbox in
        let two =
          queue_outbox (fresh 1) now m.run_id candidates (part_of m.id 1) (items (drop half xs))
            one in
        (modify message_key message_id (close split error now) two, true))

pub split_candidate_outbox : (ℕ → ℕ) → ℕ → String → ℕ → List OutboxRow → List OutboxRow × Bool
split_candidate_outbox fresh message_id error now outbox =
    elim (get message_key message_id outbox) [
      | none ↦ (outbox, false)
      | some m ↦ elim (open_batch m) [
        | none ↦ (outbox, false)
        | some xs ↦ split_batch fresh message_id error now m xs outbox
      ]
    ]

-- `stats[name] = int(stats.get(name, 0)) + n`, on a copy of the run's counters.
pub bump : String → ℕ → Option Stats → Option Stats
bump name n stats = some (insert name (counter name stats + n) (or_else stats []))

pub discard_candidate_outbox : ℕ → String → ℕ → Store → Store × Bool
discard_candidate_outbox message_id error now s = elim (get message_key message_id s.outbox) [
  | none ↦ (s, false)
  | some m ↦ elim (open_batch m) [
    | none ↦ (s, false)
    | some xs ↦
        if length xs == 1
        then (
          record s {
            outbox = modify message_key message_id (close discarded error now) s.outbox;
            runs =
                modify run_key m.run_id
                  (λ r. record r { stats = bump "rejected_invalid" 1 r.stats }) s.runs;
          },
          true,
        )
        else (s, false)
  ]
]

-- app/prospecting/contracts.py
pub record CandidateBatchAck : Type 0 where
  pub accepted : ℕ
  pub rejected_limit : ℕ
  pub candidates_found : Option ℕ

pub acknowledged_total : CandidateBatchAck → RunRow → ℕ
acknowledged_total ack r =
    or_else ack.candidates_found (r.remote_candidates_baseline + ack.accepted)

pub acknowledge : CandidateBatchAck → RunRow → RunRow
unfolding acknowledged_total bump
acknowledge ack r = record r {
  remote_candidates_baseline = max r.remote_candidates_baseline (acknowledged_total ack r);
  stats = bump "rejected_limit" ack.rejected_limit (bump "crm_accepted" ack.accepted r.stats);
}

pub record_candidate_ack : ℕ → ℕ → CandidateBatchAck → ℕ → Store → Store
unfolding acknowledge
record_candidate_ack run_id message_id ack now s = elim (get run_key run_id s.runs) [
  | none ↦ s
  | some r ↦ elim (get message_key message_id s.outbox) [
    | none ↦ s
    | some m ↦ if is_delivered m.status then s else record s {
      runs = modify run_key run_id (acknowledge ack) s.runs;
      outbox = modify message_key message_id (deliver now) s.outbox;
    }
  ]
]

abbrev pub close_run : RunStatus → Option Stats → Option String → ℕ → RunRow → RunRow
close_run status stats error now r = record r {
  status = status;
  stats = stats;
  error_log = error;
  finished_at = some now;
}

pub finalize_terminal_outbox : ℕ → ℕ → RunStatus → Option Stats → Option String → ℕ → Store → Store
finalize_terminal_outbox run_id message_id status stats error now s =
    elim (get run_key run_id s.runs) [
      | none ↦ s
      | some r ↦ elim (get message_key message_id s.outbox) [
        | none ↦ s
        | some m ↦ record s {
          outbox = modify message_key message_id (deliver now) s.outbox;
          runs = modify run_key run_id (close_run status stats error now) s.runs;
        }
      ]
    ]

unfoldable pub queue_terminal : ℕ → ℕ → ℕ → OutboxKind → Payload → IdempotencyKey → Store → Store
unfolding queue_outbox
queue_terminal id now run_id kind payload key s = record s {
  outbox = queue_outbox id now run_id kind key payload s.outbox;
}

abbrev pub is_final : RunStatus → Bool
is_final RunStatus.completed = true
is_final RunStatus.partial = true
is_final RunStatus.failed = true
is_final RunStatus.cancelled = true
is_final _ = false

pub set_run_status : ℕ → RunStatus → Option Stats → Option String → ℕ → Store → Store
set_run_status run_id status stats error now s = record s {
  runs =
      modify run_key run_id
        (λ r. record r {
          status = status;
          stats = stats;
          error_log = error;
          finished_at = if is_final status then some now else r.finished_at;
        })
        s.runs;
}

-- A terminal message that can be delivered without a claim of the run.
pub record TerminalOutboxReplay : Type 0 where
  pub local_run_id : ℕ
  pub crm_run_id : String
  pub worker_id : String
  pub lease_token : String
  pub message : OutboxRow

abbrev pub replay_of :
    OutboxRow → RunRow → Option String → Option String → List TerminalOutboxReplay
replay_of m r (some w) (some l) =
    record {
      local_run_id = r.id;
      crm_run_id = r.crm_run_id;
      worker_id = w;
      lease_token = l;
      message = m;
    }
    ∷ []
replay_of m r _ _ = []

-- The join on the run of the message.
abbrev pub replay_row : List RunRow → OutboxRow → List TerminalOutboxReplay
replay_row runs m = elim (get run_key m.run_id runs) [
  | none ↦ []
  | some r ↦ replay_of m r r.crm_worker_id r.crm_lease_token
]

pub replays : List RunRow → List OutboxRow → List TerminalOutboxReplay
replays runs [] = []
replays runs (m ∷ ms) = replay_row runs m ++ replays runs ms

pub pending_terminal_replays : ℕ → Store → List TerminalOutboxReplay
unfolding replays
pending_terminal_replays limit s =
    take limit
      (replays s.runs (by_age (select (λ m. is_queued m.status && is_terminal m.kind) s.outbox)))
