-- ===== src/Tasks.antt =====
-- The task leases of `SQLWorkerStore` (app/prospecting/store.py): the table `prospecting_tasks`, and
-- the methods that claim, renew, finish, fail and cancel its rows. `now` is the value of `now_utc()`
-- in the call; `locked` says which rows another transaction holds when `SKIP LOCKED` looks at them.
mod Tests
pub mod Phases
pub mod Calls
pub mod Claim
pub mod Fencing
pub mod Order
pub mod Attempts
pub mod Keys
pub mod Writes
pub mod Lease
pub mod Released
use agente_inteligente_comer.Prelude.{
  ℕ, ◌+◌, String, Bool, true, false, ◌&&◌, ◌||◌, not, List, map, Option, none, some, ltb, leb, ◌==◌,
  if◌then◌else◌, holds_text, seconds, select, least, clip, text_or,
}
use agente_inteligente_comer.Contracts.{
  SourceName, google_places, brave_search, official_website, TaskStatus, is_pending, is_running,
}
use agente_inteligente_comer.Table.{get, modify}

pub record TaskRow : Type 0 where
  pub id : ℕ
  pub run_id : ℕ
  pub source : SourceName
  pub keyword : String
  pub region_code : String
  pub region_name : String
  pub comuna_code : String
  pub comuna_name : String
  pub max_results : ℕ
  pub status : TaskStatus
  pub attempt_count : ℕ
  pub max_attempts : ℕ
  pub available_at : ℕ
  pub lease_owner : Option String
  pub lease_expires_at : Option ℕ
  pub heartbeat_at : Option ℕ
  pub results_count : ℕ
  pub rejected_count : ℕ
  pub error_log : Option String
  pub created_at : ℕ

pub record WorkerTask : Type 0 where
  pub id : ℕ
  pub run_id : ℕ
  pub source : SourceName
  pub keyword : String
  pub region_code : String
  pub region_name : String
  pub comuna_code : String
  pub comuna_name : String
  pub max_results : ℕ
  pub attempt_count : ℕ
  pub max_attempts : ℕ

abbrev pub key : TaskRow → ℕ
key t = t.id

-- `lease_expires_at < now` in SQL, where a comparison with NULL does not hold.
abbrev pub lapsed : Option ℕ → ℕ → Bool
lapsed none now = false
lapsed (some t) now = ltb t now

-- A running task whose lease has run out and whose attempts are used up.
unfoldable pub exhausted : (ℕ → Bool) → ℕ → ℕ → TaskRow → Bool
exhausted locked run_id now t =
    not (locked t.id)
    && t.run_id == run_id
    && is_running t.status
    && lapsed t.lease_expires_at now
    && leb t.max_attempts t.attempt_count

abbrev pub expire : TaskRow → TaskRow
expire t = record t {
  status = TaskStatus.failed;
  error_log = some (text_or t.error_log "task lease expired");
  lease_owner = none;
  lease_expires_at = none;
}

-- The first statement of `claim_task`, on one row.
unfoldable pub sweep : (ℕ → Bool) → ℕ → ℕ → TaskRow → TaskRow
unfolding exhausted
sweep locked run_id now t = if exhausted locked run_id now t then expire t else t

-- The condition of the second statement.
unfoldable pub claimable : (ℕ → Bool) → ℕ → ℕ → TaskRow → Bool
claimable locked run_id now t =
    not (locked t.id)
    && t.run_id == run_id
    && ltb t.attempt_count t.max_attempts
    && leb t.available_at now
    && (is_pending t.status || is_running t.status && lapsed t.lease_expires_at now)

abbrev pub source_priority : SourceName → ℕ
source_priority google_places = 0
source_priority brave_search = 1
source_priority official_website = 2

-- Its order: by source, then age, then id.
unfoldable pub before : TaskRow → TaskRow → Bool
before t u =
    let p = source_priority t.source in
    let q = source_priority u.source in
    ltb p q
    || p == q && (ltb t.created_at u.created_at || t.created_at == u.created_at && leb t.id u.id)

abbrev pub claim : String → ℕ → ℕ → TaskRow → TaskRow
claim worker_id lease_seconds now t = record t {
  status = TaskStatus.running;
  attempt_count = t.attempt_count + 1;
  lease_owner = some worker_id;
  heartbeat_at = some now;
  lease_expires_at = some (now + seconds lease_seconds);
}

abbrev pub worker_task : TaskRow → WorkerTask
worker_task t = record {
  id = t.id;
  run_id = t.run_id;
  source = t.source;
  keyword = t.keyword;
  region_code = t.region_code;
  region_name = t.region_name;
  comuna_code = t.comuna_code;
  comuna_name = t.comuna_name;
  max_results = t.max_results;
  attempt_count = t.attempt_count;
  max_attempts = t.max_attempts;
}

-- The row that the second statement returns.
unfoldable pub next_task : (ℕ → Bool) → ℕ → ℕ → List TaskRow → Option TaskRow
next_task locked run_id now rows = least before (select (claimable locked run_id now) rows)

abbrev pub take_task :
    String → ℕ → ℕ → List TaskRow → Option TaskRow → List TaskRow × Option WorkerTask
take_task worker_id lease_seconds now rows none = (rows, none)
take_task worker_id lease_seconds now rows (some t) = (
  modify key t.id (claim worker_id lease_seconds now) rows,
  some (worker_task (claim worker_id lease_seconds now t)),
)

unfoldable pub claim_task :
    (ℕ → Bool) → ℕ → String → ℕ → ℕ → List TaskRow → List TaskRow × Option WorkerTask
claim_task locked run_id worker_id lease_seconds now rows =
    let swept = map (sweep locked run_id now) rows in
    take_task worker_id lease_seconds now swept (next_task locked run_id now swept)

-- The lease is alive and belongs to the worker.
pub holds_lease : String → ℕ → TaskRow → Bool
holds_lease worker_id now t =
    is_running t.status
    && holds_text t.lease_owner worker_id
    && elim t.lease_expires_at [ none ↦ false | some e ↦ ltb now e ]

abbrev pub renew : ℕ → ℕ → TaskRow → TaskRow
renew lease_seconds now t = record t {
  heartbeat_at = some now;
  lease_expires_at = some (now + seconds lease_seconds);
}

pub heartbeat_task : ℕ → String → ℕ → ℕ → List TaskRow → List TaskRow × Bool
unfolding holds_lease
heartbeat_task task_id worker_id lease_seconds now rows = elim (get key task_id rows) [
  | none ↦ (rows, false)
  | some t ↦
      if holds_lease worker_id now t
      then (modify key task_id (renew lease_seconds now) rows, true)
      else (rows, false)
]

-- The row is running for the worker; the age of the lease is not looked at.
unfoldable pub owns_task : String → TaskRow → Bool
owns_task worker_id t = holds_text t.lease_owner worker_id && is_running t.status

abbrev pub finish : ℕ → ℕ → TaskRow → TaskRow
finish results rejected t = record t {
  status = TaskStatus.completed;
  results_count = results;
  rejected_count = rejected;
  lease_owner = none;
  lease_expires_at = none;
}

-- `none` is `RuntimeError("task lease lost")`, which rolls the transaction back.
unfoldable pub finish_task : ℕ → String → ℕ → ℕ → List TaskRow → Option (List TaskRow)
unfolding owns_task
finish_task task_id worker_id results rejected rows = elim (get key task_id rows) [
  | none ↦ none
  | some t ↦
      if owns_task worker_id t
      then some (modify key task_id (finish results rejected) rows)
      else none
]

abbrev pub fail : String → ℕ → TaskRow → TaskRow
fail error now t = record t {
  error_log = some (clip 2000 error);
  status = if leb t.max_attempts t.attempt_count then TaskStatus.failed else TaskStatus.pending;
  available_at = now;
  lease_owner = none;
  lease_expires_at = none;
}

pub fail_task : ℕ → String → String → ℕ → List TaskRow → List TaskRow
unfolding owns_task
fail_task task_id worker_id error now rows = elim (get key task_id rows) [
  | none ↦ rows
  | some t ↦ if owns_task worker_id t then modify key task_id (fail error now) rows else rows
]

abbrev pub cancel : TaskRow → TaskRow
cancel t = record t { status = TaskStatus.cancelled; lease_owner = none; lease_expires_at = none }

unfoldable pub cancel_row : ℕ → TaskRow → TaskRow
cancel_row run_id t =
    if t.run_id == run_id && (is_pending t.status || is_running t.status) then cancel t else t

unfoldable pub cancel_tasks : ℕ → List TaskRow → List TaskRow
unfolding cancel_row
cancel_tasks run_id rows = map (cancel_row run_id) rows
