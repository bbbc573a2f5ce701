-- ===== src/Store.antt =====
-- The tables of `SQLWorkerStore` (app/db/models.py): runs, tasks and the outbox of messages for the
-- CRM. A JSON payload keeps, of each element, the keys that the store reads; the rest is `body`.
use agente_inteligente_comer.Prelude.{
  ℕ, String, Bool, true, false, ◌&&◌, List, Option, none, some, ◌==◌, str_eq, or_else,
}
use agente_inteligente_comer.Contracts.{RunStatus, ProspectingRunSnapshot}
use agente_inteligente_comer.Tasks.{TaskRow}
use agente_inteligente_comer.Dict.{lookup}

-- `stats`: counters by name.
abbrev pub Stats : Type 0
Stats = List (String × ℕ)

pub record RunRow : Type 0 where
  pub id : ℕ
  pub crm_run_id : String
  pub snapshot : ProspectingRunSnapshot
  pub status : RunStatus
  pub remote_candidates_baseline : ℕ
  pub crm_worker_id : Option String
  pub crm_lease_token : Option String
  pub crm_lease_expires_at : Option ℕ
  pub started_at : Option ℕ
  pub finished_at : Option ℕ
  pub stats : Option Stats
  pub error_log : Option String

pub data OutboxKind : Type 0 where
  events candidates complete fail : OutboxKind

pub data OutboxStatus : Type 0 where
  queued delivered dead split discarded : OutboxStatus

abbrev pub is_queued : OutboxStatus → Bool
is_queued queued = true
is_queued _ = false

abbrev pub is_dead : OutboxStatus → Bool
is_dead dead = true
is_dead _ = false

abbrev pub is_delivered : OutboxStatus → Bool
is_delivered delivered = true
is_delivered _ = false

abbrev pub is_events : OutboxKind → Bool
is_events events = true
is_events _ = false

abbrev pub is_candidates : OutboxKind → Bool
is_candidates candidates = true
is_candidates _ = false

abbrev pub is_terminal : OutboxKind → Bool
is_terminal complete = true
is_terminal fail = true
is_terminal _ = false

-- One element of a payload: an event or a candidate. The ids in it are UUIDs.
pub record Element : Type 0 where
  pub task_status : Option String
  pub task_id : Option ℕ
  pub body : String

-- A JSON list, or a JSON object.
pub data Payload : Type 0 where
  items : List Element → Payload
  object : Element → Payload

-- An idempotency key, by the parts that its f-string joins with colons.
pub data IdempotencyKey : Type 0 where
  candidates_of : ℕ → ℕ → ℕ → IdempotencyKey
  event_of : ℕ → String → IdempotencyKey
  part_of : ℕ → ℕ → IdempotencyKey
  terminal_of : String → String → IdempotencyKey

abbrev pub same_key : IdempotencyKey → IdempotencyKey → Bool
same_key (candidates_of r t a) (candidates_of r' t' a') = r == r' && t == t' && a == a'
same_key (event_of r e) (event_of r' e') = r == r' && str_eq e e'
same_key (part_of m i) (part_of m' i') = m == m' && i == i'
same_key (terminal_of r s) (terminal_of r' s') = str_eq r r' && str_eq s s'
same_key _ _ = false

pub record OutboxRow : Type 0 where
  pub id : ℕ
  pub run_id : ℕ
  pub kind : OutboxKind
  pub idempotency_key : IdempotencyKey
  pub payload : Payload
  pub status : OutboxStatus
  pub attempt_count : ℕ
  pub max_attempts : ℕ
  pub available_at : ℕ
  pub last_error : Option String
  pub delivered_at : Option ℕ
  pub created_at : ℕ

pub record Store : Type 0 where
  pub runs : List RunRow
  pub tasks : List TaskRow
  pub outbox : List OutboxRow

abbrev pub run_key : RunRow → ℕ
run_key r = r.id

abbrev pub message_key : OutboxRow → ℕ
message_key m = m.id

-- `int((run.stats or {}).get(name, 0))`.
unfoldable pub counter : String → Option Stats → ℕ
counter name none = 0
counter name (some stats) = or_else (lookup name stats) 0
