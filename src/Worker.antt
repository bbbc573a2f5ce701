-- ===== src/Worker.antt =====
-- The prospecting worker (app/prospecting/worker.py): how it sends the outbox of a run to the CRM, and
-- the terminal messages that no claim sends. A coroutine is a function of the store and of `W`, the
-- state of everything outside: the CRM, the clock and the source of UUIDs.
mod Tests
mod Samples
pub mod Progress
pub mod Termination
pub mod Replay
pub mod Reports
pub mod Claim
pub mod Execute
pub mod Acceptance
pub mod Untouched
use Prim.Native.String.{◌++◌}
use agente_inteligente_comer.Prelude.{
  ℕ, zero, suc, String, Bool, true, false, not, List, [], ◌∷◌, Option, none, some, ltb, ◌==◌,
  if◌then◌else◌, clip, length, ◌⊎◌, inl, inr, is_some,
}
use agente_inteligente_comer.Contracts.{RunStatus}
use agente_inteligente_comer.Store.{
  Stats, OutboxKind, events, candidates, complete, fail, is_candidates, Element, Payload, items,
  object, IdempotencyKey, OutboxRow, Store,
}
use agente_inteligente_comer.Outbox.{
  get_outbox, has_pending_outbox, mark_outbox_delivered, mark_outbox_failed, split_candidate_outbox,
  discard_candidate_outbox, CandidateBatchAck, record_candidate_ack, finalize_terminal_outbox,
  TerminalOutboxReplay, pending_terminal_replays,
}

-- The errors that the worker tells apart: those of app/crm/port.py, `ValueError`, and any other.
pub data ErrorClass : Type 0 where
  lease_lost retryable permanent conflict value_error other : ErrorClass

pub record Raised : Type 0 where
  pub error_class : ErrorClass
  pub type_name : String
  pub message : String

pub record CompletionReport : Type 0 where
  pub status : RunStatus
  pub stats : Stats

-- The calls of `CRMPort` that deliver a message. A result is an error or a value, or an error
-- that may be absent; the two calls that end a run have the worker's id where it is given.
pub record CrmPort (W : Type 0) : Type 0 where
  pub append_events : String → String → List Element → IdempotencyKey → W → W × Option Raised
  pub upsert_candidates :
      String → String → List Element → IdempotencyKey → W → W × (Raised ⊎ CandidateBatchAck)
  pub complete_run :
      String → String → CompletionReport → IdempotencyKey → Option String → W → W × Option Raised
  pub fail_run : String → String → String → IdempotencyKey → Option String → W → W × Option Raised

-- What Python's libraries give: the clock, UUIDs, the redaction of secrets in a text by `re.sub`, and
-- the validation of a payload by pydantic.
pub record Services (W : Type 0) : Type 0 where
  pub now_utc : W → W × ℕ
  pub uuid4 : W → W × (ℕ → ℕ)
  pub redact : String → String
  pub parse_events : Payload → Raised ⊎ List Element
  pub parse_candidates : Payload → Raised ⊎ List Element
  pub parse_report : Payload → Raised ⊎ CompletionReport
  pub parse_error : Payload → Raised ⊎ String

-- How a coroutine ends, or that it is still running when the fuel is used up.
pub data Outcome : Type 0 where
  returned : Bool → Outcome
  raised : Raised → Outcome
  running : Outcome

-- Whether the loop over the messages goes on.
pub data Turn : Type 0 where
  next : Turn
  stop : Outcome → Turn

module _ {W : Type 0} (crm : CrmPort W) (services : Services W) where
  pub safe_error : Raised → String
  safe_error e = clip 1000 (e.type_name ++ ": " ++ services.redact e.message)

  abbrev pub without_ack : W × Option Raised → W × (Raised ⊎ Option CandidateBatchAck)
  without_ack (w, some e) = (w, inl e)
  without_ack (w, none) = (w, inr none)

  abbrev pub with_ack : W × (Raised ⊎ CandidateBatchAck) → W × (Raised ⊎ Option CandidateBatchAck)
  with_ack (w, inl e) = (w, inl e)
  with_ack (w, inr ack) = (w, inr (some ack))

  pub deliver_message : OutboxRow → String → String → W → W × (Raised ⊎ Option CandidateBatchAck)
  deliver_message m crm_run_id lease_token w = elim m.kind [
    | events ↦ elim (services.parse_events m.payload) [
      | inl e ↦ (w, inl e)
      | inr es ↦ without_ack (crm.append_events crm_run_id lease_token es m.idempotency_key w)
    ]
    | candidates ↦ elim (services.parse_candidates m.payload) [
      | inl e ↦ (w, inl e)
      | inr cs ↦ with_ack (crm.upsert_candidates crm_run_id lease_token cs m.idempotency_key w)
    ]
    | complete ↦ elim (services.parse_report m.payload) [
      | inl e ↦ (w, inl e)
      | inr r ↦ without_ack (crm.complete_run crm_run_id lease_token r m.idempotency_key none w)
    ]
    | fail ↦ elim (services.parse_error m.payload) [
      | inl e ↦ (w, inl e)
      | inr t ↦ without_ack (crm.fail_run crm_run_id lease_token t m.idempotency_key none w)
    ]
  ]

  abbrev pub ended : ℕ → ℕ → RunStatus → Option Stats → Option String → Store → W → Store × W
  ended run_id message_id status stats error s w =
      let t = services.now_utc w in
      (finalize_terminal_outbox run_id message_id status stats error t.1 s, t.0)

  -- The store after a delivery, and the error where the payload does not validate.
  pub finalize_outbox_delivery : ℕ → OutboxRow → Store → W → (Store × W) × Option Raised
  finalize_outbox_delivery run_id m s w = elim m.kind [
    | events ↦
        let t = services.now_utc w in
        ((record s { outbox = mark_outbox_delivered m.id t.1 s.outbox }, t.0), none)
    | candidates ↦
        let t = services.now_utc w in
        ((record s { outbox = mark_outbox_delivered m.id t.1 s.outbox }, t.0), none)
    | complete ↦ elim (services.parse_report m.payload) [
      | inl e ↦ ((s, w), some e)
      | inr r ↦ (ended run_id m.id r.status (some r.stats) none s w, none)
    ]
    | fail ↦ elim (services.parse_error m.payload) [
      | inl e ↦ ((s, w), some e)
      | inr t ↦ (ended run_id m.id RunStatus.failed none (some t) s w, none)
    ]
  ]

  pub mark_failed : ℕ → Raised → Bool → Store → W → Store × W
  unfolding safe_error
  mark_failed message_id e again s w =
      let t = services.now_utc w in
      (
        record s { outbox = (mark_outbox_failed message_id (safe_error e) again t.1 s.outbox).0 },
        t.0,
      )

  abbrev pub split : ℕ → Raised → Store → W → (Store × W) × Bool
  split message_id e s w =
      let ids = services.uuid4 w in
      let t = services.now_utc ids.0 in
      let r = split_candidate_outbox ids.1 message_id (safe_error e) t.1 s.outbox in
      ((record s { outbox = r.0 }, t.0), r.1)

  abbrev pub discard : ℕ → Raised → Store → W → (Store × W) × Bool
  discard message_id e s w =
      let t = services.now_utc w in
      let r = discard_candidate_outbox message_id (safe_error e) t.1 s in ((r.0, t.0), r.1)

  -- A refused batch is split, and a batch of one candidate discarded; whether either was done.
  pub isolate : OutboxRow → Raised → Store → W → (Store × W) × Bool
  isolate m e s w = elim m.payload [
    | object _ ↦ ((s, w), false)
    | items xs ↦
        if is_candidates m.kind
        then (if ltb 1 (length xs)
            then split m.id e s w
            else (if length xs == 1 then discard m.id e s w else ((s, w), false)))
        else ((s, w), false)
  ]

  pub refused : OutboxRow → Raised → Store → W → (Store × W) × Turn
  refused m e s w =
      let r = isolate m e s w in
      if r.1 then (r.0, next) else (mark_failed m.id e false r.0.0 r.0.1, stop (returned false))

  -- The `except` clauses of the loop.
  pub failed : OutboxRow → Raised → Store → W → (Store × W) × Turn
  failed m e s w = elim e.error_class [
    | lease_lost ↦ ((s, w), stop (returned false))
    | retryable ↦ (mark_failed m.id e true s w, stop (returned false))
    | permanent ↦ refused m e s w
    | value_error ↦ refused m e s w
    | conflict ↦ (mark_failed m.id e false s w, stop (returned false))
    | other ↦ (mark_failed m.id e true s w, stop (returned false))
  ]

  pub record_ack : ℕ → OutboxRow → Option CandidateBatchAck → Store → W → Store × W
  record_ack run_id m none s w = (s, w)
  record_ack run_id m (some ack) s w =
      let t = services.now_utc w in (record_candidate_ack run_id m.id ack t.1 s, t.0)

  abbrev pub turn_of : Option Raised → Turn
  turn_of none = next
  turn_of (some e) = stop (raised e)

  pub accepted : ℕ → OutboxRow → Option CandidateBatchAck → Store → W → (Store × W) × Turn
  accepted run_id m ack s w =
      let a = record_ack run_id m ack s w in
      let f = finalize_outbox_delivery run_id m a.0 a.1 in (f.0, turn_of f.1)

  -- One turn of the loop over the messages.
  pub deliver_one : ℕ → String → String → OutboxRow → Store → W → (Store × W) × Turn
  deliver_one run_id crm_run_id lease_token m s w =
      let d = deliver_message m crm_run_id lease_token w in
      elim d.1 [ inl e ↦ failed m e s d.0 | inr ack ↦ accepted run_id m ack s d.0 ]

  pub deliver_each : ℕ → String → String → List OutboxRow → Store → W → (Store × W) × Turn
  deliver_each run_id crm_run_id lease_token [] s w = ((s, w), next)
  deliver_each run_id crm_run_id lease_token (m ∷ ms) s w =
      let d = deliver_one run_id crm_run_id lease_token m s w in
      elim d.1 [
        | stop o ↦ (d.0, stop o)
        | next ↦ deliver_each run_id crm_run_id lease_token ms d.0.0 d.0.1
      ]

  -- `_deliver_outbox`, with at most so many rounds.
  pub deliver_outbox : ℕ → ℕ → String → String → Store → W → (Store × W) × Outcome
  deliver_outbox zero run_id crm_run_id lease_token s w = ((s, w), running)
  deliver_outbox (suc fuel) run_id crm_run_id lease_token s w =
      let t = services.now_utc w in
      elim (get_outbox run_id 50 t.1 s.outbox) [
        | [] ↦ ((s, t.0), returned (not (has_pending_outbox run_id s.outbox)))
        | m ∷ ms ↦
            let r = deliver_each run_id crm_run_id lease_token (m ∷ ms) s t.0 in
            elim r.1 [
              | stop o ↦ (r.0, o)
              | next ↦ deliver_outbox fuel run_id crm_run_id lease_token r.0.0 r.0.1
            ]
      ]
