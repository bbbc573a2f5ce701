-- ===== src/Worker/Replay.antt =====
-- The terminal messages of runs whose claim is over: `_reconcile_terminal_outbox` and
-- `_deliver_terminal_replay`.
use Prim.Native.String.{◌++◌}
use agente_inteligente_comer.Prelude.{
  String, Bool, true, false, List, [], ◌∷◌, Option, none, some, inl, inr,
}
use agente_inteligente_comer.Store.{OutboxKind, events, candidates, complete, fail, Store}
use agente_inteligente_comer.Outbox.{TerminalOutboxReplay, pending_terminal_replays}
use agente_inteligente_comer.Worker.{
  CrmPort, Services, Raised, ErrorClass, lease_lost, retryable, permanent, conflict, value_error,
  other, Outcome, returned, raised, mark_failed, finalize_outbox_delivery,
}

abbrev kind_value : OutboxKind → String
kind_value events = "events"
kind_value candidates = "candidates"
kind_value complete = "complete"
kind_value fail = "fail"

-- Whether a failed replay stays in the queue.
abbrev pub is_temporary : ErrorClass → Bool
is_temporary lease_lost = true
is_temporary retryable = true
is_temporary conflict = false
is_temporary permanent = false
is_temporary value_error = false
is_temporary other = true

module _ {W : Type 0} (crm : CrmPort W) (services : Services W) where
  abbrev unsupported : OutboxKind → Raised
  unsupported kind = record {
    error_class = value_error;
    type_name = "ValueError";
    message = "unsupported terminal outbox kind: " ++ kind_value kind;
  }

  unfoldable pub deliver_terminal_replay : TerminalOutboxReplay → W → W × Option Raised
  deliver_terminal_replay replay w = elim replay.message.kind [
    | complete ↦ elim (services.parse_report replay.message.payload) [
      | inl e ↦ (w, some e)
      | inr report ↦
          crm.complete_run replay.crm_run_id replay.lease_token report
            replay.message.idempotency_key (some replay.worker_id) w
    ]
    | fail ↦ elim (services.parse_error replay.message.payload) [
      | inl e ↦ (w, some e)
      | inr error ↦
          crm.fail_run replay.crm_run_id replay.lease_token error replay.message.idempotency_key
            (some replay.worker_id) w
    ]
    | kind ↦ (w, some (unsupported kind))
  ]

  -- One replay, and the error that leaves the loop where there is one.
  unfoldable pub reconcile : TerminalOutboxReplay → Store → W → (Store × W) × Option Raised
  reconcile replay s w =
      let d = deliver_terminal_replay replay w in
      elim d.1 [
        | some e ↦
            (mark_failed crm services replay.message.id e (is_temporary e.error_class) s d.0, none)
        | none ↦ finalize_outbox_delivery crm services replay.local_run_id replay.message s d.0
      ]

  unfoldable pub reconcile_each :
      List TerminalOutboxReplay → Store → W → (Store × W) × Option Raised
  reconcile_each [] s w = ((s, w), none)
  reconcile_each (replay ∷ replays) s w =
      let r = reconcile replay s w in
      elim r.1 [ some e ↦ (r.0, some e) | none ↦ reconcile_each replays r.0.0 r.0.1 ]

  abbrev outcome_of : Bool → Option Raised → Outcome
  outcome_of found none = returned found
  outcome_of found (some e) = raised e

  abbrev is_nonempty : List TerminalOutboxReplay → Bool
  is_nonempty [] = false
  is_nonempty (_ ∷ _) = true

  unfoldable pub reconcile_terminal_outbox : Store → W → (Store × W) × Outcome
  reconcile_terminal_outbox s w =
      let replays = pending_terminal_replays 50 s in
      let r = reconcile_each replays s w in (r.0, outcome_of (is_nonempty replays) r.1)
