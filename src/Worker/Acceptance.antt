-- ===== src/Worker/Acceptance.antt =====
-- The store ends a run only where the CRM has accepted its end.
use agente_inteligente_comer.Prelude.{
  ℕ, zero, suc, String, ◌≡◌, refl, ◌∙◌, true, false, List, [], ◌∷◌, Option, none, some, arith, ltb,
  ◌==◌, inl, inr, Bool-cases, Sum-cases, length, is_some,
}
use agente_inteligente_comer.Store.{
  OutboxRow, Store, OutboxKind, events, candidates, complete, fail, Payload, items, object,
  IdempotencyKey, is_candidates, is_terminal,
}
use agente_inteligente_comer.Outbox.{
  CandidateBatchAck, TerminalOutboxReplay, get_outbox, pending_terminal_replays,
}
use agente_inteligente_comer.Outbox.Statuses.{statuses, statuses-discard, statuses-ack}
use agente_inteligente_comer.Worker.{
  without_ack, safe_error, CrmPort, Services, Raised, ErrorClass, CompletionReport,
  finalize_outbox_delivery, isolate, refused, failed, record_ack, accepted, deliver_message,
  deliver_one, deliver_each, deliver_outbox, mark_failed,
}
use agente_inteligente_comer.Worker.Termination.{List-cases, Turn-cases}
use agente_inteligente_comer.Worker.Replay.{
  reconcile, reconcile_each, reconcile_terminal_outbox, deliver_terminal_replay,
}

is_some-cases : {A : Type 0} (o : Option A) → is_some o ≡ true → (a : A) × (o ≡ some a)
is_some-cases none h = absurd (ground (arith, h))
is_some-cases (some a) h = (a, refl)

module _ {W : Type 0} (crm : CrmPort W) (services : Services W) where
  isolate-statuses :
      (p : Payload) (m : OutboxRow) (e : Raised) (s : Store) (w : W)
      → statuses (isolate crm services (record m { payload = p }) e s w).0.0.runs ≡ statuses s.runs
  unfolding isolate
  isolate-statuses (object x) m e s w = refl
  isolate-statuses (items xs) m e s w = elim (Bool-cases (is_candidates m.kind)) [
    | inr k ↦ rw (isolate, k) refl
    | inl k ↦ elim (Bool-cases (ltb 1 (length xs))) [
      | inl l ↦ rw (isolate, k, l) refl
      | inr l ↦ elim (Bool-cases (length xs == 1)) [
        | inl o ↦
            rw (isolate, k, l, o)
              (statuses-discard m.id (safe_error crm services e) (services.now_utc w).1 s)
        | inr o ↦ rw (isolate, k, l, o) refl
      ]
    ]
  ]

  refused-statuses :
      (m : OutboxRow) (e : Raised) (s : Store) (w : W)
      → statuses (refused crm services m e s w).0.0.runs ≡ statuses s.runs
  unfolding refused mark_failed
  refused-statuses m e s w = elim (Bool-cases (isolate crm services m e s w).1) [
    | inl i ↦ rw (refused, i) (isolate-statuses m.payload m e s w)
    | inr i ↦ rw (refused, i) (isolate-statuses m.payload m e s w)
  ]

  failed-statuses :
      (c : ErrorClass) (m : OutboxRow) (e : Raised) (s : Store) (w : W)
      → statuses (failed crm services m (record e { error_class = c }) s w).0.0.runs
        ≡ statuses s.runs
  unfolding failed mark_failed
  failed-statuses ErrorClass.lease_lost m e s w = refl
  failed-statuses ErrorClass.retryable m e s w = refl
  failed-statuses ErrorClass.permanent m e s w = refused-statuses m _ s w
  failed-statuses ErrorClass.value_error m e s w = refused-statuses m _ s w
  failed-statuses ErrorClass.conflict m e s w = refl
  failed-statuses ErrorClass.other m e s w = refl

  ack-statuses :
      (run_id : ℕ) (m : OutboxRow) (ack : Option CandidateBatchAck) (s : Store) (w : W)
      → statuses (record_ack crm services run_id m ack s w).0.runs ≡ statuses s.runs
  unfolding record_ack
  ack-statuses run_id m none s w = refl
  ack-statuses run_id m (some ack) s w = statuses-ack run_id m.id ack (services.now_utc w).1 s

  accepted-statuses :
      (k : OutboxKind)
      → is_terminal k ≡ false
      → (run_id : ℕ) (m : OutboxRow) (ack : Option CandidateBatchAck) (s : Store) (w : W)
      → statuses (accepted crm services run_id (record m { kind = k }) ack s w).0.0.runs
        ≡ statuses s.runs
  unfolding accepted finalize_outbox_delivery record_ack
  accepted-statuses events h run_id m ack s w = ack-statuses run_id m ack s w
  accepted-statuses candidates h run_id m ack s w = ack-statuses run_id m ack s w
  accepted-statuses complete h run_id m ack s w = absurd (ground (arith, h))
  accepted-statuses fail h run_id m ack s w = absurd (ground (arith, h))

  -- The CRM accepts the end of no run.
  module _
      (no_completion : (crm_run_id token : String) (report : CompletionReport)
          (key : IdempotencyKey) (worker : Option String) (w : W)
        → is_some (crm.complete_run crm_run_id token report key worker w).1 ≡ true)
      (no_failure : (crm_run_id token error : String) (key : IdempotencyKey)
          (worker : Option String) (w : W)
        → is_some (crm.fail_run crm_run_id token error key worker w).1 ≡ true) where
    none-error :
        (r : W × Option Raised)
        → is_some r.1 ≡ true
        → (e : Raised) × ((without_ack crm services r).1 ≡ inl e)
    none-error (w, some e) h = (e, refl)
    none-error (w, none) h = absurd (ground (arith, h))

    end-refused :
        (k : OutboxKind)
        → is_terminal k ≡ true
        → (m : OutboxRow) (crm_run_id token : String) (w : W)
        → (e : Raised) × ((deliver_message crm services
              (record m { kind = k })
              crm_run_id
              token
              w).1
            ≡ inl e)
    unfolding deliver_message
    end-refused events h m crm_run_id token w = absurd (ground (arith, h))
    end-refused candidates h m crm_run_id token w = absurd (ground (arith, h))
    end-refused complete h m crm_run_id token w =
        elim (Sum-cases (services.parse_report m.payload)) [
          | inl (e, p) ↦ rw (deliver_message, p) (e, refl)
          | inr (r, p) ↦
              rw (deliver_message, p)
                (none-error _ (no_completion crm_run_id token r m.idempotency_key none w))
        ]
    end-refused fail h m crm_run_id token w = elim (Sum-cases (services.parse_error m.payload)) [
      | inl (e, p) ↦ rw (deliver_message, p) (e, refl)
      | inr (t, p) ↦
          rw (deliver_message, p)
            (none-error _ (no_failure crm_run_id token t m.idempotency_key none w))
    ]

    module _ (run_id : ℕ) (crm_run_id token : String) where
      one-statuses :
          (m : OutboxRow) (s : Store) (w : W)
          → statuses (deliver_one crm services run_id crm_run_id token m s w).0.0.runs
            ≡ statuses s.runs
      unfolding deliver_one
      one-statuses m s w = elim (Bool-cases (is_terminal m.kind)) [
        | inl t ↦
            let r = end-refused m.kind t m crm_run_id token w in
            rw (deliver_one, r.1) (failed-statuses r.0.error_class m r.0 s _)
        | inr t ↦ elim (Sum-cases (deliver_message crm services m crm_run_id token w).1) [
          | inl (e, p) ↦ rw (deliver_one, p) (failed-statuses e.error_class m e s _)
          | inr (ack, p) ↦ rw (deliver_one, p) (accepted-statuses m.kind t run_id m ack s _)
        ]
      ]

      each-statuses :
          (ms : List OutboxRow) (s : Store) (w : W)
          → statuses (deliver_each crm services run_id crm_run_id token ms s w).0.0.runs
            ≡ statuses s.runs
      unfolding deliver_each
      each-statuses [] s w = refl
      each-statuses (m ∷ ms) s w =
          let d = deliver_one crm services run_id crm_run_id token m s w in
          elim (Turn-cases d.1) [
            | inl e ↦ rw (deliver_each, e) (each-statuses ms d.0.0 d.0.1 ∙ one-statuses m s w)
            | inr (o, e) ↦ rw (deliver_each, e) (one-statuses m s w)
          ]

      delivery-statuses :
          (fuel : ℕ) (s : Store) (w : W)
          → statuses (deliver_outbox crm services fuel run_id crm_run_id token s w).0.0.runs
            ≡ statuses s.runs
      unfolding deliver_outbox
      delivery-statuses zero s w = refl
      delivery-statuses (suc fuel) s w =
          let t = services.now_utc w in
          elim (List-cases (get_outbox run_id 50 t.1 s.outbox)) [
            | inl e ↦ rw (deliver_outbox, e) refl
            | inr (m, ms, e) ↦
                let d = deliver_each crm services run_id crm_run_id token (m ∷ ms) s t.0 in
                elim (Turn-cases d.1) [
                  | inl n ↦
                      rw (deliver_outbox, e, n)
                        (delivery-statuses fuel d.0.0 d.0.1 ∙ each-statuses (m ∷ ms) s t.0)
                  | inr (o, n) ↦ rw (deliver_outbox, e, n) (each-statuses (m ∷ ms) s t.0)
                ]
          ]

    replay-refused :
        (k : OutboxKind) (r : TerminalOutboxReplay) (w : W)
        → (e : Raised) × ((deliver_terminal_replay crm services
              (record r { message = record r.message { kind = k } })
              w).1
            ≡ some e)
    unfolding deliver_terminal_replay
    replay-refused events r w = (_, refl)
    replay-refused candidates r w = (_, refl)
    replay-refused complete r w = elim (Sum-cases (services.parse_report r.message.payload)) [
      | inl (e, p) ↦ rw (deliver_terminal_replay, p) (e, refl)
      | inr (x, p) ↦
          rw (deliver_terminal_replay, p)
            (is_some-cases _ (
              no_completion r.crm_run_id r.lease_token x r.message.idempotency_key
                (some r.worker_id) w))
    ]
    replay-refused fail r w = elim (Sum-cases (services.parse_error r.message.payload)) [
      | inl (e, p) ↦ rw (deliver_terminal_replay, p) (e, refl)
      | inr (x, p) ↦
          rw (deliver_terminal_replay, p)
            (is_some-cases _ (
              no_failure r.crm_run_id r.lease_token x r.message.idempotency_key (some r.worker_id)
                w))
    ]

    replay-statuses :
        (r : TerminalOutboxReplay) (s : Store) (w : W)
        → ((reconcile crm services r s w).1 ≡ none)
          × (statuses (reconcile crm services r s w).0.0.runs ≡ statuses s.runs)
    unfolding reconcile mark_failed
    replay-statuses r s w =
        let e = replay-refused r.message.kind r w in rw (reconcile, e.1) (refl, refl)

    replays-statuses :
        (rs : List TerminalOutboxReplay) (s : Store) (w : W)
        → statuses (reconcile_each crm services rs s w).0.0.runs ≡ statuses s.runs
    unfolding reconcile_each
    replays-statuses [] s w = refl
    replays-statuses (r ∷ rs) s w =
        let one = replay-statuses r s w in
        rw (reconcile_each, one.0) (replays-statuses rs _ _ ∙ one.1)

    -- While the CRM accepts the end of no run, neither the delivery of an outbox nor the replay of
    -- terminal messages changes the status of any run.
    pub deliver-statuses :
        (fuel run_id : ℕ) (crm_run_id token : String) (s : Store) (w : W)
        → (statuses (deliver_outbox crm services fuel run_id crm_run_id token s w).0.0.runs
            ≡ statuses s.runs)
          × (statuses (reconcile_terminal_outbox crm services s w).0.0.runs ≡ statuses s.runs)
    unfolding reconcile_terminal_outbox
    deliver-statuses fuel run_id crm_run_id token s w = (
      delivery-statuses run_id crm_run_id token fuel s w,
      replays-statuses (pending_terminal_replays 50 s) s w,
    )
