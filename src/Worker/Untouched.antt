-- ===== src/Worker/Untouched.antt =====
-- The delivery of an outbox leaves the table of tasks as it was.
use agente_inteligente_comer.Prelude.{
  ℕ, zero, suc, String, ◌≡◌, refl, ◌∙◌, List, [], ◌∷◌, Option, none, some, ltb, ◌==◌, inl, inr,
  Bool-cases, Sum-cases, length,
}
use agente_inteligente_comer.Store.{
  OutboxRow, Store, OutboxKind, events, candidates, complete, fail, Payload, items, object,
  is_candidates,
}
use agente_inteligente_comer.Outbox.{CandidateBatchAck, get_outbox}
use agente_inteligente_comer.Outbox.Untouched.{discard-tasks, ack-tasks, end-tasks}
use agente_inteligente_comer.Worker.{
  safe_error, CrmPort, Services, ErrorClass, Raised, finalize_outbox_delivery, isolate, refused,
  failed, record_ack, accepted, deliver_message, deliver_one, deliver_each, deliver_outbox,
  mark_failed,
}
use agente_inteligente_comer.Worker.Termination.{List-cases, Turn-cases}

module _ {W : Type 0} (crm : CrmPort W) (services : Services W) where
  isolate-tasks :
      (p : Payload) (m : OutboxRow) (e : Raised) (s : Store) (w : W)
      → (isolate crm services (record m { payload = p }) e s w).0.0.tasks ≡ s.tasks
  unfolding isolate
  isolate-tasks (object x) m e s w = refl
  isolate-tasks (items xs) m e s w = elim (Bool-cases (is_candidates m.kind)) [
    | inr k ↦ rw (isolate, k) refl
    | inl k ↦ elim (Bool-cases (ltb 1 (length xs))) [
      | inl l ↦ rw (isolate, k, l) refl
      | inr l ↦ elim (Bool-cases (length xs == 1)) [
        | inl o ↦
            rw (isolate, k, l, o)
              (discard-tasks m.id (safe_error crm services e) (services.now_utc w).1 s)
        | inr o ↦ rw (isolate, k, l, o) refl
      ]
    ]
  ]

  refused-tasks :
      (m : OutboxRow) (e : Raised) (s : Store) (w : W)
      → (refused crm services m e s w).0.0.tasks ≡ s.tasks
  unfolding refused mark_failed
  refused-tasks m e s w = elim (Bool-cases (isolate crm services m e s w).1) [
    | inl i ↦ rw (refused, i) (isolate-tasks m.payload m e s w)
    | inr i ↦ rw (refused, i) (isolate-tasks m.payload m e s w)
  ]

  failed-tasks :
      (c : ErrorClass) (m : OutboxRow) (e : Raised) (s : Store) (w : W)
      → (failed crm services m (record e { error_class = c }) s w).0.0.tasks ≡ s.tasks
  unfolding failed mark_failed
  failed-tasks ErrorClass.lease_lost m e s w = refl
  failed-tasks ErrorClass.retryable m e s w = refl
  failed-tasks ErrorClass.permanent m e s w = refused-tasks m _ s w
  failed-tasks ErrorClass.value_error m e s w = refused-tasks m _ s w
  failed-tasks ErrorClass.conflict m e s w = refl
  failed-tasks ErrorClass.other m e s w = refl

  recorded-tasks :
      (run_id : ℕ) (m : OutboxRow) (ack : Option CandidateBatchAck) (s : Store) (w : W)
      → (record_ack crm services run_id m ack s w).0.tasks ≡ s.tasks
  unfolding record_ack
  recorded-tasks run_id m none s w = refl
  recorded-tasks run_id m (some ack) s w = ack-tasks run_id m.id ack (services.now_utc w).1 s

  finalized-tasks :
      (k : OutboxKind) (run_id : ℕ) (m : OutboxRow) (s : Store) (w : W)
      → (finalize_outbox_delivery crm services run_id (record m { kind = k }) s w).0.0.tasks
        ≡ s.tasks
  unfolding finalize_outbox_delivery
  finalized-tasks events run_id m s w = refl
  finalized-tasks candidates run_id m s w = refl
  finalized-tasks complete run_id m s w = elim (Sum-cases (services.parse_report m.payload)) [
    | inl (e, p) ↦ rw (finalize_outbox_delivery, p) refl
    | inr (r, p) ↦ rw (finalize_outbox_delivery, p) (end-tasks run_id m.id _ _ _ _ s)
  ]
  finalized-tasks fail run_id m s w = elim (Sum-cases (services.parse_error m.payload)) [
    | inl (e, p) ↦ rw (finalize_outbox_delivery, p) refl
    | inr (t, p) ↦ rw (finalize_outbox_delivery, p) (end-tasks run_id m.id _ _ _ _ s)
  ]

  accepted-tasks :
      (run_id : ℕ) (m : OutboxRow) (ack : Option CandidateBatchAck) (s : Store) (w : W)
      → (accepted crm services run_id m ack s w).0.0.tasks ≡ s.tasks
  unfolding accepted
  accepted-tasks run_id m ack s w =
      let a = record_ack crm services run_id m ack s w in
      finalized-tasks m.kind run_id m a.0 a.1 ∙ recorded-tasks run_id m ack s w

  module _ (run_id : ℕ) (crm_run_id token : String) where
    one-tasks :
        (m : OutboxRow) (s : Store) (w : W)
        → (deliver_one crm services run_id crm_run_id token m s w).0.0.tasks ≡ s.tasks
    unfolding deliver_one
    one-tasks m s w = elim (Sum-cases (deliver_message crm services m crm_run_id token w).1) [
      | inl (e, p) ↦ rw (deliver_one, p) (failed-tasks e.error_class m e s _)
      | inr (ack, p) ↦ rw (deliver_one, p) (accepted-tasks run_id m ack s _)
    ]

    each-tasks :
        (ms : List OutboxRow) (s : Store) (w : W)
        → (deliver_each crm services run_id crm_run_id token ms s w).0.0.tasks ≡ s.tasks
    unfolding deliver_each
    each-tasks [] s w = refl
    each-tasks (m ∷ ms) s w =
        let d = deliver_one crm services run_id crm_run_id token m s w in
        elim (Turn-cases d.1) [
          | inl e ↦ rw (deliver_each, e) (each-tasks ms d.0.0 d.0.1 ∙ one-tasks m s w)
          | inr (o, e) ↦ rw (deliver_each, e) (one-tasks m s w)
        ]

    pub delivery-tasks :
        (fuel : ℕ) (s : Store) (w : W)
        → (deliver_outbox crm services fuel run_id crm_run_id token s w).0.0.tasks ≡ s.tasks
    unfolding deliver_outbox
    delivery-tasks zero s w = refl
    delivery-tasks (suc fuel) s w =
        let t = services.now_utc w in
        elim (List-cases (get_outbox run_id 50 t.1 s.outbox)) [
          | inl e ↦ rw (deliver_outbox, e) refl
          | inr (m, ms, e) ↦
              let d = deliver_each crm services run_id crm_run_id token (m ∷ ms) s t.0 in
              elim (Turn-cases d.1) [
                | inl n ↦
                    rw (deliver_outbox, e, n)
                      (delivery-tasks fuel d.0.0 d.0.1 ∙ each-tasks (m ∷ ms) s t.0)
                | inr (o, n) ↦ rw (deliver_outbox, e, n) (each-tasks (m ∷ ms) s t.0)
              ]
        ]
