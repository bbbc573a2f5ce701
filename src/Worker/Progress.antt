-- ===== src/Worker/Progress.antt =====
-- What each turn of a delivery does to the outbox: it stops the delivery, or makes the outbox lighter.
use agente_inteligente_comer.Prelude.{
  ℕ, ◌≤◌, ◌<◌, String, ◌≡◌, refl, ap, ◌∙◌, Bool, true, false, not, Option, none, some, arith, ltb,
  ◌==◌, inl, inr, ◌⊎◌, Bool-cases, Sum-cases, length,
}
use agente_inteligente_comer.Store.{
  message_key, Stats, OutboxRow, Store, OutboxKind, events, candidates, complete, fail, Payload,
  items, object, is_candidates,
}
use agente_inteligente_comer.Contracts.{RunStatus}
use agente_inteligente_comer.Table.{modify}
use agente_inteligente_comer.Outbox.{
  deliver, CandidateBatchAck, finalize_terminal_outbox, mark_outbox_delivered,
}
use agente_inteligente_comer.Outbox.Weight.{load, load-split, load-discard}
use agente_inteligente_comer.Outbox.Closing.{
  has_run, queued_as, has_run-discard, has_run-ack, has_run-finalize, ack_cases, finalize_cases,
  finalize_there, load-deliver_le, load-deliver,
}
use agente_inteligente_comer.Worker.{
  safe_error, turn_of, CrmPort, Services, Raised, ErrorClass, Outcome, Turn, returned, raised,
  running, next, stop, finalize_outbox_delivery, isolate, refused, failed, record_ack, accepted,
  deliver_message, deliver_one, mark_failed,
}

abbrev pub goes_on : Turn → Bool
goes_on next = true
goes_on (stop _) = false

-- A turn that does not go on gives the error of an invalid payload, or False.
abbrev pub halts : Turn → Bool
halts next = true
halts (stop (returned b)) = not b
halts (stop (raised e)) = true
halts (stop running) = false

-- What a turn leaves behind for the next one.
pub record Progress (run_id id : ℕ) (s : Store) (turn : Turn) (s' : Store) : Type 0 where
  pub ended : halts turn ≡ true
  pub kept : has_run run_id s' ≡ true
  pub le : goes_on turn ≡ true → load s'.outbox ≤ load s.outbox
  pub lt : goes_on turn ≡ true → queued_as id s.outbox ≡ true → load s'.outbox < load s.outbox

module _ {W : Type 0} (crm : CrmPort W) (services : Services W) (run_id : ℕ) where
  ack-run :
      (m : OutboxRow) (ack : Option CandidateBatchAck) (s : Store) (w : W)
      → has_run run_id (record_ack crm services run_id m ack s w).0 ≡ has_run run_id s
  unfolding record_ack
  ack-run m none s w = refl
  ack-run m (some ack) s w = has_run-ack run_id run_id m.id ack (services.now_utc w).1 s

  ack_split :
      (m : OutboxRow) (ack : Option CandidateBatchAck) (s : Store) (w : W)
      → ((record_ack crm services run_id m ack s w).0.outbox ≡ s.outbox)
        ⊎ ((now : ℕ) × ((record_ack crm services run_id m ack s w).0.outbox
              ≡ modify message_key m.id (deliver now) s.outbox))
  unfolding record_ack
  ack_split m none s w = inl refl
  ack_split m (some ack) s w = elim (ack_cases run_id m.id ack (services.now_utc w).1 s) [
    | inl e ↦ inl e
    | inr e ↦ inr ((services.now_utc w).1, e)
  ]

  closed_by :
      (id now : ℕ) (s : Store)
      → has_run run_id s ≡ true
      → Progress run_id id s next
          (record s { outbox = modify message_key id (deliver now) s.outbox })
  closed_by id now s h = record {
    ended = refl;
    kept = h;
    le = λ _. load-deliver_le id now s.outbox;
    lt = λ _ q. load-deliver id now s.outbox q;
  }

  ended_by :
      (id now : ℕ) (status : RunStatus) (stats : Option Stats) (error : Option String) (s : Store)
      → has_run run_id s ≡ true
      → Progress run_id id s next (finalize_terminal_outbox run_id id status stats error now s)
  ended_by id now status stats error s h = record {
    ended = refl;
    kept = has_run-finalize run_id run_id id status stats error now s ∙ h;
    le = λ _. elim (finalize_cases run_id id status stats error now s) [
      | inl e ↦ rw e (omega arith)
      | inr e ↦ rw e (load-deliver_le id now s.outbox)
    ];
    lt = λ _ q.
        rw (finalize_there run_id id status stats error now s h q) (load-deliver id now s.outbox q);
  }

  stopped :
      (id : ℕ) (o : Outcome) (s s' : Store)
      → halts (stop o) ≡ true
      → has_run run_id s' ≡ true
      → Progress run_id id s (stop o) s'
  stopped id o s s' k h = record {
    ended = k;
    kept = h;
    le = λ e. absurd (ground (arith, e));
    lt = λ e _. absurd (ground (arith, e));
  }

  finalize-Progress :
      (k : OutboxKind) (m : OutboxRow) (s : Store) (w : W)
      → has_run run_id s ≡ true
      → let f = finalize_outbox_delivery crm services run_id (record m { kind = k }) s w in
        Progress run_id m.id s (turn_of crm services f.1) f.0.0
  unfolding finalize_outbox_delivery mark_outbox_delivered
  finalize-Progress events m s w h = closed_by m.id (services.now_utc w).1 s h
  finalize-Progress candidates m s w h = closed_by m.id (services.now_utc w).1 s h
  finalize-Progress complete m s w h = elim (Sum-cases (services.parse_report m.payload)) [
    | inl (e, p) ↦ rw (finalize_outbox_delivery, p) (stopped m.id (raised e) s s refl h)
    | inr (r, p) ↦
        rw (finalize_outbox_delivery, p)
          (ended_by m.id (services.now_utc w).1 r.status (some r.stats) none s h)
  ]
  finalize-Progress fail m s w h = elim (Sum-cases (services.parse_error m.payload)) [
    | inl (e, p) ↦ rw (finalize_outbox_delivery, p) (stopped m.id (raised e) s s refl h)
    | inr (x, p) ↦
        rw (finalize_outbox_delivery, p)
          (ended_by m.id (services.now_utc w).1 RunStatus.failed none (some x) s h)
  ]

  -- A turn after another that kept the outbox, or delivered the message.
  after :
      (id : ℕ) (s s' s'' : Store) (turn : Turn)
      → (s'.outbox ≡ s.outbox)
        ⊎ ((now : ℕ) × (s'.outbox ≡ modify message_key id (deliver now) s.outbox))
      → Progress run_id id s' turn s''
      → Progress run_id id s turn s''
  after id s s' s'' turn (inl e) p = record {
    ended = p.ended;
    kept = p.kept;
    le = λ g. rw (← e) (p.le g);
    lt = λ g q. rw (← e) (p.lt g (rw e q));
  }
  after id s s' s'' turn (inr (now, e)) p = record {
    ended = p.ended;
    kept = p.kept;
    le = λ g. omega (arith, p.le g, load-deliver_le id now s.outbox, e');
    lt = λ g q. omega (arith, p.le g, load-deliver id now s.outbox q, e');
  }
    where
      e' : load s'.outbox ≡ load (modify message_key id (deliver now) s.outbox)
      e' = ap load e

  accepted-Progress :
      (m : OutboxRow) (ack : Option CandidateBatchAck) (s : Store) (w : W)
      → has_run run_id s ≡ true
      → let r = accepted crm services run_id m ack s w in Progress run_id m.id s r.1 r.0.0
  unfolding accepted
  accepted-Progress m ack s w h =
      let a = record_ack crm services run_id m ack s w in
      after m.id s a.0 _ _ (ack_split m ack s w)
        (finalize-Progress m.kind m a.0 a.1 (ack-run m ack s w ∙ h))

  isolate-run :
      (p : Payload) (m : OutboxRow) (e : Raised) (s : Store) (w : W)
      → has_run run_id (isolate crm services (record m { payload = p }) e s w).0.0
        ≡ has_run run_id s
  unfolding isolate
  isolate-run (object x) m e s w = refl
  isolate-run (items xs) m e s w = elim (Bool-cases (is_candidates m.kind)) [
    | inr k ↦ rw (isolate, k) refl
    | inl k ↦ elim (Bool-cases (ltb 1 (length xs))) [
      | inl l ↦ rw (isolate, k, l) refl
      | inr l ↦ elim (Bool-cases (length xs == 1)) [
        | inl o ↦
            rw (isolate, k, l, o)
              (has_run-discard run_id m.id (safe_error crm services e) (services.now_utc w).1 s)
        | inr o ↦ rw (isolate, k, l, o) refl
      ]
    ]
  ]

  isolate-load :
      (p : Payload) (m : OutboxRow) (e : Raised) (s : Store) (w : W)
      → (isolate crm services (record m { payload = p }) e s w).1 ≡ true
      → load (isolate crm services (record m { payload = p }) e s w).0.0.outbox < load s.outbox
  unfolding isolate
  isolate-load (object x) m e s w h = absurd (ground (arith, h))
  isolate-load (items xs) m e s w h = elim (Bool-cases (is_candidates m.kind)) [
    | inr k ↦ absurd (ground (arith, h, k))
    | inl k ↦ elim (Bool-cases (ltb 1 (length xs))) [
      | inl l ↦ rw (isolate, k, l) (load-split _ m.id _ _ s.outbox (rw (isolate, k, l) at h))
      | inr l ↦ elim (Bool-cases (length xs == 1)) [
        | inl o ↦ rw (isolate, k, l, o) (load-discard m.id _ _ s (rw (isolate, k, l, o) at h))
        | inr o ↦ absurd (ground (arith, h, k, l, o))
      ]
    ]
  ]

  refused-Progress :
      (m : OutboxRow) (e : Raised) (s : Store) (w : W)
      → has_run run_id s ≡ true
      → let r = refused crm services m e s w in Progress run_id m.id s r.1 r.0.0
  unfolding refused mark_failed
  refused-Progress m e s w h = elim (Bool-cases (isolate crm services m e s w).1) [
    | inl i ↦
        let l = isolate-load m.payload m e s w i in
        rw (refused, i)
          (record {
            ended = refl;
            kept = isolate-run m.payload m e s w ∙ h;
            le = λ _. omega (arith, l);
            lt = λ _ _. l;
          })
    | inr i ↦ rw (refused, i) (stopped m.id _ s _ refl (isolate-run m.payload m e s w ∙ h))
  ]

  failed-Progress :
      (c : ErrorClass) (m : OutboxRow) (e : Raised) (s : Store) (w : W)
      → has_run run_id s ≡ true
      → let r = failed crm services m (record e { error_class = c }) s w in
        Progress run_id m.id s r.1 r.0.0
  unfolding failed mark_failed
  failed-Progress ErrorClass.lease_lost m e s w h = stopped m.id _ s _ refl h
  failed-Progress ErrorClass.retryable m e s w h = stopped m.id _ s _ refl h
  failed-Progress ErrorClass.permanent m e s w h = refused-Progress m _ s w h
  failed-Progress ErrorClass.value_error m e s w h = refused-Progress m _ s w h
  failed-Progress ErrorClass.conflict m e s w h = stopped m.id _ s _ refl h
  failed-Progress ErrorClass.other m e s w h = stopped m.id _ s _ refl h

  pub turn-Progress :
      (crm_run_id lease_token : String) (m : OutboxRow) (s : Store) (w : W)
      → has_run run_id s ≡ true
      → let r = deliver_one crm services run_id crm_run_id lease_token m s w in
        Progress run_id m.id s r.1 r.0.0
  unfolding deliver_one
  turn-Progress crm_run_id lease_token m s w h =
      elim (Sum-cases (deliver_message crm services m crm_run_id lease_token w).1) [
        | inl (e, p) ↦ rw (deliver_one, p) (failed-Progress e.error_class m e s _ h)
        | inr (ack, p) ↦ rw (deliver_one, p) (accepted-Progress m ack s _ h)
      ]
