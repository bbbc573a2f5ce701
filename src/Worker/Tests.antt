-- ===== src/Worker/Tests.antt =====
-- Deliveries of concrete outboxes.
use agente_inteligente_comer.Prelude.{◌≡◌, refl, true, false, ◌&&◌, arith, total}
use agente_inteligente_comer.Table.{get}
use agente_inteligente_comer.Outbox.{has_pending_outbox}
use agente_inteligente_comer.Outbox.Statuses.{statuses}
use agente_inteligente_comer.Worker.{deliver_outbox}
use agente_inteligente_comer.Worker.Replay.{reconcile_terminal_outbox}
use agente_inteligente_comer.Worker.Termination.{has_ended, all_sent, deliver_outbox-ends}
use agente_inteligente_comer.Worker.Acceptance.{deliver-statuses}
use agente_inteligente_comer.Worker.Samples.{crm, services, store, ending}

deliver_outbox-ends_example :
    let r = deliver_outbox crm services 4 7 "run" "lease" store 10 in
    (has_ended r.1 ≡ true) × ((all_sent r.1 && has_pending_outbox 7 r.0.0.outbox) ≡ false)
unfolding get
deliver_outbox-ends_example =
    deliver_outbox-ends crm services 7 "run" "lease" 4 store 10 (unfold total in omega arith) refl

deliver-statuses_example :
    (statuses (deliver_outbox crm services 9 7 "run" "lease" ending 10).0.0.runs
      ≡ statuses ending.runs)
    × (statuses (reconcile_terminal_outbox crm services ending 10).0.0.runs ≡ statuses ending.runs)
deliver-statuses_example =
    deliver-statuses crm services (λ _ _ _ _ _ _. refl) (λ _ _ _ _ _ _. refl) 9 7 "run" "lease"
      ending 10
