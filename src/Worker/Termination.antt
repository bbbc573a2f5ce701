-- ===== src/Worker/Termination.antt =====
-- The delivery of an outbox ends: each round closes or splits a message.
use agente_inteligente_comer.Prelude.{
  ℕ, zero, suc, ◌≤◌, ◌<◌, String, ◌≡◌, refl, Bool, true, false, ◌&&◌, List, [], ◌∷◌, arith, inl,
  inr, ◌⊎◌,
}
use agente_inteligente_comer.Store.{OutboxRow, Store}
use agente_inteligente_comer.Outbox.{get_outbox, has_pending_outbox}
use agente_inteligente_comer.Outbox.Weight.{load}
use agente_inteligente_comer.Outbox.Closing.{get_outbox-queued, has_run, queued_as}
use agente_inteligente_comer.Worker.{
  CrmPort, Services, Outcome, Turn, returned, raised, running, next, stop, deliver_one,
  deliver_each, deliver_outbox,
}
use agente_inteligente_comer.Worker.Progress.{goes_on, halts, turn-Progress}

abbrev pub has_ended : Outcome → Bool
has_ended running = false
has_ended _ = true

-- `True`.
abbrev pub all_sent : Outcome → Bool
all_sent (returned b) = b
all_sent _ = false

pub List-cases :
    (ms : List OutboxRow)
    → (ms ≡ []) ⊎ ((m : OutboxRow) × (rest : List OutboxRow) × (ms ≡ m ∷ rest))
List-cases [] = inl refl
List-cases (m ∷ ms) = inr (m, ms, refl)

pub Turn-cases : (t : Turn) → (t ≡ next) ⊎ ((o : Outcome) × (t ≡ stop o))
Turn-cases next = inl refl
Turn-cases (stop o) = inr (o, refl)

module _ {W : Type 0} (crm : CrmPort W) (services : Services W) (run_id : ℕ)
    (crm_run_id lease_token : String) where
  -- The first message of a round is queued.
  abbrev first_queued : List OutboxRow → List OutboxRow → Bool
  first_queued [] outbox = false
  first_queued (m ∷ ms) outbox = queued_as m.id outbox

  record Pass (ms : List OutboxRow) (s : Store) (turn : Turn) (s' : Store) : Type 0 where
    ended : halts turn ≡ true
    kept : has_run run_id s' ≡ true
    le : goes_on turn ≡ true → load s'.outbox ≤ load s.outbox
    lt : goes_on turn ≡ true → first_queued ms s.outbox ≡ true → load s'.outbox < load s.outbox

  each-Pass :
      (ms : List OutboxRow) (s : Store) (w : W)
      → has_run run_id s ≡ true
      → let r = deliver_each crm services run_id crm_run_id lease_token ms s w in
        Pass ms s r.1 r.0.0
  unfolding deliver_each
  each-Pass [] s w h = record {
    ended = refl;
    kept = h;
    le = λ _. omega arith;
    lt = λ _ q. absurd (ground (arith, q));
  }
  each-Pass (m ∷ ms) s w h =
      let d = deliver_one crm services run_id crm_run_id lease_token m s w in
      let p = turn-Progress crm services run_id crm_run_id lease_token m s w h in
      let rest = each-Pass ms d.0.0 d.0.1 p.kept in
      elim (Turn-cases d.1) [
        | inl e ↦
            rw (deliver_each, e)
              (record {
                ended = rest.ended;
                kept = rest.kept;
                le = λ g. omega (arith, rest.le g, p.le (rw e refl));
                lt = λ g q. omega (arith, rest.le g, p.lt (rw e refl) q);
              })
        | inr (o, e) ↦
            rw (deliver_each, e)
              (record {
                ended = rw e at p.ended;
                kept = p.kept;
                le = λ g. absurd (ground (arith, g));
                lt = λ g _. absurd (ground (arith, g));
              })
      ]

  Outcome-halts :
      (o : Outcome) (s : Store)
      → halts (stop o) ≡ true
      → (has_ended o ≡ true) × ((all_sent o && has_pending_outbox run_id s.outbox) ≡ false)
  Outcome-halts (returned true) s h = absurd (ground (arith, h))
  Outcome-halts (returned false) s h = (refl, refl)
  Outcome-halts (raised e) s h = (refl, refl)
  Outcome-halts running s h = absurd (ground (arith, h))

  -- The delivery of the outbox of a run that is there ends within as many rounds as the weight of the
  -- open messages and one more; and where it returns True, no message of the run is queued.
  pub deliver_outbox-ends :
      (fuel : ℕ) (s : Store) (w : W)
      → load s.outbox < fuel
      → has_run run_id s ≡ true
      → let r = deliver_outbox crm services fuel run_id crm_run_id lease_token s w in
        (has_ended r.1 ≡ true) × ((all_sent r.1 && has_pending_outbox run_id r.0.0.outbox) ≡ false)
  unfolding deliver_outbox
  deliver_outbox-ends zero s w l h = absurd (omega (arith, l))
  deliver_outbox-ends (suc fuel) s w l h =
      let t = services.now_utc w in
      elim (List-cases (get_outbox run_id 50 t.1 s.outbox)) [
        | inl e ↦ rw (deliver_outbox, e) (refl, ground arith)
        | inr (m, ms, e) ↦
            let d = deliver_each crm services run_id crm_run_id lease_token (m ∷ ms) s t.0 in
            let p = each-Pass (m ∷ ms) s t.0 h in
            let q = get_outbox-queued run_id 50 t.1 s.outbox in
            let queued : queued_as m.id s.outbox ≡ true = (rw e at q).0 in
            elim (Turn-cases d.1) [
              | inl n ↦
                  rw (deliver_outbox, e, n)
                    (deliver_outbox-ends fuel d.0.0 d.0.1
                      (omega (arith, l, p.lt (rw n refl) queued)) p.kept)
              | inr (o, n) ↦ rw (deliver_outbox, e, n) (Outcome-halts o d.0.0 (rw n at p.ended))
            ]
      ]
