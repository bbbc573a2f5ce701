-- ===== src/Outbox/Statuses.antt =====
-- The calls of the outbox that leave the status of every run.
use agente_inteligente_comer.Prelude.{
  ℕ, String, ◌≡◌, refl, List, [], ◌∷◌, ◌==◌, inl, inr, Bool-cases, Option-cases, map, length,
}
use agente_inteligente_comer.Contracts.{RunStatus}
use agente_inteligente_comer.Table.{get, modify}
use agente_inteligente_comer.Store.{RunRow, Store, run_key, message_key, is_delivered}
use agente_inteligente_comer.Outbox.{
  open_batch, CandidateBatchAck, acknowledge, record_candidate_ack, discard_candidate_outbox, bump,
}

pub statuses : List RunRow → List (ℕ × RunStatus)
statuses runs = map (λ r. (r.id, r.status)) runs

statuses-modify :
    (i : ℕ) (f : RunRow → RunRow)
    → ((r : RunRow) → (f r).id ≡ r.id)
    → ((r : RunRow) → (f r).status ≡ r.status)
    → (runs : List RunRow) → statuses (modify run_key i f runs) ≡ statuses runs
unfolding statuses modify
statuses-modify i f ids keeps [] = refl
statuses-modify i f ids keeps (r ∷ runs) = elim (Bool-cases (r.id == i)) [
  | inl e ↦ rw (e, ids r, keeps r, statuses-modify i f ids keeps runs) refl
  | inr e ↦ rw (e, statuses-modify i f ids keeps runs) refl
]

pub statuses-discard :
    (id : ℕ) (error : String) (now : ℕ) (s : Store)
    → statuses (discard_candidate_outbox id error now s).0.runs ≡ statuses s.runs
unfolding discard_candidate_outbox
statuses-discard id error now s = elim (Option-cases (get message_key id s.outbox)) [
  | inl e ↦ rw (discard_candidate_outbox, e) refl
  | inr (m, e) ↦ elim (Option-cases (open_batch m)) [
    | inl o ↦ rw (discard_candidate_outbox, e, o) refl
    | inr (xs, o) ↦ elim (Bool-cases (length xs == 1)) [
      | inl one ↦
          rw (discard_candidate_outbox, e, o, one)
            (statuses-modify m.run_id (λ r. record r { stats = bump "rejected_invalid" 1 r.stats })
              (λ r. refl) (λ r. refl) s.runs)
      | inr other ↦ rw (discard_candidate_outbox, e, o, other) refl
    ]
  ]
]

pub statuses-ack :
    (i id : ℕ) (ack : CandidateBatchAck) (now : ℕ) (s : Store)
    → statuses (record_candidate_ack i id ack now s).runs ≡ statuses s.runs
unfolding record_candidate_ack acknowledge
statuses-ack i id ack now s = elim (Option-cases (get run_key i s.runs)) [
  | inl e ↦ rw (record_candidate_ack, e) refl
  | inr (r, e) ↦ elim (Option-cases (get message_key id s.outbox)) [
    | inl g ↦ rw (record_candidate_ack, e, g) refl
    | inr (m, g) ↦ elim (Bool-cases (is_delivered m.status)) [
      | inl d ↦ rw (record_candidate_ack, e, g, d) refl
      | inr d ↦
          rw (record_candidate_ack, e, g, d)
            (statuses-modify i (acknowledge ack) (λ r. refl) (λ r. refl) s.runs)
    ]
  ]
]
