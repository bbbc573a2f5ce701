-- ===== src/Outbox/Untouched.antt =====
-- The calls of the outbox that leave the table of tasks as it was.
use agente_inteligente_comer.Prelude.{
  ℕ, String, ◌≡◌, refl, Option, ◌==◌, inl, inr, Bool-cases, Option-cases, length,
}
use agente_inteligente_comer.Contracts.{RunStatus}
use agente_inteligente_comer.Table.{get}
use agente_inteligente_comer.Store.{Stats, Store, is_delivered, run_key, message_key}
use agente_inteligente_comer.Outbox.{
  CandidateBatchAck, open_batch, discard_candidate_outbox, record_candidate_ack,
  finalize_terminal_outbox,
}

pub discard-tasks :
    (id : ℕ) (error : String) (now : ℕ) (s : Store)
    → (discard_candidate_outbox id error now s).0.tasks ≡ s.tasks
unfolding discard_candidate_outbox
discard-tasks id error now s = elim (Option-cases (get message_key id s.outbox)) [
  | inl e ↦ rw (discard_candidate_outbox, e) refl
  | inr (m, e) ↦ elim (Option-cases (open_batch m)) [
    | inl o ↦ rw (discard_candidate_outbox, e, o) refl
    | inr (xs, o) ↦ elim (Bool-cases (length xs == 1)) [
      | inl one ↦ rw (discard_candidate_outbox, e, o, one) refl
      | inr other ↦ rw (discard_candidate_outbox, e, o, other) refl
    ]
  ]
]

pub ack-tasks :
    (i id : ℕ) (ack : CandidateBatchAck) (now : ℕ) (s : Store)
    → (record_candidate_ack i id ack now s).tasks ≡ s.tasks
unfolding record_candidate_ack
ack-tasks i id ack now s = elim (Option-cases (get run_key i s.runs)) [
  | inl e ↦ rw (record_candidate_ack, e) refl
  | inr (r, e) ↦ elim (Option-cases (get message_key id s.outbox)) [
    | inl g ↦ rw (record_candidate_ack, e, g) refl
    | inr (m, g) ↦ elim (Bool-cases (is_delivered m.status)) [
      | inl d ↦ rw (record_candidate_ack, e, g, d) refl
      | inr d ↦ rw (record_candidate_ack, e, g, d) refl
    ]
  ]
]

pub end-tasks :
    (i id : ℕ) (status : RunStatus) (stats : Option Stats) (error : Option String) (now : ℕ)
    (s : Store)
    → (finalize_terminal_outbox i id status stats error now s).tasks ≡ s.tasks
unfolding finalize_terminal_outbox
end-tasks i id status stats error now s = elim (Option-cases (get run_key i s.runs)) [
  | inl e ↦ rw (finalize_terminal_outbox, e) refl
  | inr (r, e) ↦ elim (Option-cases (get message_key id s.outbox)) [
    | inl g ↦ rw (finalize_terminal_outbox, e, g) refl
    | inr (m, g) ↦ rw (finalize_terminal_outbox, e, g) refl
  ]
]
