-- ===== src/Candidates/Queued.antt =====
-- The message for the CRM that a save leaves in the outbox.
use agente_inteligente_comer.Prelude.{
  ℕ, ◌≡◌, refl, Bool, true, false, ◌||◌, List, [], ◌∷◌, ◌++◌, inl, inr, any, map, Bool-cases, ◌⊎◌,
}
use agente_inteligente_comer.Tasks.{WorkerTask}
use agente_inteligente_comer.Store.{
  OutboxRow, OutboxKind, candidates_of, same_key, Element, IdempotencyKey, items, is_candidates,
  is_queued,
}
use agente_inteligente_comer.Outbox.{new_message, queue_outbox}
use agente_inteligente_comer.Dedup.{ProspectCandidate, Normalizers}
use agente_inteligente_comer.Candidates.{Encodings}
use agente_inteligente_comer.Candidates.Saving.{queue_accepted}

abbrev pub is_empty : List ProspectCandidate → Bool
is_empty [] = true
is_empty (_ ∷ _) = false

-- Nothing is queued, where there is no candidate or a message has the attempt's key; or a message of
-- the run with the candidates is.
abbrev pub Queued :
    (ProspectCandidate → Element)
    → ℕ
    → IdempotencyKey
    → List ProspectCandidate
    → List OutboxRow
    → List OutboxRow
    → Type 0
Queued dump run_id key accepted outbox outbox' =
    ((outbox' ≡ outbox)
      × ((is_empty accepted || any (λ m. same_key m.idempotency_key key) outbox) ≡ true))
    ⊎ ((m : OutboxRow) × (outbox' ≡ outbox ++ m ∷ [])
        × (m.run_id ≡ run_id)
        × (m.idempotency_key ≡ key)
        × (m.payload ≡ items (map dump accepted))
        × (is_candidates m.kind ≡ true)
        × (is_queued m.status ≡ true))

module _ (n : Normalizers) (codes : Encodings) (run_id : ℕ) where
  pub queued :
      (id now : ℕ) (task : WorkerTask) (accepted : List ProspectCandidate) (outbox : List OutboxRow)
      → Queued codes.dump run_id
          (candidates_of run_id task.id task.attempt_count)
          accepted
          outbox
          (queue_accepted n codes id now run_id task accepted outbox)
  unfolding queue_outbox
  queued id now task [] outbox = inl (refl, refl)
  queued id now task (c ∷ cs) outbox =
      let key = candidates_of run_id task.id task.attempt_count in
      elim (Bool-cases (any (λ m. same_key m.idempotency_key key) outbox)) [
        | inl e ↦ inl (rw (queue_outbox, e) refl, e)
        | inr e ↦ inr (
          new_message id now run_id OutboxKind.candidates key (items (map codes.dump (c ∷ cs))),
          rw (queue_outbox, e) refl,
          refl,
          refl,
          refl,
          refl,
          refl,
        )
      ]
