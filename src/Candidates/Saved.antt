-- ===== src/Candidates/Saved.antt =====
-- Where saved candidates end up, and what is left alone.
use agente_inteligente_comer.Prelude.{ℕ, ◌≡◌, true, List, Option, length, All, ◌⊎◌}
use agente_inteligente_comer.Tasks.{WorkerTask}
use agente_inteligente_comer.Store.{OutboxRow, candidates_of}
use agente_inteligente_comer.Dedup.{ProspectCandidate, Normalizers}
use agente_inteligente_comer.Candidates.{CandidateRow, Encodings}
use agente_inteligente_comer.Candidates.Rows.{is_stored, others, Kept}
use agente_inteligente_comer.Candidates.Held.{given_again, AllHeld, Held, HeldAfter}
use agente_inteligente_comer.Candidates.Queued.{Queued}

module _ (n : Normalizers) (codes : Encodings) (run_id : ℕ) where
  record Done (rows : List CandidateRow) (r : List CandidateRow × ProspectCandidate) : Type 0 where
    kept : Kept run_id rows r.0
    stored : is_stored run_id r.1.candidate_id r.0 ≡ true
    held : HeldAfter run_id rows r.0 r.1

  record AllDone (rows : List CandidateRow) (cs : List ProspectCandidate)
      (r : List CandidateRow × List ProspectCandidate) : Type 0 where
    kept : Kept run_id rows r.0
    stored : All (λ c. is_stored run_id c.candidate_id r.0 ≡ true) r.1
    held : AllHeld run_id r.0 r.1
    later_held :
        (c : ProspectCandidate)
        → Held run_id rows c
        → Held run_id r.0 c ⊎ (given_again c r.1 ≡ true)
    count : length r.1 ≡ length cs

  abbrev Result :
      List ProspectCandidate
      → List CandidateRow
      → List OutboxRow
      → WorkerTask
      → (List CandidateRow × List OutboxRow) × List ProspectCandidate
      → Type 0
  Result cs rows outbox task r =
      (others run_id r.0.0 ≡ others run_id rows)
      × All (λ c. is_stored run_id c.candidate_id r.0.0 ≡ true) r.1
      × AllHeld run_id r.0.0 r.1
      × (length r.1 ≡ length cs)
      × Queued codes.dump run_id (candidates_of run_id task.id task.attempt_count) r.1 outbox r.0.1
