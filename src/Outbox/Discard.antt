-- ===== src/Outbox/Discard.antt =====
-- One refused candidate is skipped, and counted once.
use mathlib.Core.List.{Perm}
use agente_inteligente_comer.Prelude.{ℕ, ◌+◌, String, ◌≡◌, refl, true, false, [], ◌∷◌, some, arith}
use agente_inteligente_comer.Table.{get, modify, Unique}
use agente_inteligente_comer.Table.Laws.{get-modify}
use agente_inteligente_comer.Store.{
  OutboxRow, RunRow, Element, Store, run_key, message_key, discarded, counter,
}
use agente_inteligente_comer.Outbox.{open_batch, close, bump, discard_candidate_outbox}
use agente_inteligente_comer.Outbox.Delivery.{counter-bump}
use agente_inteligente_comer.Outbox.Batches.{waiting, waiting-close, open-close}

abbrev count_invalid : RunRow → RunRow
count_invalid r = record r { stats = bump "rejected_invalid" 1 r.stats }

module _ (id : ℕ) (error : String) (now : ℕ) (s : Store) (m : OutboxRow) (x : Element) (r : RunRow)
    (there : get message_key id s.outbox ≡ some m) (open_ : open_batch m ≡ some (x ∷ []))
    (run : get run_key m.run_id s.runs ≡ some r) where
  discard_result : discard_candidate_outbox id error now s ≡ (
    record s {
      outbox = modify message_key id (close discarded error now) s.outbox;
      runs = modify run_key m.run_id count_invalid s.runs;
    },
    true,
  )
  unfolding discard_candidate_outbox
  discard_result = ground (arith, there, open_)

  -- Discarding a batch of one candidate takes that candidate out of those that wait, adds one to the
  -- run's `rejected_invalid` and nothing to the counts that the CRM reports, and cannot be done twice.
  pub discard_once :
      Unique message_key s.outbox
      → (error' : String) (now' : ℕ)
      → let d = discard_candidate_outbox id error now s in
        (d.1 ≡ true)
        × Perm (waiting s.outbox) (x ∷ waiting d.0.outbox)
        × (r' : RunRow) × (get run_key m.run_id d.0.runs ≡ some r')
        × (counter "rejected_invalid" r'.stats ≡ counter "rejected_invalid" r.stats + 1)
        × (counter "crm_accepted" r'.stats ≡ counter "crm_accepted" r.stats)
        × (counter "rejected_limit" r'.stats ≡ counter "rejected_limit" r.stats)
        × (discard_candidate_outbox id error' now' d.0 ≡ (d.0, false))
  discard_once unique error' now' = rw discard_result (
    refl,
    waiting-close discarded refl id error now s.outbox m (x ∷ []) unique there open_,
    count_invalid r,
    ground (arith, run, get-modify run_key m.run_id count_invalid (λ _. refl) m.run_id s.runs),
    simp counter-bump,
    simp counter-bump,
    simp counter-bump,
    again,
  )
    where
      s' : Store
      s' = record s {
        outbox = modify message_key id (close discarded error now) s.outbox;
        runs = modify run_key m.run_id count_invalid s.runs;
      }

      there' : get message_key id s'.outbox ≡ some (close discarded error now m)
      there' = ground (
        arith,
        there,
        get-modify message_key id (close discarded error now) (λ _. refl) id s.outbox,
      )

      again : discard_candidate_outbox id error' now' s' ≡ (s', false)
      again =
          unfold discard_candidate_outbox in
          ground (arith, there', open-close discarded error now m refl)
