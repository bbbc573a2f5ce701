-- ===== src/Candidates/Saving.antt =====
-- `save_candidates` and `partition_discoveries` of `SQLWorkerStore` (app/prospecting/store.py) over
-- the rows of all runs. `none` is an exception, which rolls everything back.
use agente_inteligente_comer.Prelude.{
  ℕ, suc, String, ◌&&◌, ◌||◌, List, [], ◌∷◌, Option, none, some, ◌==◌, if◌then◌else◌, str_eq,
  or_else, holds_text, any, first, map,
}
use mathlib.Core.List.{◌++◌ as append}
use agente_inteligente_comer.Contracts.{
  DedupDisposition, unique, exact_match, possible_duplicate, ProspectingRunSnapshot,
}
use agente_inteligente_comer.Table.{get, modify}
use agente_inteligente_comer.Tasks.{WorkerTask}
use agente_inteligente_comer.Store.{RunRow, OutboxRow, OutboxKind, items, candidates_of, run_key}
use agente_inteligente_comer.Outbox.{queue_outbox}
use agente_inteligente_comer.Dedup.{ProspectCandidate, Normalizers, match_candidate}
use agente_inteligente_comer.Candidates.{
  CandidateRow, row_key, Encodings, is_text, same_id, merge_exact_candidate, scope_candidate,
  candidate_id_for_match, candidate_fingerprint, review_candidate_fingerprint,
}

module _ (n : Normalizers) (codes : Encodings) where
  -- The row of the run that has the candidate's id.
  unfoldable pub current_row : ℕ → String → List CandidateRow → Option CandidateRow
  current_row run_id candidate_id rows =
      first (λ r. holds_text r.payload.candidate_id candidate_id && r.run_id == run_id) rows

  -- `session.add` and `flush`, with the primary key and `uq_run_candidate_key`.
  unfoldable pub insert_row : CandidateRow → List CandidateRow → Option (List CandidateRow)
  insert_row row rows =
      if any
        (λ r. r.id == row.id || r.run_id == row.run_id && str_eq r.candidate_key row.candidate_key)
        rows
      then none
      else some (append rows (row ∷ []))

  unfoldable pub rewrite : ProspectCandidate → DedupDisposition → CandidateRow → CandidateRow
  rewrite prepared disposition r = record r { payload = prepared; dedup_disposition = disposition }

  abbrev duplicate_of : Option String → List CandidateRow → Option ℕ
  duplicate_of matched_id rows =
      elim (first (λ r. same_id r.payload.candidate_id matched_id) rows) [
        | none ↦ none
        | some r ↦ some r.id
      ]

  -- A candidate with its id: merged into the run's row with that id, or a new row. `key` is the
  -- fingerprint of the new row.
  unfoldable pub store_one :
      ProspectingRunSnapshot
      → ℕ
      → ℕ
      → String
      → DedupDisposition
      → (ProspectCandidate → String)
      → Option ℕ
      → ProspectCandidate
      → List CandidateRow
      → Option (List CandidateRow × ProspectCandidate)
  unfolding merge_exact_candidate scope_candidate current_row insert_row rewrite
  store_one snapshot id run_id candidate_id disposition key duplicate incoming rows =
      elim (current_row run_id candidate_id rows) [
        | some row ↦ elim (merge_exact_candidate n codes row.payload incoming) [
          | none ↦ none
          | some merged ↦
              elim (scope_candidate n codes snapshot
                (record merged { candidate_id = some candidate_id })) [
                  | none ↦ none
                  | some prepared ↦
                      some (modify row_key row.id (rewrite prepared disposition) rows, prepared)
                ]
        ]
        | none ↦
            elim (scope_candidate n codes snapshot
              (record incoming { candidate_id = some candidate_id })) [
                | none ↦ none
                | some prepared ↦
                    elim (insert_row
                      (record {
                        id = id;
                        run_id = run_id;
                        candidate_key = key prepared;
                        payload = prepared;
                        dedup_disposition = disposition;
                        possible_duplicate_of = duplicate;
                      })
                      rows) [ none ↦ none | some rows' ↦ some (rows', prepared) ]
              ]
      ]

  -- One turn of the loop over the candidates.
  unfoldable pub save_one :
      ℕ
      → ProspectingRunSnapshot
      → ℕ
      → ℕ
      → ProspectCandidate
      → List CandidateRow
      → Option (List CandidateRow × ProspectCandidate)
  unfolding store_one candidate_id_for_match candidate_fingerprint review_candidate_fingerprint
  save_one threshold snapshot id run_id incoming rows =
      let match = match_candidate n threshold incoming (map (λ r. r.payload) rows) in
      elim match.disposition [
        | exact_match ↦
            if is_text match.matched_id
            then store_one snapshot id run_id (or_else match.matched_id "") exact_match
                (λ _. candidate_fingerprint n codes incoming) none incoming rows
            else store_one snapshot id run_id (candidate_id_for_match n codes incoming match)
                exact_match (candidate_fingerprint n codes) (duplicate_of match.matched_id rows)
                incoming rows
        | unique ↦
            store_one snapshot id run_id (candidate_id_for_match n codes incoming match) unique
              (candidate_fingerprint n codes) (duplicate_of match.matched_id rows) incoming rows
        | possible_duplicate ↦
            store_one snapshot id run_id (candidate_id_for_match n codes incoming match)
              possible_duplicate (review_candidate_fingerprint n codes)
              (duplicate_of match.matched_id rows) incoming rows
      ]

  -- `fresh i` is the id of the row that the candidate before `i` others may need.
  unfoldable pub save_each :
      ℕ
      → ProspectingRunSnapshot
      → (ℕ → ℕ)
      → ℕ
      → List ProspectCandidate
      → List CandidateRow
      → Option (List CandidateRow × List ProspectCandidate)
  unfolding save_one
  save_each threshold snapshot fresh run_id [] rows = some (rows, [])
  save_each threshold snapshot fresh run_id (c ∷ cs) rows =
      elim (save_one threshold snapshot (fresh 0) run_id c rows) [
        | none ↦ none
        | some (rows', prepared) ↦
            elim (save_each threshold snapshot (λ i. fresh (suc i)) run_id cs rows') [
              | none ↦ none
              | some (rows'', accepted) ↦ some (rows'', prepared ∷ accepted)
            ]
      ]

  abbrev pub queue_accepted :
      ℕ → ℕ → ℕ → WorkerTask → List ProspectCandidate → List OutboxRow → List OutboxRow
  queue_accepted id now run_id task [] outbox = outbox
  queue_accepted id now run_id task accepted outbox =
      queue_outbox id now run_id OutboxKind.candidates
        (candidates_of run_id task.id task.attempt_count) (items (map codes.dump accepted)) outbox

  unfoldable pub save_candidates :
      ℕ
      → (ℕ → ℕ)
      → ℕ
      → ℕ
      → ℕ
      → WorkerTask
      → List ProspectCandidate
      → List RunRow
      → List CandidateRow
      → List OutboxRow
      → Option ((List CandidateRow × List OutboxRow) × List ProspectCandidate)
  unfolding save_each
  save_candidates threshold fresh message_id now run_id task cs runs rows outbox =
      elim (get run_key run_id runs) [
        | none ↦ none
        | some run ↦ elim (save_each threshold run.snapshot fresh run_id cs rows) [
          | none ↦ none
          | some (rows', accepted) ↦
              some ((rows', queue_accepted message_id now run_id task accepted outbox), accepted)
        ]
      ]

  abbrev known_in : ℕ → List CandidateRow → List ProspectCandidate
  known_in run_id [] = []
  known_in run_id (r ∷ rows) =
      let rest = known_in run_id rows in if r.run_id == run_id then r.payload ∷ rest else rest

  -- The new discoveries, and the known ones merged with what is stored of them.
  pub partition_each :
      ℕ
      → List ProspectCandidate
      → List ProspectCandidate
      → Option (List ProspectCandidate × List ProspectCandidate)
  unfolding merge_exact_candidate
  partition_each threshold known [] = some ([], [])
  partition_each threshold known (c ∷ cs) =
      let match = match_candidate n threshold c known in
      let rest = partition_each threshold known cs in
      elim match.disposition [
        | exact_match ↦ elim (first (λ k. same_id k.candidate_id match.matched_id) known) [
          | none ↦ elim rest [ none ↦ none | some (novel, merged) ↦ some (c ∷ novel, merged) ]
          | some existing ↦ elim (merge_exact_candidate n codes existing c) [
            | none ↦ none
            | some m ↦ elim rest [ none ↦ none | some (novel, merged) ↦ some (novel, m ∷ merged) ]
          ]
        ]
        | _ ↦ elim rest [ none ↦ none | some (novel, merged) ↦ some (c ∷ novel, merged) ]
      ]

  pub partition_discoveries :
      ℕ
      → ℕ
      → List ProspectCandidate
      → List CandidateRow
      → Option (List ProspectCandidate × List ProspectCandidate)
  unfolding partition_each
  partition_discoveries threshold run_id cs rows =
      partition_each threshold (known_in run_id rows) cs
