-- ===== src/Candidates/Held.antt =====
-- The rows that hold the candidates that a save returns.
use mathlib.Core.Option.{none-ne-some}
use text.Mathlib.TextPositions.{eq_refl}
use agente_inteligente_comer.Prelude.{
  ℕ, String, ◌≡◌, refl, ap, ◌∙◌, sym, Bool, true, ◌&&◌, ◌||◌, List, [], ◌∷◌, ◌++◌, Option, none,
  some, arith, inl, inr, ◌⊎◌, ◌==◌, str_eq, eq_iff, holds_text, any, some_eq, Bool-cases,
}
use agente_inteligente_comer.Contracts.{DedupDisposition}
use agente_inteligente_comer.Table.{get, modify, Unique}
use agente_inteligente_comer.Table.Laws.{get-modify, get-snoc, get-Fresh}
use agente_inteligente_comer.Table.Searches.{first-get}
use agente_inteligente_comer.Dedup.{ProspectCandidate, Normalizers}
use agente_inteligente_comer.Candidates.{CandidateRow, row_key, Encodings, same_id}
use agente_inteligente_comer.Candidates.Saving.{current_row, insert_row, rewrite}
use agente_inteligente_comer.Candidates.Rows.{Fresh-new}

-- A row of the run whose payload is the candidate.
pub record Held (run_id : ℕ) (rows : List CandidateRow) (c : ProspectCandidate) : Type 0 where
  pub row : CandidateRow
  pub there : get row_key row.id rows ≡ some row
  pub mine : (row.run_id == run_id) ≡ true
  pub whole : row.payload ≡ c

-- After a write of one candidate its row holds it, and a candidate that a row held is still held, or
-- has the same id.
pub record HeldAfter (run_id : ℕ) (rows rows' : List CandidateRow) (p : ProspectCandidate)
    : Type 0 where
  pub now_held : Held run_id rows' p
  pub still_held :
      (c : ProspectCandidate)
      → Held run_id rows c
      → Held run_id rows' c ⊎ (same_id c.candidate_id p.candidate_id ≡ true)

-- Whether one of the candidates has the id of this one.
unfoldable pub given_again : ProspectCandidate → List ProspectCandidate → Bool
given_again c cs = any (λ p. same_id c.candidate_id p.candidate_id) cs

-- A row of the run holds each candidate whole, unless a later one has the same id.
abbrev pub AllHeld : ℕ → List CandidateRow → List ProspectCandidate → Type 0
AllHeld run_id rows [] = Unit
AllHeld run_id rows (c ∷ cs) =
    (Held run_id rows c ⊎ (given_again c cs ≡ true)) × AllHeld run_id rows cs

same_id-text : (c : Option String) (s : String) → holds_text c s ≡ true → same_id c (some s) ≡ true
same_id-text none s h = absurd (ground (arith, h))
same_id-text (some t) s h = let same : t ≡ s = ground (arith, h, eq_iff t s) in rw same (eq_refl s)

module _ (n : Normalizers) (codes : Encodings) (run_id : ℕ) where
  pub rewritten-Held :
      (s : String) (row : CandidateRow) (p : ProspectCandidate) (disposition : DedupDisposition)
      (rows : List CandidateRow)
      → Unique row_key rows
      → current_row n codes run_id s rows ≡ some row
      → p.candidate_id ≡ some s
      → HeldAfter run_id rows (modify row_key row.id (rewrite n codes p disposition) rows) p
  unfolding current_row rewrite
  rewritten-Held s row p disposition rows u h named =
      let found =
        first-get row_key (λ r. holds_text r.payload.candidate_id s && r.run_id == run_id) rows row
          u h in
      let f : CandidateRow → CandidateRow = rewrite n codes p disposition in
      let written = get-modify row_key row.id f (λ r. refl) in
      record {
        now_held = record {
          row = f row;
          there = ground (arith, written row.id rows, found.0);
          mine = ground (arith, found.1);
          whole = refl;
        };
        still_held = λ c old. elim (Bool-cases (row.id == old.row.id)) [
          | inl e ↦
              let same_key : old.row.id ≡ row.id = ground (arith, e) in
              let same : row ≡ old.row =
                some_eq row old.row
                  (sym found.0 ∙ ap (λ i. get row_key i rows) (sym same_key) ∙ old.there) in
              let payload : row.payload ≡ c = ap (λ r. r.payload) same ∙ old.whole in
              let holds : holds_text c.candidate_id s ≡ true =
                rw (← payload) (ground (arith, found.1)) in
              inr (rw named (same_id-text c.candidate_id s holds))
          | inr e ↦ inl (record {
            row = old.row;
            there = ground (arith, written old.row.id rows, e, old.there);
            mine = old.mine;
            whole = old.whole;
          })
        ];
      }

  pub inserted-Held :
      (row : CandidateRow) (rows rows' : List CandidateRow)
      → insert_row n codes row rows ≡ some rows'
      → (row.run_id == run_id) ≡ true
      → HeldAfter run_id rows rows' row.payload
  unfolding insert_row
  inserted-Held row rows rows' h mine =
      let taken : Bool =
        any
          (λ r.
            r.id == row.id || r.run_id == row.run_id && str_eq r.candidate_key row.candidate_key)
          rows in
      elim (Bool-cases taken) [
        | inl e ↦ absurd (none-ne-some rows' (rw (insert_row, e) at h))
        | inr e ↦
            let new : rows ++ row ∷ [] ≡ rows' = some_eq _ _ (rw (insert_row, e) at h) in
            let fresh =
              Fresh-new row.id
                (λ r. r.run_id == row.run_id && str_eq r.candidate_key row.candidate_key) rows e in
            rw (← new) (record {
              now_held = record {
                row = row;
                there =
                    ground (
                      arith,
                      get-snoc row_key row.id rows row,
                      get-Fresh row_key row.id rows fresh,
                    );
                mine = mine;
                whole = refl;
              };
              still_held = λ c old. inl (record {
                row = old.row;
                there = ground (arith, get-snoc row_key old.row.id rows row, old.there);
                mine = old.mine;
                whole = old.whole;
              });
            })
      ]
