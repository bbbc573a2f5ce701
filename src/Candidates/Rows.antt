-- ===== src/Candidates/Rows.antt =====
-- The rows of a run after one of them was written or added.
use agente_inteligente_comer.Prelude.{
  ℕ, String, ◌≡◌, refl, ap, sym, Bool, true, false, not, ◌&&◌, ◌||◌, List, [], ◌∷◌, ◌++◌, Option,
  none, some, arith, inl, inr, ◌==◌, str_eq, eq_iff, holds_text, any, select, some_eq, Bool-cases,
}
use mathlib.Core.Option.{none-ne-some}
use text.Mathlib.TextPositions.{eq_refl}
use agente_inteligente_comer.Contracts.{DedupDisposition, ProspectingRunSnapshot}
use agente_inteligente_comer.Table.{modify, Fresh, Unique}
use agente_inteligente_comer.Table.Laws.{Unique-modify, Unique-snoc}
use agente_inteligente_comer.Table.Searches.{
  first-get, select-modify, any-modify, any-modify-get, select-snoc, any-snoc, any-last,
}
use agente_inteligente_comer.Dedup.{ProspectCandidate, ProspectLocation, Normalizers}
use agente_inteligente_comer.Candidates.{
  CandidateRow, row_key, Encodings, same_id, scope_candidate, with_locations,
}
use agente_inteligente_comer.Candidates.Saving.{current_row, insert_row, rewrite}

-- A candidate of the run with the id.
pub is_stored : ℕ → Option String → List CandidateRow → Bool
is_stored run_id candidate_id rows =
    any (λ r. r.run_id == run_id && same_id candidate_id r.payload.candidate_id) rows

-- The rows of the other runs.
pub others : ℕ → List CandidateRow → List CandidateRow
others run_id rows = select (λ r. not (r.run_id == run_id)) rows

pub record Kept (run_id : ℕ) (rows rows' : List CandidateRow) : Type 0 where
  pub unique_ids : Unique row_key rows'
  pub same : others run_id rows' ≡ others run_id rows
  pub still : (c : Option String) → is_stored run_id c rows ≡ true → is_stored run_id c rows' ≡ true

-- Two texts that one id equals.
same_id-holds :
    (c : Option String) (a b : Option String) (s : String)
    → holds_text a s ≡ true
    → holds_text b s ≡ true
    → same_id c a ≡ same_id c b
same_id-holds c (some a) (some b) s h k =
    let ea : a ≡ s = ground (arith, h, eq_iff a s) in
    let eb : b ≡ s = ground (arith, k, eq_iff b s) in rw (ea, eb) refl
same_id-holds c none b s h k = absurd (ground (arith, h))
same_id-holds c (some a) none s h k = absurd (ground (arith, k))

pub Fresh-new :
    (id : ℕ) (p : CandidateRow → Bool) (rows : List CandidateRow)
    → any (λ r. r.id == id || p r) rows ≡ false
    → Fresh row_key id rows
unfolding any
Fresh-new id p [] h = tt
Fresh-new id p (r ∷ rows) h = (ground (arith, h), Fresh-new id p rows (ground (arith, h)))

module _ (n : Normalizers) (codes : Encodings) (run_id : ℕ) where
  with-id :
      (snapshot : ProspectingRunSnapshot) (c p : ProspectCandidate) (ls : List ProspectLocation)
      → with_locations n codes snapshot c ls ≡ some p
      → p.candidate_id ≡ c.candidate_id
  with-id snapshot c p [] h = absurd (none-ne-some p h)
  with-id snapshot c p (l ∷ ls) h = ap (λ x. x.candidate_id) (sym (some_eq _ p h))

  pub scope-id :
      (snapshot : ProspectingRunSnapshot) (c p : ProspectCandidate)
      → scope_candidate n codes snapshot c ≡ some p
      → p.candidate_id ≡ c.candidate_id
  unfolding scope_candidate
  scope-id snapshot c p h = with-id snapshot c p _ h

  -- A write of the run's row with the id, by a candidate with the same id.
  pub rewritten :
      (s : String) (row : CandidateRow) (prepared : ProspectCandidate)
      (disposition : DedupDisposition) (rows : List CandidateRow)
      → Unique row_key rows
      → current_row n codes run_id s rows ≡ some row
      → prepared.candidate_id ≡ some s
      → let rows' = modify row_key row.id (rewrite n codes prepared disposition) rows in
        Kept run_id rows rows' × (is_stored run_id prepared.candidate_id rows' ≡ true)
  unfolding current_row rewrite is_stored others
  rewritten s row prepared disposition rows u h p =
      let found =
        first-get row_key (λ r. holds_text r.payload.candidate_id s && r.run_id == run_id) rows row
          u h in
      let there = found.0 in
      let mine : (row.run_id == run_id) ≡ true = ground (arith, found.1) in
      let named : holds_text row.payload.candidate_id s ≡ true = ground (arith, found.1) in
      let renamed : holds_text prepared.candidate_id s ≡ true = rw p (eq_refl s) in
      let f : CandidateRow → CandidateRow = rewrite n codes prepared disposition in
      let here : (row.run_id == run_id && same_id prepared.candidate_id prepared.candidate_id)
          ≡ true =
        rw (mine, p) (eq_refl s) in
      (
        record {
          unique_ids = Unique-modify row_key row.id f (λ r. refl) rows u;
          same =
              select-modify row_key row.id f (λ r. not (r.run_id == run_id)) rows row u there
                (rw mine refl) (rw mine refl);
          still = λ c k.
              any-modify row_key row.id f
                (λ r. r.run_id == run_id && same_id c r.payload.candidate_id) rows row u there
                (λ t.
                  rw
                    (← same_id-holds c row.payload.candidate_id prepared.candidate_id s named
                      renamed)
                    t)
                k;
        },
        any-modify-get row_key row.id f
            (λ r. r.run_id == run_id && same_id prepared.candidate_id r.payload.candidate_id) rows
            row there here,
      )

  -- A new row of the run.
  pub inserted :
      (s : String) (row : CandidateRow) (rows rows' : List CandidateRow)
      → Unique row_key rows
      → insert_row n codes row rows ≡ some rows'
      → (row.run_id == run_id) ≡ true
      → row.payload.candidate_id ≡ some s
      → Kept run_id rows rows' × (is_stored run_id row.payload.candidate_id rows' ≡ true)
  unfolding insert_row is_stored others
  inserted s row rows rows' u h mine p =
      let taken : Bool =
        any
          (λ r.
            r.id == row.id || r.run_id == row.run_id && str_eq r.candidate_key row.candidate_key)
          rows in
      elim (Bool-cases taken) [
        | inl e ↦ absurd (none-ne-some rows' (rw (insert_row, e) at h))
        | inr e ↦
            let new : rows ++ row ∷ [] ≡ rows' = some_eq _ _ (rw (insert_row, e) at h) in
            let fresh =
              Fresh-new row.id
                (λ r. r.run_id == row.run_id && str_eq r.candidate_key row.candidate_key) rows e in
            let here : (row.run_id == run_id
                  && same_id row.payload.candidate_id row.payload.candidate_id)
                ≡ true =
              rw (mine, p) (eq_refl s) in
            rw (← new) (
              record {
                unique_ids = Unique-snoc row_key rows row u fresh;
                same = select-snoc row_key (λ r. not (r.run_id == run_id)) rows row (rw mine refl);
                still = λ c k.
                    any-snoc row_key (λ r. r.run_id == run_id && same_id c r.payload.candidate_id)
                      rows row k;
              },
              any-last row_key
                  (λ r.
                    r.run_id == run_id && same_id row.payload.candidate_id r.payload.candidate_id)
                  rows row here,
            )
      ]
