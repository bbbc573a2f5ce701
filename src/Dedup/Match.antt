-- ===== src/Dedup/Match.antt =====
-- What `match_candidate` answers: an exact match, a possible duplicate, or a new company.
use agente_inteligente_comer.Prelude.{
  ℕ, ◌≤◌, ◌<◌, ◌≡◌, ◌∙◌, refl, subst, ap, Bool, true, false, ◌&&◌, List, [], ◌∷◌, map, Option, none,
  some, arith, ltb, leb, if◌then◌else◌, is_some, any, not, least, least-Any, least_bound, All, Any,
  All-imp, All-both, All-unmap, Option-cases, inl, inr,
}
use mathlib.Core.List.{cons-ne-nil}
use agente_inteligente_comer.Contracts.{unique, exact_match, possible_duplicate}
use agente_inteligente_comer.Dedup.{
  ProspectCandidate, Normalizers, Key, priority, exact, CandidateMatch,
  blocking_higher_priority_conflict, exact_key, fuzzy_score, ExactMatch, BlockedMatch, entity_key,
  same_entity, conflict_before, key_before, match_blocked, match_exact, scan, best_fuzzy, no_match,
  match_fuzzy, match_candidate,
}
use agente_inteligente_comer.Dedup.Entities.{
  same_entity_refl, distinct_few, least_empty, match_blocked_lem, match_exact_lem,
  match_exact_known, Any-map, key_before_total, key_before_trans,
}

module _ (n : Normalizers) (candidate : ProspectCandidate) where
  -- What an entity must pass for the match of `existing` by `key` to be exact.
  pub compatible : ExactMatch → ProspectCandidate → Bool
  compatible m existing = elim (exact_key n candidate existing) [
    | none ↦ true
    | some key ↦
        not (is_some (blocking_higher_priority_conflict n candidate existing key))
        && same_entity (entity_key existing) (entity_key m.existing)
        && leb (priority m.key) (priority key)
  ]

  -- That a stored candidate has an exact key that a stronger identifier contradicts.
  unfoldable pub is_blocked : ProspectCandidate → Bool
  is_blocked existing = elim (exact_key n candidate existing) [
    | none ↦ false
    | some key ↦ is_some (blocking_higher_priority_conflict n candidate existing key)
  ]

  -- That a stored candidate has an exact key that no identifier above it contradicts.
  pub record Accepts (m : ExactMatch) (existing : ProspectCandidate) : Type 0 where
    pub same : m.existing ≡ existing
    pub key : exact_key n candidate existing ≡ some m.key
    pub clear : blocking_higher_priority_conflict n candidate existing m.key ≡ none

  scan_skip :
      (e : ProspectCandidate) (es : List ProspectCandidate)
      → exact_key n candidate e ≡ none
      → scan n candidate (e ∷ es) ≡ scan n candidate es
  unfolding scan
  scan_skip e es h = rw (scan, h) refl

  scan_blocked :
      (e : ProspectCandidate) (es : List ProspectCandidate) (k c : Key)
      → exact_key n candidate e ≡ some k
      → blocking_higher_priority_conflict n candidate e k ≡ some c
      → scan n candidate (e ∷ es) ≡ (
        record { conflict = c; key = k; existing = e } ∷ (scan n candidate es).0,
        (scan n candidate es).1,
      )
  unfolding scan
  scan_blocked e es k c h b = rw (scan, h, b) refl

  scan_exact :
      (e : ProspectCandidate) (es : List ProspectCandidate) (k : Key)
      → exact_key n candidate e ≡ some k
      → blocking_higher_priority_conflict n candidate e k ≡ none
      → scan n candidate (e ∷ es)
        ≡ ((scan n candidate es).0, record { key = k; existing = e } ∷ (scan n candidate es).1)
  unfolding scan
  scan_exact e es k h b = rw (scan, h, b) refl

  scan-Accepts :
      (m : ExactMatch) (es : List ProspectCandidate)
      → Any (λ x. x ≡ m) (scan n candidate es).1
      → Any (Accepts m) es
  unfolding scan
  scan-Accepts m [] a = a
  scan-Accepts m (e ∷ es) a = elim (Option-cases (exact_key n candidate e)) [
    | inl no_key ↦ inr (scan-Accepts m es (rw (scan_skip e es no_key) at a))
    | inr (k, key_eq) ↦ elim (Option-cases (blocking_higher_priority_conflict n candidate e k)) [
      | inr (c, blocked) ↦ inr (scan-Accepts m es (rw (scan_blocked e es k c key_eq blocked) at a))
      | inl clear ↦
          let a' : Any (λ x. x ≡ m) (record { key = k; existing = e } ∷ (scan n candidate es).1) =
            rw (scan_exact e es k key_eq clear) at a in
          elim a' [
            | inl same ↦ inl (record { same = cc; key = cc; clear = cc })
            | inr later ↦ inr (scan-Accepts m es later)
          ]
    ]
  ]

  scan-compatible :
      (m : ExactMatch) (es : List ProspectCandidate)
      → (scan n candidate es).0 ≡ []
      → All
          (λ x. (entity_key x.existing ≡ entity_key m.existing) × (key_before m x ≡ true))
          (scan n candidate es).1
      → All (λ e. compatible m e ≡ true) es
  unfolding compatible
  scan-compatible m [] h a = tt
  scan-compatible m (e ∷ es) h a = elim (Option-cases (exact_key n candidate e)) [
    | inl no_key ↦ (
      rw (compatible, no_key) refl,
      scan-compatible m es (rw (scan_skip e es no_key) at h) (rw (scan_skip e es no_key) at a),
    )
    | inr (k, key_eq) ↦ elim (Option-cases (blocking_higher_priority_conflict n candidate e k)) [
      | inr (c, blocked) ↦ absurd (cons-ne-nil _ _ (rw (scan_blocked e es k c key_eq blocked) at h))
      | inl clear ↦
          let a' : All
              (λ x. (entity_key x.existing ≡ entity_key m.existing) × (key_before m x ≡ true))
              (record { key = k; existing = e } ∷ (scan n candidate es).1) =
            rw (scan_exact e es k key_eq clear) at a in
          (
            rw (compatible, key_eq, clear, a'.0.0, same_entity_refl (entity_key m.existing)) a'.0.1,
            scan-compatible m es (rw (scan_exact e es k key_eq clear) at h) a'.1,
          )
    ]
  ]

  blocked_left :
      (es : List ProspectCandidate) → any is_blocked es ≡ true → (scan n candidate es).0 ≡ [] → ⊥
  unfolding any is_blocked
  blocked_left [] h e = ground arith
  blocked_left (x ∷ es) h e = elim (Option-cases (exact_key n candidate x)) [
    | inl no_key ↦ blocked_left es (ground (arith, h, no_key)) (rw (scan_skip x es no_key) at e)
    | inr (k, key_eq) ↦ elim (Option-cases (blocking_higher_priority_conflict n candidate x k)) [
      | inr (c, blocked) ↦ cons-ne-nil _ _ (rw (scan_blocked x es k c key_eq blocked) at e)
      | inl clear ↦
          blocked_left es (ground (arith, h, key_eq, clear))
            (rw (scan_exact x es k key_eq clear) at e)
    ]
  ]

  scan_nothing :
      (es : List ProspectCandidate)
      → (scan n candidate es).0 ≡ []
      → (scan n candidate es).1 ≡ []
      → All (λ e. exact_key n candidate e ≡ none) es
  scan_nothing [] h k = tt
  scan_nothing (x ∷ es) h h' = elim (Option-cases (exact_key n candidate x)) [
    | inl no_key ↦ (
      no_key,
      scan_nothing es (rw (scan_skip x es no_key) at h) (rw (scan_skip x es no_key) at h'),
    )
    | inr (k, key_eq) ↦ elim (Option-cases (blocking_higher_priority_conflict n candidate x k)) [
      | inr (c, blocked) ↦ absurd (cons-ne-nil _ _ (rw (scan_blocked x es k c key_eq blocked) at h))
      | inl clear ↦ absurd (cons-ne-nil _ _ (rw (scan_exact x es k key_eq clear) at h'))
    ]
  ]

  score_of : Option (ProspectCandidate × ℕ) → ℕ
  score_of none = 0
  score_of (some b) = b.1

  best_bound :
      (b : ProspectCandidate × ℕ) (es : List ProspectCandidate)
      → (b.1 ≤ score_of (best_fuzzy n candidate (some b) es))
        × All (λ e. fuzzy_score n candidate e ≤ score_of (best_fuzzy n candidate (some b) es)) es
  unfolding best_fuzzy score_of
  best_bound b [] = (ground arith, tt)
  best_bound b (e ∷ es) =
      let score = fuzzy_score n candidate e in
      let ih = best_bound (if ltb b.1 score then (e, score) else b) es in
      (ground (arith, ih.0), (ground (arith, ih.0), ih.1))

  fuzzy_low :
      (threshold : ℕ) (b : ProspectCandidate × ℕ) (es : List ProspectCandidate)
      → (match_fuzzy threshold (best_fuzzy n candidate (some b) es)).disposition ≡ unique
      → score_of (best_fuzzy n candidate (some b) es) < threshold
  unfolding best_fuzzy score_of match_fuzzy
  fuzzy_low threshold b [] h = ground arith
  fuzzy_low threshold b (e ∷ es) h =
      let score = fuzzy_score n candidate e in
      fuzzy_low threshold (if ltb b.1 score then (e, score) else b) es h

  fuzzy_below :
      (threshold : ℕ) (es : List ProspectCandidate)
      → (match_fuzzy threshold (best_fuzzy n candidate none es)).disposition ≡ unique
      → All (λ e. fuzzy_score n candidate e < threshold) es
  unfolding best_fuzzy
  fuzzy_below threshold [] h = tt
  fuzzy_below threshold (e ∷ es) h =
      let score = fuzzy_score n candidate e in
      let bound = best_bound (e, score) es in
      let low : score_of (best_fuzzy n candidate (some (e, score)) es) < threshold =
        fuzzy_low threshold (e, score) es h in
      (omega (arith, low, bound.0), All-imp _ _ (λ x p. omega (arith, low, p)) es bound.1)

  module _ (threshold : ℕ) (es : List ProspectCandidate) where
    abbrev result : CandidateMatch
    result = match_candidate n threshold candidate es

    abbrev found : List BlockedMatch × List ExactMatch
    found = scan n candidate es

    match_blocked-result :
        (b : BlockedMatch)
        → least conflict_before found.0 ≡ some b
        → result ≡ match_blocked found.0 found.1 b
    unfolding match_candidate
    match_blocked-result b h = rw (match_candidate, h) refl

    match_exact-result :
        (m : ExactMatch)
        → least conflict_before found.0 ≡ none
        → least key_before found.1 ≡ some m
        → result ≡ match_exact found.1 m
    unfolding match_candidate
    match_exact-result m h e = rw (match_candidate, h, e) refl

    match_fuzzy-result :
        least conflict_before found.0 ≡ none
        → least key_before found.1 ≡ none
        → result ≡ match_fuzzy threshold (best_fuzzy n candidate none es)
    unfolding match_candidate
    match_fuzzy-result h e = rw (match_candidate, h, e) refl

    fuzzy_not_exact :
        (best : Option (ProspectCandidate × ℕ))
        → (match_fuzzy threshold best).disposition ≡ exact_match
        → ⊥
    unfolding match_fuzzy no_match
    fuzzy_not_exact none h = ground arith
    fuzzy_not_exact (some b) h = ground arith

    -- Where a candidate is declared to be an exact match, some stored candidate has an exact key with
    -- it that no stronger identifier contradicts, and is the one reported, with that key; and every
    -- stored candidate with an exact key is not contradicted either, is the same entity, and has a
    -- key of no higher priority.
    pub match_candidate-exact :
        result.disposition ≡ exact_match
        → (m : ExactMatch) × Any (Accepts m) es
          × All (λ e. compatible m e ≡ true) es
          × (result.key ≡ some (exact m.key))
          × (result.matched_id ≡ m.existing.candidate_id)
    match_candidate-exact h = elim (Option-cases (least conflict_before found.0)) [
      | inr (b, blocked) ↦ absurd (
          ground (
            arith,
            (match_blocked_lem found.0 found.1 b).0,
            ap (λ r. r.disposition) (match_blocked-result b blocked),
            h,
          ))
      | inl clear ↦ elim (Option-cases (least key_before found.1)) [
        | inl no_key ↦ absurd (
            fuzzy_not_exact (best_fuzzy n candidate none es)
              (subst (λ r. r.disposition ≡ exact_match) (match_fuzzy-result clear no_key) h))
        | inr (m, chosen) ↦
            let h' : (match_exact found.1 m).disposition ≡ exact_match =
              subst (λ r. r.disposition ≡ exact_match) (match_exact-result m clear chosen) h in
            let one = match_exact_lem found.1 m h' in
            let here = least-Any key_before found.1 m chosen in
            let same =
              All-unmap (λ j. j ≡ entity_key m.existing) (λ x. entity_key x.existing) found.1
                (distinct_few (map (λ x. entity_key x.existing) found.1) (entity_key m.existing)
                  one.0 (Any-map found.1 m here)) in
            let lowest =
              least_bound key_before key_before_total key_before_trans found.1 m chosen in
            (
              m,
              scan-Accepts m es here,
              scan-compatible m es (least_empty conflict_before found.0 clear)
                  (All-both _ _ found.1 same lowest),
              ap (λ r. r.key) (match_exact-result m clear chosen) ∙ one.1,
              ap (λ r. r.matched_id) (match_exact-result m clear chosen) ∙ one.2,
            )
      ]
    ]

    -- A contradicted exact match makes the answer a possible duplicate of full score.
    pub match_candidate-blocked :
        any is_blocked es ≡ true
        → (result.disposition ≡ possible_duplicate) × (result.score ≡ 10000)
    match_candidate-blocked h = elim (Option-cases (least conflict_before found.0)) [
      | inl clear ↦ absurd (blocked_left es h (least_empty conflict_before found.0 clear))
      | inr (b, blocked) ↦
          let e = match_blocked-result b blocked in
          (
            ap (λ r. r.disposition) e ∙ (match_blocked_lem found.0 found.1 b).0,
            ap (λ r. r.score) e ∙ (match_blocked_lem found.0 found.1 b).1,
          )
    ]

    -- A candidate is declared new only where no stored one has an exact key with it, and the name of
    -- none in its comuna is as near as the threshold.
    pub match_candidate-unique :
        result.disposition ≡ unique
        → All (λ e. (exact_key n candidate e ≡ none) × (fuzzy_score n candidate e < threshold)) es
    match_candidate-unique h = elim (Option-cases (least conflict_before found.0)) [
      | inr (b, blocked) ↦ absurd (
          ground (
            arith,
            (match_blocked_lem found.0 found.1 b).0,
            ap (λ r. r.disposition) (match_blocked-result b blocked),
            h,
          ))
      | inl clear ↦ elim (Option-cases (least key_before found.1)) [
        | inr (m, chosen) ↦ absurd (
            match_exact_known found.1 m
              (subst (λ r. r.disposition ≡ unique) (match_exact-result m clear chosen) h))
        | inl no_key ↦
            All-both _ _ es
              (scan_nothing es (least_empty conflict_before found.0 clear)
                (least_empty key_before found.1 no_key))
              (fuzzy_below threshold es
                (subst (λ r. r.disposition ≡ unique) (match_fuzzy-result clear no_key) h))
      ]
    ]
