-- ===== src/Dedup/Entities.antt =====
-- The sets of entity keys of app/prospecting/dedup.py, and the results that are made from matches.
use agente_inteligente_comer.Prelude.{
  ◌≡◌, ◌∙◌, refl, sym, subst, ap, Bool, true, false, List, [], ◌∷◌, map, none, some, arith, ltb,
  eq_iff, any, least, length, All, Any, All-imp, Bool-cases, inl, inr,
}
use agente_inteligente_comer.Contracts.{unique, exact_match, possible_duplicate}
use agente_inteligente_comer.Dedup.{
  exact, ExactMatch, BlockedMatch, EntityKey, identified, unidentified, entity_key, same_entity,
  distinct, key_before, match_blocked, match_exact,
}

pub same_entity_eq : (j k : EntityKey) → same_entity j k ≡ true → j ≡ k
same_entity_eq (identified s) (identified t) h = ground (arith, eq_iff s t)
same_entity_eq (unidentified i) (unidentified j) h = ground arith
same_entity_eq (identified s) (unidentified j) h = ground arith
same_entity_eq (unidentified i) (identified t) h = ground arith

pub same_entity_refl : (k : EntityKey) → same_entity k k ≡ true
same_entity_refl (identified s) = ground (arith, eq_iff s s)
same_entity_refl (unidentified i) = ground arith

pub distinct_none : (ks : List EntityKey) → distinct ks ≡ [] → ks ≡ []
unfolding distinct any
distinct_none [] h = refl
distinct_none (k ∷ ks) h = elim (Bool-cases (any (same_entity k) (distinct ks))) [
  | inl e ↦
      let none_left : distinct ks ≡ [] = rw e at h in
      let e' : any (same_entity k) [] ≡ true = rw none_left at e in absurd (ground (arith, e'))
  | inr e ↦ let h' : k ∷ distinct ks ≡ [] = rw e at h in absurd (ground (arith, h'))
]

pub any_one :
    (j k : EntityKey) (ks : List EntityKey) → any (same_entity j) ks ≡ true → ks ≡ k ∷ [] → j ≡ k
unfolding any
any_one j k ks h e =
    let h' : any (same_entity j) (k ∷ []) ≡ true = rw e at h in
    same_entity_eq j k (ground (arith, h'))

-- A set of one entity key holds every key that was put in.
pub distinct_one :
    (ks : List EntityKey) (k : EntityKey) → distinct ks ≡ k ∷ [] → All (λ j. j ≡ k) ks
unfolding distinct
distinct_one [] k h = tt
distinct_one (j ∷ ks) k h = elim (Bool-cases (any (same_entity j) (distinct ks))) [
  | inl e ↦
      let h' : distinct ks ≡ k ∷ [] = rw e at h in
      (any_one j k (distinct ks) e h', distinct_one ks k h')
  | inr e ↦ let h' : j ∷ distinct ks ≡ k ∷ [] = rw e at h in (cc, rw (distinct_none ks cc) tt)
]

pub one_of :
    (ks : List EntityKey) (k r : EntityKey) → All (λ j. j ≡ r) ks → Any (λ j. j ≡ k) ks → k ≡ r
one_of [] k r a x = elim x [ ]
one_of (j ∷ ks) k r a (inl p) = sym p ∙ a.0
one_of (j ∷ ks) k r a (inr p) = one_of ks k r a.1 p

-- The keys that match exactly belong to one entity, where their set does not have two.
pub distinct_few :
    (ks : List EntityKey) (k : EntityKey)
    → ltb 1 (length (distinct ks)) ≡ false
    → Any (λ j. j ≡ k) ks
    → All (λ j. j ≡ k) ks
distinct_few ks k h a = go (distinct ks) refl h
  where
    go : (ds : List EntityKey) → distinct ks ≡ ds → ltb 1 (length ds) ≡ false → All (λ j. j ≡ k) ks
    go [] e h' = absurd (subst (λ js. Any (λ j. j ≡ k) js) (distinct_none ks e) a)
    go (r ∷ []) e h' =
        let to_r = distinct_one ks r e in
        let kr : k ≡ r = one_of ks k r to_r a in All-imp _ _ (λ j p. p ∙ sym kr) ks to_r
    go (r ∷ q ∷ rs) e h' = absurd (ground arith)

pub least_empty : {A : Type 0} (lte : A → A → Bool) (xs : List A) → least lte xs ≡ none → xs ≡ []
unfolding least
least_empty lte [] h = refl
least_empty lte (x ∷ xs) h = absurd (ground arith)

pub match_blocked_lem :
    (blocked : List BlockedMatch) (exacts : List ExactMatch) (b : BlockedMatch)
    → ((match_blocked blocked exacts b).disposition ≡ possible_duplicate)
      × ((match_blocked blocked exacts b).score ≡ 10000)
unfolding match_blocked
match_blocked_lem blocked exacts b = (refl, refl)

pub match_exact_lem :
    (exacts : List ExactMatch) (m : ExactMatch)
    → (match_exact exacts m).disposition ≡ exact_match
    → (ltb 1 (length (distinct (map (λ x. entity_key x.existing) exacts))) ≡ false)
      × ((match_exact exacts m).key ≡ some (exact m.key))
      × ((match_exact exacts m).matched_id ≡ m.existing.candidate_id)
unfolding match_exact
match_exact_lem exacts m h =
    elim (Bool-cases (ltb 1 (length (distinct (map (λ x. entity_key x.existing) exacts))))) [
      | inl e ↦ absurd (ground (arith, e, h))
      | inr e ↦ (e, rw e refl, rw e refl)
    ]

pub match_exact_known :
    (exacts : List ExactMatch) (m : ExactMatch) → (match_exact exacts m).disposition ≡ unique → ⊥
unfolding match_exact
match_exact_known exacts m h = ground arith

pub Any-map :
    (xs : List ExactMatch) (m : ExactMatch)
    → Any (λ x. x ≡ m) xs
    → Any (λ j. j ≡ entity_key m.existing) (map (λ x. entity_key x.existing) xs)
Any-map [] m x = elim x [ ]
Any-map (x ∷ xs) m (inl p) = inl (ap (λ y. entity_key y.existing) p)
Any-map (x ∷ xs) m (inr a) = inr (Any-map xs m a)

pub key_before_total : (x y : ExactMatch) → key_before x y ≡ false → key_before y x ≡ true
key_before_total x y h = ground arith

pub key_before_trans :
    (x y z : ExactMatch) → key_before x y ≡ true → key_before y z ≡ true → key_before x z ≡ true
key_before_trans x y z h k = ground arith
