-- ===== src/Plan/Expansion.antt =====
-- The expansion: how many tasks, and that each would pass the validation.
use agente_inteligente_comer.Prelude.{
  ℕ, ◌*◌, String, ◌≡◌, refl, sym, subst, Bool, true, ◌&&◌, List, [], ◌∷◌, ◌++◌, map, some, arith,
  any, first, select, each, str_eq, length, length-append, All, All-imp, inl, inr, Bool-cases,
}
use agente_inteligente_comer.Contracts.{
  SourceName, google_places, brave_search, official_website, same_source, Territory,
  ProspectingRunSnapshot, ClaimedTask, TaskStatus,
}
use agente_inteligente_comer.Plan.{
  TaskSpec, is_discovery, spec, expand_task_specs, Result, returned, raised, same_place,
  validate_claimed_task,
}
use text.Mathlib.TextPositions.{eq_refl}

length-map : {A B : Type 0} (f : A → B) (xs : List A) → length (map f xs) ≡ length xs
length-map f [] = refl
length-map f (x ∷ xs) = omega (arith, length-map f xs)

length-each :
    {A B : Type 0} (f : A → List B) (n : ℕ)
    → ((x : A) → length (f x) ≡ n)
    → (xs : List A) → length (each f xs) ≡ length xs * n
unfolding each
length-each f n h [] = omega arith
length-each f n h (x ∷ xs) =
    omega (arith, length-append (f x) (each f xs), h x, length-each f n h xs)

-- A run has one task for each discovery source, keyword and territory.
pub length-expand_task_specs :
    (s : ProspectingRunSnapshot)
    → length (expand_task_specs s)
      ≡ length (select is_discovery s.campaign.sources)
        * (length s.campaign.keywords * length s.campaign.territories)
unfolding expand_task_specs
length-expand_task_specs s =
    length-each _ (length s.campaign.keywords * length s.campaign.territories)
      (λ source.
        length-each _ (length s.campaign.territories)
          (λ keyword. length-map (spec s source keyword) s.campaign.territories)
          s.campaign.keywords)
      (select is_discovery s.campaign.sources)

-- A planned task as the CRM would hand it out.
abbrev pub as_claimed : ℕ → TaskSpec → ClaimedTask
as_claimed id x = record {
  task_id = id;
  source = x.source;
  keyword = x.keyword;
  region_code = x.region_code;
  region_name = some x.region_name;
  comuna_code = x.comuna_code;
  comuna_name = some x.comuna_name;
  status = TaskStatus.pending;
  attempts = 0;
  candidates_found = 0;
  results_discarded = 0;
  max_results = x.max_results;
  max_attempts = 3;
}

abbrev pub IsAccepted {ℓ} : {A : Type ℓ} → Result A → Type 0
IsAccepted (returned a) = Unit
IsAccepted (raised e) = ⊥

All-append : {B : Type 0} (P : B → Type 0) (xs ys : List B) → All P xs → All P ys → All P (xs ++ ys)
All-append P [] ys a b = b
All-append P (x ∷ xs) ys a b = (a.0, All-append P xs ys a.1 b)

module _ {A B : Type 0} (P : B → Type 0) where
  All-each :
      (Q : A → Type 0) (f : A → List B)
      → ((x : A) → Q x → All P (f x))
      → (xs : List A) → All Q xs
      → All P (each f xs)
  unfolding each
  All-each Q f h [] a = tt
  All-each Q f h (x ∷ xs) a = All-append P (f x) (each f xs) (h x a.0) (All-each Q f h xs a.1)

  All-mapped :
      (Q : A → Type 0) (f : A → B)
      → ((x : A) → Q x → P (f x))
      → (xs : List A) → All Q xs
      → All P (map f xs)
  All-mapped Q f h [] a = tt
  All-mapped Q f h (x ∷ xs) a = (h x a.0, All-mapped Q f h xs a.1)

-- What is in a list passes a test that it passes itself.
module _ {A : Type 0} (p : A → A → Bool) (r : (x : A) → p x x ≡ true) where
  any_more : (x : A) (y : A) (ys : List A) → any (p x) ys ≡ true → any (p x) (y ∷ ys) ≡ true
  unfolding any
  any_more x y ys h = ground arith

  any_self : (xs : List A) → All (λ x. any (p x) xs ≡ true) xs
  unfolding any
  any_self [] = tt
  any_self (x ∷ xs) = (rw (r x) refl, All-imp _ _ (λ y h. any_more y x xs h) xs (any_self xs))

same_source_refl : (s : SourceName) → same_source s s ≡ true
same_source_refl google_places = refl
same_source_refl brave_search = refl
same_source_refl official_website = refl

abbrev HasPlace : List Territory → Territory → Type 0
HasPlace ts t = (u : Territory) × (first (same_place t.region_code t.comuna_code) ts ≡ some u)

first_more : (x y : Territory) (ts : List Territory) → HasPlace ts x → HasPlace (y ∷ ts) x
unfolding first
first_more x y ts (u, e) = elim (Bool-cases (same_place x.region_code x.comuna_code y)) [
  | inl h ↦ (y, rw h)
  | inr h ↦ (u, rw h e)
]

first_self : (ts : List Territory) → All (HasPlace ts) ts
unfolding first
first_self [] = tt
first_self (t ∷ ts) = (
  (t, rw (eq_refl t.region_code, eq_refl t.comuna_code)),
  All-imp _ _ (λ y h. first_more y t ts h) ts (first_self ts),
)

-- A discovery source of a list.
select_discovery :
    (xs ys : List SourceName)
    → All (λ x. any (same_source x) ys ≡ true) xs
    → All (λ x. (is_discovery x && any (same_source x) ys) ≡ true) (select is_discovery xs)
unfolding select
select_discovery [] ys a = tt
select_discovery (x ∷ xs) ys a = elim (Bool-cases (is_discovery x)) [
  | inl e ↦ rw e (rw (e, a.0), select_discovery xs ys a.1)
  | inr e ↦ rw e (select_discovery xs ys a.1)
]

accepts :
    (s : ProspectingRunSnapshot) (id : ℕ) (source : SourceName) (keyword : String) (t : Territory)
    → (is_discovery source && any (same_source source) s.campaign.sources) ≡ true
    → any (str_eq keyword) s.campaign.keywords ≡ true
    → HasPlace s.campaign.territories t
    → IsAccepted (validate_claimed_task s (as_claimed id (spec s source keyword t)))
unfolding validate_claimed_task
accepts s id source keyword t a b (u, e) = subst IsAccepted (sym passes) tt
  where
    passes : validate_claimed_task s (as_claimed id (spec s source keyword t)) ≡ returned u
    passes = ground (arith, e)

-- Every task of the expansion passes the validation of claimed tasks.
pub expand_task_specs-IsAccepted :
    (s : ProspectingRunSnapshot) (id : ℕ)
    → All (λ x. IsAccepted (validate_claimed_task s (as_claimed id x))) (expand_task_specs s)
unfolding expand_task_specs
expand_task_specs-IsAccepted s id =
    All-each _ (λ x. (is_discovery x && any (same_source x) s.campaign.sources) ≡ true) _
      (λ source a.
        All-each _ (λ k. any (str_eq k) s.campaign.keywords ≡ true) _
          (λ keyword b.
            All-mapped _ (HasPlace s.campaign.territories) (spec s source keyword)
              (λ t c. accepts s id source keyword t a b c) s.campaign.territories
              (first_self s.campaign.territories))
          s.campaign.keywords (any_self str_eq eq_refl s.campaign.keywords))
      (select is_discovery s.campaign.sources)
      (select_discovery s.campaign.sources s.campaign.sources
        (any_self same_source same_source_refl s.campaign.sources))
