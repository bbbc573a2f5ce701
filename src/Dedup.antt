-- ===== src/Dedup.antt =====
-- Which stored candidate a new one repeats, app/prospecting/dedup.py. The normalisers of
-- app/normalization stand on parsers of phone numbers, domains and Unicode that are not in the
-- repository, so they are an interface here, like the ratio of `rapidfuzz`; a score is a number of
-- hundredths. `id(existing)`, the identity of an object in memory, is a number that the object carries.
mod Entities
pub mod Match
mod Tests
use agente_inteligente_comer.Prelude.{
  ℕ, ◌≤◌, String, Bool, true, false, ◌&&◌, ◌||◌, List, [], ◌∷◌, ◌++◌, map, Option, none, some, ltb,
  leb, ◌==◌, if◌then◌else◌, is_some, str_eq, any, not, holds_text, least, length,
}
use agente_inteligente_comer.Contracts.{DedupDisposition, unique, exact_match, possible_duplicate}
use agente_inteligente_comer.Dict.{lookup}

-- `ProspectLocation` and `ProspectCandidate` of app/prospecting/contracts.py, with the fields that
-- identify a company and its locations.
pub record ProspectLocation : Type 0 where
  pub region_code : Option String
  pub region_name : Option String
  pub comuna_code : Option String
  pub comuna_name : Option String
  pub address : Option String

pub record ProspectCandidate : Type 0 where
  pub identity : ℕ
  pub candidate_id : Option String
  pub name : String
  pub rut : Option String
  pub provider_ids : List (String × String)
  pub phone : Option String
  pub website : Option String
  pub location : ProspectLocation
  pub locations : List ProspectLocation

pub record Normalizers : Type 0 where
  pub normalize_rut : Option String → Option String
  pub normalize_website : Option String → Option String
  pub normalize_phone : Option String → Option String
  pub normalize_name : String → Option String
  pub normalize_geo : Option String → String
  pub normalize_address : Option String → Option String
  pub strip : String → String
  pub token_sort_ratio : String → String → ℕ

pub data Key : Type 0 where
  rut provider_id domain phone name_comuna_address name_comuna : Key

-- `_EXACT_PRIORITY`.
unfoldable pub priority : Key → ℕ
priority rut = 0
priority provider_id = 1
priority domain = 2
priority phone = 3
priority name_comuna_address = 4
priority name_comuna = 4

-- The texts of `CandidateMatch.key`.
pub data MatchKey : Type 0 where
  exact : Key → MatchKey
  conflicting : Key → Key → MatchKey
  ambiguous_exact_identifiers fuzzy_name_comuna : MatchKey

pub record CandidateMatch : Type 0 where
  pub disposition : DedupDisposition
  pub matched_id : Option String
  pub key : Option MatchKey
  pub score : ℕ

pub record ExactMatch : Type 0 where
  pub key : Key
  pub existing : ProspectCandidate

pub record BlockedMatch : Type 0 where
  pub conflict : Key
  pub key : Key
  pub existing : ProspectCandidate

-- `candidate_id or f"unidentified:{id(existing)}"`.
pub data EntityKey : Type 0 where
  identified : String → EntityKey
  unidentified : ℕ → EntityKey

pub entity_key : ProspectCandidate → EntityKey
entity_key c = elim c.candidate_id [
  | none ↦ unidentified c.identity
  | some s ↦ if str_eq s "" then unidentified c.identity else identified s
]

abbrev pub same_entity : EntityKey → EntityKey → Bool
same_entity (identified s) (identified t) = str_eq s t
same_entity (unidentified i) (unidentified j) = i == j
same_entity _ _ = false

-- The set of some entity keys, each once.
unfoldable pub distinct : List EntityKey → List EntityKey
distinct [] = []
distinct (k ∷ ks) = let rest = distinct ks in if any (same_entity k) rest then rest else k ∷ rest

-- `key=lambda item: (priority of the conflict, priority of the key)`, and `item[0]`.
abbrev pub conflict_before : BlockedMatch → BlockedMatch → Bool
conflict_before a b =
    ltb (priority a.conflict) (priority b.conflict)
    || ((priority a.conflict == priority b.conflict) && leb (priority a.key) (priority b.key))

abbrev pub key_before : ExactMatch → ExactMatch → Bool
key_before a b = leb (priority a.key) (priority b.key)

unfoldable pub no_match : CandidateMatch
no_match = record { disposition = unique; matched_id = none; key = none; score = 0 }

-- The result where an exact match is blocked, the least blocked one given.
pub match_blocked : List BlockedMatch → List ExactMatch → BlockedMatch → CandidateMatch
match_blocked blocked exacts b =
    let involved = map (λ m. m.existing) blocked ++ map (λ m. m.existing) exacts in
    record {
      disposition = possible_duplicate;
      matched_id =
          if length (distinct (map entity_key involved)) == 1
          then b.existing.candidate_id
          else none;
      key = some (conflicting b.conflict b.key);
      score = 10000;
    }

-- The result where there are exact matches and none is blocked, the least one given.
unfoldable pub match_exact : List ExactMatch → ExactMatch → CandidateMatch
match_exact exacts e =
    if ltb 1 (length (distinct (map (λ m. entity_key m.existing) exacts)))
    then record {
      disposition = possible_duplicate;
      matched_id = none;
      key = some ambiguous_exact_identifiers;
      score = 10000;
    }
    else record {
      disposition = exact_match;
      matched_id = e.existing.candidate_id;
      key = some (exact e.key);
      score = 10000;
    }

-- `a and a == b`, and `a and b and a != b`, of two optional texts.
abbrev pub agree : Option String → Option String → Bool
agree none b = false
agree (some s) b = not (str_eq s "") && holds_text b s

abbrev pub differ : Option String → Option String → Bool
differ (some s) (some t) = not (str_eq s "") && not (str_eq t "") && not (str_eq s t)
differ _ _ = false

-- `a or b` of two optional texts.
abbrev pub first_text : Option String → Option String → Option String
first_text none b = b
first_text (some s) b = if str_eq s "" then b else some s

unfoldable pub provider_match : ProspectCandidate → ProspectCandidate → Bool
provider_match candidate existing =
    any (λ item. not (str_eq item.1 "") && holds_text (lookup item.0 existing.provider_ids) item.1)
      candidate.provider_ids

-- The result where no stored candidate has an exact key.
unfoldable pub match_fuzzy : ℕ → Option (ProspectCandidate × ℕ) → CandidateMatch
match_fuzzy threshold none = no_match
match_fuzzy threshold (some best) =
    if leb threshold best.1
    then record {
      disposition = possible_duplicate;
      matched_id = best.0.candidate_id;
      key = some fuzzy_name_comuna;
      score = best.1;
    }
    else no_match

module _ (n : Normalizers) where
  open n use {
    normalize_rut, normalize_website, normalize_phone, normalize_name, normalize_geo,
    normalize_address, strip, token_sort_ratio,
  }

  unfoldable pub provider_conflict : ProspectCandidate → ProspectCandidate → Bool
  provider_conflict candidate existing =
      any
        (λ item. elim (lookup item.0 existing.provider_ids) [
          | none ↦ false
          | some other ↦ differ (some (strip item.1)) (some (strip other))
        ])
        candidate.provider_ids

  unfoldable pub blocking_higher_priority_conflict :
      ProspectCandidate → ProspectCandidate → Key → Option Key
  blocking_higher_priority_conflict candidate existing match_key =
      if ltb (priority rut) (priority match_key)
        && differ (normalize_rut candidate.rut) (normalize_rut existing.rut)
      then some rut
      else if leb (priority provider_id) (priority match_key)
          && provider_conflict candidate existing
      then some provider_id
      else if ltb (priority domain) (priority match_key)
          && differ (normalize_website candidate.website) (normalize_website existing.website)
      then some domain
      else if ltb (priority phone) (priority match_key)
          && differ (normalize_phone candidate.phone) (normalize_phone existing.phone)
      then some phone
      else none

  pub comuna : ProspectCandidate → String
  comuna c = normalize_geo (first_text c.location.comuna_code c.location.comuna_name)

  -- The keys of a name in a comuna: both addresses are unknown, or both are known and equal.
  pub address_key : Option String → Option String → Option Key
  address_key none none = some name_comuna
  address_key (some a) (some b) = if str_eq a b then some name_comuna_address else none
  address_key _ _ = none

  unfoldable pub exact_key : ProspectCandidate → ProspectCandidate → Option Key
  exact_key candidate existing =
      if agree (normalize_rut candidate.rut) (normalize_rut existing.rut)
      then some rut
      else if provider_match candidate existing
      then some provider_id
      else if agree (normalize_website candidate.website) (normalize_website existing.website)
      then some domain
      else if agree (normalize_phone candidate.phone) (normalize_phone existing.phone)
      then some phone
      else if agree (normalize_name candidate.name) (normalize_name existing.name)
          && agree (some (comuna candidate)) (some (comuna existing))
      then address_key (normalize_address candidate.location.address)
          (normalize_address existing.location.address)
      else none

  pub fuzzy_score : ProspectCandidate → ProspectCandidate → ℕ
  fuzzy_score candidate existing = elim (normalize_name candidate.name) [
    | none ↦ 0
    | some a ↦ elim (normalize_name existing.name) [
      | none ↦ 0
      | some b ↦
          if not (str_eq a "")
            && not (str_eq b "")
            && agree (some (comuna candidate)) (some (comuna existing))
          then token_sort_ratio a b
          else 0
    ]
  ]

  -- The first loop of `match_candidate`: the blocked matches and the exact ones.
  unfoldable pub scan :
      ProspectCandidate → List ProspectCandidate → List BlockedMatch × List ExactMatch
  scan candidate [] = ([], [])
  scan candidate (existing ∷ rest) =
      let later = scan candidate rest in
      elim (exact_key candidate existing) [
        | none ↦ later
        | some key ↦ elim (blocking_higher_priority_conflict candidate existing key) [
          | some conflict ↦
              (record { conflict = conflict; key = key; existing = existing } ∷ later.0, later.1)
          | none ↦ (later.0, record { key = key; existing = existing } ∷ later.1)
        ]
      ]

  -- `best[1]` and the candidate it belongs to, after the loop over the fuzzy scores.
  unfoldable pub best_fuzzy :
      ProspectCandidate
      → Option (ProspectCandidate × ℕ)
      → List ProspectCandidate
      → Option (ProspectCandidate × ℕ)
  best_fuzzy candidate best [] = best
  best_fuzzy candidate none (existing ∷ rest) =
      best_fuzzy candidate (some (existing, fuzzy_score candidate existing)) rest
  best_fuzzy candidate (some best) (existing ∷ rest) =
      let score = fuzzy_score candidate existing in
      best_fuzzy candidate (some (if ltb best.1 score then (existing, score) else best)) rest

  unfoldable pub match_candidate : ℕ → ProspectCandidate → List ProspectCandidate → CandidateMatch
  match_candidate threshold candidate existing_candidates =
      let found = scan candidate existing_candidates in
      elim (least conflict_before found.0) [
        | some b ↦ match_blocked found.0 found.1 b
        | none ↦ elim (least key_before found.1) [
          | some e ↦ match_exact found.1 e
          | none ↦ match_fuzzy threshold (best_fuzzy candidate none existing_candidates)
        ]
      ]
