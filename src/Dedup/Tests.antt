-- ===== src/Dedup/Tests.antt =====
-- Matches of concrete candidates, with normalisers that change nothing.
use agente_inteligente_comer.Prelude.{
  ℕ, ◌<◌, String, ◌≡◌, refl, true, List, [], ◌∷◌, Option, none, some, All, Any, any, least,
}
use agente_inteligente_comer.Contracts.{possible_duplicate}
use agente_inteligente_comer.Dedup.{
  ProspectCandidate, Normalizers, exact, priority, provider_match, provider_conflict,
  blocking_higher_priority_conflict, comuna, address_key, exact_key, fuzzy_score, ExactMatch,
  entity_key, distinct, match_exact, scan, best_fuzzy, no_match, match_fuzzy, match_candidate,
}
use agente_inteligente_comer.Dedup.Match.{
  compatible, Accepts, is_blocked, match_candidate-exact, match_candidate-blocked,
  match_candidate-unique,
}

abbrev geo : Option String → String
geo none = ""
geo (some s) = s

abbrev plain : Normalizers
plain = record {
  normalize_rut = λ r. r;
  normalize_website = λ r. r;
  normalize_phone = λ r. r;
  normalize_name = λ s. some s;
  normalize_geo = geo;
  normalize_address = λ r. r;
  strip = λ s. s;
  token_sort_ratio = λ a b. 5000;
}

abbrev company : ℕ → String → Option String → Option String → ProspectCandidate
company i name rut phone = record {
  identity = i;
  candidate_id = some name;
  name = name;
  rut = rut;
  provider_ids = [];
  phone = phone;
  website = none;
  location = record {
    region_code = none;
    region_name = none;
    comuna_code = some "13101";
    comuna_name = none;
    address = some "AV UNO 1";
  };
  locations = [];
}

abbrev newcomer : ProspectCandidate
newcomer = company 0 "CLIMA" (some "1-9") (some "+562")

abbrev stored : List ProspectCandidate
stored = company 1 "FRIO" (some "1-9") none ∷ company 2 "CALOR" none none ∷ []

match_candidate-exact_example :
    (m : ExactMatch) × Any (Accepts plain newcomer m) stored
    × All (λ e. compatible plain newcomer m e ≡ true) stored
    × ((match_candidate plain 8500 newcomer stored).key ≡ some (exact m.key))
    × ((match_candidate plain 8500 newcomer stored).matched_id ≡ m.existing.candidate_id)
unfolding match_candidate scan exact_key provider_match any blocking_higher_priority_conflict
    priority provider_conflict least match_exact distinct entity_key comuna address_key
match_candidate-exact_example = match_candidate-exact plain newcomer 8500 stored refl

abbrev contradicted : List ProspectCandidate
contradicted = company 1 "FRIO" (some "2-7") (some "+562") ∷ []

match_candidate-blocked_example :
    ((match_candidate plain 8500 newcomer contradicted).disposition ≡ possible_duplicate)
    × ((match_candidate plain 8500 newcomer contradicted).score ≡ 10000)
unfolding any is_blocked exact_key provider_match blocking_higher_priority_conflict priority
match_candidate-blocked_example = match_candidate-blocked plain newcomer 8500 contradicted refl

abbrev strangers : List ProspectCandidate
strangers = company 2 "CALOR" none none ∷ []

match_candidate-unique_example :
    All (λ e. (exact_key plain newcomer e ≡ none) × (fuzzy_score plain newcomer e < 8500)) strangers
unfolding match_candidate scan exact_key provider_match any least best_fuzzy match_fuzzy no_match
    fuzzy_score comuna address_key
match_candidate-unique_example = match_candidate-unique plain newcomer 8500 strangers refl
