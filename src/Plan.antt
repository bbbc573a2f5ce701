-- ===== src/Plan.antt =====
-- The tasks of a run (app/prospecting/store.py): the expansion of a snapshot into discovery tasks, and
-- the validation of the tasks that the CRM plans.
mod Expansion
mod Tests
use agente_inteligente_comer.Prelude.{
  ℕ, String, Bool, true, false, not, ◌&&◌, ◌||◌, List, map, Option, none, some, ltb, if◌then◌else◌,
  any, first, select, each, str_eq,
}
use agente_inteligente_comer.Contracts.{
  SourceName, google_places, brave_search, same_source, Territory, ProspectingRunSnapshot,
  ClaimedTask,
}

pub record TaskSpec : Type 0 where
  pub source : SourceName
  pub keyword : String
  pub region_code : String
  pub region_name : String
  pub comuna_code : String
  pub comuna_name : String
  pub max_results : ℕ

abbrev pub is_discovery : SourceName → Bool
is_discovery google_places = true
is_discovery brave_search = true
is_discovery _ = false

abbrev pub spec : ProspectingRunSnapshot → SourceName → String → Territory → TaskSpec
spec s source keyword territory = record {
  source = source;
  keyword = keyword;
  region_code = territory.region_code;
  region_name = territory.region_name;
  comuna_code = territory.comuna_code;
  comuna_name = territory.comuna_name;
  max_results = s.campaign.max_results_per_task;
}

pub expand_task_specs : ProspectingRunSnapshot → List TaskSpec
expand_task_specs s =
    each
      (λ source.
        each (λ keyword. map (spec s source keyword) s.campaign.territories) s.campaign.keywords)
      (select is_discovery s.campaign.sources)

-- The errors that the methods raise; each rolls the transaction back.
pub data Error : Type 0 where
  source_outside keyword_outside limit_exceeded task_outside duplicate_key : Error

pub data Result {ℓ} (A : Type ℓ) : Type ℓ where
  raised : Error → Result A
  returned : A → Result A

infixl 5 ◌>>=◌
abbrev pub ◌>>=◌ {ℓ κ} : {A : Type ℓ} {B : Type κ} → Result A → (A → Result B) → Result B
raised e >>= next = raised e
returned a >>= next = next a

abbrev pub same_place : String → String → Territory → Bool
same_place region comuna t = str_eq t.region_code region && str_eq t.comuna_code comuna

abbrev pub found_territory : Option Territory → Result Territory
found_territory none = raised task_outside
found_territory (some t) = returned t

unfoldable pub validate_claimed_task : ProspectingRunSnapshot → ClaimedTask → Result Territory
validate_claimed_task s c =
    if not (is_discovery c.source) || not (any (same_source c.source) s.campaign.sources)
    then raised source_outside
    else if not (any (str_eq c.keyword) s.campaign.keywords)
    then raised keyword_outside
    else if ltb s.campaign.max_results_per_task c.max_results
    then raised limit_exceeded
    else found_territory (first (same_place c.region_code c.comuna_code) s.campaign.territories)
