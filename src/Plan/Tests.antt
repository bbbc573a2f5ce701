-- ===== src/Plan/Tests.antt =====
-- The expansion of a concrete campaign.
use agente_inteligente_comer.Prelude.{[], ◌∷◌, All}
use agente_inteligente_comer.Contracts.{
  google_places, brave_search, official_website, Territory, ProspectingRunSnapshot,
}
use agente_inteligente_comer.Plan.{expand_task_specs, validate_claimed_task}
use agente_inteligente_comer.Plan.Expansion.{IsAccepted, as_claimed, expand_task_specs-IsAccepted}

abbrev santiago : Territory
santiago = record {
  region_code = "13";
  region_name = "Metropolitana";
  comuna_code = "13101";
  comuna_name = "Santiago";
}

abbrev sample : ProspectingRunSnapshot
sample = record {
  crm_run_id = "run";
  campaign = record {
    territories = santiago ∷ [];
    keywords = "clima" ∷ "frio" ∷ [];
    sources = google_places ∷ official_website ∷ brave_search ∷ [];
    target_types = [];
    max_results_per_task = 20;
    max_candidates = 50;
  };
}

expand_task_specs-IsAccepted_example :
    All (λ x. IsAccepted (validate_claimed_task sample (as_claimed 5 x))) (expand_task_specs sample)
expand_task_specs-IsAccepted_example = expand_task_specs-IsAccepted sample 5
