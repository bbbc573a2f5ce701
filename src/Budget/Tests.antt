-- ===== src/Budget/Tests.antt =====
-- The budget of concrete settings.
use agente_inteligente_comer.Prelude.{◌≤◌, refl, List, [], ◌∷◌, none, arith, total}
use agente_inteligente_comer.Dict.{lookup}
use agente_inteligente_comer.Budget.{
  Settings, pro, enterprise, cost_estimate, exhausted, decision, MemoryBudget, QueryLog, since,
  of_run, spend, reserve,
}
use agente_inteligente_comer.Budget.Ledgers.{
  IsWithin, Query, ask_all, ask_all-IsWithin, reserve-within,
}

abbrev settings : Settings
settings = record {
  google_places_run_budget = 1000;
  google_places_daily_budget = 5000;
  google_places_monthly_budget = 90000;
  google_places_budget_alert_ratio = 8000;
  google_places_queries_per_task = 1;
  google_places_pages_per_query = 2;
  google_places_detail_multiplier = 2;
}

abbrev ledger : MemoryBudget
ledger = record { settings = settings; runs = []; daily = 0; monthly = 0; day = 1; month = 1 }

abbrev queries : List Query
queries =
    record { today = 1; month = 1; run_id = "run"; tier = pro }
    ∷ record { today = 2; month = 1; run_id = "run"; tier = enterprise }
    ∷ []

ledger-IsWithin : IsWithin ledger
unfolding lookup
ledger-IsWithin = record { runs = λ _. omega arith; daily = omega arith; monthly = omega arith }

ask_all-IsWithin_example : IsWithin (ask_all ledger queries)
ask_all-IsWithin_example = ask_all-IsWithin ledger queries ledger-IsWithin

abbrev logs : List QueryLog
logs =
    record {
      id = 1;
      run_id = "run";
      task_id = "t";
      cost = 320;
      results_count = none;
      created_at = 100;
    }
    ∷ []

reserve-within_example :
    let r = reserve settings 2 200 50 10 "run" "t" pro logs in
    (spend (of_run "run") r.0 ≤ 1000)
    × (spend (since 50) r.0 ≤ 5000)
    × (spend (since 10) r.0 ≤ 90000)
unfolding reserve spend total decision exhausted cost_estimate
reserve-within_example =
    reserve-within settings 2 200 50 10 "run" "t" pro logs (omega arith) (omega arith) refl
