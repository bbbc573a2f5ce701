-- ===== src/Brave/Tests.antt =====
-- Requests to Brave at a concrete usage.
use agente_inteligente_comer.Prelude.{◌+◌, ◌≤◌, ◌≡◌, refl, [], ◌∷◌, none, some, arith, total}
use agente_inteligente_comer.Table.{get}
use agente_inteligente_comer.Brave.{
  SearchLog, BraveBudget, local_since, base_queries, base_spend, effective_usage, reserve,
}
use agente_inteligente_comer.Brave.Limits.{brave_reserve-within}

abbrev request : SearchLog
request = record {
  id = 1;
  crm_run_id = "run";
  task_id = "t";
  query_kind = "discovery";
  query_hash = "h";
  cost = 0;
  results_count = none;
  created_at = 900;
}

abbrev budget : BraveBudget
budget = record {
  cost_per_query = 50;
  logs = [];
  reconciliations =
      record {
        month_key = 3;
        provider_queries = 10;
        provider_spend = 500;
        provider_limit_queries = some 1000;
        provider_remaining_queries = some 990;
        reset_seconds = none;
        observed_at = 800;
      }
      ∷ [];
}

brave_reserve-within_example :
    let r = reserve 3 100 50000 0 request budget in
    ((effective_usage 3 100 r.0).0 ≡ r.1.monthly_queries)
    × ((effective_usage 3 100 r.0).1 ≡ r.1.monthly_spend)
    × (r.1.monthly_queries ≡ (effective_usage 3 100 budget).0 + 1)
    × (r.1.monthly_spend ≤ 50000)
unfolding reserve effective_usage local_since base_queries base_spend get total
brave_reserve-within_example = brave_reserve-within 3 100 50000 0 request budget (omega arith) refl
