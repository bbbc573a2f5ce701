-- ===== src/Brave.antt =====
-- The budget of paid searches with Brave, `PersistentBraveSearchBudget` of app/prospecting/budget.py:
-- the requests logged here since the provider's usage was last taken over, on top of that usage. A
-- month is a number, `month_start` and `now` are of the clock, and an amount is a whole number of
-- ten-thousandths of a dollar.
pub mod Limits
mod Tests
use agente_inteligente_comer.Prelude.{
  ℕ, ◌+◌, ◌-◌, ◌*◌, String, Bool, true, false, ◌&&◌, List, [], ◌∷◌, ◌++◌, Option, none, some, ltb,
  leb, if◌then◌else◌, str_eq, select, total, length,
}
use agente_inteligente_comer.Table.{get, modify}

-- `BraveSearchQueryLog` and `BraveUsageReconciliation` of app/db/models.py.
pub record SearchLog : Type 0 where
  pub id : ℕ
  pub crm_run_id : String
  pub task_id : String
  pub query_kind : String
  pub query_hash : String
  pub cost : ℕ
  pub results_count : Option ℕ
  pub created_at : ℕ

pub record Reconciliation : Type 0 where
  pub month_key : ℕ
  pub provider_queries : ℕ
  pub provider_spend : ℕ
  pub provider_limit_queries : Option ℕ
  pub provider_remaining_queries : Option ℕ
  pub reset_seconds : Option ℕ
  pub observed_at : ℕ

pub record BraveBudget : Type 0 where
  pub cost_per_query : ℕ
  pub logs : List SearchLog
  pub reconciliations : List Reconciliation

pub data Refusal : Type 0 where
  social_query_limit_exhausted monthly_budget_exhausted : Refusal

pub record BraveReservation : Type 0 where
  pub allowed : Bool
  pub monthly_queries : ℕ
  pub monthly_spend : ℕ
  pub monthly_limit : ℕ
  pub remaining : ℕ
  pub reason : Option Refusal
  pub log_id : Option ℕ

abbrev pub month_of : Reconciliation → ℕ
month_of r = r.month_key

abbrev pub log_of : SearchLog → ℕ
log_of l = l.id

-- From when the requests logged here count.
pub local_since : ℕ → Option Reconciliation → ℕ
local_since month_start none = month_start
local_since month_start (some r) = r.observed_at

pub base_queries : Option Reconciliation → ℕ
base_queries none = 0
base_queries (some r) = r.provider_queries

pub base_spend : Option Reconciliation → ℕ
base_spend none = 0
base_spend (some r) = r.provider_spend

abbrev pub spent_since : ℕ → SearchLog → ℕ
spent_since start l = if leb start l.created_at then l.cost else 0

abbrev pub counted_since : ℕ → SearchLog → ℕ
counted_since start l = if leb start l.created_at then 1 else 0

-- `_effective_usage`: the number of requests and what they cost.
pub effective_usage : ℕ → ℕ → BraveBudget → ℕ × ℕ
effective_usage month month_start b =
    let r = get month_of month b.reconciliations in
    let start = local_since month_start r in
    (
      base_queries r + total (counted_since start) b.logs,
      base_spend r + total (spent_since start) b.logs,
    )

abbrev pub take_usage : ℕ → ℕ → Option ℕ → Option ℕ → Option ℕ → ℕ → ℕ → Reconciliation
take_usage month queries limit_queries remaining_queries reset now cost = record {
  month_key = month;
  provider_queries = queries;
  provider_spend = queries * cost;
  provider_limit_queries = limit_queries;
  provider_remaining_queries = remaining_queries;
  reset_seconds = reset;
  observed_at = now;
}

-- The attributes that a later reading of the provider's usage sets.
abbrev pub assign_usage : Reconciliation → Reconciliation → Reconciliation
assign_usage usage r = record r {
  provider_queries = usage.provider_queries;
  provider_spend = usage.provider_spend;
  provider_limit_queries = usage.provider_limit_queries;
  provider_remaining_queries = usage.provider_remaining_queries;
  reset_seconds = usage.reset_seconds;
  observed_at = usage.observed_at;
}

-- `reconcile_provider_usage`, without the summary that it returns.
pub reconcile_provider_usage :
    ℕ → ℕ → Option ℕ → Option ℕ → Option ℕ → ℕ → BraveBudget → BraveBudget
reconcile_provider_usage month queries limit_queries remaining_queries reset now b =
    let usage =
      take_usage month queries limit_queries remaining_queries reset now b.cost_per_query in
    elim (get month_of month b.reconciliations) [
      | none ↦ record b { reconciliations = b.reconciliations ++ usage ∷ [] }
      | some current ↦
          if leb current.provider_queries queries
          then record b {
            reconciliations = modify month_of month (assign_usage usage) b.reconciliations;
          }
          else b
    ]

abbrev pub is_social : String → SearchLog → ℕ
is_social run_id l = if str_eq l.crm_run_id run_id && str_eq l.query_kind "social" then 1 else 0

pub refuse : ℕ → ℕ → ℕ → Refusal → BraveReservation
refuse count spend limit reason = record {
  allowed = false;
  monthly_queries = count;
  monthly_spend = spend;
  monthly_limit = limit;
  remaining = limit - spend;
  reason = some reason;
  log_id = none;
}

-- `log` is the row to be added, with the columns that the call is given and the digest of its query.
pub reserve : ℕ → ℕ → ℕ → ℕ → SearchLog → BraveBudget → BraveBudget × BraveReservation
reserve month month_start monthly_limit max_social_queries log b =
    let usage = effective_usage month month_start b in
    let row = record log { cost = b.cost_per_query; results_count = none } in
    let projected = usage.1 + b.cost_per_query in
    if str_eq log.query_kind "social"
      && leb max_social_queries (total (is_social log.crm_run_id) b.logs)
    then (b, refuse usage.0 usage.1 monthly_limit social_query_limit_exhausted)
    else if ltb monthly_limit projected
    then (b, refuse usage.0 usage.1 monthly_limit monthly_budget_exhausted)
    else (
      record b { logs = b.logs ++ row ∷ [] },
      record {
        allowed = true;
        monthly_queries = usage.0 + 1;
        monthly_spend = projected;
        monthly_limit = monthly_limit;
        remaining = monthly_limit - projected;
        reason = none;
        log_id = some log.id;
      },
    )

pub complete : BraveReservation → ℕ → BraveBudget → BraveBudget
complete r results b = elim r.log_id [
  | none ↦ b
  | some id ↦ record b {
    logs = modify log_of id (λ l. record l { results_count = some results }) b.logs;
  }
]
