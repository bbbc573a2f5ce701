-- ===== src/Budget.antt =====
-- The budgets for paid queries to Google Places (app/prospecting/budget.py): the decision, the ledger
-- in memory and the ledger in the database. An amount is a whole number of ten-thousandths of a
-- dollar, in which the costs of the code (0.032 and 0.020) and their sums are exact. The code sums
-- floats: their rounding is left out, by which it may refuse a query that just reaches a budget. The
-- alert ratio counts the same unit, and `projected / budget >= ratio` is multiplied out, since the
-- settings demand positive budgets.
pub mod Decision
mod Tests
pub mod Ledgers
use agente_inteligente_comer.Prelude.{
  ℕ, ◌+◌, ◌*◌, min, String, Bool, true, false, ◌&&◌, ◌||◌, List, [], ◌∷◌, ◌++◌, Option, none, some,
  ltb, leb, ◌==◌, if◌then◌else◌, is_some, or_else, str_eq, any, select, total, length, not,
}
use agente_inteligente_comer.Contracts.{
  SourceName, google_places, same_source, ProspectingRunSnapshot,
}
use agente_inteligente_comer.Dict.{lookup, insert}
use agente_inteligente_comer.Table.{modify}

-- app/config.py
pub record Settings : Type 0 where
  pub google_places_run_budget : ℕ
  pub google_places_daily_budget : ℕ
  pub google_places_monthly_budget : ℕ
  pub google_places_budget_alert_ratio : ℕ
  pub google_places_queries_per_task : ℕ
  pub google_places_pages_per_query : ℕ
  pub google_places_detail_multiplier : ℕ

pub data PlacesFieldTier : Type 0 where
  pro enterprise : PlacesFieldTier

-- `COST_ESTIMATE_USD` of app/enrichment/google_places.py.
pub cost_estimate : PlacesFieldTier → ℕ
cost_estimate pro = 320
cost_estimate enterprise = 200

pub data Reason : Type 0 where
  run_budget_exhausted daily_budget_exhausted monthly_budget_exhausted : Reason

pub record BudgetReservation : Type 0 where
  pub allowed : Bool
  pub cost : ℕ
  pub run_spend : ℕ
  pub daily_spend : ℕ
  pub monthly_spend : ℕ
  pub alert : Bool
  pub reason : Option Reason
  pub log_id : Option ℕ

pub record Estimate : Type 0 where
  pub google_tasks : ℕ
  pub estimated_min_cost : ℕ
  pub estimated_cost : ℕ
  pub estimated_max_cost : ℕ

pub estimate_google_run : ProspectingRunSnapshot → Settings → Estimate
unfolding cost_estimate
estimate_google_run s settings =
    if not (any (same_source google_places) s.campaign.sources)
    then record {
      google_tasks = 0;
      estimated_min_cost = 0;
      estimated_cost = 0;
      estimated_max_cost = 0;
    }
    else (let tasks = length s.campaign.territories * length s.campaign.keywords in
        let minimum = tasks * settings.google_places_queries_per_task * cost_estimate pro in
        let planned = minimum * settings.google_places_pages_per_query in
        let details = tasks * s.campaign.max_results_per_task in
        let expected = planned + details * cost_estimate enterprise in
        let maximum =
          planned + details * settings.google_places_detail_multiplier * cost_estimate enterprise in
        record {
          google_tasks = tasks;
          estimated_min_cost = minimum;
          estimated_cost = min expected settings.google_places_run_budget;
          estimated_max_cost = min maximum settings.google_places_run_budget;
        })

-- Which budget would be overrun, in the order of the tests.
pub exhausted : Settings → ℕ → ℕ → ℕ → Option Reason
exhausted settings run day month =
    if ltb settings.google_places_run_budget run
    then some run_budget_exhausted
    else if ltb settings.google_places_daily_budget day
    then some daily_budget_exhausted
    else if ltb settings.google_places_monthly_budget month
    then some monthly_budget_exhausted
    else none

abbrev pub reaches : ℕ → ℕ → ℕ → Bool
reaches ratio budget projected = leb (ratio * budget) (projected * 10000)

pub decision : Settings → ℕ → ℕ → ℕ → ℕ → BudgetReservation
unfolding exhausted
decision settings cost run_spend daily_spend monthly_spend =
    let run = run_spend + cost in
    let day = daily_spend + cost in
    let month = monthly_spend + cost in
    let reason = exhausted settings run day month in
    let ratio = settings.google_places_budget_alert_ratio in
    record {
      allowed = not (is_some reason);
      cost = cost;
      run_spend = if is_some reason then run_spend else run;
      daily_spend = if is_some reason then daily_spend else day;
      monthly_spend = if is_some reason then monthly_spend else month;
      alert =
          not (is_some reason)
          && (reaches ratio settings.google_places_run_budget run
              || reaches ratio settings.google_places_daily_budget day
              || reaches ratio settings.google_places_monthly_budget month);
      reason = reason;
      log_id = none;
    }

-- `MemoryGooglePlacesBudget`. A day is its ordinal, a month its year and number as one number.
pub record MemoryBudget : Type 0 where
  pub settings : Settings
  pub runs : List (String × ℕ)
  pub daily : ℕ
  pub monthly : ℕ
  pub day : ℕ
  pub month : ℕ

pub roll_periods : ℕ → ℕ → MemoryBudget → MemoryBudget
roll_periods today month b = record b {
  daily = if b.day == today then b.daily else 0;
  day = today;
  monthly = if b.month == month then b.monthly else 0;
  month = month;
}

abbrev pub record_spend : String → BudgetReservation → MemoryBudget → MemoryBudget
record_spend run_id d b =
    if d.allowed
    then record b {
      runs = insert run_id d.run_spend b.runs;
      daily = d.daily_spend;
      monthly = d.monthly_spend;
    }
    else b

pub reserve_in_memory :
    ℕ → ℕ → String → PlacesFieldTier → MemoryBudget → MemoryBudget × BudgetReservation
unfolding roll_periods
reserve_in_memory today month run_id tier b =
    let b' = roll_periods today month b in
    let d =
      decision b'.settings (cost_estimate tier) (or_else (lookup run_id b'.runs) 0) b'.daily
        b'.monthly in
    (record_spend run_id d b', d)

-- A row of the query log, `GoogleMapsQueryLog` of app/db/models.py.
pub record QueryLog : Type 0 where
  pub id : ℕ
  pub run_id : String
  pub task_id : String
  pub cost : ℕ
  pub results_count : Option ℕ
  pub created_at : ℕ

abbrev pub log_key : QueryLog → ℕ
log_key l = l.id

abbrev pub since : ℕ → QueryLog → ℕ
since start l = if leb start l.created_at then l.cost else 0

abbrev pub of_run : String → QueryLog → ℕ
of_run run_id l = if str_eq l.run_id run_id then l.cost else 0

-- `_spend`: the sum of the costs since an instant, or of one run since the beginning.
pub spend : (QueryLog → ℕ) → List QueryLog → ℕ
spend amount logs = total amount logs

-- `PersistentGooglePlacesBudget.reserve`, whose calls the advisory lock puts one after another.
-- `day_start` and `month_start` are computed from the clock; `stamp` is the row's `created_at`.
pub reserve :
    Settings
    → ℕ
    → ℕ
    → ℕ
    → ℕ
    → String
    → String
    → PlacesFieldTier
    → List QueryLog
    → List QueryLog × BudgetReservation
reserve settings id stamp day_start month_start run_id task_id tier logs =
    let cost = cost_estimate tier in
    let d =
      decision settings cost (spend (of_run run_id) logs) (spend (since day_start) logs)
        (spend (since month_start) logs) in
    if d.allowed
    then (
      logs
          ++ record {
            id = id;
            run_id = run_id;
            task_id = task_id;
            cost = cost;
            results_count = none;
            created_at = stamp;
          }
            ∷ [],
      record d { log_id = some id },
    )
    else (logs, d)

-- `complete` writes the number of results on the reservation's row.
pub complete : BudgetReservation → ℕ → List QueryLog → List QueryLog
complete r results logs = elim r.log_id [
  | none ↦ logs
  | some id ↦ modify log_key id (λ l. record l { results_count = some results }) logs
]
