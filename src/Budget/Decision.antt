-- ===== src/Budget/Decision.antt =====
-- The decision about one query, and the estimate for a run.
use agente_inteligente_comer.Prelude.{
  ℕ, ◌+◌, ◌*◌, ◌≤◌, ◌≡◌, ◌↔◌, inl, inr, Bool-cases, true, false, not, ◌&&◌, arith, is_some,
  if◌then◌else◌, length, any,
}
use agente_inteligente_comer.Contracts.{ProspectingRunSnapshot, google_places, same_source}
use agente_inteligente_comer.Budget.{Settings, decision, estimate_google_run}

module _ (settings : Settings) (cost run_spend daily_spend monthly_spend : ℕ) where
  open settings use {
    google_places_run_budget as run_budget, google_places_daily_budget as daily_budget,
    google_places_monthly_budget as monthly_budget,
  }

  -- What a query may do to the three budgets.
  pub record Within : Type 0 where
    pub run : run_spend + cost ≤ run_budget
    pub day : daily_spend + cost ≤ daily_budget
    pub month : monthly_spend + cost ≤ monthly_budget

  -- In exact sums, a query is allowed exactly where it overruns none of the three budgets. The reservation's spends
  -- are the old ones, with the cost where it is allowed; a refusal has a reason, and no alert.
  pub decision_lem :
      let d = decision settings cost run_spend daily_spend monthly_spend in
      ((d.allowed ≡ true) ↔ Within)
      × (d.run_spend ≡ (if d.allowed then run_spend + cost else run_spend))
      × (d.daily_spend ≡ (if d.allowed then daily_spend + cost else daily_spend))
      × (d.monthly_spend ≡ (if d.allowed then monthly_spend + cost else monthly_spend))
      × (is_some d.reason ≡ not d.allowed)
      × ((not d.allowed && d.alert) ≡ false)
  unfolding decision
  decision_lem = (
    (
      λ h. record { run = ground arith; day = ground arith; month = ground arith },
      λ w. ground arith,
    ),
    ground arith,
    ground arith,
    ground arith,
    ground arith,
    ground arith,
  )

more : (n k : ℕ) → 1 ≤ k → n ≤ n * k
more n k h = grind arith

-- The expected cost is within the highest, and the highest within the budget of a run, wherever the
-- detail multiplier is positive.
pub estimate_bounds :
    (s : ProspectingRunSnapshot) (settings : Settings)
    → 1 ≤ settings.google_places_detail_multiplier
    → let e = estimate_google_run s settings in
      (e.estimated_cost ≤ e.estimated_max_cost)
      × (e.estimated_max_cost ≤ settings.google_places_run_budget)
unfolding estimate_google_run
estimate_bounds s settings h =
    elim (Bool-cases (any (same_source google_places) s.campaign.sources)) [
      | inl e ↦ rw e (
        omega (
          arith,
          more
              (length s.campaign.territories
                * length s.campaign.keywords
                * s.campaign.max_results_per_task)
              settings.google_places_detail_multiplier h,
        ),
        omega arith,
      )
      | inr e ↦ rw e (omega arith, omega arith)
    ]
