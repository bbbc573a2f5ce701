-- ===== src/Budget/Ledgers.antt =====
-- The two ledgers never pass a budget, whatever is asked of them and whenever.
use agente_inteligente_comer.Prelude.{
  ℕ, ◌+◌, ◌≤◌, String, ◌≡◌, true, List, [], ◌∷◌, ◌++◌, none, arith, or_else, total, total-append,
  inl, inr, Bool-cases,
}
use agente_inteligente_comer.Dict.{lookup, lookup-insert}
use agente_inteligente_comer.Budget.{
  Settings, PlacesFieldTier, cost_estimate, BudgetReservation, decision, MemoryBudget, roll_periods,
  record_spend, reserve_in_memory, QueryLog, since, of_run, spend, reserve,
}
use agente_inteligente_comer.Budget.Decision.{Within, decision_lem}
use text.Mathlib.TextPositions.{eq_refl}

abbrev pub run_total : MemoryBudget → String → ℕ
run_total b run_id = or_else (lookup run_id b.runs) 0

pub record IsWithin (b : MemoryBudget) : Type 0 where
  pub runs : (run_id : String) → run_total b run_id ≤ b.settings.google_places_run_budget
  pub daily : b.daily ≤ b.settings.google_places_daily_budget
  pub monthly : b.monthly ≤ b.settings.google_places_monthly_budget

roll-IsWithin :
    (today month : ℕ) (b : MemoryBudget) → IsWithin b → IsWithin (roll_periods today month b)
unfolding roll_periods
roll-IsWithin today month b v = record {
  runs = v.runs;
  daily = ground (arith, v.daily);
  monthly = ground (arith, v.monthly);
}

spend-IsWithin :
    (run_id : String) (cost : ℕ) (b : MemoryBudget)
    → IsWithin b
    → IsWithin
        (record_spend run_id (decision b.settings cost (run_total b run_id) b.daily b.monthly) b)
spend-IsWithin run_id cost b v =
    elim (Bool-cases (decision b.settings cost (run_total b run_id) b.daily b.monthly).allowed) [
      | inr e ↦ rw e v
      | inl e ↦
          let d = decision_lem b.settings cost (run_total b run_id) b.daily b.monthly in
          let w : Within b.settings cost (run_total b run_id) b.daily b.monthly = d.0.0 e in
          rw e (record {
            runs = λ j. ground (
              arith,
              w.run,
              d.1,
              e,
              v.runs j,
              lookup-insert run_id j
                  (decision b.settings cost (run_total b run_id) b.daily b.monthly).run_spend
                  b.runs,
            );
            daily = ground (arith, w.day, d.2, e);
            monthly = ground (arith, w.month, d.3, e);
          })
    ]

reserve-IsWithin :
    (today month : ℕ) (run_id : String) (tier : PlacesFieldTier) (b : MemoryBudget)
    → IsWithin b
    → IsWithin (reserve_in_memory today month run_id tier b).0
unfolding reserve_in_memory
reserve-IsWithin today month run_id tier b v =
    spend-IsWithin run_id (cost_estimate tier) (roll_periods today month b)
      (roll-IsWithin today month b v)

-- A query asked for on a day of a month.
pub record Query : Type 0 where
  pub today : ℕ
  pub month : ℕ
  pub run_id : String
  pub tier : PlacesFieldTier

pub ask_all : MemoryBudget → List Query → MemoryBudget
ask_all b [] = b
ask_all b (q ∷ qs) = ask_all (reserve_in_memory q.today q.month q.run_id q.tier b).0 qs

-- From a ledger within its budgets, after any queries on any days, each run, the day and the month
-- are within theirs.
pub ask_all-IsWithin : (b : MemoryBudget) (qs : List Query) → IsWithin b → IsWithin (ask_all b qs)
unfolding ask_all
ask_all-IsWithin b [] v = v
ask_all-IsWithin b (q ∷ qs) v =
    ask_all-IsWithin (reserve_in_memory q.today q.month q.run_id q.tier b).0 qs
      (reserve-IsWithin q.today q.month q.run_id q.tier b v)

total-snoc :
    (f : QueryLog → ℕ) (logs : List QueryLog) (row : QueryLog)
    → total f (logs ++ row ∷ []) ≡ total f logs + f row
unfolding total
total-snoc f logs row = omega (arith, total-append f logs (row ∷ []))

module _ (settings : Settings) (id stamp day_start month_start : ℕ) (run_id task_id : String)
    (tier : PlacesFieldTier) (logs : List QueryLog) where
  abbrev reserved : List QueryLog × BudgetReservation
  reserved = reserve settings id stamp day_start month_start run_id task_id tier logs

  -- Where a reservation in the database is allowed, what is spent on the run, since the start of the day
  -- and since the start of the month is within the budgets after it, if the new row is dated in both.
  pub reserve-within :
      day_start ≤ stamp
      → month_start ≤ stamp
      → (reserved.1.allowed ≡ true)
      → (spend (of_run run_id) reserved.0 ≤ settings.google_places_run_budget)
        × (spend (since day_start) reserved.0 ≤ settings.google_places_daily_budget)
        × (spend (since month_start) reserved.0 ≤ settings.google_places_monthly_budget)
  unfolding reserve spend
  reserve-within in_day in_month ok =
      let cost = cost_estimate tier in
      let run = spend (of_run run_id) logs in
      let day = spend (since day_start) logs in
      let month = spend (since month_start) logs in
      elim (Bool-cases (decision settings cost run day month).allowed) [
        | inr e ↦ ground (arith, e, ok)
        | inl e ↦
            let w : Within settings cost run day month =
              (decision_lem settings cost run day month).0.0 e in
            let row : QueryLog = record {
              id = id;
              run_id = run_id;
              task_id = task_id;
              cost = cost;
              results_count = none;
              created_at = stamp;
            } in
            rw e (
              ground (arith, w.run, total-snoc (of_run run_id) logs row, eq_refl run_id),
              ground (arith, w.day, in_day, total-snoc (since day_start) logs row),
              ground (arith, w.month, in_month, total-snoc (since month_start) logs row),
            )
      ]
