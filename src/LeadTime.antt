-- ===== src/LeadTime.antt =====
-- The lead times of purchases abroad, `ForeignTradePlanner` of app/foreign_trade/planning.py: when an
-- order must be placed for an arrival, and when an order placed arrives. Dates are those of Python's
-- `datetime.date`; the loops run on fuel, and its end is `none`.
pub mod Calendar
pub mod Loops
pub mod Purchase
mod Tests
use agente_inteligente_comer.Prelude.{
  ℕ, zero, suc, ◌+◌, ◌-◌, ◌*◌, ◌%◌, Bool, true, false, ◌&&◌, ◌||◌, not, List, [], ◌∷◌, Option, none,
  some, ltb, leb, ◌==◌, if◌then◌else◌, any,
}
use mathlib.Core.Option.{map as Option_map}

pub record Date : Type 0 where
  pub year : ℕ
  pub month : ℕ
  pub day : ℕ

pub record LeadTimePolicy : Type 0 where
  pub production_days : ℕ
  pub sea_travel_days : ℕ
  pub customs_delay_days : ℕ
  pub safety_stock_days : ℕ
  pub review_period_days : ℕ
  pub target_coverage_days : ℕ
  pub factory_shutdown_months : List ℕ

abbrev pub default_policy : LeadTimePolicy
default_policy = record {
  production_days = 45;
  sea_travel_days = 45;
  customs_delay_days = 5;
  safety_stock_days = 30;
  review_period_days = 30;
  target_coverage_days = 150;
  factory_shutdown_months = 2 ∷ [];
}

pub is_leap : ℕ → Bool
is_leap y = (y % 4 == 0) && (not (y % 100 == 0) || (y % 400 == 0))

pub days_in_month : ℕ → ℕ → ℕ
days_in_month y m =
    if any (◌==◌ m) (4 ∷ 6 ∷ 9 ∷ 11 ∷ [])
    then 30
    else if not (m == 2)
    then 31
    else 28 + (if is_leap y then 1 else 0)

-- `date + timedelta(days=1)` and `date - timedelta(days=1)`.
pub next_day : Date → Date
next_day d =
    if ltb d.day (days_in_month d.year d.month)
    then record d { day = d.day + 1 }
    else if ltb d.month 12
    then record d { month = d.month + 1; day = 1 }
    else record { year = d.year + 1; month = 1; day = 1 }

pub prev_day : Date → Date
prev_day d =
    if ltb 1 d.day
    then record d { day = d.day - 1 }
    else if ltb 1 d.month
    then record d { month = d.month - 1; day = days_in_month d.year (d.month - 1) }
    else record { year = d.year - 1; month = 12; day = 31 }

-- A number of days later or earlier.
pub repeat : (Date → Date) → ℕ → Date → Date
repeat move zero d = d
repeat move (suc n) d = repeat move n (move d)

-- `month in factory_shutdown_months`.
pub shut : LeadTimePolicy → ℕ → Bool
shut p month = any (◌==◌ month) p.factory_shutdown_months

abbrev pub closed : LeadTimePolicy → Date → Bool
closed p d = shut p d.month

-- The loop of `_add_factory_days` and of `required_order_date`, which differ in the direction.
pub factory_days : (Date → Date) → LeadTimePolicy → ℕ → ℕ → Date → Option Date
factory_days move p fuel zero current = some current
factory_days move p zero (suc remaining) current = none
factory_days move p (suc fuel) (suc remaining) current =
    let there = move current in
    factory_days move p fuel (if closed p there then suc remaining else remaining) there

pub add_factory_days : LeadTimePolicy → ℕ → Date → ℕ → Option Date
add_factory_days p fuel start days = factory_days next_day p fuel days start

pub projected_arrival : LeadTimePolicy → ℕ → Date → Option Date
projected_arrival p fuel order_date =
    Option_map
      (λ production_end.
        repeat next_day p.customs_delay_days (repeat next_day p.sea_travel_days production_end))
      (add_factory_days p fuel order_date p.production_days)

pub required_order_date : LeadTimePolicy → ℕ → Date → Option Date
required_order_date p fuel desired_arrival =
    factory_days prev_day p fuel p.production_days
      (repeat prev_day (p.sea_travel_days + p.customs_delay_days) desired_arrival)
