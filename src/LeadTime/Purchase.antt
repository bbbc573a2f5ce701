-- ===== src/LeadTime/Purchase.antt =====
-- How much to buy and when: `recommend` and `detect_aggregate_limit` of `ForeignTradePlanner`. A demand
-- is a fraction of units per day and a unit cost a fraction of a cent, with a scale under the line; the
-- value of a purchase is rounded to cents. Every amount is within the 28 digits that `Decimal`
-- computes exactly, demands and costs are not negative, and no date is after the year 9999. The field
-- `net_units` is left out: it is the difference of `held` and `promised`.
pub mod Policy
mod Tests
use agente_inteligente_comer.Prelude.{
  ℕ, zero, suc, ◌+◌, ◌-◌, ◌*◌, ◌/◌, ◌%◌, String, Bool, true, false, List, [], ◌∷◌, ◌++◌, Option,
  none, some, ltb, leb, ◌==◌, if◌then◌else◌, any,
}
use agente_inteligente_comer.LeadTime.{
  Date, LeadTimePolicy, next_day, repeat, shut, projected_arrival, required_order_date,
}

-- An `int`.
pub data ℤ : Type 0 where
  pos negsuc : ℕ → ℤ

-- An integer is the difference of these two.
abbrev positive : ℤ → ℕ
positive (pos n) = n
positive (negsuc n) = 0

abbrev negative : ℤ → ℕ
negative (pos n) = 0
negative (negsuc n) = suc n

pub record InventoryPosition : Type 0 where
  pub sku : String
  pub available_units : ℤ
  pub committed_units : ℤ
  pub confirmed_inbound_units : ℤ
  pub average_daily_demand : ℕ
  pub unit_cost : ℕ

pub data Severity : Type 0 where
  critical high medium low : Severity

pub data PurchasePolicy : Type 0 where
  blocked_over_70000 target_range_50000_70000 below_target_requires_reason no_purchase :
      PurchasePolicy

pub data Warning : Type 0 where
  high_season factory_pause over_limit under_target : Warning

pub record ReplenishmentRecommendation : Type 0 where
  pub sku : String
  pub reorder_point_units : ℕ
  pub target_units : ℕ
  pub recommended_units : ℕ
  pub recommended_value : ℕ
  pub projected_stockout_date : Option Date
  pub required_order_date : Option Date
  pub severity : Severity
  pub purchase_policy : PurchasePolicy
  pub warnings : List Warning

abbrev pub target_po_min : ℕ
target_po_min = 5000000

abbrev pub hard_po_max : ℕ
hard_po_max = 7000000

-- `_ceil_units` of a fraction.
abbrev pub ceil_units : ℕ → ℕ → ℕ
ceil_units value scale = if scale == 0 then 0 else (value + (scale - 1)) / scale

-- `quantize` of a fraction, to the nearest whole number, and to the even one of two as near.
pub quantize : ℕ → ℕ → ℕ
quantize amount scale =
    let whole = amount / scale in
    let rest = amount % scale in
    if ltb (2 * rest) scale
    then whole
    else if ltb scale (2 * rest)
    then whole + 1
    else whole + whole % 2

-- The units that are there or come, and those that are promised: `net` is their difference.
abbrev pub held : InventoryPosition → ℕ
held p =
    positive p.available_units + negative p.committed_units + positive p.confirmed_inbound_units

abbrev pub promised : InventoryPosition → ℕ
promised p =
    negative p.available_units + positive p.committed_units + negative p.confirmed_inbound_units

abbrev pub severity_of : ℕ → ℕ → ℕ → ℕ → Severity
severity_of held committed reorder_point target =
    if leb held committed
    then critical
    else if leb held (committed + reorder_point)
    then high
    else if leb held (committed + target)
    then medium
    else low

abbrev pub policy_of : ℕ → ℕ → PurchasePolicy
policy_of value quantity =
    if ltb hard_po_max value
    then blocked_over_70000
    else if leb target_po_min value
    then target_range_50000_70000
    else if ltb 0 quantity
    then below_target_requires_reason
    else no_purchase

abbrev policy_warning : PurchasePolicy → List Warning
policy_warning blocked_over_70000 = over_limit ∷ []
policy_warning below_target_requires_reason = under_target ∷ []
policy_warning _ = []

abbrev is_high_season : ℕ → Bool
is_high_season month = any (◌==◌ month) (11 ∷ 12 ∷ 1 ∷ 2 ∷ [])

abbrev season_warning : Date → List Warning
season_warning as_of = if is_high_season as_of.month then high_season ∷ [] else []

abbrev pause_warning : LeadTimePolicy → Option Date → List Warning
pause_warning policy none = []
pause_warning policy (some arrival) = if shut policy arrival.month then factory_pause ∷ [] else []

abbrev order_before : LeadTimePolicy → ℕ → Option Date → Option Date
order_before policy fuel none = none
order_before policy fuel (some d) = required_order_date policy fuel d

-- `demand_multiplier` is a fraction over `multiplier_scale`; `fuel` is that of the calendar loops.
pub recommend :
    LeadTimePolicy → ℕ → ℕ → ℕ → InventoryPosition → Date → ℕ → ℕ → ReplenishmentRecommendation
unfolding quantize
recommend policy fuel demand_scale cost_scale position as_of demand_multiplier multiplier_scale =
    let adjusted = position.average_daily_demand * demand_multiplier in
    let scale = demand_scale * multiplier_scale in
    let reorder_days =
      policy.production_days + policy.sea_travel_days + policy.customs_delay_days
      + policy.safety_stock_days in
    let reorder_point = ceil_units (adjusted * reorder_days) scale in
    let target = ceil_units (adjusted * policy.target_coverage_days) scale in
    let quantity = target + promised position - held position in
    let value = quantize (quantity * position.unit_cost) cost_scale in
    let stockout : Option Date =
      if adjusted == 0
      then none
      else some (repeat next_day ((held position - promised position) * scale / adjusted) as_of) in
    record {
      sku = position.sku;
      reorder_point_units = reorder_point;
      target_units = target;
      recommended_units = quantity;
      recommended_value = value;
      projected_stockout_date = stockout;
      required_order_date = order_before policy fuel stockout;
      severity = severity_of (held position) (promised position) reorder_point target;
      purchase_policy = policy_of value quantity;
      warnings =
          season_warning as_of
          ++ pause_warning policy (projected_arrival policy fuel as_of)
          ++ policy_warning (policy_of value quantity);
    }

pub sum : List ℕ → ℕ
sum [] = 0
sum (v ∷ vs) = v + sum vs

-- Whether the orders together pass the limit, and their total.
pub detect_aggregate_limit : List ℕ → Bool × ℕ
unfolding sum
detect_aggregate_limit proposed_values =
    (ltb hard_po_max (sum proposed_values), sum proposed_values)
