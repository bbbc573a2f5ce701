-- ===== src/LeadTime/Tests.antt =====
-- An arrival on 20 May 2026 under the default policy: the order is due before the pause of February.
use agente_inteligente_comer.Prelude.{ℕ, ◌≡◌, refl, true, false, some, arith, is_some, any}
use agente_inteligente_comer.LeadTime.{
  Date, default_policy, is_leap, days_in_month, prev_day, repeat, shut, factory_days,
  projected_arrival, required_order_date,
}
use agente_inteligente_comer.LeadTime.Calendar.{IsDate}
use agente_inteligente_comer.LeadTime.Loops.Dates.{projected-required}
use agente_inteligente_comer.LeadTime.Loops.Fuel.{before, required_order_date-ends}

abbrev arrival : Date
arrival = record { year = 2026; month = 5; day = 20 }

abbrev order_date : Date
order_date = record { year = 2026; month = 1; day = 17 }

arrival-IsDate : IsDate arrival
unfolding days_in_month any
arrival-IsDate = record {
  year = omega arith;
  month_low = omega arith;
  month_high = omega arith;
  day_low = omega arith;
  day_high = omega arith;
}

required : required_order_date default_policy 80 arrival ≡ some order_date
unfolding required_order_date factory_days prev_day days_in_month is_leap repeat shut any
required = refl

projected-required_example : projected_arrival default_policy 80 order_date ≡ some arrival
unfolding prev_day days_in_month is_leap repeat shut any
projected-required_example =
    projected-required default_policy 80 arrival order_date arrival-IsDate refl required
      (omega arith)

isolated_february : (m : ℕ) → shut default_policy m ≡ true → shut default_policy (before m) ≡ false
unfolding shut any
isolated_february m h = ground (arith, h)

required_order_date-ends_example : is_some (required_order_date default_policy 1517 arrival) ≡ true
required_order_date-ends_example =
    required_order_date-ends default_policy isolated_february 1517 arrival (omega arith)
      (omega arith)
