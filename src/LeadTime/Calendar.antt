-- ===== src/LeadTime/Calendar.antt =====
-- Dates of the calendar, and the days before and after them.
use agente_inteligente_comer.Prelude.{
  ℕ, ◌+◌, ◌-◌, ◌≤◌, ◌≡◌, refl, true, false, arith, ltb, ◌∙◌, Bool-cases, inl, inr,
}
use agente_inteligente_comer.Prelude.{any}
use agente_inteligente_comer.LeadTime.{Date, days_in_month, next_day, prev_day}

pub record IsDate (d : Date) : Type 0 where
  pub year : 1 ≤ d.year
  pub month_low : 1 ≤ d.month
  pub month_high : d.month ≤ 12
  pub day_low : 1 ≤ d.day
  pub day_high : d.day ≤ days_in_month d.year d.month

pub month_bounds : (y m : ℕ) → (28 ≤ days_in_month y m) × (days_in_month y m ≤ 31)
unfolding days_in_month
month_bounds y m = (ground arith, ground arith)

december : (y : ℕ) → days_in_month y 12 ≡ 31
unfolding days_in_month any
december y = refl

date_eq : (a b : Date) → a.year ≡ b.year → a.month ≡ b.month → a.day ≡ b.day → a ≡ b
date_eq a b p q r = cc

-- The day after, case by case.
within_month :
    (d : Date)
    → ltb d.day (days_in_month d.year d.month) ≡ true
    → next_day d ≡ record d { day = d.day + 1 }
unfolding next_day
within_month d h = rw (next_day, h) refl

end_of_month :
    (d : Date)
    → ltb d.day (days_in_month d.year d.month) ≡ false
    → ltb d.month 12 ≡ true
    → next_day d ≡ record d { month = d.month + 1; day = 1 }
unfolding next_day
end_of_month d h e = rw (next_day, h, e) refl

end_of_year :
    (d : Date)
    → ltb d.day (days_in_month d.year d.month) ≡ false
    → ltb d.month 12 ≡ false
    → next_day d ≡ record { year = d.year + 1; month = 1; day = 1 }
unfolding next_day
end_of_year d h e = rw (next_day, h, e) refl

-- The day before, case by case.
back_in_month : (d : Date) → ltb 1 d.day ≡ true → prev_day d ≡ record d { day = d.day - 1 }
unfolding prev_day
back_in_month d h = rw (prev_day, h) refl

back_to_month :
    (d : Date)
    → ltb 1 d.day ≡ false
    → ltb 1 d.month ≡ true
    → prev_day d ≡ record d { month = d.month - 1; day = days_in_month d.year (d.month - 1) }
unfolding prev_day
back_to_month d h e = rw (prev_day, h, e) refl

back_to_year :
    (d : Date)
    → ltb 1 d.day ≡ false
    → ltb 1 d.month ≡ false
    → prev_day d ≡ record { year = d.year - 1; month = 12; day = 31 }
unfolding prev_day
back_to_year d h e = rw (prev_day, h, e) refl

pub prev_day-IsDate : (d : Date) → IsDate d → 2 ≤ d.year → IsDate (prev_day d)
prev_day-IsDate d v h = elim (Bool-cases (ltb 1 d.day)) [
  | inl a ↦ rw (back_in_month d a) (record {
    year = v.year;
    month_low = v.month_low;
    month_high = v.month_high;
    day_low = ground (arith, a);
    day_high = omega (arith, v.day_high);
  })
  | inr a ↦ elim (Bool-cases (ltb 1 d.month)) [
    | inl b ↦ rw (back_to_month d a b) (record {
      year = v.year;
      month_low = ground (arith, b);
      month_high = omega (arith, v.month_high);
      day_low = omega (arith, (month_bounds d.year (d.month - 1)).0);
      day_high = omega arith;
    })
    | inr b ↦ rw (back_to_year d a b) (record {
      year = omega arith;
      month_low = omega arith;
      month_high = omega arith;
      day_low = omega arith;
      day_high = omega (arith, december (d.year - 1));
    })
  ]
]

-- In year 1 the day before January 1 is not a date.
pub next-prev_day : (d : Date) → IsDate d → 2 ≤ d.year → next_day (prev_day d) ≡ d
next-prev_day d v h = elim (Bool-cases (ltb 1 d.day)) [
  | inl a ↦ rw (back_in_month d a) (
      within_month (record d { day = d.day - 1 }) (ground (arith, a, v.day_high))
      ∙ date_eq _ _ refl refl (ground (arith, a)))
  | inr a ↦ elim (Bool-cases (ltb 1 d.month)) [
    | inl b ↦ rw (back_to_month d a b) (
        end_of_month (record d { month = d.month - 1; day = days_in_month d.year (d.month - 1) })
          (ground arith) (ground (arith, b, v.month_high))
        ∙ date_eq _ _ refl (ground (arith, b)) (ground (arith, a, v.day_low)))
    | inr b ↦ rw (back_to_year d a b) (
        end_of_year (record { year = d.year - 1; month = 12; day = 31 })
          (ground (arith, december (d.year - 1))) refl
        ∙ date_eq _ _ (omega (arith, h)) (ground (arith, b, v.month_low))
            (ground (arith, a, v.day_low)))
  ]
]
