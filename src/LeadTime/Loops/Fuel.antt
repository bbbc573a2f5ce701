-- ===== src/LeadTime/Loops/Fuel.antt =====
-- Enough fuel for the search of the order date.
use agente_inteligente_comer.Prelude.{
  ℕ, zero, suc, ◌+◌, ◌-◌, ◌*◌, ◌≤◌, ◌≡◌, refl, sym, subst, true, false, arith, ltb, if◌then◌else◌,
  is_some, Bool-cases, ◌⊎◌, inl, inr,
}
use agente_inteligente_comer.LeadTime.{
  Date, LeadTimePolicy, prev_day, repeat, shut, closed, factory_days, required_order_date,
}
use agente_inteligente_comer.LeadTime.Calendar.{month_bounds}
use agente_inteligente_comer.LeadTime.Loops.{factory_days_done, step_closed, step_open}

-- The month before a month.
abbrev pub before : ℕ → ℕ
before m = if ltb 1 m then m - 1 else 12

-- The day before is in the month before, or earlier in the same month.
prev_day_cases :
    (d : Date)
    → d.day ≤ 31
    → ((prev_day d).day ≤ 31)
      × ((((prev_day d).month ≡ d.month) × (suc (prev_day d).day ≤ d.day))
          ⊎ ((prev_day d).month ≡ before d.month))
unfolding prev_day
prev_day_cases d h = elim (Bool-cases (ltb 1 d.day)) [
  | inl a ↦ rw (prev_day, a) (omega (arith, h), inl (refl, ground (arith, a)))
  | inr a ↦ elim (Bool-cases (ltb 1 d.month)) [
    | inl b ↦ rw (prev_day, a, b) ((month_bounds d.year (d.month - 1)).1, inr refl)
    | inr b ↦ rw (prev_day, a, b) (omega arith, inr refl)
  ]
]

module _ (p : LeadTimePolicy)
    (isolated : (m : ℕ) → shut p m ≡ true → shut p (before m) ≡ false) where
  -- How long the factory may stay closed before a date.
  stay : Date → ℕ
  stay d = if closed p d then d.day else 32

  stay_bound : (d : Date) → d.day ≤ 31 → stay d ≤ 32
  unfolding stay
  stay_bound d h = ground arith

  -- A closed day before a date is nearer to the end of the closed days.
  stay_falls :
      (d : Date) → d.day ≤ 31 → closed p (prev_day d) ≡ true → suc (stay (prev_day d)) ≤ stay d
  unfolding stay
  stay_falls d h c =
      let cases = prev_day_cases d h in
      elim (Bool-cases (closed p d)) [
        | inr e ↦ rw (c, e) (omega (arith, cases.0))
        | inl e ↦
            rw (c, e)
              (elim cases.1 [
                | inl same ↦ same.1
                | inr other ↦ absurd (
                    ground
                      (arith, c, subst (λ m. shut p m ≡ false) (sym other) (isolated d.month e)))
              ])
      ]

  enough :
      (fuel remaining : ℕ) (d : Date)
      → d.day ≤ 31
      → 33 * remaining + stay d ≤ fuel
      → is_some (factory_days prev_day p fuel remaining d) ≡ true
  enough fuel zero d h f = rw (factory_days_done prev_day p fuel d) refl
  enough zero (suc remaining) d h f = absurd (omega (arith, f))
  enough (suc fuel) (suc remaining) d h f = elim (Bool-cases (closed p (prev_day d))) [
    | inl c ↦ rw (step_closed prev_day p fuel (suc remaining) d (omega arith) c) (
        enough fuel (suc remaining) (prev_day d) (prev_day_cases d h).0
          (omega (arith, f, stay_falls d h c)))
    | inr c ↦ rw (step_open prev_day p fuel remaining d c) (
        enough fuel remaining (prev_day d) (prev_day_cases d h).0
          (omega (arith, f, stay_bound (prev_day d) (prev_day_cases d h).0)))
  ]

  earlier_day : (k : ℕ) (d : Date) → d.day ≤ 31 → (repeat prev_day k d).day ≤ 31
  unfolding repeat
  earlier_day zero d h = h
  earlier_day (suc k) d h = earlier_day k (prev_day d) (prev_day_cases d h).0

  -- Where no two months in a row are shut, the search of the order date ends within 33 steps for each
  -- day of production and 32 more.
  pub required_order_date-ends :
      (fuel : ℕ) (arrival : Date)
      → arrival.day ≤ 31
      → 33 * p.production_days + 32 ≤ fuel
      → is_some (required_order_date p fuel arrival) ≡ true
  unfolding required_order_date
  required_order_date-ends fuel arrival h f =
      let e = repeat prev_day (p.sea_travel_days + p.customs_delay_days) arrival in
      let day : e.day ≤ 31 = earlier_day (p.sea_travel_days + p.customs_delay_days) arrival h in
      enough fuel p.production_days e day (omega (arith, f, stay_bound e day))
