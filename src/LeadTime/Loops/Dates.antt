-- ===== src/LeadTime/Loops/Dates.antt =====
-- An order placed on the required date arrives on the desired one, and the required date is found.
use agente_inteligente_comer.Prelude.{
  ℕ, zero, suc, ◌+◌, ◌≤◌, ◌≡◌, refl, sym, ◌∙◌, ap, subst, false, some, arith, if◌then◌else◌,
  some_eq, Bool-cases, inl, inr,
}
use agente_inteligente_comer.LeadTime.{
  Date, LeadTimePolicy, next_day, prev_day, repeat, closed, factory_days, add_factory_days,
  projected_arrival, required_order_date,
}
use agente_inteligente_comer.LeadTime.Calendar.{IsDate, prev_day-IsDate, next-prev_day}
use agente_inteligente_comer.LeadTime.Loops.{
  worked, worked-closed, worked_open, factory_days-worked, factory_days_result, factory_days_done,
}

repeat_out :
    (move : Date → Date) (k : ℕ) (d : Date) → repeat move (suc k) d ≡ move (repeat move k d)
unfolding repeat
repeat_out move zero d = refl
repeat_out move (suc k) d = repeat_out move k (move d)

repeat_add :
    (move : Date → Date) (j k : ℕ) (d : Date)
    → repeat move k (repeat move j d) ≡ repeat move (j + k) d
unfolding repeat
repeat_add move zero k d = ap (λ n. repeat move n d) {x = k} {y = 0 + k} (omega arith)
repeat_add move (suc j) k d =
    repeat_add move j k (move d)
    ∙ ap (λ n. repeat move n d) {x = suc (j + k)} {y = suc j + k} (omega arith)

prev_year : (d : Date) → (prev_day d).year ≤ d.year
unfolding prev_day
prev_year d = ground arith

earlier_year : (k : ℕ) (d : Date) → (repeat prev_day k d).year ≤ d.year
unfolding repeat
earlier_year zero d = omega arith
earlier_year (suc k) d = omega (arith, earlier_year k (prev_day d), prev_year d)

-- So many days back and so many onward.
there_and_back :
    (k : ℕ) (e : Date)
    → IsDate e
    → 2 ≤ (repeat prev_day k e).year
    → repeat next_day k (repeat prev_day k e) ≡ e
unfolding repeat
there_and_back zero e v h = refl
there_and_back (suc k) e v h =
    let y : 2 ≤ e.year = omega (arith, h, earlier_year (suc k) e) in
    repeat_out next_day k (repeat prev_day k (prev_day e))
    ∙ ap next_day (there_and_back k (prev_day e) (prev_day-IsDate e v y) h)
    ∙ next-prev_day e v y

earlier-IsDate :
    (k : ℕ) (e : Date) → IsDate e → 2 ≤ (repeat prev_day k e).year → IsDate (repeat prev_day k e)
unfolding repeat
earlier-IsDate zero e v h = v
earlier-IsDate (suc k) e v h =
    earlier-IsDate k (prev_day e) (prev_day-IsDate e v (omega (arith, h, earlier_year (suc k) e))) h

module _ (p : LeadTimePolicy) where
  abbrev opens : Date → ℕ
  opens d = if closed p d then 0 else 1

  worked_first :
      (move : Date → Date) (k : ℕ) (d : Date)
      → worked move p (suc k) d ≡ opens (move d) + worked move p k (move d)
  worked_first move k d = elim (Bool-cases (closed p (move d))) [
    | inl c ↦ rw c (worked-closed move p k d c ∙ omega arith)
    | inr c ↦ rw c (worked_open move p k d c ∙ omega arith)
  ]

  worked_last :
      (move : Date → Date) (k : ℕ) (d : Date)
      → worked move p (suc k) d ≡ worked move p k d + opens (repeat move (suc k) d)
  unfolding repeat worked
  worked_last move zero d = worked_first move zero d ∙ omega arith
  worked_last move (suc k) d =
      worked_first move (suc k) d
      ∙ omega (arith, worked_last move k (move d), worked_first move k d)

  -- The days of work on the way back are those on the way onward, but for the two ends.
  same_work :
      (k : ℕ) (e : Date)
      → IsDate e
      → 2 ≤ (repeat prev_day k e).year
      → worked next_day p k (repeat prev_day k e) + opens (repeat prev_day k e)
        ≡ worked prev_day p k e + opens e
  unfolding repeat worked
  same_work zero e v h = refl
  same_work (suc k) e v h =
      let y : 2 ≤ e.year = omega (arith, h, earlier_year (suc k) e) in
      let back = there_and_back (suc k) e v h in
      let ih = same_work k (prev_day e) (prev_day-IsDate e v y) h in
      let last =
        worked_last next_day k (repeat prev_day (suc k) e)
        ∙ ap (λ x. worked next_day p k (repeat prev_day (suc k) e) + opens x) back in
      omega (arith, ih, last, worked_first prev_day k e)

  later_year :
      (fuel days : ℕ) (e d : Date)
      → factory_days prev_day p fuel days e ≡ some d
      → 2 ≤ d.year
      → 2 ≤ e.year
  later_year fuel zero e d h y =
      let same : e ≡ d = some_eq _ _ (sym (factory_days_done prev_day p fuel e) ∙ h) in rw same y
  later_year fuel (suc days) e d h y =
      let q = factory_days_result prev_day p fuel days e d h in
      let low : 2 ≤ (repeat prev_day q.days e).year = rw q.there y in
      omega (arith, low, earlier_year q.days e)

  -- From the date that the loop back returns, the loop onward returns to a day of work.
  back_and_onward :
      (fuel days : ℕ) (e d : Date)
      → IsDate e
      → closed p e ≡ false
      → factory_days prev_day p fuel days e ≡ some d
      → 2 ≤ d.year
      → factory_days next_day p fuel days d ≡ some e
  back_and_onward fuel zero e d v open_ h y =
      let same : e ≡ d = some_eq _ _ (sym (factory_days_done prev_day p fuel e) ∙ h) in
      rw same (factory_days_done next_day p fuel d)
  back_and_onward fuel (suc days) e d v open_ h y =
      let q = factory_days_result prev_day p fuel days e d h in
      let low : 2 ≤ (repeat prev_day q.days e).year = rw q.there y in
      let there : repeat next_day q.days d ≡ e =
        ap (repeat next_day q.days) (sym q.there) ∙ there_and_back q.days e v low in
      let w : worked next_day p q.days d ≡ suc days = ground (
        arith,
        q.work,
        q.open_,
        open_,
        subst (λ x. worked next_day p q.days x + opens x ≡ worked prev_day p q.days e + opens e)
            q.there (same_work q.days e v low),
      ) in
      ap (λ n. factory_days next_day p fuel n d) (sym w)
      ∙ factory_days-worked next_day p q.days d fuel q.within
          (subst (λ x. closed p x ≡ false) (sym there) open_)
      ∙ ap some there

  abbrev travel : ℕ
  travel = p.sea_travel_days + p.customs_delay_days

  -- Where the production would end on a day on which the factory works, an order placed on the
  -- required date is projected to arrive exactly on the desired date.
  pub projected-required :
      (fuel : ℕ) (arrival d : Date)
      → IsDate arrival
      → closed p (repeat prev_day travel arrival) ≡ false
      → required_order_date p fuel arrival ≡ some d
      → 2 ≤ d.year
      → projected_arrival p fuel d ≡ some arrival
  unfolding required_order_date projected_arrival add_factory_days
  projected-required fuel arrival d v open_ h y =
      let e = repeat prev_day travel arrival in
      let low : 2 ≤ e.year = later_year fuel p.production_days e d h y in
      let onward =
        back_and_onward fuel p.production_days e d (earlier-IsDate travel arrival v low) open_ h
          y in
      rw onward (
        ap some (
          repeat_add next_day p.sea_travel_days p.customs_delay_days e
          ∙ there_and_back travel arrival v low))
