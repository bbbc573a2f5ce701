-- ===== src/LeadTime/Loops.antt =====
-- The loops over the factory's days end, and the one that looks back undoes the one that looks ahead.
pub mod Dates
pub mod Fuel
use agente_inteligente_comer.Prelude.{
  ℕ, zero, suc, ◌+◌, ◌-◌, ◌*◌, ◌≤◌, ◌≡◌, refl, sym, ◌∙◌, ap, subst, Bool, true, false, Option, none,
  some, arith, ltb, leb, ◌==◌, if◌then◌else◌, is_some, some_eq, Bool-cases, Option-cases, inl, inr,
}
use mathlib.Core.Option.{map as Option_map}
use agente_inteligente_comer.LeadTime.{
  Date, LeadTimePolicy, days_in_month, next_day, prev_day, repeat, shut, closed, factory_days,
  add_factory_days, projected_arrival, required_order_date,
}
use agente_inteligente_comer.LeadTime.Calendar.{
  IsDate, month_bounds, prev_day-IsDate, next-prev_day,
}

module _ (move : Date → Date) (p : LeadTimePolicy) where
  pub factory_days_done : (fuel : ℕ) (d : Date) → factory_days move p fuel 0 d ≡ some d
  unfolding factory_days
  factory_days_done zero d = refl
  factory_days_done (suc fuel) d = refl

  pub step_closed :
      (fuel remaining : ℕ) (d : Date)
      → 1 ≤ remaining
      → closed p (move d) ≡ true
      → factory_days move p (suc fuel) remaining d ≡ factory_days move p fuel remaining (move d)
  unfolding factory_days
  step_closed fuel zero d h e = absurd (omega arith)
  step_closed fuel (suc remaining) d h e = rw (factory_days, e) refl

  pub step_open :
      (fuel remaining : ℕ) (d : Date)
      → closed p (move d) ≡ false
      → factory_days move p (suc fuel) (suc remaining) d
        ≡ factory_days move p fuel remaining (move d)
  unfolding factory_days
  step_open fuel remaining d e = rw (factory_days, e) refl

  -- The days of work among a number of days onward from a date, which is left out.
  pub worked : ℕ → Date → ℕ
  worked zero d = 0
  worked (suc k) d = let rest = worked k (move d) in if closed p (move d) then rest else suc rest

  pub worked-closed :
      (k : ℕ) (d : Date) → closed p (move d) ≡ true → worked (suc k) d ≡ worked k (move d)
  unfolding worked
  worked-closed k d e = rw (worked, e) refl

  pub worked_open :
      (k : ℕ) (d : Date) → closed p (move d) ≡ false → worked (suc k) d ≡ suc (worked k (move d))
  unfolding worked
  worked_open k d e = rw (worked, e) refl

  worked_some : (k : ℕ) (d : Date) → closed p (repeat move (suc k) d) ≡ false → 1 ≤ worked (suc k) d
  unfolding repeat
  worked_some zero d h = rw (worked_open zero d h) (omega arith)
  worked_some (suc k) d h = elim (Bool-cases (closed p (move d))) [
    | inl c ↦ rw (worked-closed (suc k) d c) (worked_some k (move d) h)
    | inr c ↦ rw (worked_open (suc k) d c) (omega arith)
  ]

  -- On enough fuel the loop goes as far as the days of work it is given reach.
  pub factory_days-worked :
      (k : ℕ) (d : Date) (fuel : ℕ)
      → k ≤ fuel
      → closed p (repeat move k d) ≡ false
      → factory_days move p fuel (worked k d) d ≡ some (repeat move k d)
  unfolding repeat worked
  factory_days-worked zero d fuel h e = factory_days_done fuel d
  factory_days-worked (suc k) d zero h e = absurd (omega arith)
  factory_days-worked (suc k) d (suc fuel) h e =
      let rest = factory_days-worked k (move d) fuel (omega (arith, h)) e in
      elim (Bool-cases (closed p (move d))) [
        | inl c ↦ rw (worked-closed k d c) (
            step_closed fuel (worked k (move d)) d
              (subst (λ w. 1 ≤ w) (worked-closed k d c) (worked_some k d e)) c
            ∙ rest)
        | inr c ↦ rw (worked_open k d c) (step_open fuel (worked k (move d)) d c ∙ rest)
      ]

  pub record Reached (fuel remaining : ℕ) (d r : Date) : Type 0 where
    pub days : ℕ
    pub within : days ≤ fuel
    pub there : repeat move days d ≡ r
    pub work : worked days d ≡ remaining
    pub open_ : closed p r ≡ false

  onward_closed :
      (fuel remaining : ℕ) (d r : Date)
      → closed p (move d) ≡ true
      → Reached fuel remaining (move d) r
      → Reached (suc fuel) remaining d r
  unfolding repeat
  onward_closed fuel remaining d r c q = record {
    days = suc q.days;
    within = omega (arith, q.within);
    there = q.there;
    work = worked-closed q.days d c ∙ q.work;
    open_ = q.open_;
  }

  onward_open :
      (fuel remaining : ℕ) (d r : Date)
      → closed p (move d) ≡ false
      → Reached fuel remaining (move d) r
      → Reached (suc fuel) (suc remaining) d r
  unfolding repeat
  onward_open fuel remaining d r c q = record {
    days = suc q.days;
    within = omega (arith, q.within);
    there = q.there;
    work = worked_open q.days d c ∙ ap suc q.work;
    open_ = q.open_;
  }

  -- What the loop returns is so many days onward, on a day of work, after the days of work it was given.
  pub factory_days_result :
      (fuel remaining : ℕ) (d r : Date)
      → factory_days move p fuel (suc remaining) d ≡ some r
      → Reached fuel (suc remaining) d r
  unfolding factory_days repeat worked
  factory_days_result zero remaining d r h = absurd (ground arith)
  factory_days_result (suc fuel) remaining d r h = elim (Bool-cases (closed p (move d))) [
    | inl c ↦ onward_closed fuel (suc remaining) d r c (
        factory_days_result fuel remaining (move d) r
          (sym (step_closed fuel (suc remaining) d (omega arith) c) ∙ h))
    | inr c ↦ onward_open fuel remaining d r c (
        last fuel remaining (factory_days_result fuel) (move d) r c
          (sym (step_open fuel remaining d c) ∙ h))
  ]
    where
      last :
          (f n : ℕ)
          → ((m : ℕ) (e q : Date)
              → factory_days move p f (suc m) e ≡ some q
              → Reached f (suc m) e q)
          → (e q : Date) → closed p e ≡ false
          → factory_days move p f n e ≡ some q
          → Reached f n e q
      last f zero ih e q c g =
          let same : e ≡ q = some_eq _ _ (sym (factory_days_done f e) ∙ g) in
          record {
            days = 0;
            within = omega arith;
            there = same;
            work = refl;
            open_ = subst (λ x. closed p x ≡ false) same c;
          }
      last f (suc n) ih e q c g = ih n e q g
