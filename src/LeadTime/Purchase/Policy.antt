-- ===== src/LeadTime/Purchase/Policy.antt =====
-- What a recommendation promises.
use agente_inteligente_comer.Prelude.{
  ℕ, zero, suc, ◌+◌, ◌-◌, ◌*◌, ◌/◌, ◌%◌, ◌≤◌, ◌<◌, ◌≡◌, refl, ap, ◌∙◌, ◌⊎◌, inl, inr, Bool-cases,
  Bool, true, false, ◌&&◌, ◌||◌, arith, ltb, ◌==◌,
}
use native.Mathlib.Nat.{zero-mul, zero-div, zero-mod, mod-lt, mod-add-div'}
use agente_inteligente_comer.LeadTime.{Date, LeadTimePolicy}
use agente_inteligente_comer.LeadTime.Purchase.{
  InventoryPosition, Severity, low, PurchasePolicy, blocked_over_70000, no_purchase, ceil_units,
  held, promised, severity_of, policy_of, quantize, recommend, hard_po_max,
}

abbrev pub is_low : Severity → Bool
is_low low = true
is_low _ = false

abbrev pub is_blocked : PurchasePolicy → Bool
is_blocked blocked_over_70000 = true
is_blocked _ = false

abbrev pub is_no_purchase : PurchasePolicy → Bool
is_no_purchase no_purchase = true
is_no_purchase _ = false

policy_blocked :
    (value quantity : ℕ) → is_blocked (policy_of value quantity) ≡ ltb hard_po_max value
policy_blocked value quantity = ground arith

quantize-zero : (amount scale : ℕ) → amount ≡ 0 → 1 ≤ scale → quantize amount scale ≡ 0
unfolding quantize
quantize-zero amount scale e h = rw (e, zero-div scale, zero-mod scale) (ground arith)

policy_none :
    (value quantity : ℕ)
    → (quantity ≡ 0 → value ≡ 0)
    → is_no_purchase (policy_of value quantity) ≡ (quantity == 0)
policy_none value zero h = rw (h refl) (ground arith)
policy_none value (suc quantity) h = some_units value quantity
  where
    some_units : (value k : ℕ) → is_no_purchase (policy_of value (suc k)) ≡ (suc k == 0)
    some_units value k = ground arith

-- Rounding is off by half of the scale at most.
unfoldable pub IsNear : ℕ → ℕ → ℕ → Type 0
IsNear amount scale rounded =
    (2 * (rounded * scale) ≤ 2 * amount + scale) × (2 * amount ≤ 2 * (rounded * scale) + scale)

quantize-IsNear : (amount scale : ℕ) → 1 ≤ scale → IsNear amount scale (quantize amount scale)
unfolding quantize IsNear
quantize-IsNear amount scale h =
    let q = amount / scale in
    let r = amount % scale in
    let parts : r + q * scale ≡ amount = mod-add-div' amount scale in
    let small : r < scale = mod-lt amount h in
    let next : (q + 1) * scale ≡ q * scale + scale = grind arith in
    elim (Bool-cases (ltb (2 * r) scale)) [
      | inl e ↦ rw e (ground (arith, parts), ground (arith, parts))
      | inr e ↦ elim (Bool-cases (ltb scale (2 * r))) [
        | inl k ↦ rw (e, k, next) (ground (arith, parts), ground (arith, parts, small))
        | inr k ↦ elim (even_or_odd q) [
          | inl z ↦ rw (e, k, z) (ground (arith, parts), ground (arith, parts))
          | inr z ↦ rw (e, k, z, next) (ground (arith, parts), ground (arith, parts))
        ]
      ]
    ]
  where
    not_zero : {k : ℕ} → (k == 0) ≡ false → 1 ≤ k
    not_zero {k} e = ground (arith, e)

    even_or_odd : (q : ℕ) → (q % 2 ≡ 0) ⊎ (q % 2 ≡ 1)
    even_or_odd q = elim (Bool-cases (q % 2 == 0)) [
      | inl e ↦ inl (ground arith)
      | inr e ↦ inr (omega (arith, not_zero e))
    ]

severity_low :
    (h c reorder_point t : ℕ)
    → (ltb 0 (t + c - h) && is_low (severity_of h c reorder_point t)) ≡ false
severity_low h c reorder_point t = ground arith

reaches_target : (h c t : ℕ) → (t + c - h == 0 || h + (t + c - h) == c + t) ≡ true
reaches_target h c t = ground arith

-- Where the scale of costs is positive: with the recommended units the stock reaches the target and no
-- more than that where it was short of it; a stock with something to buy never counts as of low
-- severity; nothing is bought exactly under the policy that says so; the value of the purchase is its
-- cost to the nearest cent; and an order is blocked exactly where this value is over the limit.
pub recommend_lem :
    (policy : LeadTimePolicy) (fuel demand_scale cost_scale : ℕ) (position : InventoryPosition)
    (as_of : Date) (multiplier multiplier_scale : ℕ)
    → 1 ≤ cost_scale
    → let r =
        recommend policy fuel demand_scale cost_scale position as_of multiplier multiplier_scale in
      (promised position + r.target_units ≤ held position + r.recommended_units)
      × ((r.recommended_units == 0
            || held position + r.recommended_units == promised position + r.target_units)
          ≡ true)
      × ((ltb 0 r.recommended_units && is_low r.severity) ≡ false)
      × (is_no_purchase r.purchase_policy ≡ (r.recommended_units == 0))
      × IsNear (r.recommended_units * position.unit_cost) cost_scale r.recommended_value
      × (is_blocked r.purchase_policy ≡ ltb hard_po_max r.recommended_value)
unfolding recommend
recommend_lem policy fuel demand_scale cost_scale position as_of multiplier multiplier_scale h =
    let target =
      ceil_units (position.average_daily_demand * multiplier * policy.target_coverage_days)
        (demand_scale * multiplier_scale) in
    let quantity = target + promised position - held position in
    let value = quantize (quantity * position.unit_cost) cost_scale in
    (
      omega arith,
      reaches_target (held position) (promised position) target,
      severity_low (held position) (promised position) _ target,
      policy_none value quantity (λ e.
          quantize-zero (quantity * position.unit_cost) cost_scale
            (ap (λ k. k * position.unit_cost) e ∙ zero-mul position.unit_cost) h),
      quantize-IsNear (quantity * position.unit_cost) cost_scale h,
      policy_blocked value quantity,
    )
