-- ===== src/Brave/Limits.antt =====
-- What a reservation with Brave leaves spent, and what the provider's usage may replace.
use agente_inteligente_comer.Prelude.{
  ℕ, ◌+◌, ◌≤◌, ◌≡◌, refl, true, List, [], ◌∷◌, ◌++◌, Option, none, arith, total, total-append,
  Option-cases, inl, inr,
}
use agente_inteligente_comer.Table.{get}
use agente_inteligente_comer.Table.Laws.{get-modify}
use agente_inteligente_comer.Brave.{
  SearchLog, BraveBudget, BraveReservation, month_of, local_since, base_queries, spent_since,
  counted_since, effective_usage, take_usage, assign_usage, reconcile_provider_usage, refuse,
  reserve,
}

total-snoc_log :
    (f : SearchLog → ℕ) (logs : List SearchLog) (row : SearchLog)
    → total f (logs ++ row ∷ []) ≡ total f logs + f row
unfolding total
total-snoc_log f logs row = omega (arith, total-append f logs (row ∷ []))

module _ (month month_start monthly_limit max_social : ℕ) (log : SearchLog) (b : BraveBudget) where
  abbrev reserved : BraveBudget × BraveReservation
  reserved = reserve month month_start monthly_limit max_social log b

  -- Where a request is allowed and its row is dated since the local usage counts, the usage afterwards
  -- is what the answer says, one request more than before, and its spend is within the month's limit.
  pub brave_reserve-within :
      local_since month_start (get month_of month b.reconciliations) ≤ log.created_at
      → reserved.1.allowed ≡ true
      → ((effective_usage month month_start reserved.0).0 ≡ reserved.1.monthly_queries)
        × ((effective_usage month month_start reserved.0).1 ≡ reserved.1.monthly_spend)
        × (reserved.1.monthly_queries ≡ (effective_usage month month_start b).0 + 1)
        × (reserved.1.monthly_spend ≤ monthly_limit)
  unfolding reserve effective_usage refuse
  brave_reserve-within dated allowed =
      let row : SearchLog = record log { cost = b.cost_per_query; results_count = none } in
      let start = local_since month_start (get month_of month b.reconciliations) in
      (
        ground (arith, allowed, dated, total-snoc_log (counted_since start) b.logs row),
        ground (arith, allowed, dated, total-snoc_log (spent_since start) b.logs row),
        ground (arith, allowed),
        ground (arith, allowed),
      )

-- Taking over the provider's usage never lowers the number of the month's queries that was taken over
-- before.
pub reconcile-grows :
    (month queries : ℕ) (limit remaining reset : Option ℕ) (now : ℕ) (b : BraveBudget)
    → base_queries (get month_of month b.reconciliations)
      ≤ base_queries (
          get month_of month
            (reconcile_provider_usage month queries limit remaining reset now b).reconciliations)
unfolding reconcile_provider_usage base_queries
reconcile-grows month queries limit remaining reset now b =
    let usage = take_usage month queries limit remaining reset now b.cost_per_query in
    elim (Option-cases (get month_of month b.reconciliations)) [
      | inl none_yet ↦ rw none_yet (omega arith)
      | inr (r, current) ↦ ground (
        arith,
        current,
        get-modify month_of month (assign_usage usage) (λ r. refl) month b.reconciliations,
      )
    ]
