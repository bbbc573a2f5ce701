-- ===== src/LeadTime/Purchase/Tests.antt =====
-- A position short of its target, in the high season.
use agente_inteligente_comer.Prelude.{◌+◌, ◌*◌, ◌≤◌, ◌≡◌, arith, false, true, ◌&&◌, ◌||◌, ltb, ◌==◌}
use agente_inteligente_comer.LeadTime.{Date, default_policy}
use agente_inteligente_comer.LeadTime.Purchase.{
  InventoryPosition, pos, negsuc, held, promised, hard_po_max, recommend,
}
use agente_inteligente_comer.LeadTime.Purchase.Policy.{
  is_low, is_blocked, is_no_purchase, IsNear, recommend_lem,
}

abbrev position : InventoryPosition
position = record {
  sku = "AC-12";
  available_units = pos 40;
  committed_units = pos 10;
  confirmed_inbound_units = negsuc 19;
  average_daily_demand = 150;
  unit_cost = 250005;
}

abbrev today : Date
today = record { year = 2026; month = 1; day = 15 }

recommend_lem_example :
    let r = recommend default_policy 4000 100 10 position today 12 10 in
    (promised position + r.target_units ≤ held position + r.recommended_units)
    × ((r.recommended_units == 0
          || held position + r.recommended_units == promised position + r.target_units)
        ≡ true)
    × ((ltb 0 r.recommended_units && is_low r.severity) ≡ false)
    × (is_no_purchase r.purchase_policy ≡ (r.recommended_units == 0))
    × IsNear (r.recommended_units * 250005) 10 r.recommended_value
    × (is_blocked r.purchase_policy ≡ ltb hard_po_max r.recommended_value)
recommend_lem_example = recommend_lem default_policy 4000 100 10 position today 12 10 (omega arith)
