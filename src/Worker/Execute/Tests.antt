-- ===== src/Worker/Execute/Tests.antt =====
-- The execution of a task whose source finds one company.
use agente_inteligente_comer.Prelude.{
  ◌≡◌, ◌⊎◌, refl, false, [], ◌∷◌, some, select, any, total, first, least,
}
use agente_inteligente_comer.Contracts.{TaskStatus}
use agente_inteligente_comer.Table.{get, modify}
use agente_inteligente_comer.Tasks.{TaskRow, key, worker_task, finish, finish_task, owns_task}
use agente_inteligente_comer.Outbox.{
  get_outbox, by_age, insert_by_age, has_pending_outbox, queue_outbox, mark_outbox_delivered,
}
use agente_inteligente_comer.Events.{save_event}
use agente_inteligente_comer.Dedup.{match_candidate, scan, best_fuzzy, match_fuzzy, no_match}
use agente_inteligente_comer.Candidates.{
  scope_candidate, candidate_id_for_match, candidate_fingerprint, identity,
  location_is_in_requested_territory,
}
use agente_inteligente_comer.Candidates.Saving.{
  save_candidates, save_each, save_one, store_one, current_row, insert_row,
}
use agente_inteligente_comer.Worker.{
  deliver_outbox, deliver_each, deliver_one, deliver_message, accepted, record_ack,
  finalize_outbox_delivery,
}
use agente_inteligente_comer.Worker.Reports.{Database, over}
use agente_inteligente_comer.Worker.Execute.{
  qualified, save, log, search_until_stopped, discoveries, keep, investigate, attempt, execute_task,
}
use agente_inteligente_comer.Worker.Execute.Released.{Kept, Reason, execute_task-owns}
use agente_inteligente_comer.Worker.Samples.{
  research, crm, services, control, config, claim, sample_run, row,
}

abbrev leased : TaskRow
leased = row 1 TaskStatus.running (some "w1") (some 50000000)

abbrev start : Database
start = record {
  store = record { runs = sample_run ∷ []; tasks = leased ∷ []; outbox = [] };
  records = [];
  candidates = [];
}

abbrev finished : TaskRow
finished = finish 1 0 leased

over_now :
    let r =
      execute_task crm services control config research 7 claim (worker_task leased) start 10 in
    (r.1 ≡ over) × (get key 1 r.0.0.store.tasks ≡ some finished)
unfolding execute_task attempt log save_event queue_outbox deliver_outbox get_outbox by_age
    insert_by_age has_pending_outbox deliver_each deliver_one deliver_message accepted record_ack
    finalize_outbox_delivery mark_outbox_delivered investigate search_until_stopped discoveries keep
    qualified save save_candidates save_each save_one store_one current_row insert_row
    scope_candidate candidate_id_for_match candidate_fingerprint identity match_candidate scan
    best_fuzzy match_fuzzy no_match first least finish_task owns_task select any get modify total
    location_is_in_requested_territory
over_now = (refl, refl)

execute_task-owns_example :
    let r =
      execute_task crm services control config research 7 claim (worker_task leased) start 10 in
    ((r.1 ≡ over) × (owns_task "w1" finished ≡ false))
    ⊎ (Kept crm services control config research 7 claim (worker_task leased) start r.0.0
        × Reason crm services control config research 7 claim (worker_task leased) start 10 r.1)
execute_task-owns_example =
    execute_task-owns crm services control config research 7 claim (worker_task leased) start 10
      finished over_now.1
