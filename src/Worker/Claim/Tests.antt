-- ===== src/Worker/Claim/Tests.antt =====
-- A claim of a run whose only task is done.
use agente_inteligente_comer.Prelude.{◌≡◌, refl, [], ◌∷◌, none, select, any, least}
use agente_inteligente_comer.Contracts.{RunStatus, TaskStatus}
use agente_inteligente_comer.Tasks.{claim_task, next_task, before, claimable, sweep, exhausted}
use agente_inteligente_comer.Table.{get}
use agente_inteligente_comer.Store.{counter}
use agente_inteligente_comer.Outbox.{
  get_outbox, by_age, insert_by_age, has_pending_outbox, queue_outbox, queue_terminal,
}
use agente_inteligente_comer.Events.{
  RunSummary, summary, count_tasks, work_remaining, baseline, run_stats,
}
use agente_inteligente_comer.Events.Cancelled.{IsClean}
use agente_inteligente_comer.Worker.{
  deliver_outbox, deliver_each, deliver_one, deliver_message, failed,
}
use agente_inteligente_comer.Worker.Claim.{
  idle, next_task as next_claimed, turn, turns, process_claim,
}
use agente_inteligente_comer.Worker.Reports.{
  Database, closed, ends_early, ends_idle, queue_report, complete_claim,
}
use agente_inteligente_comer.Worker.Claim.Completed.{process_claim-IsClean}
use agente_inteligente_comer.Worker.Execute.{execute_task}
use agente_inteligente_comer.Worker.Samples.{
  research, crm, services, control, config, claim, sample_run, row,
}

abbrev done : Database
done = record {
  store = record {
    runs = sample_run ∷ [];
    tasks = row 1 TaskStatus.completed none none ∷ [];
    outbox = [];
  };
  records = [];
  candidates = [];
}

abbrev counts : RunSummary
counts = record {
  pending = 0;
  running = 0;
  completed = 1;
  failed = 0;
  cancelled = 0;
  candidates = 0;
  dead_letters = 0;
  crm_accepted = 0;
  rejected_limit = 0;
  rejected_invalid = 0;
  budget_limited = 0;
}

closed_now :
    (process_claim crm services control config
      (execute_task crm services control config research)
      3
      7
      claim
      done
      10).1
    ≡ closed RunStatus.completed counts
unfolding process_claim turns turn next_claimed idle complete_claim queue_report ends_early
    ends_idle deliver_outbox get_outbox by_age has_pending_outbox summary count_tasks work_remaining
    baseline run_stats claim_task next_task before claimable sweep exhausted queue_terminal
    queue_outbox insert_by_age select any least get deliver_each deliver_one deliver_message failed
    counter
closed_now = refl

process_claim-IsClean_example : IsClean counts
process_claim-IsClean_example =
    process_claim-IsClean crm services control config
      (execute_task crm services control config research) 7 claim 3 done 10 counts closed_now
