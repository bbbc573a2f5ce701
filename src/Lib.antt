-- ===== src/Lib.antt =====
-- A verification library of the commercial prospecting agent: the durable store of the prospecting
-- worker, the budget of its paid queries, its deduplication, the development CRM, and the lead times
-- of purchases abroad.
--
-- The worker claims a run from the CRM, takes over or expands its tasks, hands the tasks to workers
-- under leases, and sends events and candidates to the CRM through an outbox. The parts:
--   * Contracts: the values of app/prospecting/contracts.py, with the fields that are computed with.
--   * Tasks: the rows of `prospecting_tasks` and the methods `claim_task`, `heartbeat_task`,
--     `finish_task`, `fail_task` and `cancel_tasks` of `SQLWorkerStore` (app/prospecting/store.py).
--   * Store, Outbox: the tables, and the messages for the CRM: `_queue_outbox`, `get_outbox`,
--     `mark_outbox_failed`, `split_candidate_outbox`, `discard_candidate_outbox`,
--     `record_candidate_ack`, the terminal messages and their replays.
--   * Events: `save_event`, `summary` and `RunSummary`.
--   * Tasks.Phases: what the queue promises of one task, as phases and the moves between them.
--   * Worker: app/prospecting/worker.py: `_deliver_outbox` and the replay of terminal messages
--     (Worker, Worker.Replay), `_complete` and `_cancel` (Worker.Reports), the loop of
--     `_process_claim` (Worker.Claim) and `_execute_task` (Worker.Execute). The calls of the CRM
--     (app/crm/port.py), the clock and the UUIDs are records of functions on the state of the outside.
--   * Plan, Runs: `expand_task_specs`, `validate_claimed_task`, and `ensure_run`.
--   * Budget: app/prospecting/budget.py for Google Places, in memory and in the database.
--   * Brave: the budget of searches with Brave in the same file.
--   * Dedup: `match_candidate` of app/prospecting/dedup.py.
--   * Candidates: `save_candidates` and `partition_discoveries` of the store (Candidates.Saving), on
--     the fields that identify a company and its locations, with `merge_exact_candidate` and
--     `scope_candidate_locations` on the same fields.
--   * Crm: `FakeCRMPort` of app/crm/fake.py, with its leases and idempotency keys.
--   * Rut: app/normalization/rut.py.
--   * LeadTime: app/foreign_trade/planning.py, its calendar loops and the recommendation of a purchase.
--   * Prelude, Dict, Table: tests, lists, dictionaries and tables with a key, which the parts share.
--
-- A table is a list of rows, a transaction is a function of the tables, and a method that raises
-- returns an error and leaves them. Each method gets the clock's value, and the ids of the rows it
-- inserts, as arguments. An instant is a number of microseconds and a UUID a number. In the budgets
-- an amount of money is a number of ten-thousandths of a dollar, in which the costs of the code and
-- their sums are exact: the code sums floats, whose rounding is left out. The database, the network,
-- the digests and the normalisers of names, phones and domains are parameters.
-- The loops of LeadTime run on fuel: 33 steps for each day of production and 32 more are enough, since
-- the factory is shut for at most 31 days in a row where no two months in a row are shut.
--
-- The delivery of an outbox runs on fuel; the weight of its open messages and one round more are
-- enough, since each round closes or splits a message. The loop of a claim waits for other workers
-- and may turn without end; what is shown of it holds for any number of turns.
-- No other process is taken to write to the tables between two steps of the worker.
--
-- Not modelled: the evidence and the scores of a candidate and what the store does with them,
-- `MemoryWorkerStore`, the polling of the worker and its enrichment of existing candidates, the
-- sources, the quality gate, the hub, the web pages and the migrations.
pub mod Prelude
pub mod Dict
pub mod Table
pub mod Contracts
pub mod Tasks
pub mod Store
pub mod Outbox
pub mod Events
pub mod Plan
pub mod Runs
pub mod Budget
pub mod Brave
pub mod Dedup
pub mod Crm
pub mod LeadTime
pub mod Worker
pub mod Candidates
pub mod Rut
