-- ===== src/Tasks/Tests.antt =====
-- Runs of the task queue at concrete tables.
use agente_inteligente_comer.Prelude.{
  ℕ, ◌+◌, ◌≤◌, String, ◌≡◌, refl, Bool, true, false, not, ◌||◌, List, [], ◌∷◌, Option, none, some,
  arith, inl, All, total, select, least,
}
use agente_inteligente_comer.Contracts.{SourceName, google_places, brave_search, TaskStatus}
use agente_inteligente_comer.Table.{get, modify, Unique}
use agente_inteligente_comer.Tasks.{
  TaskRow, WorkerTask, key, sweep, claimable, before, claim, worker_task, next_task, claim_task,
  heartbeat_task, finish_task, fail, fail_task,
}
use agente_inteligente_comer.Tasks.Calls.{
  Call, claims, heartbeats, finishes, fails, cancels, step, run, grants,
}
use agente_inteligente_comer.Tasks.Claim.{Claimed, claim_task-Claimed}
use agente_inteligente_comer.Tasks.Lease.{Held, run-Held}
use agente_inteligente_comer.Tasks.Attempts.{IsValid, step-IsValid, left, grants-le-left}
use agente_inteligente_comer.Tasks.Order.{claim_task-before, claim_task-idle}
use agente_inteligente_comer.Tasks.Fencing.{stale_worker_refused, claimable-fail}
use agente_inteligente_comer.Tasks.Phases.{phase, phase_of}
use agente_inteligente_comer.Tasks.Phases.Refinement.{Moved, step-Moved, run-final}

abbrev sample : ℕ → SourceName → TaskStatus → ℕ → Option String → Option ℕ → TaskRow
sample id source status attempts owner expires = record {
  id = id;
  run_id = 7;
  source = source;
  keyword = "climatizacion";
  region_code = "13";
  region_name = "Metropolitana";
  comuna_code = "13101";
  comuna_name = "Santiago";
  max_results = 20;
  status = status;
  attempt_count = attempts;
  max_attempts = 3;
  available_at = 0;
  lease_owner = owner;
  lease_expires_at = expires;
  heartbeat_at = none;
  results_count = 0;
  rejected_count = 0;
  error_log = none;
  created_at = id;
}

abbrev unlocked : ℕ → Bool
unlocked _ = false

abbrev brave_row : TaskRow
brave_row = sample 1 brave_search TaskStatus.pending 0 none none

abbrev google_row : TaskRow
google_row = sample 2 google_places TaskStatus.pending 0 none none

abbrev busy_row : TaskRow
busy_row = sample 3 google_places TaskStatus.running 1 (some "w1") (some 50000000)

abbrev table : List TaskRow
table = brave_row ∷ google_row ∷ busy_row ∷ []

abbrev handed : WorkerTask
handed = worker_task (claim "w2" 120 10000000 google_row)

abbrev after_claim : List TaskRow
after_claim = brave_row ∷ claim "w2" 120 10000000 google_row ∷ busy_row ∷ []

table-Unique : Unique key table
table-Unique = ((refl, (refl, tt)), ((refl, tt), (tt, tt)))

claimed_now : claim_task unlocked 7 "w2" 120 10000000 table ≡ (after_claim, some handed)
unfolding claim_task next_task sweep claimable before least select modify get
claimed_now = refl

claim_task-Claimed_example : Claimed unlocked 7 "w2" 120 10000000 table after_claim handed
claim_task-Claimed_example =
    claim_task-Claimed unlocked 7 "w2" 120 10000000 table after_claim handed table-Unique
      claimed_now

busy-Held : Held "w1" 50000000 busy_row
busy-Held = record { runs = refl; owner = refl; expires = refl }

-- Calls of others before the lease of `w1` ends: a claim, a late heartbeat, a write to another task.
abbrev others : List Call
others =
    claims unlocked 7 "w2" 120 10000000
    ∷ heartbeats 3 "w2" 60 20000000
    ∷ finishes 2 "w2" 5 0
    ∷ fails 3 "w9" "boom" 30000000
    ∷ cancels 8
    ∷ []

run-Held_example : get key 3 (run table others) ≡ some busy_row
unfolding get
run-Held_example =
    run-Held busy_row busy-Held others table table-Unique refl
      (omega arith, (inl refl, (inl refl, (inl refl, (refl, tt)))))

table-IsValid : All IsValid table
table-IsValid = (
  record {
    within = λ _. omega arith;
    leased = λ e. absurd (ground (arith, e));
    unowned = λ _. refl;
  },
  (
    record {
      within = λ _. omega arith;
      leased = λ e. absurd (ground (arith, e));
      unowned = λ _. refl;
    },
    (
      record {
        within = λ _. omega arith;
        leased = λ _. refl;
        unowned = λ e. absurd (ground (arith, e));
      },
      tt,
    ),
  ),
)

step-IsValid_example : All IsValid (step table (fails 3 "w1" "timeout" 20000000))
step-IsValid_example =
    step-IsValid table (fails 3 "w1" "timeout" 20000000) table-Unique table-IsValid

grants-le-left_example : grants table others + total left (run table others) ≤ total left table
grants-le-left_example = grants-le-left table others table-Unique

claim_task-before_example :
    All (λ u. (not (claimable unlocked 7 10000000 u) || before google_row u) ≡ true) table
unfolding get
claim_task-before_example =
    claim_task-before unlocked 7 "w2" 120 10000000 table after_claim handed google_row table-Unique
      claimed_now refl

abbrev busy_table : List TaskRow
busy_table = busy_row ∷ []

idle_now : claim_task unlocked 7 "w2" 120 10000000 busy_table ≡ (busy_table, none)
unfolding claim_task next_task sweep claimable least select
idle_now = refl

claim_task-idle_example : All (λ u. claimable unlocked 7 10000000 u ≡ false) busy_table
claim_task-idle_example =
    claim_task-idle unlocked 7 "w2" 120 10000000 busy_table busy_table (tt, tt) idle_now

stale_worker_refused_example :
    (finish_task 2 "w1" 4 0 after_claim ≡ none)
    × (fail_task 2 "w1" "late" 20000000 after_claim ≡ after_claim)
    × (heartbeat_task 2 "w1" 60 20000000 after_claim ≡ (after_claim, false))
stale_worker_refused_example =
    stale_worker_refused unlocked 7 "w2" 120 10000000 table after_claim handed
      claim_task-Claimed_example "w1" refl 4 0 "late" 60 20000000

claimable-fail_example : claimable unlocked 7 99000000 (fail "timeout" 20000000 busy_row) ≡ true
claimable-fail_example = claimable-fail busy_row "timeout" 20000000 99000000 (omega arith)

step-Moved_example :
    Moved "w1" 20000000 3 (phase busy_row) (step table (fails 3 "w1" "timeout" 20000000))
unfolding get
step-Moved_example = step-Moved (fails 3 "w1" "timeout" 20000000) 3 table busy_row table-Unique refl

abbrev done_row : TaskRow
done_row = sample 4 google_places TaskStatus.completed 1 none none

abbrev done_table : List TaskRow
done_table = done_row ∷ brave_row ∷ []

done_table-Unique : Unique key done_table
done_table-Unique = ((refl, tt), (tt, tt))

run-final_example :
    (t' : TaskRow) × (get key 4 (run done_table others) ≡ some t') × (phase t' ≡ phase done_row)
unfolding get phase phase_of
run-final_example = run-final others 4 done_table done_row done_table-Unique refl (ground arith)
