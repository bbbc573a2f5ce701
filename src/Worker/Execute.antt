-- ===== src/Worker/Execute.antt =====
-- The execution of one task: `_execute_task` and `_search_until_stopped`. The sources and the
-- quality gate are an interface, with the flags that other coroutines set.
pub mod Released
mod Tests
use Prim.Native.String.{◌++◌}
use agente_inteligente_comer.Prelude.{
  ℕ, zero, suc, ◌+◌, ◌-◌, String, Bool, true, false, not, ◌&&◌, ◌||◌, List, [], ◌∷◌, Option, none,
  some, leb, if◌then◌else◌, ◌⊎◌, inl, inr, select, take, length, any, map,
}
use mathlib.Core.List.{◌++◌ as append}
use agente_inteligente_comer.Contracts.{
  SourceName, google_places, brave_search, official_website, same_source, ClaimedRun,
}
use agente_inteligente_comer.Dedup.{ProspectCandidate, Normalizers}
use agente_inteligente_comer.Candidates.{Encodings}
use agente_inteligente_comer.Candidates.Saving.{save_candidates, partition_discoveries}
use agente_inteligente_comer.Tasks.{TaskRow, WorkerTask, finish_task, fail_task}
use agente_inteligente_comer.Store.{Store}
use agente_inteligente_comer.Events.{RunEvent, EventRecord, save_event}
use agente_inteligente_comer.Worker.{
  CrmPort, Services, Raised, ErrorClass, other, Outcome, returned, raised, running, safe_error,
}
use agente_inteligente_comer.Worker.Reports.{
  Control, WorkerConfig, Database, Verdict, over, halted, lost, deliver,
}

-- app/prospecting/sources.py; of the metrics only `budget_limited` is kept.
pub record SourceSearchResult : Type 0 where
  pub candidates : List ProspectCandidate
  pub budget_limited : Bool

-- What the execution asks of the components beside it. `judge` stands for `classify_and_score`,
-- `sanitize_unsubstantiated_external_fields` and `validate_candidate`, with whether the candidate is
-- accepted; `enrich_discovered` is absent where the sources do not have it; `save_error` is what a call
-- of the store on candidates raises.
pub record Research (W : Type 0) : Type 0 where
  pub search : WorkerTask → W → W × (Raised ⊎ SourceSearchResult)
  pub task_lease_lost : W → Bool
  pub enrich_discovered :
      Option (ProspectCandidate → WorkerTask → W → W × (Raised ⊎ ProspectCandidate))
  pub judge : ProspectCandidate → ProspectCandidate × Bool
  pub normalizers : Normalizers
  pub codes : Encodings
  pub threshold : ℕ
  pub save_error : Raised

abbrev lease_error : Raised
lease_error = record {
  error_class = other;
  type_name = "RuntimeError";
  message = "task lease lost";
}

-- The accepted candidates, as the quality gate leaves them, in order.
pub qualified :
    (ProspectCandidate → ProspectCandidate × Bool) → List ProspectCandidate → List ProspectCandidate
qualified judge [] = []
qualified judge (c ∷ cs) =
    let rest = qualified judge cs in if (judge c).1 then (judge c).0 ∷ rest else rest

module _ {W : Type 0} (crm : CrmPort W) (services : Services W) (control : Control W)
    (config : WorkerConfig) (research : Research W) where
  -- `save_event` with a new id.
  pub log : ℕ → WorkerTask → String → String → Bool → Database → W → Database × W
  log run_id task status stage limited db w =
      let ids = services.uuid4 w in
      let t = services.now_utc ids.0 in
      let event : RunEvent = record {
        event_id = control.uuid_text (ids.1 0);
        budget_limited = limited;
        body = record { task_status = some status; task_id = some task.id; body = stage };
      } in
      let saved =
        save_event (ids.1 1) t.1 run_id (some task.id) event (db.records, db.store.outbox) in
      (record db { store = record db.store { outbox = saved.1 }; records = saved.0 }, t.0)

  -- The result of the source, unless a flag was set meanwhile: then `none`, whatever the source gave.
  pub search_until_stopped : WorkerTask → W → W × (Raised ⊎ Option SourceSearchResult)
  search_until_stopped task w =
      let r = research.search task w in
      elim (research.task_lease_lost r.0
        || control.lease_lost r.0
        || control.cancel_requested r.0) [
          | true ↦ (r.0, inr none)
          | false ↦ elim r.1 [ inl e ↦ (r.0, inl e) | inr result ↦ (r.0, inr (some result)) ]
        ]

  pub enrich_each :
      (ProspectCandidate → WorkerTask → W → W × (Raised ⊎ ProspectCandidate))
      → WorkerTask
      → List ProspectCandidate
      → W
      → W × (Raised ⊎ List ProspectCandidate)
  enrich_each enrich task [] w = (w, inr [])
  enrich_each enrich task (c ∷ cs) w =
      let r = enrich c task w in
      elim r.1 [
        | inl e ↦ (r.0, inl e)
        | inr c' ↦
            let rest = enrich_each enrich task cs r.0 in
            elim rest.1 [ inl e ↦ (rest.0, inl e) | inr cs' ↦ (rest.0, inr (c' ∷ cs')) ]
      ]

  abbrev enriched :
      ClaimedRun → WorkerTask → List ProspectCandidate → W → W × (Raised ⊎ List ProspectCandidate)
  enriched claim task novel w = elim research.enrich_discovered [
    | none ↦ (w, inr novel)
    | some enrich ↦
        if any (same_source official_website) claim.snapshot.campaign.sources
        then enrich_each enrich task novel w
        else (w, inr novel)
  ]

  abbrev is_brave : SourceName → Bool
  is_brave brave_search = true
  is_brave _ = false

  -- What Brave found, with the matches of Google first and the new ones looked into.
  pub discoveries :
      ℕ
      → ClaimedRun
      → WorkerTask
      → List ProspectCandidate
      → Database
      → W
      → W × (Raised ⊎ List ProspectCandidate)
  unfolding enrich_each
  discoveries run_id claim task found db w = elim (is_brave task.source) [
    | false ↦ (w, inr found)
    | true ↦
        elim (partition_discoveries research.normalizers research.codes research.threshold run_id
          found db.candidates) [
            | none ↦ (w, inl research.save_error)
            | some (novel, matches) ↦
                let r = enriched claim task novel w in
                elim r.1 [ inl e ↦ (r.0, inl e) | inr cs ↦ (r.0, inr (append matches cs)) ]
          ]
  ]

  -- `save_candidates` with new ids.
  pub save : ℕ → WorkerTask → List ProspectCandidate → Database → W → (Database × W) × (Raised ⊎ ℕ)
  save run_id task cs db w =
      let ids = services.uuid4 w in
      let t = services.now_utc ids.0 in
      elim (save_candidates research.normalizers research.codes research.threshold
        (λ i. ids.1 (suc i)) (ids.1 0) t.1 run_id task cs db.store.runs db.candidates
        db.store.outbox) [
          | none ↦ ((db, t.0), inl research.save_error)
          | some ((rows, outbox), accepted) ↦ (
            (record db { store = record db.store { outbox = outbox }; candidates = rows }, t.0),
            inr (length accepted),
          )
        ]

  -- The candidates that are kept, and the end of the task.
  pub keep :
      ℕ
      → WorkerTask
      → Bool
      → List ProspectCandidate
      → Database
      → W
      → (Database × W) × (Raised ⊎ Verdict)
  unfolding log qualified save
  keep run_id task limited found db w =
      let good = qualified research.judge found in
      let over_limit = length good - task.max_results in
      let s = save run_id task (take task.max_results good) db w in
      elim s.1 [
        | inl e ↦ (s.0, inl e)
        | inr saved ↦
            elim (finish_task task.id config.worker_id saved
              (length found - length good + over_limit) s.0.0.store.tasks) [
                | none ↦ (s.0, inl lease_error)
                | some tasks ↦ (
                  log run_id task "completed" "task_completed" limited
                      (record s.0.0 { store = record s.0.0.store { tasks = tasks } }) s.0.1,
                  inr over,
                )
              ]
      ]

  -- The search and what follows it.
  pub investigate : ℕ → ClaimedRun → WorkerTask → Database → W → (Database × W) × (Raised ⊎ Verdict)
  unfolding search_until_stopped discoveries keep
  investigate run_id claim task db w = elim (control.cancel_requested w) [
    | true ↦ ((db, w), inr halted)
    | false ↦
        let r = search_until_stopped task w in
        elim r.1 [
          | inl e ↦ ((db, r.0), inl e)
          | inr none ↦ ((db, r.0), inr halted)
          | inr (some result) ↦
              let d = discoveries run_id claim task result.candidates db r.0 in
              elim d.1 [
                | inl e ↦ ((db, d.0), inl e)
                | inr found ↦ keep run_id task result.budget_limited found db d.0
              ]
        ]
  ]

  -- The body of the `try`.
  pub attempt : ℕ → ClaimedRun → WorkerTask → Database → W → (Database × W) × (Raised ⊎ Verdict)
  unfolding log investigate
  attempt run_id claim task db w =
      let started = log run_id task "running" "task_started" false db w in
      let d = deliver crm services run_id claim started.0 started.1 in
      elim d.1 [
        | returned true ↦ investigate run_id claim task d.0.0 d.0.1
        | returned false ↦ (d.0, inr lost)
        | raised e ↦ (d.0, inl e)
        | running ↦ (d.0, inr lost)
      ]

  -- The `except` clause.
  pub give_up : ℕ → WorkerTask → Raised → Database → W → Database × W
  unfolding log
  give_up run_id task e db w =
      let t = services.now_utc w in
      let tasks =
        fail_task task.id config.worker_id (safe_error crm services e) t.1 db.store.tasks in
      log run_id task (if leb task.max_attempts task.attempt_count then "failed" else "pending")
        "task_failed" false (record db { store = record db.store { tasks = tasks } }) t.0

  pub execute_task : ℕ → ClaimedRun → WorkerTask → Database → W → (Database × W) × Verdict
  unfolding attempt give_up
  execute_task run_id claim task db w =
      let r = attempt run_id claim task db w in
      elim r.1 [ inr verdict ↦ (r.0, verdict) | inl e ↦ (give_up run_id task e r.0.0 r.0.1, over) ]
