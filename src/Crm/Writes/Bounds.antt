-- ===== src/Crm/Writes/Bounds.antt =====
-- The limit of candidates per run in the development CRM, under any sequence of its calls.
use agente_inteligente_comer.Prelude.{
  ℕ, ◌≤◌, String, ◌≡◌, Bool, List, [], ◌∷◌, ◌++◌, none, some, arith, is_some, length, All,
  Option-cases, Sum-cases, Bool-cases, inl, inr,
}
use agente_inteligente_comer.Contracts.{ProspectingRunSnapshot, RunStatus}
use agente_inteligente_comer.Dict.{lookup}
use agente_inteligente_comer.Dict.Entries.{length-insert, All-insert, lookup-All}
use agente_inteligente_comer.Dedup.{ProspectCandidate}
use agente_inteligente_comer.Crm.{
  RunEvent, FakeRun, FakeCrm, Payload, of_events, of_candidates, of_report, of_error, Digests,
  put_run, accept_idempotency, fresh_run, enqueue, request_cancel, claim_first, claim_run, lease,
  claimable,
}
use agente_inteligente_comer.Crm.Writes.{
  require_lease, report_tasks, holds, heartbeat, append_events, Intake, candidate_key, take_in,
  take_all, intake, stored_ack, upsert_candidates, close_run, complete_run, fail_run,
}
use agente_inteligente_comer.Crm.Writes.Calls.{
  Call, after, after_batch, step, run_calls, enqueue_call, cancel_call, claim_call, heartbeat_call,
  events_call, upsert_call, complete_call, fail_call,
}

abbrev limit : FakeRun → ℕ
limit r = r.snapshot.campaign.max_candidates

-- Every run has at most as many candidates as its campaign allows.
unfoldable pub IsWithin : FakeCrm → Type 0
IsWithin crm = All (λ e. length e.1.candidates ≤ limit e.1) crm.runs

-- A run within its limit.
abbrev Fits : FakeRun → Type 0
Fits r = length r.candidates ≤ limit r

put-IsWithin :
    (run_id : String) (r : FakeRun) (crm : FakeCrm)
    → Fits r
    → IsWithin crm
    → IsWithin (put_run run_id r crm)
unfolding IsWithin
put-IsWithin run_id r crm h v = All-insert (λ e. Fits e.1) run_id r crm.runs h v

leased-Fits :
    (now : ℕ) (run_id token : String) (crm : FakeCrm) (r : FakeRun)
    → require_lease now run_id token crm ≡ inr r
    → IsWithin crm
    → Fits r
unfolding require_lease IsWithin
leased-Fits now run_id token crm r h v = elim (Option-cases (lookup run_id crm.runs)) [
  | inl no_run ↦ absurd (ground (arith, h, no_run))
  | inr (q, found) ↦ lookup-All Fits run_id r crm.runs (ground (arith, h, found)) v
]

claim_first-Fits :
    (now : ℕ) (token : String) (secs : ℕ) (runs : List (String × FakeRun))
    → All (λ e. Fits e.1) runs
    → All (λ e. Fits e.1) (claim_first now token secs runs).0
unfolding claim_first lease
claim_first-Fits now token secs [] a = tt
claim_first-Fits now token secs ((k, r) ∷ runs) a = elim (Bool-cases (claimable now r)) [
  | inl e ↦ rw (claim_first, e) (a.0, a.1)
  | inr e ↦ rw (claim_first, e) (a.0, claim_first-Fits now token secs runs a.1)
]

cancel-IsWithin :
    (run_id : String) (crm : FakeCrm)
    → IsWithin crm
    → IsWithin (after crm (request_cancel run_id crm))
unfolding after request_cancel IsWithin
cancel-IsWithin run_id crm v = elim (Option-cases (lookup run_id crm.runs)) [
  | inl e ↦ rw (request_cancel, e) v
  | inr (r, e) ↦
      rw (request_cancel, e) (put-IsWithin run_id _ crm (lookup-All Fits run_id r crm.runs e v) v)
]

claim-IsWithin :
    (now : ℕ) (token : String) (secs : ℕ) (crm : FakeCrm)
    → IsWithin crm
    → IsWithin (claim_run now token secs crm).0
unfolding claim_run IsWithin
claim-IsWithin now token secs crm v = claim_first-Fits now token secs crm.runs v

heartbeat-IsWithin :
    (now : ℕ) (run_id token : String) (secs : ℕ) (crm : FakeCrm)
    → IsWithin crm
    → IsWithin (heartbeat now run_id token secs crm).0
unfolding heartbeat IsWithin
heartbeat-IsWithin now run_id token secs crm v = elim (Option-cases (lookup run_id crm.runs)) [
  | inl e ↦ rw (heartbeat, e) v
  | inr (r, e) ↦ elim (Bool-cases (holds now token r)) [
    | inl h ↦
        rw (heartbeat, e, h) (put-IsWithin run_id _ crm (lookup-All Fits run_id r crm.runs e v) v)
    | inr h ↦ rw (heartbeat, e, h) v
  ]
]

stored-IsWithin :
    (key : String) (crm crm' : FakeCrm)
    → IsWithin crm
    → IsWithin crm'
    → IsWithin (after_batch crm (stored_ack key crm'))
unfolding after_batch stored_ack
stored-IsWithin key crm crm' v v' = elim (Option-cases (lookup key crm'.idempotency_results)) [
  | inl e ↦ rw (stored_ack, e) v
  | inr (ack, e) ↦ rw (stored_ack, e) v'
]

module _ (d : Digests) where
  take_in-bound :
      (most : ℕ) (c : ProspectCandidate) (i : Intake)
      → length i.candidates ≤ most
      → length (take_in d most c i).candidates ≤ most
  unfolding take_in
  take_in-bound most c i h = ground (arith, length-insert (candidate_key d c) c i.candidates)

  take_all-bound :
      (most : ℕ) (cs : List ProspectCandidate) (i : Intake)
      → length i.candidates ≤ most
      → length (take_all d most cs i).candidates ≤ most
  unfolding take_all
  take_all-bound most [] i h = h
  take_all-bound most (c ∷ cs) i h =
      take_all-bound most cs (take_in d most c i) (take_in-bound most c i h)

  intake-bound :
      (r : FakeRun) (cs : List ProspectCandidate)
      → Fits r
      → Fits (record r { candidates = (intake d r cs).candidates })
  unfolding intake
  intake-bound r cs h =
      take_all-bound (limit r) cs
        (record { candidates = r.candidates; accepted_ids = []; rejected_limit = 0 }) h

  enqueue-IsWithin :
      (s : ProspectingRunSnapshot) (crm : FakeCrm) → IsWithin crm → IsWithin (enqueue d s crm)
  unfolding enqueue fresh_run
  enqueue-IsWithin s crm v = elim (Bool-cases (is_some (lookup s.crm_run_id crm.runs))) [
    | inl e ↦ rw (enqueue, e) v
    | inr e ↦ rw (enqueue, e) (put-IsWithin s.crm_run_id (fresh_run d s) crm (omega arith) v)
  ]

  accept_runs :
      (key : String) (payload : Payload) (crm crm' : FakeCrm) (fresh : Bool)
      → accept_idempotency d key payload crm ≡ inr (crm', fresh)
      → crm'.runs ≡ crm.runs
  unfolding accept_idempotency
  accept_runs key payload crm crm' fresh h = elim (Option-cases (lookup key crm.idempotency)) [
    | inl new ↦ ground (arith, h, new)
    | inr (previous, known) ↦ ground (arith, h, known)
  ]

  IsWithin-runs : (crm crm' : FakeCrm) → crm'.runs ≡ crm.runs → IsWithin crm → IsWithin crm'
  unfolding IsWithin
  IsWithin-runs crm crm' e v = rw e v

  events-IsWithin :
      (now : ℕ) (run_id token : String) (events : List RunEvent) (key : String) (crm : FakeCrm)
      → IsWithin crm
      → IsWithin (after crm (append_events d now run_id token events key crm))
  unfolding after append_events
  events-IsWithin now run_id token events key crm v =
      elim (Sum-cases (require_lease now run_id token crm)) [
        | inl (e, refused) ↦ rw (append_events, refused) v
        | inr (r, leased) ↦ elim (Sum-cases (accept_idempotency d key (of_events events) crm)) [
          | inl (e, refused) ↦ rw (append_events, leased, refused) v
          | inr ((crm', fresh), accepted) ↦
              let v' =
                IsWithin-runs crm crm' (accept_runs key (of_events events) crm crm' fresh accepted)
                  v in
              elim (Bool-cases fresh) [
                | inl e ↦
                    rw (append_events, leased, accepted, e)
                      (put-IsWithin run_id
                        (record r {
                          events = r.events ++ events;
                          tasks = report_tasks events r.tasks;
                        })
                        crm' (leased-Fits now run_id token crm r leased v) v')
                | inr e ↦ rw (append_events, leased, accepted, e) v'
              ]
        ]
      ]

  upsert-IsWithin :
      (now : ℕ) (run_id token : String) (cs : List ProspectCandidate) (key : String) (crm : FakeCrm)
      → IsWithin crm
      → IsWithin (after_batch crm (upsert_candidates d now run_id token cs key crm))
  unfolding after_batch upsert_candidates IsWithin
  upsert-IsWithin now run_id token cs key crm v =
      elim (Sum-cases (require_lease now run_id token crm)) [
        | inl (e, refused) ↦ rw (upsert_candidates, refused) v
        | inr (r, leased) ↦ elim (Sum-cases (accept_idempotency d key (of_candidates cs) crm)) [
          | inl (e, refused) ↦ rw (upsert_candidates, leased, refused) v
          | inr ((crm', fresh), accepted) ↦
              let v' =
                IsWithin-runs crm crm' (accept_runs key (of_candidates cs) crm crm' fresh accepted)
                  v in
              elim (Bool-cases fresh) [
                | inl e ↦
                    rw (upsert_candidates, leased, accepted, e)
                      (put-IsWithin run_id (record r { candidates = (intake d r cs).candidates })
                        crm' (intake-bound r cs (leased-Fits now run_id token crm r leased v)) v')
                | inr e ↦
                    rw (upsert_candidates, leased, accepted, e) (stored-IsWithin key crm crm' v v')
              ]
        ]
      ]

  close-IsWithin :
      (now : ℕ) (run_id token : String) (payload : Payload) (set : FakeRun → FakeRun) (key : String)
      (crm : FakeCrm)
      → ((r : FakeRun) → Fits r → Fits (set r))
      → IsWithin crm
      → IsWithin (after crm (close_run d now run_id token payload set key crm))
  unfolding after close_run
  close-IsWithin now run_id token payload set key crm keeps v =
      elim (Sum-cases (accept_idempotency d key payload crm)) [
        | inl (e, refused) ↦ elim (Bool-cases (is_some (lookup key crm.idempotency))) [
          | inl known ↦ rw (close_run, known, refused) v
          | inr new ↦ elim (Sum-cases (require_lease now run_id token crm)) [
            | inl (e', no_lease) ↦ rw (close_run, new, no_lease) v
            | inr (r, leased) ↦ rw (close_run, new, leased, refused) v
          ]
        ]
        | inr ((crm', fresh), accepted) ↦
            let v' = IsWithin-runs crm crm' (accept_runs key payload crm crm' fresh accepted) v in
            elim (Bool-cases (is_some (lookup key crm.idempotency))) [
              | inl known ↦ rw (close_run, known, accepted) v'
              | inr new ↦ elim (Sum-cases (require_lease now run_id token crm)) [
                | inl (e', no_lease) ↦ rw (close_run, new, no_lease) v
                | inr (r, leased) ↦ elim (Bool-cases fresh) [
                  | inl e ↦
                      rw (close_run, new, leased, accepted, e)
                        (put-IsWithin run_id
                          (record (set r) { lease_token = none; lease_expires_at = none }) crm'
                          (keeps r (leased-Fits now run_id token crm r leased v)) v')
                  | inr e ↦ rw (close_run, new, leased, accepted, e) v'
                ]
              ]
            ]
      ]

  step-IsWithin : (c : Call) (crm : FakeCrm) → IsWithin crm → IsWithin (step d c crm)
  unfolding step complete_run fail_run
  step-IsWithin (enqueue_call snapshot) crm v = enqueue-IsWithin snapshot crm v
  step-IsWithin (cancel_call run_id) crm v = cancel-IsWithin run_id crm v
  step-IsWithin (claim_call now token secs) crm v = claim-IsWithin now token secs crm v
  step-IsWithin (heartbeat_call now run_id token secs) crm v =
      heartbeat-IsWithin now run_id token secs crm v
  step-IsWithin (events_call now run_id token events key) crm v =
      events-IsWithin now run_id token events key crm v
  step-IsWithin (upsert_call now run_id token cs key) crm v =
      upsert-IsWithin now run_id token cs key crm v
  step-IsWithin (complete_call now run_id token report key) crm v =
      close-IsWithin now run_id token (of_report report)
        (λ r. record r { status = report.status; report = some report }) key crm (λ r h. h) v
  step-IsWithin (fail_call now run_id token error key) crm v =
      close-IsWithin now run_id token (of_error error)
        (λ r. record r { status = RunStatus.failed; error = some error }) key crm (λ r h. h) v

  -- Where no run of a CRM has more candidates than its campaign's `max_candidates`, none has after any
  -- calls either, with any tokens, keys and payloads, whichever of them raise.
  pub run_calls-IsWithin :
      (cs : List Call) (crm : FakeCrm) → IsWithin crm → IsWithin (run_calls d cs crm)
  unfolding run_calls
  run_calls-IsWithin [] crm v = v
  run_calls-IsWithin (c ∷ cs) crm v = run_calls-IsWithin cs (step d c crm) (step-IsWithin c crm v)
