-- ===== src/Crm/Writes/Replay.antt =====
-- Repeated calls of the development CRM: a key that was accepted answers as it did the first time.
use agente_inteligente_comer.Prelude.{
  ℕ, String, ◌≡◌, refl, Bool, true, false, List, some, arith, str_eq, eq_iff, Option-cases, inl,
  inr,
}
use agente_inteligente_comer.Prelude.{Sum-cases}
use text.Mathlib.TextPositions.{eq_refl}
use agente_inteligente_comer.Dict.{lookup, insert, lookup-insert_self}
use agente_inteligente_comer.Dedup.{ProspectCandidate}
use agente_inteligente_comer.Crm.{
  CompletionReport, CandidateBatchAck, FakeRun, FakeCrm, Payload, of_candidates, of_report, Digests,
  idempotency_conflict, accept_idempotency,
}
use agente_inteligente_comer.Crm.Writes.{
  require_lease, upsert_candidates, intake, ack_of, stored_ack, close_run, complete_run,
}

module _ (d : Digests) (key : String) (payload : Payload) (crm : FakeCrm) where
  -- A key is known with this payload, by its digest.
  accepted_known :
      (crm' : FakeCrm) (fresh : Bool)
      → accept_idempotency d key payload crm ≡ inr (crm', fresh)
      → lookup key crm'.idempotency ≡ some (d.payload_hash payload)
  unfolding accept_idempotency
  accepted_known crm' fresh h = elim (Option-cases (lookup key crm.idempotency)) [
    | inl new ↦
        let h' : inr (
          record crm { idempotency = insert key (d.payload_hash payload) crm.idempotency },
          true,
        )
            ≡ inr (crm', fresh) =
          rw (accept_idempotency, new) at h in
        ground (arith, h', lookup-insert_self key (d.payload_hash payload) crm.idempotency)
    | inr (previous, known) ↦ ground (arith, h, known, eq_iff previous (d.payload_hash payload))
  ]

  accept_again :
      lookup key crm.idempotency ≡ some (d.payload_hash payload)
      → accept_idempotency d key payload crm ≡ inr (crm, false)
  unfolding accept_idempotency
  accept_again h = rw (accept_idempotency, h, eq_refl (d.payload_hash payload)) refl

  -- A key that came with another digest is refused, whatever the lease.
  accept_other :
      (previous : String)
      → lookup key crm.idempotency ≡ some previous
      → str_eq previous (d.payload_hash payload) ≡ false
      → accept_idempotency d key payload crm ≡ inl idempotency_conflict
  unfolding accept_idempotency
  accept_other previous h e = rw (accept_idempotency, h, e) refl

module _ (d : Digests) (now : ℕ) (run_id lease_token : String) (candidates : List ProspectCandidate)
    (key : String) (crm : FakeCrm) where
  -- What an accepted batch leaves: its digest and its answer, under its key.
  upsert_leaves :
      (crm' : FakeCrm) (ack : CandidateBatchAck)
      → upsert_candidates d now run_id lease_token candidates key crm ≡ inr (crm', ack)
      → (lookup key crm'.idempotency ≡ some (d.payload_hash (of_candidates candidates)))
        × (lookup key crm'.idempotency_results ≡ some ack)
  unfolding upsert_candidates stored_ack
  upsert_leaves crm' ack h = elim (Sum-cases (require_lease now run_id lease_token crm)) [
    | inl (e, no_lease) ↦ absurd (ground (arith, h, no_lease))
    | inr (r, leased) ↦ elim (Sum-cases (accept_idempotency d key (of_candidates candidates) crm)) [
      | inl (e, refused) ↦ absurd (ground (arith, h, leased, refused))
      | inr (next, accepted) ↦
          let known = accepted_known d key (of_candidates candidates) crm next.0 next.1 accepted in
          ground (
            arith,
            h,
            leased,
            accepted,
            known,
            lookup-insert_self key (ack_of (intake d r candidates)) next.0.idempotency_results,
          )
    ]
  ]

-- A batch of candidates that is sent again under its key, by who holds the run's lease then, gets the
-- answer that it got the first time, and changes nothing.
pub upsert_candidates_twice :
    (d : Digests) (now later : ℕ) (run_id lease_token again : String)
    (candidates : List ProspectCandidate) (key : String) (crm crm' : FakeCrm)
    (ack : CandidateBatchAck) (r : FakeRun)
    → upsert_candidates d now run_id lease_token candidates key crm ≡ inr (crm', ack)
    → require_lease later run_id again crm' ≡ inr r
    → upsert_candidates d later run_id again candidates key crm' ≡ inr (crm', ack)
unfolding upsert_candidates stored_ack
upsert_candidates_twice d now later run_id lease_token again candidates key crm crm' ack r h
      leased =
    let left = upsert_leaves d now run_id lease_token candidates key crm crm' ack h in
    let known = accept_again d key (of_candidates candidates) crm' left.0 in
    rw (upsert_candidates, leased, known, stored_ack, left.1) refl

closed_known :
    (d : Digests) (now : ℕ) (run_id lease_token : String) (payload : Payload)
    (set : FakeRun → FakeRun) (key : String) (crm crm' : FakeCrm)
    → close_run d now run_id lease_token payload set key crm ≡ inr crm'
    → lookup key crm'.idempotency ≡ some (d.payload_hash payload)
unfolding close_run
closed_known d now run_id lease_token payload set key crm crm' h =
    elim (Sum-cases (accept_idempotency d key payload crm)) [
      | inl (e, refused) ↦ absurd (ground (arith, h, refused))
      | inr (next, accepted) ↦
          let known = accepted_known d key payload crm next.0 next.1 accepted in
          ground (arith, h, accepted, known)
    ]

-- A run that was completed answers the same report under the same key without a change, though its
-- lease is gone, whoever sends it and whenever.
pub complete_run_twice :
    (d : Digests) (now later : ℕ) (run_id lease_token again : String) (report : CompletionReport)
    (key : String) (crm crm' : FakeCrm)
    → complete_run d now run_id lease_token report key crm ≡ inr crm'
    → complete_run d later run_id again report key crm' ≡ inr crm'
unfolding complete_run close_run
complete_run_twice d now later run_id lease_token again report key crm crm' h =
    let left =
      closed_known d now run_id lease_token (of_report report)
        (λ r. record r { status = report.status; report = some report }) key crm crm' h in
    let known = accept_again d key (of_report report) crm' left in rw (close_run, left, known) refl
