-- ===== src/Outbox/Delivery.antt =====
-- Failed deliveries, acknowledgements and the end of a run.
use agente_inteligente_comer.Prelude.{
  ℕ, suc, zero, ◌+◌, ◌^◌, ◌≤◌, min, String, ◌≡◌, refl, Bool, ◌&&◌, List, [], Option, str_eq, none,
  some, arith, leb, if◌then◌else◌, seconds,
}
use agente_inteligente_comer.Dict.{lookup, lookup-insert}
use agente_inteligente_comer.Table.{get, modify}
use agente_inteligente_comer.Table.Laws.{get-modify}
use agente_inteligente_comer.Store.{Stats, OutboxRow, RunRow, Store, run_key, message_key, counter}
use agente_inteligente_comer.Outbox.{
  due, deliver, retry_delay, fail_delivery, mark_outbox_failed, CandidateBatchAck, bump,
  acknowledge, acknowledged_total, record_candidate_ack,
}

pow_bounds : (k : ℕ) → k ≤ 8 → (1 ≤ 2 ^ k) × (2 ^ k ≤ 256)
pow_bounds zero h = omega arith
pow_bounds (suc zero) h = omega arith
pow_bounds (suc (suc zero)) h = omega arith
pow_bounds (suc (suc (suc zero))) h = omega arith
pow_bounds (suc (suc (suc (suc zero)))) h = omega arith
pow_bounds (suc (suc (suc (suc (suc zero))))) h = omega arith
pow_bounds (suc (suc (suc (suc (suc (suc zero)))))) h = omega arith
pow_bounds (suc (suc (suc (suc (suc (suc (suc zero))))))) h = omega arith
pow_bounds (suc (suc (suc (suc (suc (suc (suc (suc zero)))))))) h = omega arith
pow_bounds (suc (suc (suc (suc (suc (suc (suc (suc (suc k))))))))) h = absurd (omega arith)

delay_bounds : (n : ℕ) → (1 ≤ retry_delay n) × (retry_delay n ≤ 256)
delay_bounds n = let b = pow_bounds (min n 8) (omega arith) in (omega arith, omega arith)

-- After a failed delivery of a message that is there, the message is due again exactly where the
-- failure can be retried and the delay has passed since the call; the delay is from 1 to 256 seconds.
pub due-mark_outbox_failed :
    (id : ℕ) (error : String) (retryable : Bool) (now later : ℕ) (outbox : List OutboxRow)
    (m : OutboxRow)
    → get message_key id outbox ≡ some m
    → (m' : OutboxRow) × (get message_key id (mark_outbox_failed id error retryable now outbox).0
        ≡ some m')
      × (due m.run_id later m'
          ≡ (retryable && leb (now + seconds (retry_delay (m.attempt_count + 1))) later))
      × (1 ≤ retry_delay (m.attempt_count + 1))
      × (retry_delay (m.attempt_count + 1) ≤ 256)
unfolding mark_outbox_failed
due-mark_outbox_failed id error retryable now later outbox m h = (
  fail_delivery error retryable now m,
  ground (
    arith,
    h,
    get-modify message_key id (fail_delivery error retryable now) (λ r. refl) id outbox,
  ),
  ground arith,
  (delay_bounds (m.attempt_count + 1)).0,
  (delay_bounds (m.attempt_count + 1)).1,
)

pub counter-bump :
    (k j : String) (n : ℕ) (stats : Option Stats)
    → counter j (bump k n stats) ≡ (if str_eq k j then counter k stats + n else counter j stats)
unfolding counter bump lookup
counter-bump k j n none = ground (arith, lookup-insert k j (counter k none + n) [])
counter-bump k j n (some stats) =
    ground (arith, lookup-insert k j (counter k (some stats) + n) stats)

acknowledge-stats :
    (ack : CandidateBatchAck) (r : RunRow)
    → (acknowledge ack r).stats
      ≡ bump "rejected_limit" ack.rejected_limit (bump "crm_accepted" ack.accepted r.stats)
unfolding acknowledge
acknowledge-stats ack r = refl

acknowledge-baseline :
    (ack : CandidateBatchAck) (r : RunRow)
    → (r.remote_candidates_baseline ≤ (acknowledge ack r).remote_candidates_baseline)
      × (acknowledged_total ack r ≤ (acknowledge ack r).remote_candidates_baseline)
unfolding acknowledge
acknowledge-baseline ack r = omega arith

-- An acknowledgement adds its two counts to the run's counters and leaves `rejected_invalid`, and
-- never lowers the run's baseline, which is then at least the total that the CRM reports.
pub acknowledge_lem :
    (ack : CandidateBatchAck) (r : RunRow)
    → (counter "crm_accepted" (acknowledge ack r).stats
        ≡ counter "crm_accepted" r.stats + ack.accepted)
      × (counter "rejected_limit" (acknowledge ack r).stats
          ≡ counter "rejected_limit" r.stats + ack.rejected_limit)
      × (counter "rejected_invalid" (acknowledge ack r).stats ≡ counter "rejected_invalid" r.stats)
      × (r.remote_candidates_baseline ≤ (acknowledge ack r).remote_candidates_baseline)
      × (acknowledged_total ack r ≤ (acknowledge ack r).remote_candidates_baseline)
acknowledge_lem ack r = (
  rw acknowledge-stats (simp counter-bump),
  rw acknowledge-stats (simp counter-bump),
  rw acknowledge-stats (simp counter-bump),
  (acknowledge-baseline ack r).0,
  (acknowledge-baseline ack r).1,
)

abbrev acknowledged : ℕ → ℕ → CandidateBatchAck → ℕ → Store → Store
acknowledged run_id id ack now s = record s {
  runs = modify run_key run_id (acknowledge ack) s.runs;
  outbox = modify message_key id (deliver now) s.outbox;
}

-- A second acknowledgement of a message changes nothing, whatever it says and whenever it comes.
pub record_candidate_ack_once :
    (run_id id : ℕ) (ack ack' : CandidateBatchAck) (now now' : ℕ) (s : Store)
    → record_candidate_ack run_id id ack' now' (record_candidate_ack run_id id ack now s)
      ≡ record_candidate_ack run_id id ack now s
unfolding record_candidate_ack
record_candidate_ack_once run_id id ack ack' now now' s = ground (
  arith,
  get-modify run_key run_id (acknowledge ack) (λ r. refl) run_id s.runs,
  get-modify message_key id (deliver now) (λ r. refl) id s.outbox,
)
