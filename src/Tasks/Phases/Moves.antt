-- ===== src/Tasks/Phases/Moves.antt =====
-- What each write of a row does to its phase.
use agente_inteligente_comer.Prelude.{
  ℕ, suc, ◌+◌, ◌-◌, String, ◌≡◌, refl, sym, subst, Bool, true, false, Option, none, some, arith,
  ◌==◌, ltb, leb, ◌&&◌, ◌||◌, eq_iff, inl, inr, Bool-cases, holds_text, seconds,
}
use agente_inteligente_comer.Contracts.{TaskStatus, is_pending, is_running}
use agente_inteligente_comer.Tasks.{
  TaskRow, lapsed, exhausted, sweep, claimable, claim, cancel_row, renew, finish, fail, holds_lease,
  owns_task,
}
use agente_inteligente_comer.Tasks.Phases.{
  Phase, waiting, leased, done, dead, dropped, Move, take, retake, renew as renewed,
  finish as finished, give_back, give_up, lapse, drop_waiting, drop_leased, Step, stay, move,
  phase_of, phase,
}

module _ (who : String) (now : ℕ) where
  pub swept-Step :
      (locked : ℕ → Bool) (run_id : ℕ) (t : TaskRow)
      → Step who now (phase t) (phase (sweep locked run_id now t))
  unfolding sweep exhausted phase phase_of
  swept-Step locked run_id t = elim (Bool-cases (exhausted locked run_id now t)) [
    | inr e ↦ rw e (stay refl)
    | inl e ↦ rw e (go t.status t.lease_expires_at (ground (arith, e)) (ground (arith, e)))
  ]
    where
      go :
          (s : TaskStatus) (until : Option ℕ)
          → (is_running s && lapsed until now) ≡ true
          → t.max_attempts - t.attempt_count ≡ 0
          → Step who now (phase_of s t.lease_owner until (t.max_attempts - t.attempt_count)) dead
      go TaskStatus.running (some ended) h z = rw z (move (lapse (ground (arith, h))))
      go TaskStatus.running none h z = absurd (ground arith)
      go TaskStatus.pending until h z = absurd (ground arith)
      go TaskStatus.completed until h z = absurd (ground arith)
      go TaskStatus.failed until h z = absurd (ground arith)
      go TaskStatus.cancelled until h z = absurd (ground arith)

  pub claimed-Move :
      (locked : ℕ → Bool) (run_id secs : ℕ) (t : TaskRow)
      → claimable locked run_id now t ≡ true
      → Move who now (phase t) (phase (claim who secs now t))
  unfolding claimable phase phase_of
  claimed-Move locked run_id secs t h =
      go t.status t.lease_expires_at (ground (arith, h)) (ground (arith, h))
    where
      go :
          (s : TaskStatus) (until : Option ℕ)
          → (is_pending s || is_running s && lapsed until now) ≡ true
          → t.max_attempts - t.attempt_count ≡ suc (t.max_attempts - (t.attempt_count + 1))
          → Move who now (phase_of s t.lease_owner until (t.max_attempts - t.attempt_count)) (
              leased
                (some who)
                (some (now + seconds secs))
                (t.max_attempts - (t.attempt_count + 1)))
      go TaskStatus.pending until p e = take e
      go TaskStatus.running none p e = absurd (ground arith)
      go TaskStatus.running (some ended) p e = retake (ground (arith, p)) e
      go TaskStatus.completed until p e = absurd (ground arith)
      go TaskStatus.failed until p e = absurd (ground arith)
      go TaskStatus.cancelled until p e = absurd (ground arith)

  -- A row that runs for the worker, by its parts.
  owned-Move :
      (t : TaskRow) (q : Phase)
      → is_running t.status ≡ true
      → holds_text t.lease_owner who ≡ true
      → ((until : Option ℕ)
          → until ≡ t.lease_expires_at
          → Move who now (leased (some who) until (t.max_attempts - t.attempt_count)) q)
      → Move who now (phase t) q
  unfolding phase phase_of
  owned-Move t q runs owns next = go t.status t.lease_owner runs owns
    where
      go :
          (s : TaskStatus) (owner : Option String)
          → is_running s ≡ true
          → holds_text owner who ≡ true
          → Move who now (phase_of s owner t.lease_expires_at (t.max_attempts - t.attempt_count)) q
      go TaskStatus.running (some o) r h =
          let same : o ≡ who = ground (arith, h, eq_iff o who) in
          rw same (next t.lease_expires_at refl)
      go TaskStatus.running none r h = absurd (ground arith)
      go TaskStatus.pending owner r h = absurd (ground arith)
      go TaskStatus.completed owner r h = absurd (ground arith)
      go TaskStatus.failed owner r h = absurd (ground arith)
      go TaskStatus.cancelled owner r h = absurd (ground arith)

  pub renewed-Move :
      (secs : ℕ) (t : TaskRow)
      → holds_lease who now t ≡ true
      → Move who now (phase t) (phase (renew secs now t))
  unfolding holds_lease phase phase_of
  renewed-Move secs t h = go t.status t.lease_owner t.lease_expires_at h
    where
      go :
          (s : TaskStatus) (owner : Option String) (until : Option ℕ)
          → (is_running s
              && holds_text owner who
              && elim until [ none ↦ false | some e ↦ ltb now e ])
            ≡ true
          → Move who now
              (phase_of s owner until (t.max_attempts - t.attempt_count))
              (phase_of s owner (some (now + seconds secs)) (t.max_attempts - t.attempt_count))
      go TaskStatus.running (some o) (some until) h =
          let same : o ≡ who = ground (arith, h, eq_iff o who) in
          rw same (renewed (ground (arith, h)))
      go TaskStatus.running (some o) none h = absurd (ground arith)
      go TaskStatus.running none until h = absurd (ground arith)
      go TaskStatus.pending owner until h = absurd (ground arith)
      go TaskStatus.completed owner until h = absurd (ground arith)
      go TaskStatus.failed owner until h = absurd (ground arith)
      go TaskStatus.cancelled owner until h = absurd (ground arith)

  pub finished-Move :
      (results rejected : ℕ) (t : TaskRow)
      → owns_task who t ≡ true
      → Move who now (phase t) (phase (finish results rejected t))
  unfolding owns_task phase phase_of
  finished-Move results rejected t h =
      owned-Move t done (ground (arith, h)) (ground (arith, h)) (λ until e. finished)

  pub failed-Move :
      (error : String) (t : TaskRow)
      → owns_task who t ≡ true
      → Move who now (phase t) (phase (fail error now t))
  unfolding owns_task phase phase_of
  failed-Move error t h = elim (Bool-cases (leb t.max_attempts t.attempt_count)) [
    | inl e ↦ rw e (
        owned-Move t dead (ground (arith, h)) (ground (arith, h)) (λ until _.
          subst (λ n. Move who now (leased (some who) until n) dead) (sym (ground (arith, e)))
            give_up))
    | inr e ↦ rw e (
        owned-Move t (waiting (t.max_attempts - t.attempt_count)) (ground (arith, h))
          (ground (arith, h)) (λ until _. give_back (ground (arith, e))))
  ]

  pub cancelled-Step :
      (run_id : ℕ) (t : TaskRow) → Step who now (phase t) (phase (cancel_row run_id t))
  unfolding cancel_row phase phase_of
  cancelled-Step run_id t =
      elim (Bool-cases (t.run_id == run_id && (is_pending t.status || is_running t.status))) [
        | inr e ↦ rw e (stay refl)
        | inl e ↦ rw e (go t.status (ground (arith, e)))
      ]
    where
      go :
          (s : TaskStatus)
          → (is_pending s || is_running s) ≡ true
          → Step who now
              (phase_of s t.lease_owner t.lease_expires_at (t.max_attempts - t.attempt_count))
              dropped
      go TaskStatus.pending h = move drop_waiting
      go TaskStatus.running h = move drop_leased
      go TaskStatus.completed h = absurd (ground arith)
      go TaskStatus.failed h = absurd (ground arith)
      go TaskStatus.cancelled h = absurd (ground arith)
