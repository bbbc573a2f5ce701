-- ===== src/Tasks/Phases/Refinement.antt =====
-- The table of tasks refines the phases: each call moves each task at most once, by a move of the
-- caller at the time of the call.
use agente_inteligente_comer.Prelude.{
  ℕ, String, ◌≡◌, refl, sym, subst, ◌∙◌, Bool, true, false, List, [], ◌∷◌, map, some, arith, ◌==◌,
  inl, inr, Bool-cases, some_eq,
}
use agente_inteligente_comer.Table.{get, Unique, KeepsKey}
use agente_inteligente_comer.Table.Laws.{get-map, get-modify}
use agente_inteligente_comer.Tasks.{
  TaskRow, key, sweep, claim, claim_task, cancel_tasks, cancel_row, renew, finish, fail,
  holds_lease, owns_task,
}
use agente_inteligente_comer.Tasks.Writes.{
  guarded, heartbeat-guarded, finish-guarded, fail-guarded, guarded_cases,
}
use agente_inteligente_comer.Tasks.Keys.{cancel_KeepsKey, step-Unique}
use agente_inteligente_comer.Tasks.Claim.{
  sweep-KeepsKey, claim-KeepsKey, claim_task_cases, swept-claimable,
}
use agente_inteligente_comer.Tasks.Calls.{
  Call, claims, heartbeats, finishes, fails, cancels, step, run,
}
use agente_inteligente_comer.Tasks.Phases.{
  Phase, waiting, leased, Move, take, retake, renew as renewed, finish as finished, give_back,
  give_up, lapse, drop_waiting, drop_leased, Step, stay, move, phase,
}
use agente_inteligente_comer.Tasks.Phases.Moves.{
  swept-Step, claimed-Move, renewed-Move, finished-Move, failed-Move, cancelled-Step,
}

-- The worker and the clock of a call; the two that read no clock have none.
abbrev pub caller : Call → String
caller (claims locked run_id worker_id lease_seconds now) = worker_id
caller (heartbeats task_id worker_id lease_seconds now) = worker_id
caller (finishes task_id worker_id results rejected) = worker_id
caller (fails task_id worker_id error now) = worker_id
caller (cancels run_id) = ""

abbrev pub clock : Call → ℕ
clock (claims locked run_id worker_id lease_seconds now) = now
clock (heartbeats task_id worker_id lease_seconds now) = now
clock (fails task_id worker_id error now) = now
clock _ = 0

-- What a table holds of a task that was in a phase: the task, at most one move further.
pub record Moved (who : String) (now i : ℕ) (p : Phase) (rows : List TaskRow) : Type 0 where
  pub row : TaskRow
  pub there : get key i rows ≡ some row
  pub step : Step who now p (phase row)

module _ (who : String) (now i : ℕ) (rows : List TaskRow) (t : TaskRow)
    (there : get key i rows ≡ some t) where
  guarded-Moved :
      (j : ℕ) (test : TaskRow → Bool) (f : TaskRow → TaskRow)
      → KeepsKey key f
      → ((u : TaskRow) → test u ≡ true → Move who now (phase u) (phase (f u)))
      → Moved who now i (phase t) (guarded j test f rows)
  guarded-Moved j test f keeps moves =
      guarded_cases j test f keeps (Moved who now i (phase t)) rows
        (record { row = t; there = there; step = stay refl })
        λ u found passed. elim (Bool-cases (j == i)) [
          | inl e ↦
              let same : j ≡ i = ground arith in
              let u' : u ≡ t = ground (arith, rw same at found, there) in
              record {
                row = f t;
                there = rw (get-modify key j f keeps i rows, e, there) refl;
                step = move (moves t (rw u' at passed));
              }
          | inr e ↦ record {
            row = t;
            there = rw (get-modify key j f keeps i rows, e) there;
            step = stay refl;
          }
        ]

  mapped-Moved :
      (f : TaskRow → TaskRow)
      → KeepsKey key f
      → ((u : TaskRow) → Step who now (phase u) (phase (f u)))
      → Moved who now i (phase t) (map f rows)
  mapped-Moved f keeps steps = record {
    row = f t;
    there = rw (get-map key f keeps i rows, there) refl;
    step = steps t;
  }

  claimed-Moved :
      (locked : ℕ → Bool) (run_id secs : ℕ)
      → Unique key rows
      → Moved who now i (phase t) (claim_task locked run_id who secs now rows).0
  claimed-Moved locked run_id secs unique =
      let stays =
        mapped-Moved (sweep locked run_id now) (sweep-KeepsKey locked run_id who secs now)
          (swept-Step who now locked run_id) in
      claim_task_cases locked run_id who secs now (λ r. Moved who now i (phase t) r.0) rows unique
        (λ _. stays)
        λ u found could _. elim (Bool-cases (u.id == i)) [
          | inl e ↦
              let same : u.id ≡ i = ground arith in
              let found' : get key i (map (sweep locked run_id now) rows) ≡ some u =
                subst (λ j. get key j (map (sweep locked run_id now) rows) ≡ some u) same found in
              let was : get key i rows ≡ some u =
                swept-claimable locked run_id who secs now rows i u found' could in
              let u' : u ≡ t = some_eq _ _ (sym was ∙ there) in
              record {
                row = claim who secs now u;
                there =
                    rw
                      (
                        get-modify key u.id (claim who secs now)
                            (claim-KeepsKey locked run_id who secs now) i
                            (map (sweep locked run_id now) rows),
                        e,
                        found',
                      )
                      refl;
                step = move (
                    subst (λ x. Move who now (phase x) (phase (claim who secs now u))) u'
                      (claimed-Move who now locked run_id secs u could));
              }
          | inr e ↦ record {
            row = stays.row;
            there =
                rw
                  (
                    get-modify key u.id (claim who secs now)
                        (claim-KeepsKey locked run_id who secs now) i
                        (map (sweep locked run_id now) rows),
                    e,
                  )
                  stays.there;
            step = stays.step;
          }
        ]

-- Every call of a method, refused or not, on a table with unique ids moves each task at most once, by
-- a move of the caller at the time of the call.
pub step-Moved :
    (c : Call) (i : ℕ) (rows : List TaskRow) (t : TaskRow)
    → Unique key rows
    → get key i rows ≡ some t
    → Moved (caller c) (clock c) i (phase t) (step rows c)
unfolding step cancel_tasks
step-Moved (claims locked run_id w secs now) i rows t unique there =
    claimed-Moved w now i rows t there locked run_id secs unique
step-Moved (heartbeats j w secs now) i rows t unique there =
    rw (heartbeat-guarded rows j w secs now) (
      guarded-Moved w now i rows t there j (holds_lease w now) (renew secs now) (λ r. refl)
        (renewed-Move w now secs))
step-Moved (finishes j w results rejected) i rows t unique there =
    rw (finish-guarded rows j w results rejected) (
      guarded-Moved w 0 i rows t there j (owns_task w) (finish results rejected) (λ r. refl)
        (finished-Move w 0 results rejected))
step-Moved (fails j w error now) i rows t unique there = rw (fail-guarded rows j w error now) (
    guarded-Moved w now i rows t there j (owns_task w) (fail error now) (λ r. refl)
      (failed-Move w now error))
step-Moved (cancels run_id) i rows t unique there =
    mapped-Moved "" 0 i rows t there (cancel_row run_id) (cancel_KeepsKey run_id)
      (cancelled-Step "" 0 run_id)

abbrev pub is_final : Phase → Bool
is_final (waiting n) = false
is_final (leased owner until n) = false
is_final _ = true

final-Move : {who : String} {now : ℕ} {p q : Phase} → is_final p ≡ true → Move who now p q → ⊥
final-Move h (take e) = absurd (ground arith)
final-Move h (retake l e) = absurd (ground arith)
final-Move h (renewed l) = absurd (ground arith)
final-Move h finished = absurd (ground arith)
final-Move h (give_back l) = absurd (ground arith)
final-Move h give_up = absurd (ground arith)
final-Move h (lapse l) = absurd (ground arith)
final-Move h drop_waiting = absurd (ground arith)
final-Move h drop_leased = absurd (ground arith)

final-stay : {who : String} {now : ℕ} {p q : Phase} → is_final p ≡ true → Step who now p q → p ≡ q
final-stay h (stay e) = e
final-stay h (move m) = absurd (final-Move h m)

-- A task that is completed, failed or cancelled stays so, whatever calls are made of a table with
-- unique ids.
pub run-final :
    (cs : List Call) (i : ℕ) (rows : List TaskRow) (t : TaskRow)
    → Unique key rows
    → get key i rows ≡ some t
    → is_final (phase t) ≡ true
    → (t' : TaskRow) × (get key i (run rows cs) ≡ some t') × (phase t' ≡ phase t)
unfolding run
run-final [] i rows t unique there h = (t, there, refl)
run-final (c ∷ cs) i rows t unique there h =
    let m = step-Moved c i rows t unique there in
    let same = final-stay h m.step in
    let later =
      run-final cs i (step rows c) m.row (step-Unique rows unique c) m.there (rw (← same) h) in
    (later.0, later.1, later.2 ∙ sym same)
