-- ===== src/Tasks/Phases.antt =====
-- What the queue of `SQLWorkerStore` (app/prospecting/store.py) promises of one task: its phases and
-- the moves between them, with the worker and the time of each. Nothing of a row but its phase is left.
pub mod Moves
pub mod Refinement
use agente_inteligente_comer.Prelude.{ℕ, suc, ◌-◌, ◌<◌, String, ◌≡◌, Option, none, some}
use agente_inteligente_comer.Contracts.{TaskStatus}
use agente_inteligente_comer.Tasks.{TaskRow}

-- The number is of the attempts that are left.
pub data Phase : Type 0 where
  waiting : ℕ → Phase
  leased : Option String → Option ℕ → ℕ → Phase
  done dead dropped : Phase

-- A move by a worker at an instant. Taking a task up uses one of its attempts.
pub data Move (who : String) (now : ℕ) : Phase → Phase → Type 0 where
  take :
      {until left left' : ℕ}
      → left ≡ suc left'
      → Move who now (waiting left) (leased (some who) (some until) left')
  retake :
      {owner : Option String} {ended until left left' : ℕ}
      → ended < now
      → left ≡ suc left'
      → Move who now (leased owner (some ended) left) (leased (some who) (some until) left')
  renew :
      {until until' left : ℕ}
      → now < until
      → Move who now (leased (some who) (some until) left) (leased (some who) (some until') left)
  finish : {until : Option ℕ} {left : ℕ} → Move who now (leased (some who) until left) done
  give_back :
      {until : Option ℕ} {left : ℕ}
      → 0 < left
      → Move who now (leased (some who) until left) (waiting left)
  give_up : {until : Option ℕ} → Move who now (leased (some who) until 0) dead
  lapse :
      {owner : Option String} {ended : ℕ}
      → ended < now
      → Move who now (leased owner (some ended) 0) dead
  drop_waiting : {left : ℕ} → Move who now (waiting left) dropped
  drop_leased :
      {owner : Option String} {until : Option ℕ} {left : ℕ}
      → Move who now (leased owner until left) dropped

-- A task moves once, or stays in its phase.
pub data Step (who : String) (now : ℕ) (p q : Phase) : Type 0 where
  stay : p ≡ q → Step who now p q
  move : Move who now p q → Step who now p q

-- The phase of a row, by its status, its lease and the attempts that are left.
unfoldable pub phase_of : TaskStatus → Option String → Option ℕ → ℕ → Phase
phase_of TaskStatus.pending owner until left = waiting left
phase_of TaskStatus.running owner until left = leased owner until left
phase_of TaskStatus.completed owner until left = done
phase_of TaskStatus.failed owner until left = dead
phase_of TaskStatus.cancelled owner until left = dropped

unfoldable pub phase : TaskRow → Phase
phase t = phase_of t.status t.lease_owner t.lease_expires_at (t.max_attempts - t.attempt_count)
