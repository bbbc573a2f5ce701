-- ===== src/Outbox/Batches.antt =====
-- Batches that the CRM refuses: splitting loses and doubles no candidate, and one refused candidate is
-- counted once.
use mathlib.Core.Option
use mathlib.Core.List.{Perm, perm_append_comm, append_assoc}
use mathlib.Core.List.Perm
use agente_inteligente_comer.Prelude.{
  ℕ, ◌+◌, ◌≤◌, String, ◌≡◌, refl, sym, Bool, false, ◌||◌, List, [], ◌∷◌, ◌++◌, Option, none, some,
  arith, ◌==◌, inl, inr, Bool-cases, any, length, some_eq,
}
use agente_inteligente_comer.Table.{get, at, modify, Unique}
use agente_inteligente_comer.Table.Laws.{modify-Fresh}
use agente_inteligente_comer.Store.{
  OutboxRow, Element, items, message_key, OutboxStatus, is_queued, is_dead, candidates, part_of,
}
use agente_inteligente_comer.Outbox.{
  new_message, open_batch, close, split_batch, split_candidate_outbox,
}

-- The candidates of the batches that have not gone out, in table order.
abbrev pub batch : Option (List Element) → List Element
batch none = []
batch (some xs) = xs

pub waiting : List OutboxRow → List Element
waiting [] = []
waiting (m ∷ ms) = batch (open_batch m) ++ waiting ms

pub open-close :
    (status : OutboxStatus) (error : String) (now : ℕ) (m : OutboxRow)
    → (is_queued status || is_dead status) ≡ false
    → open_batch (close status error now m) ≡ none
unfolding open_batch
open-close status error now m h = ground arith

perm_swap : (ws xs ys : List Element) → Perm (ws ++ (xs ++ ys)) (xs ++ (ws ++ ys))
perm_swap ws xs ys =
    rw (sym (append_assoc ws xs ys), sym (append_assoc xs ws ys))
      (Perm.append_right ys (perm_append_comm ws xs))

-- Closing a batch takes its candidates out of those that wait.
pub waiting-close :
    (status : OutboxStatus)
    → (is_queued status || is_dead status) ≡ false
    → (id : ℕ) (error : String) (now : ℕ) (ms : List OutboxRow) (m : OutboxRow) (xs : List Element)
    → Unique message_key ms
    → get message_key id ms ≡ some m
    → open_batch m ≡ some xs
    → Perm (waiting ms) (xs ++ waiting (modify message_key id (close status error now) ms))
unfolding waiting get modify
waiting-close status closed id error now [] m xs u g o = absurd (Option.none-ne-some _ g)
waiting-close status closed id error now (x ∷ ms) m xs u g o = elim (Bool-cases (x.id == id)) [
  | inl e ↦
      let e' : x.id ≡ id = ground arith in
      let x' : x ≡ m = some_eq _ _ (rw e at g) in
      rw
        (
          e,
          modify-Fresh message_key id (close status error now) ms (rw e' at u.0),
          open-close status error now x closed,
          x',
          o,
        )
        (Perm.refl _)
  | inr e ↦ rw e (
      Perm.trans
        (Perm.append_left (batch (open_batch x))
          (waiting-close status closed id error now ms m xs u.1 (rw e at g) o))
        (perm_swap (batch (open_batch x)) xs _))
]

pub any-append :
    (p : OutboxRow → Bool) (ms ns : List OutboxRow) → any p (ms ++ ns) ≡ any p ms || any p ns
unfolding any
any-append p [] ns = refl
any-append p (m ∷ ms) ns = ground (arith, any-append p ms ns)

abbrev queued_part : (ℕ → ℕ) → ℕ → OutboxRow → ℕ → List Element → OutboxRow
queued_part fresh now m i xs =
    new_message (fresh i) now m.run_id candidates (part_of m.id i) (items xs)

-- Two queued batches that share out a batch in order, the second with at most one candidate more.
pub record Halves (m : OutboxRow) (xs : List Element) : Type 0 where
  pub first : OutboxRow
  pub second : OutboxRow
  pub front : List Element
  pub back : List Element
  pub first_open : open_batch first ≡ some front
  pub second_open : open_batch second ≡ some back
  pub shared : front ++ back ≡ xs
  pub sent_first : 1 ≤ length front
  pub shorter : length front ≤ length back
  pub close_to : length back ≤ length front + 1
  pub first_key : first.idempotency_key ≡ part_of m.id 0
  pub second_key : second.idempotency_key ≡ part_of m.id 1
  pub first_run : first.run_id ≡ m.run_id
  pub second_run : second.run_id ≡ m.run_id

module _ (fresh : ℕ → ℕ) (id : ℕ) (error : String) (now : ℕ) (outbox : List OutboxRow)
    (m : OutboxRow) (xs : List Element) (there : get message_key id outbox ≡ some m)
    (open_ : open_batch m ≡ some xs) where
  pub split-open :
      split_candidate_outbox fresh id error now outbox ≡ split_batch fresh id error now m xs outbox
  unfolding split_candidate_outbox
  split-open = ground (arith, there, open_)
