-- ===== src/Outbox/Queue.antt =====
-- What goes into the outbox, and what comes out of it to be sent.
use mathlib.Core.List.{Perm}
use mathlib.Core.List.Perm
use text.Mathlib.TextPositions.{eq_refl}
use agente_inteligente_comer.Prelude.{
  ℕ, zero, suc, ◌≤◌, ◌≡◌, refl, ap, true, List, [], ◌∷◌, arith, leb, inl, inr, Bool-cases, All,
  All-imp, any, select, take, length, length-take, drop, take-append-drop, ◌⊎◌, ◌==◌, ◌&&◌, ◌++◌,
}
use agente_inteligente_comer.Table.Searches.{any-last}
use agente_inteligente_comer.Store.{
  message_key, OutboxRow, OutboxKind, IdempotencyKey, candidates_of, event_of, part_of, terminal_of,
  Payload, same_key, is_queued,
}
use agente_inteligente_comer.Outbox.{
  new_message, queue_outbox, insert_by_age, by_age, due, get_outbox,
}
use agente_inteligente_comer.Outbox.Batches.{any-append}

same_key_refl : (k : IdempotencyKey) → same_key k k ≡ true
same_key_refl (candidates_of r t a) = ground arith
same_key_refl (event_of r e) = ground (arith, eq_refl e)
same_key_refl (part_of m i) = ground arith
same_key_refl (terminal_of r s) = ground (arith, eq_refl r, eq_refl s)

-- Once a key is queued, queueing it again changes nothing, whatever comes with it.
pub queue_outbox_once :
    (id now run_id : ℕ) (kind : OutboxKind) (payload : Payload) (id' now' run_id' : ℕ)
    (kind' : OutboxKind) (payload' : Payload) (key : IdempotencyKey) (outbox : List OutboxRow)
    → queue_outbox id' now' run_id' kind' key payload'
        (queue_outbox id now run_id kind key payload outbox)
      ≡ queue_outbox id now run_id kind key payload outbox
unfolding queue_outbox
queue_outbox_once id now run_id kind payload id' now' run_id' kind' payload' key outbox =
    elim (Bool-cases (any (λ m. same_key m.idempotency_key key) outbox)) [
      | inl e ↦ rw (e, e)
      | inr e ↦
          rw (e, any-append (λ m. same_key m.idempotency_key key) outbox, e)
            (ground (arith, queued_key))
    ]
  where
    queued_key :
        any (λ m. same_key m.idempotency_key key) (new_message id now run_id kind key payload ∷ [])
        ≡ true
    queued_key = unfold any in rw (same_key_refl key)

-- A message that is queued is there, by its key.
pub any-queue_outbox :
    (id now run_id : ℕ) (kind : OutboxKind) (key : IdempotencyKey) (payload : Payload)
    (outbox : List OutboxRow)
    → any (λ m. same_key m.idempotency_key key) (queue_outbox id now run_id kind key payload outbox)
      ≡ true
unfolding queue_outbox
any-queue_outbox id now run_id kind key payload outbox =
    elim (Bool-cases (any (λ m. same_key m.idempotency_key key) outbox)) [
      | inl e ↦ rw (e, e) refl
      | inr e ↦ rw e (
          any-last message_key (λ m. same_key m.idempotency_key key) outbox
            (new_message id now run_id kind key payload) (same_key_refl key))
    ]

module _ (P : OutboxRow → Type 0) where
  All-insert_by_age :
      (m : OutboxRow) (ms : List OutboxRow) → P m → All P ms → All P (insert_by_age m ms)
  unfolding insert_by_age
  All-insert_by_age m [] p a = (p, tt)
  All-insert_by_age m (x ∷ ms) p a = elim (Bool-cases (leb m.created_at x.created_at)) [
    | inl e ↦ rw e (p, a)
    | inr e ↦ rw e (a.0, All-insert_by_age m ms p a.1)
  ]

  pub All-by_age : (ms : List OutboxRow) → All P ms → All P (by_age ms)
  unfolding by_age
  All-by_age [] a = tt
  All-by_age (m ∷ ms) a = All-insert_by_age m (by_age ms) a.0 (All-by_age ms a.1)

  pub All-take : (n : ℕ) (ms : List OutboxRow) → All P ms → All P (take n ms)
  All-take zero ms a = tt
  All-take (suc n) [] a = tt
  All-take (suc n) (m ∷ ms) a = (a.0, All-take n ms a.1)

-- Oldest first.
abbrev pub IsByAge : List OutboxRow → Type 0
IsByAge [] = Unit
IsByAge (m ∷ ms) = All (λ x. m.created_at ≤ x.created_at) ms × IsByAge ms

insert-IsByAge : (m : OutboxRow) (ms : List OutboxRow) → IsByAge ms → IsByAge (insert_by_age m ms)
unfolding insert_by_age
insert-IsByAge m [] s = (tt, tt)
insert-IsByAge m (x ∷ ms) s = elim (Bool-cases (leb m.created_at x.created_at)) [
  | inl e ↦
      rw e (
        (ground arith, All-imp _ _ (λ y (h : x.created_at ≤ y.created_at). ground arith) ms s.0),
        s,
      )
  | inr e ↦ rw e (
    All-insert_by_age (λ y. x.created_at ≤ y.created_at) m ms (ground arith) s.0,
    insert-IsByAge m ms s.1,
  )
]

by_age-IsByAge : (ms : List OutboxRow) → IsByAge (by_age ms)
unfolding by_age
by_age-IsByAge [] = tt
by_age-IsByAge (m ∷ ms) = insert-IsByAge m (by_age ms) (by_age-IsByAge ms)

take-IsByAge : (n : ℕ) (ms : List OutboxRow) → IsByAge ms → IsByAge (take n ms)
take-IsByAge zero ms s = tt
take-IsByAge (suc n) [] s = tt
take-IsByAge (suc n) (m ∷ ms) s =
    (All-take (λ x. m.created_at ≤ x.created_at) n ms s.0, take-IsByAge n ms s.1)

insert_by_age-perm : (m : OutboxRow) (ms : List OutboxRow) → Perm (insert_by_age m ms) (m ∷ ms)
unfolding insert_by_age
insert_by_age-perm m [] = Perm.refl (m ∷ [])
insert_by_age-perm m (x ∷ ms) = elim (Bool-cases (leb m.created_at x.created_at)) [
  | inl e ↦ rw e (Perm.refl (m ∷ x ∷ ms))
  | inr e ↦ rw e (Perm.trans (Perm.cons x (insert_by_age-perm m ms)) (Perm.swap m x ms))
]

by_age-perm : (ms : List OutboxRow) → Perm (by_age ms) ms
unfolding by_age
by_age-perm [] = Perm.refl []
by_age-perm (m ∷ ms) = Perm.trans (insert_by_age-perm m (by_age ms)) (Perm.cons m (by_age-perm ms))

All-drop : (P : OutboxRow → Type 0) (n : ℕ) (ms : List OutboxRow) → All P ms → All P (drop n ms)
All-drop P zero ms a = a
All-drop P (suc n) [] a = tt
All-drop P (suc n) (m ∷ ms) a = All-drop P n ms a.1

-- In a list by age, what is taken is no younger than what is left.
take-IsOlder :
    (n : ℕ) (ms : List OutboxRow)
    → IsByAge ms
    → All (λ m. All (λ x. m.created_at ≤ x.created_at) (drop n ms)) (take n ms)
take-IsOlder zero ms s = tt
take-IsOlder (suc n) [] s = tt
take-IsOlder (suc n) (m ∷ ms) s =
    (All-drop (λ x. m.created_at ≤ x.created_at) n ms s.0, take-IsOlder n ms s.1)

take_fills : (n : ℕ) (ms : List OutboxRow) → (length (take n ms) ≡ n) ⊎ (drop n ms ≡ [])
take_fills zero ms = inl refl
take_fills (suc n) [] = inr refl
take_fills (suc n) (m ∷ ms) = elim (take_fills n ms) [ inl e ↦ inl (ap suc e) | inr e ↦ inr e ]

-- Of the queued messages of the run that are available by now, those that are fetched are the oldest,
-- each once, oldest first; they are at most as many as the limit, and just as many where one is left.
pub get_outbox_lem :
    (run_id limit now : ℕ) (outbox : List OutboxRow)
    → let sent = get_outbox run_id limit now outbox in
      (left : List OutboxRow) × Perm
        (sent ++ left)
        (select (λ m. m.run_id == run_id && is_queued m.status && leb m.available_at now) outbox)
      × IsByAge sent
      × All (λ m. All (λ x. m.created_at ≤ x.created_at) left) sent
      × (length sent ≤ limit)
      × ((length sent ≡ limit) ⊎ (left ≡ []))
unfolding get_outbox
get_outbox_lem run_id limit now outbox =
    let sorted = by_age (select (due run_id now) outbox) in
    (
      drop limit sorted,
      rw (take-append-drop limit sorted) (by_age-perm (select (due run_id now) outbox)),
      take-IsByAge limit sorted (by_age-IsByAge _),
      take-IsOlder limit sorted (by_age-IsByAge _),
      omega (arith, length-take limit sorted),
      take_fills limit sorted,
    )
