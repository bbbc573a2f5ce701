-- ===== src/Outbox/Weight.antt =====
-- How many deliveries the open messages of an outbox can take at most. A batch of `n` candidates takes
-- one, or is split until each candidate is alone: at most `2 * n - 1` in all.
use agente_inteligente_comer.Prelude.{
  ℕ, ◌+◌, ◌-◌, ◌*◌, ◌/◌, ◌≤◌, ◌<◌, max, String, ◌≡◌, refl, Bool, true, false, ◌&&◌, ◌||◌, List, [],
  ◌∷◌, ◌++◌, none, some, arith, ltb, ◌==◌, if◌then◌else◌, inl, inr, Bool-cases, Option-cases, any,
  take, drop, length, total, length-take, length-drop, some_eq,
}
use agente_inteligente_comer.Table.{get, modify}
use agente_inteligente_comer.Table.Laws.{modify-map, total-map-le, get-snoc}
use agente_inteligente_comer.Store.{
  OutboxRow, OutboxStatus, IdempotencyKey, Payload, items, object, Element, message_key, is_queued,
  is_dead, is_candidates, candidates, split, part_of, Store,
}
use agente_inteligente_comer.Outbox.Batches.{split-open}
use agente_inteligente_comer.Outbox.{
  new_message, queue_outbox, deliver, close, open_batch, split_batch, split_candidate_outbox,
  discard_candidate_outbox,
}

abbrev pub is_open : OutboxStatus → Bool
is_open status = is_queued status || is_dead status

abbrev pub batch_weight : List Element → ℕ
batch_weight xs = max 1 (2 * length xs - 1)

abbrev pub size : OutboxRow → ℕ
size m = elim m.payload [
  | object _ ↦ 1
  | items xs ↦ if is_candidates m.kind then batch_weight xs else 1
]

abbrev pub weight : OutboxRow → ℕ
weight m = if is_open m.status then size m else 0

abbrev pub load : List OutboxRow → ℕ
load outbox = total weight outbox

weight-pos : (m : OutboxRow) → is_open m.status ≡ true → 1 ≤ weight m
weight-pos m h = rw h (go m.payload)
  where
    go :
        (p : Payload)
        → 1
          ≤ elim p [ object _ ↦ 1 | items xs ↦ if is_candidates m.kind then batch_weight xs else 1 ]
    go (object x) = omega arith
    go (items xs) = ground arith

-- A write that closes a message.
module _ (f : OutboxRow → OutboxRow) (closes : (m : OutboxRow) → weight (f m) ≡ 0) (id : ℕ) where
  pub load-modify_le :
      (outbox : List OutboxRow) → load (modify message_key id f outbox) ≤ load outbox
  load-modify_le outbox =
      rw (modify-map message_key id f outbox)
        (total-map-le message_key weight _ (λ r. ground (arith, closes r)) outbox)

  load-modify :
      (outbox : List OutboxRow) (m : OutboxRow)
      → get message_key id outbox ≡ some m
      → load (modify message_key id f outbox) + weight m ≤ load outbox
  unfolding total get modify
  load-modify [] m h = absurd (ground arith)
  load-modify (x ∷ outbox) m h = elim (Bool-cases (x.id == id)) [
    | inl e ↦
        let same : x ≡ m = some_eq _ _ (rw e at h) in
        rw (e, closes x, ← same) (omega (arith, load-modify_le outbox))
    | inr e ↦ rw e (omega (arith, load-modify outbox m (rw e at h)))
  ]

  pub load-modify-any :
      (outbox : List OutboxRow)
      → any (λ r. r.id == id && is_queued r.status) outbox ≡ true
      → load (modify message_key id f outbox) < load outbox
  unfolding total modify any
  load-modify-any [] h = absurd (ground arith)
  load-modify-any (x ∷ outbox) h = elim (Bool-cases (x.id == id && is_queued x.status)) [
    | inl e ↦
        let w : 1 ≤ weight x = weight-pos x (ground (arith, e)) in
        let k : (x.id == id) ≡ true = ground (arith, e) in
        rw (k, closes x) (omega (arith, w, load-modify_le outbox))
    | inr e ↦
        let rest = load-modify-any outbox (ground (arith, h, e)) in
        elim (Bool-cases (x.id == id)) [
          | inl k ↦ rw (k, closes x) (omega (arith, rest))
          | inr k ↦ rw k (omega (arith, rest))
        ]
  ]

load-snoc :
    (outbox : List OutboxRow) (m : OutboxRow) → load (outbox ++ m ∷ []) ≡ load outbox + weight m
unfolding total
load-snoc [] m = omega arith
load-snoc (x ∷ outbox) m = omega (arith, load-snoc outbox m)

module _ (new now run_id : ℕ) (key : IdempotencyKey) (xs : List Element) where
  load-queue :
      (outbox : List OutboxRow)
      → load (queue_outbox new now run_id candidates key (items xs) outbox)
        ≤ load outbox + batch_weight xs
  unfolding queue_outbox
  load-queue outbox =
      ground (arith, load-snoc outbox (new_message new now run_id candidates key (items xs)))

  get-queue :
      (id : ℕ) (outbox : List OutboxRow) (m : OutboxRow)
      → get message_key id outbox ≡ some m
      → get message_key id (queue_outbox new now run_id candidates key (items xs) outbox) ≡ some m
  unfolding queue_outbox
  get-queue id outbox m h = ground (
    arith,
    h,
    get-snoc message_key id outbox (new_message new now run_id candidates key (items xs)),
  )

-- An open batch, by its parts.
open_batch_lem :
    (m : OutboxRow) (xs : List Element) → open_batch m ≡ some xs → weight m ≡ batch_weight xs
unfolding open_batch
open_batch_lem m xs h = go m.payload h
  where
    go :
        (p : Payload)
        → elim p [
          | object _ ↦ none
          | items ys ↦ if is_candidates m.kind && is_open m.status then some ys else none
        ]
          ≡ some xs
        → (if is_open m.status
            then elim p [
              | object _ ↦ 1
              | items ys ↦ if is_candidates m.kind then batch_weight ys else 1
            ]
            else 0)
          ≡ batch_weight xs
    go (object x) h = absurd (ground arith)
    go (items ys) h = elim (Bool-cases (is_candidates m.kind && is_open m.status)) [
      | inl e ↦
          let same : ys ≡ xs = some_eq _ _ (rw e at h) in
          let k : is_candidates m.kind ≡ true = ground (arith, e) in
          let o : is_open m.status ≡ true = ground (arith, e) in rw (o, k, same) refl
      | inr e ↦ absurd (ground (arith, h, e))
    ]

weight-close :
    (status : OutboxStatus) (error : String) (now : ℕ) (m : OutboxRow)
    → is_open status ≡ false
    → weight (close status error now m) ≡ 0
weight-close status error now m h = rw h refl

pub weight-deliver : (now : ℕ) (m : OutboxRow) → weight (deliver now m) ≡ 0
weight-deliver now m = refl

split-load :
    (fresh : ℕ → ℕ) (id : ℕ) (error : String) (now : ℕ) (m : OutboxRow) (xs : List Element)
    (outbox : List OutboxRow)
    → get message_key id outbox ≡ some m
    → open_batch m ≡ some xs
    → ltb (length xs) 2 ≡ false
    → load (split_batch fresh id error now m xs outbox).0 < load outbox
unfolding split_batch
split-load fresh id error now m xs outbox there opened long =
    let half = length xs / 2 in
    let one =
      queue_outbox (fresh 0) now m.run_id candidates (part_of m.id 0) (items (take half xs))
        outbox in
    let two =
      queue_outbox (fresh 1) now m.run_id candidates (part_of m.id 1) (items (drop half xs)) one in
    let there1 : get message_key id one ≡ some m =
      get-queue (fresh 0) now m.run_id (part_of m.id 0) (take half xs) id outbox m there in
    let there2 : get message_key id two ≡ some m =
      get-queue (fresh 1) now m.run_id (part_of m.id 1) (drop half xs) id one m there1 in
    let load1 = load-queue (fresh 0) now m.run_id (part_of m.id 0) (take half xs) outbox in
    let load2 = load-queue (fresh 1) now m.run_id (part_of m.id 1) (drop half xs) one in
    let closed = load-modify (close split error now) (λ r. refl) id two m there2 in
    let w = open_batch_lem m xs opened in
    let l : 2 ≤ length xs = ground (arith, long) in
    rw long (omega (arith, load1, load2, closed, w, l, length-take half xs, length-drop half xs))

split_long :
    (fresh : ℕ → ℕ) (id : ℕ) (error : String) (now : ℕ) (m : OutboxRow) (xs : List Element)
    (outbox : List OutboxRow)
    → (split_batch fresh id error now m xs outbox).1 ≡ true
    → ltb (length xs) 2 ≡ false
unfolding split_batch
split_long fresh id error now m xs outbox h = ground (arith, h)

pub load-split :
    (fresh : ℕ → ℕ) (id : ℕ) (error : String) (now : ℕ) (outbox : List OutboxRow)
    → (split_candidate_outbox fresh id error now outbox).1 ≡ true
    → load (split_candidate_outbox fresh id error now outbox).0 < load outbox
unfolding split_candidate_outbox
load-split fresh id error now outbox h = elim (Option-cases (get message_key id outbox)) [
  | inl e ↦ absurd (ground (arith, h, e))
  | inr (m, e) ↦ elim (Option-cases (open_batch m)) [
    | inl o ↦ absurd (ground (arith, h, e, o))
    | inr (xs, o) ↦ rw (split-open fresh id error now outbox m xs e o) (
        split-load fresh id error now m xs outbox e o (
          split_long fresh id error now m xs outbox
            (rw (split-open fresh id error now outbox m xs e o) at h)))
  ]
]

discard-open :
    (id : ℕ) (error : String) (now : ℕ) (s : Store) (m : OutboxRow) (xs : List Element)
    → get message_key id s.outbox ≡ some m
    → open_batch m ≡ some xs
    → (length xs == 1) ≡ true
    → (discard_candidate_outbox id error now s).0.outbox
      ≡ modify message_key id (close OutboxStatus.discarded error now) s.outbox
unfolding discard_candidate_outbox
discard-open id error now s m xs e o one = ground (arith, e, o, one)

pub load-discard :
    (id : ℕ) (error : String) (now : ℕ) (s : Store)
    → (discard_candidate_outbox id error now s).1 ≡ true
    → load (discard_candidate_outbox id error now s).0.outbox < load s.outbox
unfolding discard_candidate_outbox
load-discard id error now s h = elim (Option-cases (get message_key id s.outbox)) [
  | inl e ↦ absurd (ground (arith, h, e))
  | inr (m, e) ↦ elim (Option-cases (open_batch m)) [
    | inl o ↦ absurd (ground (arith, h, e, o))
    | inr (xs, o) ↦
        let one : (length xs == 1) ≡ true = ground (arith, h, e, o) in
        let w = open_batch_lem m xs o in
        let closed =
          load-modify (close OutboxStatus.discarded error now) (λ r. refl) id s.outbox m e in
        rw (discard-open id error now s m xs e o one) (omega (arith, w, closed))
  ]
]
