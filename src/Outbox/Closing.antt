-- ===== src/Outbox/Closing.antt =====
-- What the calls that close a message leave: the run's row, and a lighter outbox.
use agente_inteligente_comer.Prelude.{
  ℕ, ◌≤◌, ◌<◌, String, ◌≡◌, refl, Bool, true, ◌&&◌, List, [], ◌∷◌, Option, arith, ◌==◌, inl, inr,
  ◌⊎◌, Bool-cases, Option-cases, any, is_some, All, All-imp, select,
}
use agente_inteligente_comer.Contracts.{RunStatus}
use agente_inteligente_comer.Table.{get, modify}
use agente_inteligente_comer.Table.Laws.{get-modify}
use agente_inteligente_comer.Store.{
  Stats, RunRow, OutboxRow, Store, run_key, message_key, is_queued, is_delivered,
}
use agente_inteligente_comer.Outbox.{
  deliver, open_batch, CandidateBatchAck, acknowledge, record_candidate_ack, close_run,
  finalize_terminal_outbox, discard_candidate_outbox, bump, due, get_outbox,
}
use agente_inteligente_comer.Outbox.Queue.{All-take, All-by_age}
use agente_inteligente_comer.Outbox.Weight.{load, load-modify_le, load-modify-any}

abbrev pub has_run : ℕ → Store → Bool
has_run run_id s = is_some (get run_key run_id s.runs)

-- Some queued message has the id.
unfoldable pub queued_as : ℕ → List OutboxRow → Bool
queued_as id outbox = any (λ r. r.id == id && is_queued r.status) outbox

is_some-modify :
    (i j : ℕ) (f : RunRow → RunRow) (runs : List RunRow)
    → ((r : RunRow) → run_key (f r) ≡ run_key r)
    → is_some (get run_key i (modify run_key j f runs)) ≡ is_some (get run_key i runs)
is_some-modify i j f runs keeps = ground (arith, get-modify run_key j f keeps i runs)

pub has_run-discard :
    (run_id id : ℕ) (error : String) (now : ℕ) (s : Store)
    → has_run run_id (discard_candidate_outbox id error now s).0 ≡ has_run run_id s
unfolding discard_candidate_outbox
has_run-discard run_id id error now s = elim (Option-cases (get message_key id s.outbox)) [
  | inl e ↦ ground (arith, e)
  | inr (m, e) ↦ elim (Option-cases (open_batch m)) [
    | inl o ↦ ground (arith, e, o)
    | inr (xs, o) ↦ ground (
      arith,
      e,
      o,
      is_some-modify run_id m.run_id (λ r. record r { stats = bump "rejected_invalid" 1 r.stats })
          s.runs (λ r. refl),
    )
  ]
]

pub has_run-ack :
    (run_id i id : ℕ) (ack : CandidateBatchAck) (now : ℕ) (s : Store)
    → has_run run_id (record_candidate_ack i id ack now s) ≡ has_run run_id s
unfolding record_candidate_ack acknowledge
has_run-ack run_id i id ack now s =
    ground (arith, is_some-modify run_id i (acknowledge ack) s.runs (λ r. refl))

pub has_run-finalize :
    (run_id i id : ℕ) (status : RunStatus) (stats : Option Stats) (error : Option String) (now : ℕ)
    (s : Store)
    → has_run run_id (finalize_terminal_outbox i id status stats error now s) ≡ has_run run_id s
unfolding finalize_terminal_outbox
has_run-finalize run_id i id status stats error now s =
    ground (arith, is_some-modify run_id i (close_run status stats error now) s.runs (λ r. refl))

pub ack_cases :
    (i id : ℕ) (ack : CandidateBatchAck) (now : ℕ) (s : Store)
    → ((record_candidate_ack i id ack now s).outbox ≡ s.outbox)
      ⊎ ((record_candidate_ack i id ack now s).outbox
          ≡ modify message_key id (deliver now) s.outbox)
unfolding record_candidate_ack
ack_cases i id ack now s = elim (Option-cases (get run_key i s.runs)) [
  | inl e ↦ inl (ground (arith, e))
  | inr (r, e) ↦ elim (Option-cases (get message_key id s.outbox)) [
    | inl g ↦ inl (ground (arith, e, g))
    | inr (m, g) ↦ elim (Bool-cases (is_delivered m.status)) [
      | inl d ↦ inl (ground (arith, e, g, d))
      | inr d ↦ inr (ground (arith, e, g, d))
    ]
  ]
]

queued-get :
    (id : ℕ) (outbox : List OutboxRow)
    → queued_as id outbox ≡ true
    → is_some (get message_key id outbox) ≡ true
unfolding queued_as any get
queued-get id [] h = absurd (ground arith)
queued-get id (x ∷ outbox) h = ground (arith, h, queued-get id outbox)

pub finalize_cases :
    (i id : ℕ) (status : RunStatus) (stats : Option Stats) (error : Option String) (now : ℕ)
    (s : Store)
    → ((finalize_terminal_outbox i id status stats error now s).outbox ≡ s.outbox)
      ⊎ ((finalize_terminal_outbox i id status stats error now s).outbox
          ≡ modify message_key id (deliver now) s.outbox)
unfolding finalize_terminal_outbox
finalize_cases i id status stats error now s = elim (Option-cases (get run_key i s.runs)) [
  | inl e ↦ inl (ground (arith, e))
  | inr (r, e) ↦ elim (Option-cases (get message_key id s.outbox)) [
    | inl g ↦ inl (ground (arith, e, g))
    | inr (m, g) ↦ inr (ground (arith, e, g))
  ]
]

pub finalize_there :
    (i id : ℕ) (status : RunStatus) (stats : Option Stats) (error : Option String) (now : ℕ)
    (s : Store)
    → has_run i s ≡ true
    → queued_as id s.outbox ≡ true
    → (finalize_terminal_outbox i id status stats error now s).outbox
      ≡ modify message_key id (deliver now) s.outbox
unfolding finalize_terminal_outbox
finalize_there i id status stats error now s h q = ground (arith, h, queued-get id s.outbox q)

-- Delivering a message makes the outbox lighter where the message is queued.
module _ (id now : ℕ) (outbox : List OutboxRow) where
  pub load-deliver_le : load (modify message_key id (deliver now) outbox) ≤ load outbox
  load-deliver_le = load-modify_le (deliver now) (λ m. refl) id outbox

  pub load-deliver :
      queued_as id outbox ≡ true → load (modify message_key id (deliver now) outbox) < load outbox
  unfolding queued_as
  load-deliver h = load-modify-any (deliver now) (λ m. refl) id outbox h

-- A message that is fetched is queued under its id.
select-queued :
    (run_id now : ℕ) (outbox : List OutboxRow)
    → All (λ m. queued_as m.id outbox ≡ true) (select (due run_id now) outbox)
unfolding select queued_as any
select-queued run_id now [] = tt
select-queued run_id now (x ∷ outbox) =
    let rest =
      All-imp _ (λ m. queued_as m.id (x ∷ outbox) ≡ true)
        (λ m (h : queued_as m.id outbox ≡ true). ground (arith, h)) (select (due run_id now) outbox)
        (select-queued run_id now outbox) in
    elim (Bool-cases (due run_id now x)) [
      | inl e ↦ rw e (ground (arith, e), rest)
      | inr e ↦ rw e rest
    ]

pub get_outbox-queued :
    (run_id limit now : ℕ) (outbox : List OutboxRow)
    → All (λ m. queued_as m.id outbox ≡ true) (get_outbox run_id limit now outbox)
unfolding get_outbox
get_outbox-queued run_id limit now outbox =
    All-take _ limit _ (All-by_age _ _ (select-queued run_id now outbox))
