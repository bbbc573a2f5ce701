-- ===== src/Tasks/Released.antt =====
-- Who writes the end of an attempt does not own the task any more.
use agente_inteligente_comer.Prelude.{
  ℕ, String, ◌≡◌, refl, subst, false, List, some, arith, inl, inr, Bool-cases, Option-cases,
  some_eq,
}
use mathlib.Core.Option.{none-ne-some}
use agente_inteligente_comer.Table.{get, modify}
use agente_inteligente_comer.Table.Laws.{get-modify}
use agente_inteligente_comer.Tasks.{TaskRow, key, owns_task, finish, finish_task, fail, fail_task}

module _ (id : ℕ) (worker_id : String) (rows : List TaskRow) where
  -- The row of the id after a write to it.
  written :
      (f : TaskRow → TaskRow)
      → ((t : TaskRow) → (f t).id ≡ t.id)
      → ((t : TaskRow) → owns_task worker_id (f t) ≡ false)
      → (t : TaskRow) → get key id (modify key id f rows) ≡ some t
      → owns_task worker_id t ≡ false
  written f keeps frees t h = elim (Option-cases (get key id rows)) [
    | inl e ↦ absurd (none-ne-some t (ground (arith, h, e, get-modify key id f keeps id rows)))
    | inr (u, e) ↦
        let same : f u ≡ t =
          some_eq _ _ (ground (arith, h, e, get-modify key id f keeps id rows)) in
        subst (λ x. owns_task worker_id x ≡ false) same (frees u)
  ]

  pub finish_task-owns :
      (results rejected : ℕ) (rows' : List TaskRow) (t : TaskRow)
      → finish_task id worker_id results rejected rows ≡ some rows'
      → get key id rows' ≡ some t
      → owns_task worker_id t ≡ false
  unfolding finish_task owns_task
  finish_task-owns results rejected rows' t h g = elim (Option-cases (get key id rows)) [
    | inl e ↦ absurd (none-ne-some rows' (ground (arith, h, e)))
    | inr (u, e) ↦ elim (Bool-cases (owns_task worker_id u)) [
      | inr o ↦ absurd (none-ne-some rows' (rw (finish_task, e, o) at h))
      | inl o ↦
          let same : modify key id (finish results rejected) rows ≡ rows' =
            some_eq _ _ (rw (finish_task, e, o) at h) in
          written (finish results rejected) (λ _. refl) (λ _. refl) t (rw same g)
    ]
  ]

  pub fail_task-owns :
      (error : String) (now : ℕ) (t : TaskRow)
      → get key id (fail_task id worker_id error now rows) ≡ some t
      → owns_task worker_id t ≡ false
  unfolding fail_task owns_task
  fail_task-owns error now t g = elim (Option-cases (get key id rows)) [
    | inl e ↦ absurd (none-ne-some t (rw (fail_task, e, e) at g))
    | inr (u, e) ↦ elim (Bool-cases (owns_task worker_id u)) [
      | inr o ↦
          let same : u ≡ t = some_eq _ _ (rw (fail_task, e, o, e) at g) in
          subst (λ x. owns_task worker_id x ≡ false) same o
      | inl o ↦ written (fail error now) (λ _. refl) (λ _. refl) t (rw (fail_task, e, o) at g)
    ]
  ]
