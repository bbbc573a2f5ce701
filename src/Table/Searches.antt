-- ===== src/Table/Searches.antt =====
-- Searches of a table and the write of one of its rows.
use mathlib.Core.Option.{none-ne-some}
use agente_inteligente_comer.Prelude.{
  ℕ, ◌≡◌, refl, Bool, true, false, List, [], ◌∷◌, ◌++◌, some, arith, inl, inr, some_eq, Bool-cases,
  ◌==◌, first, any, select, subst, All,
}
use agente_inteligente_comer.Table.{get, modify, Unique}
use agente_inteligente_comer.Table.Laws.{modify-Fresh}

module _ {ℓ} {A : Type ℓ} (key : A → ℕ) where
  first-Fresh :
      (P : A → Bool) (Q : A → Type 0) (rs : List A) (r : A) → All Q rs → first P rs ≡ some r → Q r
  unfolding first
  first-Fresh P Q [] r a h = absurd (none-ne-some r h)
  first-Fresh P Q (x ∷ rs) r a h = elim (Bool-cases (P x)) [
    | inl e ↦ subst Q (some_eq _ _ (rw e at h)) a.0
    | inr e ↦ first-Fresh P Q rs r a.1 (rw e at h)
  ]

  -- The first row of a condition is the row of its key.
  pub first-get :
      (p : A → Bool) (rs : List A) (r : A)
      → Unique key rs
      → first p rs ≡ some r
      → (get key (key r) rs ≡ some r) × (p r ≡ true)
  unfolding first get
  first-get p [] r u h = absurd (none-ne-some r h)
  first-get p (x ∷ rs) r u h = elim (Bool-cases (p x)) [
    | inl e ↦
        let same : x ≡ r = some_eq _ _ (rw e at h) in
        (ground (arith, same), subst (λ y. p y ≡ true) same e)
    | inr e ↦
        let later = first-get p rs r u.1 (rw e at h) in
        let other = first-Fresh p (λ y. (key y == key x) ≡ false) rs r u.0 (rw e at h) in
        (ground (arith, later.0, other), later.1)
  ]

  module _ (i : ℕ) (f : A → A) where
    pub select-modify :
        (q : A → Bool) (rs : List A) (r : A)
        → Unique key rs
        → get key i rs ≡ some r
        → q r ≡ false
        → q (f r) ≡ false
        → select q (modify key i f rs) ≡ select q rs
    unfolding select get modify
    select-modify q [] r u g a b = refl
    select-modify q (x ∷ rs) r u g a b = elim (Bool-cases (key x == i)) [
      | inl e ↦
          let e' : key x ≡ i = ground arith in
          let x' : x ≡ r = some_eq _ _ (rw e at g) in
          rw (e, modify-Fresh key i f rs (rw e' at u.0), x', a, b) refl
      | inr e ↦ rw (e, select-modify q rs r u.1 (rw e at g) a b) refl
    ]

    pub any-modify :
        (q : A → Bool) (rs : List A) (r : A)
        → Unique key rs
        → get key i rs ≡ some r
        → (q r ≡ true → q (f r) ≡ true)
        → any q rs ≡ true
        → any q (modify key i f rs) ≡ true
    unfolding any get modify
    any-modify q [] r u g k h = h
    any-modify q (x ∷ rs) r u g k h = elim (Bool-cases (key x == i)) [
      | inl e ↦
          let e' : key x ≡ i = ground arith in
          let x' : x ≡ r = some_eq _ _ (rw e at g) in
          rw (e, modify-Fresh key i f rs (rw e' at u.0), x')
            (elim (Bool-cases (q r)) [
              | inl t ↦ rw (k t) refl
              | inr t ↦ ground (arith, rw x' at h, t)
            ])
      | inr e ↦ rw e (ground (arith, h, any-modify q rs r u.1 (rw e at g) k))
    ]

    pub any-modify-get :
        (q : A → Bool) (rs : List A) (r : A)
        → get key i rs ≡ some r
        → q (f r) ≡ true
        → any q (modify key i f rs) ≡ true
    unfolding any get modify
    any-modify-get q [] r g k = absurd (none-ne-some r g)
    any-modify-get q (x ∷ rs) r g k = elim (Bool-cases (key x == i)) [
      | inl e ↦ let x' : x ≡ r = some_eq _ _ (rw e at g) in rw (e, x', k) refl
      | inr e ↦ rw e (ground (arith, any-modify-get q rs r (rw e at g) k))
    ]

  pub select-snoc :
      (q : A → Bool) (rs : List A) (r : A) → q r ≡ false → select q (rs ++ r ∷ []) ≡ select q rs
  unfolding select
  select-snoc q [] r h = rw h refl
  select-snoc q (x ∷ rs) r h = rw (select-snoc q rs r h) refl

  pub any-snoc :
      (q : A → Bool) (rs : List A) (r : A) → any q rs ≡ true → any q (rs ++ r ∷ []) ≡ true
  unfolding any
  any-snoc q [] r h = absurd (ground (arith, h))
  any-snoc q (x ∷ rs) r h = ground (arith, h, any-snoc q rs r)

  pub any-last : (q : A → Bool) (rs : List A) (r : A) → q r ≡ true → any q (rs ++ r ∷ []) ≡ true
  unfolding any
  any-last q [] r h = rw h refl
  any-last q (x ∷ rs) r h = ground (arith, any-last q rs r h)
