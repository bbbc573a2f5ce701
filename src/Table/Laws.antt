-- ===== src/Table/Laws.antt =====
-- Laws of tables: lookups after updates, and rows found by a condition.
use mathlib.Core.Option
use mathlib.Core.Option.{none-ne-some}
use agente_inteligente_comer.Prelude.{
  ℕ, ◌+◌, ◌≤◌, ◌≡◌, refl, ap, Bool, true, false, List, [], ◌∷◌, ◌++◌, map, none, some, is_some,
  arith, inl, inr, some_eq, subst, Bool-cases, ◌==◌, if◌then◌else◌, All, select, least, total,
}
use agente_inteligente_comer.Table.{get, at, modify, Fresh, Unique, KeepsKey}

module _ {ℓ} {A : Type ℓ} (key : A → ℕ) where
  pub get-map :
      (f : A → A)
      → KeepsKey key f
      → (j : ℕ) (rs : List A) → get key j (map f rs) ≡ Option.map f (get key j rs)
  unfolding get
  get-map f keeps j [] = refl
  get-map f keeps j (r ∷ rs) = ground (arith, keeps r, get-map f keeps j rs)

  pub get-modify :
      (i : ℕ) (f : A → A)
      → KeepsKey key f
      → (j : ℕ) (rs : List A)
      → get key j (modify key i f rs)
        ≡ (if i == j then Option.map f (get key j rs) else get key j rs)
  unfolding get modify
  get-modify i f keeps j [] = ground arith
  get-modify i f keeps j (r ∷ rs) = ground (arith, keeps r, get-modify i f keeps j rs)

  pub get_key : (i : ℕ) (rs : List A) (r : A) → get key i rs ≡ some r → key r ≡ i
  unfolding get
  get_key i [] r h = ground arith
  get_key i (x ∷ rs) r h = ground (arith, get_key i rs r)

  pub get-Fresh : (i : ℕ) (rs : List A) → Fresh key i rs → get key i rs ≡ none
  unfolding get
  get-Fresh i [] h = refl
  get-Fresh i (r ∷ rs) h = ground (arith, get-Fresh i rs)

  pub get_holds {κ} :
      (P : A → Type κ) (i : ℕ) (rs : List A) (r : A) → All P rs → get key i rs ≡ some r → P r
  unfolding get
  get_holds P i [] r a h = absurd (none-ne-some _ h)
  get_holds P i (x ∷ rs) r a h = elim (Bool-cases (key x == i)) [
    | inl e ↦ subst P (some_eq _ _ (rw e at h)) a.0
    | inr e ↦ get_holds P i rs r a.1 (rw e at h)
  ]

  -- A row that a condition selects is the row of its key.
  pub least-select :
      (lte : A → A → Bool) (p : A → Bool) (rs : List A) (r : A)
      → least lte (select p rs) ≡ some r
      → Unique key rs
      → (get key (key r) rs ≡ some r) × (p r ≡ true)
  unfolding get least select
  least-select lte p [] r h u = ground arith
  least-select lte p (x ∷ rs) r h u =
      ground
        (arith, least-select lte p rs r, get_holds (λ z. (key z == key x) ≡ false) (key r) rs r u.0)

  pub Fresh-map :
      (f : A → A) → KeepsKey key f → (i : ℕ) (rs : List A) → Fresh key i rs → Fresh key i (map f rs)
  Fresh-map f keeps i [] h = tt
  Fresh-map f keeps i (r ∷ rs) h = (rw (keeps r) h.0, Fresh-map f keeps i rs h.1)

  pub Unique-map :
      (f : A → A) → KeepsKey key f → (rs : List A) → Unique key rs → Unique key (map f rs)
  Unique-map f keeps [] h = tt
  Unique-map f keeps (r ∷ rs) h =
      (rw (keeps r) (Fresh-map f keeps (key r) rs h.0), Unique-map f keeps rs h.1)

  pub modify-map : (i : ℕ) (f : A → A) (rs : List A) → modify key i f rs ≡ map (at key i f) rs
  unfolding modify
  modify-map i f [] = refl
  modify-map i f (r ∷ rs) = ap (◌∷◌ (at key i f r)) (modify-map i f rs)

  pub at-KeepsKey : (i : ℕ) (f : A → A) → KeepsKey key f → KeepsKey key (at key i f)
  at-KeepsKey i f keeps r = ground (arith, keeps r)

  pub Unique-modify :
      (i : ℕ) (f : A → A)
      → KeepsKey key f
      → (rs : List A) → Unique key rs
      → Unique key (modify key i f rs)
  Unique-modify i f keeps rs h =
      rw (modify-map i f rs) (Unique-map (at key i f) (at-KeepsKey i f keeps) rs h)

  -- A write to an absent key changes nothing.
  pub modify-Fresh : (i : ℕ) (f : A → A) (rs : List A) → Fresh key i rs → modify key i f rs ≡ rs
  unfolding modify
  modify-Fresh i f [] h = refl
  modify-Fresh i f (r ∷ rs) h = rw (h.0, modify-Fresh i f rs h.1)

  -- A sum over the rows changes by what the written row changes.
  pub total-modify :
      (g : A → ℕ) (i : ℕ) (f : A → A) (rs : List A) (r : A)
      → Unique key rs
      → get key i rs ≡ some r
      → total g (modify key i f rs) + g r ≡ total g rs + g (f r)
  unfolding get modify total
  total-modify g i f [] r u h = absurd (none-ne-some _ h)
  total-modify g i f (x ∷ rs) r u h = elim (Bool-cases (key x == i)) [
    | inl e ↦
        let e' : key x ≡ i = ground arith in
        rw (e, modify-Fresh i f rs (rw e' at u.0), some_eq _ _ (rw e at h)) (omega arith)
    | inr e ↦ rw e (omega (arith, total-modify g i f rs r u.1 (rw e at h)))
  ]

  pub total-map-le :
      (g : A → ℕ) (f : A → A)
      → ((r : A) → g (f r) ≤ g r)
      → (rs : List A) → total g (map f rs) ≤ total g rs
  unfolding total
  total-map-le g f h [] = omega arith
  total-map-le g f h (r ∷ rs) = omega (arith, h r, total-map-le g f h rs)

  pub All-map {κ} :
      (P : A → Type κ) (f : A → A)
      → ((r : A) → P r → P (f r))
      → (rs : List A) → All P rs
      → All P (map f rs)
  All-map P f h [] a = tt
  All-map P f h (r ∷ rs) a = (h r a.0, All-map P f h rs a.1)

  -- A property of every row survives the write of one row that keeps it.
  pub All-modify {κ} :
      (P : A → Type κ) (i : ℕ) (f : A → A) (rs : List A) (r : A)
      → Unique key rs
      → All P rs
      → get key i rs ≡ some r
      → P (f r)
      → All P (modify key i f rs)
  unfolding get modify
  All-modify P i f [] r u a h p = tt
  All-modify P i f (x ∷ rs) r u a h p = elim (Bool-cases (key x == i)) [
    | inl e ↦
        let e' : key x ≡ i = ground arith in
        let x' : x ≡ r = some_eq _ _ (rw e at h) in
        rw (e, modify-Fresh i f rs (rw e' at u.0)) (rw x' (p, a.1))
    | inr e ↦ rw e (a.0, All-modify P i f rs r u.1 a.1 (rw e at h) p)
  ]

  pub get-snoc :
      (i : ℕ) (rs : List A) (r : A)
      → get key i (rs ++ r ∷ [])
        ≡ (if is_some (get key i rs) then get key i rs else if key r == i then some r else none)
  unfolding get
  get-snoc i [] r = ground arith
  get-snoc i (x ∷ rs) r = ground (arith, get-snoc i rs r)

  -- A key that no row has.
  pub Fresh-of_none : (i : ℕ) (rs : List A) → get key i rs ≡ none → Fresh key i rs
  unfolding get
  Fresh-of_none i [] h = tt
  Fresh-of_none i (x ∷ rs) h = elim (Bool-cases (key x == i)) [
    | inl e ↦ absurd (none-ne-some x (ground arith))
    | inr e ↦ (e, Fresh-of_none i rs (rw e at h))
  ]

  Fresh-snoc :
      (i : ℕ) (rs : List A) (r : A)
      → Fresh key i rs
      → (key r == i) ≡ false
      → Fresh key i (rs ++ r ∷ [])
  Fresh-snoc i [] r h e = (e, tt)
  Fresh-snoc i (x ∷ rs) r h e = (h.0, Fresh-snoc i rs r h.1 e)

  pub Unique-snoc :
      (rs : List A) (r : A) → Unique key rs → Fresh key (key r) rs → Unique key (rs ++ r ∷ [])
  Unique-snoc [] r u f = (tt, tt)
  Unique-snoc (x ∷ rs) r u f =
      (Fresh-snoc (key x) rs r u.0 (ground (arith, f.0)), Unique-snoc rs r u.1 f.1)

  pub All-snoc {κ} : (P : A → Type κ) (rs : List A) (r : A) → All P rs → P r → All P (rs ++ r ∷ [])
  All-snoc P [] r a p = (p, tt)
  All-snoc P (x ∷ rs) r a p = (a.0, All-snoc P rs r a.1 p)

  pub All-modify_every {κ} :
      (P : A → Type κ) (i : ℕ) (f : A → A)
      → ((r : A) → P r → P (f r))
      → (rs : List A) → All P rs
      → All P (modify key i f rs)
  unfolding modify
  All-modify_every P i f h [] a = tt
  All-modify_every P i f h (x ∷ rs) a = elim (Bool-cases (key x == i)) [
    | inl e ↦ rw e (h x a.0, All-modify_every P i f h rs a.1)
    | inr e ↦ rw e (a.0, All-modify_every P i f h rs a.1)
  ]
