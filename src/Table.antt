-- ===== src/Table.antt =====
-- A database table as a list of rows with a numeric key: lookups by key, updates, unique keys.
-- A UUID is the 128-bit number that it denotes.
pub mod Laws
pub mod Searches
use agente_inteligente_comer.Prelude.{
  ℕ, ◌≡◌, false, List, [], ◌∷◌, Option, none, some, ◌==◌, if◌then◌else◌, All,
}

module _ {ℓ} {A : Type ℓ} (key : A → ℕ) where
  -- `session.get(Row, id)`.
  unfoldable pub get : ℕ → List A → Option A
  get i [] = none
  get i (r ∷ rs) = let rest = get i rs in if key r == i then some r else rest

  abbrev pub at : ℕ → (A → A) → A → A
  at i f r = if key r == i then f r else r

  -- Assignments to the attributes of one row, written back to its table.
  unfoldable pub modify : ℕ → (A → A) → List A → List A
  modify i f [] = []
  modify i f (r ∷ rs) = at i f r ∷ modify i f rs

  -- Primary keys are unique.
  abbrev pub Fresh : ℕ → List A → Type 0
  Fresh i = All (λ r. (key r == i) ≡ false)

  abbrev pub Unique : List A → Type 0
  Unique [] = Unit
  Unique (r ∷ rs) = Fresh (key r) rs × Unique rs

  abbrev pub KeepsKey : (A → A) → Type ℓ
  KeepsKey f = (r : A) → key (f r) ≡ key r
