-- ===== src/Prelude/Lists.antt =====
-- Lists measured by native numbers, selections, least elements and predicates over a list.
use Prim.Native.Nat.{ℕ, zero, suc, ◌+◌, ◌-◌, min}
use mathlib.Core.Path.{◌≡◌, refl, ap, subst, sym}
use mathlib.Core.Bool.{Bool, true, false}
use mathlib.Core.List.{List, [], ◌∷◌, ◌++◌, map}
use mathlib.Core.Option.{Option, none, some, some-ne-none}
use native.Mathlib.Omega.{arith}
use mathlib.Core.Logic.{◌⊎◌, inl, inr}
use agente_inteligente_comer.Prelude.Tests.{if◌then◌else◌, some_eq, Bool-cases}

abbrev pub All {ℓ κ} : {A : Type ℓ} → (A → Type κ) → List A → Type κ
All P [] = Unit
All P (x ∷ xs) = P x × All P xs

abbrev pub Any {ℓ} : {A : Type ℓ} → (A → Type 0) → List A → Type 0
Any P [] = ⊥
Any P (x ∷ xs) = P x ⊎ Any P xs

module _ {ℓ} {A : Type ℓ} where
  abbrev pub length : List A → ℕ
  length [] = 0
  length (x ∷ xs) = suc (length xs)

  abbrev pub take : ℕ → List A → List A
  take zero xs = []
  take (suc n) [] = []
  take (suc n) (x ∷ xs) = x ∷ take n xs

  abbrev pub drop : ℕ → List A → List A
  drop zero xs = xs
  drop (suc n) [] = []
  drop (suc n) (x ∷ xs) = drop n xs

  -- `any(p(x) for x in xs)`.
  unfoldable pub any : (A → Bool) → List A → Bool
  any p [] = false
  any p (x ∷ xs) = let rest = any p xs in if p x then true else rest

  -- The rows for which a condition holds, in order.
  unfoldable pub select : (A → Bool) → List A → List A
  select p [] = []
  select p (x ∷ xs) = let rest = select p xs in if p x then x ∷ rest else rest

  -- `next((x for x in xs if p(x)), None)`.
  unfoldable pub first : (A → Bool) → List A → Option A
  first p [] = none
  first p (x ∷ xs) = let rest = first p xs in if p x then some x else rest

  abbrev pub pick : (A → A → Bool) → A → Option A → A
  pick lte x none = x
  pick lte x (some y) = if lte x y then x else y

  -- `ORDER BY ... LIMIT 1`: the least element, the earlier one where two are level.
  unfoldable pub least : (A → A → Bool) → List A → Option A
  least lte [] = none
  least lte (x ∷ xs) = some (pick lte x (least lte xs))

  unfoldable pub total : (A → ℕ) → List A → ℕ
  total f [] = 0
  total f (x ∷ xs) = f x + total f xs

  pub take-append-drop : (n : ℕ) (xs : List A) → take n xs ++ drop n xs ≡ xs
  take-append-drop zero xs = refl
  take-append-drop (suc n) [] = refl
  take-append-drop (suc n) (x ∷ xs) = ap (◌∷◌ x) (take-append-drop n xs)

  pub length-append : (xs ys : List A) → length (xs ++ ys) ≡ length xs + length ys
  length-append [] ys = omega arith
  length-append (x ∷ xs) ys = omega (arith, length-append xs ys)

  pub length-take : (n : ℕ) (xs : List A) → length (take n xs) ≡ min n (length xs)
  length-take zero xs = omega arith
  length-take (suc n) [] = omega arith
  length-take (suc n) (x ∷ xs) = omega (arith, length-take n xs)

  pub length-drop : (n : ℕ) (xs : List A) → length (drop n xs) ≡ length xs - n
  length-drop zero xs = omega arith
  length-drop (suc n) [] = omega arith
  length-drop (suc n) (x ∷ xs) = omega (arith, length-drop n xs)

  pub total-append : (f : A → ℕ) (xs ys : List A) → total f (xs ++ ys) ≡ total f xs + total f ys
  unfolding total
  total-append f [] ys = omega arith
  total-append f (x ∷ xs) ys = omega (arith, total-append f xs ys)

  -- What `first` returns satisfies its test.
  pub first_holds : (p : A → Bool) (xs : List A) (x : A) → first p xs ≡ some x → p x ≡ true
  unfolding first
  first_holds p [] x h = ground arith
  first_holds p (y ∷ xs) x h = ground (arith, first_holds p xs x)

module _ {ℓ} {A : Type ℓ} where
  -- Only the empty list has no least element.
  pub least-none {κ} :
      (lte : A → A → Bool) (P : A → Type κ) (xs : List A) → least lte xs ≡ none → All P xs
  unfolding least
  least-none lte P [] h = tt
  least-none lte P (x ∷ xs) h = absurd (some-ne-none _ h)

-- A least element is level with or before every element, where the order is total and transitive.
module _ {ℓ} {A : Type ℓ} (lte : A → A → Bool)
    (total_order : (x y : A) → lte x y ≡ false → lte y x ≡ true)
    (transitive : (x y z : A) → lte x y ≡ true → lte y z ≡ true → lte x z ≡ true) where
  reflexive : (x : A) → lte x x ≡ true
  reflexive x = ground (arith, total_order x x)

  All-below :
      (m n : A) (xs : List A)
      → lte m n ≡ true
      → All (λ x. lte n x ≡ true) xs
      → All (λ x. lte m x ≡ true) xs
  All-below m n [] h a = tt
  All-below m n (x ∷ xs) h a = (transitive m n x h a.0, All-below m n xs h a.1)

  pub least_bound : (xs : List A) (m : A) → least lte xs ≡ some m → All (λ x. lte m x ≡ true) xs
  unfolding least
  least_bound [] m h = tt
  least_bound (x ∷ xs) m h = go (least_bound xs) (least lte xs) refl h
    where
      step :
          ((y : A) → least lte xs ≡ some y → All (λ z. lte y z ≡ true) xs)
          → (y : A) → least lte xs ≡ some y
          → (b : Bool) → lte x y ≡ b
          → (if b then x else y) ≡ m
          → All (λ z. lte m z ≡ true) (x ∷ xs)
      step ih y e true b p =
          subst (λ k. All (λ z. lte k z ≡ true) (x ∷ xs)) p
            (reflexive x, All-below x y xs b (ih y e))
      step ih y e false b p =
          subst (λ k. All (λ z. lte k z ≡ true) (x ∷ xs)) p (total_order x y b, ih y e)

      go :
          ((y : A) → least lte xs ≡ some y → All (λ z. lte y z ≡ true) xs)
          → (o : Option A) → least lte xs ≡ o
          → some (pick lte x o) ≡ some m
          → All (λ z. lte m z ≡ true) (x ∷ xs)
      go ih none e p =
          subst (λ k. All (λ z. lte k z ≡ true) (x ∷ xs)) (some_eq _ _ p)
            (reflexive x, least-none lte (λ z. lte x z ≡ true) xs e)
      go ih (some y) e p = step ih y e (lte x y) refl (some_eq _ _ p)

module _ {ℓ} {A : Type ℓ} where
  pub All-unselect {κ} :
      (P : A → Type κ) (p : A → Bool) (xs : List A)
      → All P (select p xs)
      → All (λ x. p x ≡ true → P x) xs
  unfolding select
  All-unselect P p [] a = tt
  All-unselect P p (x ∷ xs) a = elim (Bool-cases (p x)) [
    | inl e ↦ let a' : All P (x ∷ select p xs) = rw e at a in (λ _. a'.0, All-unselect P p xs a'.1)
    | inr e ↦ (λ e'. absurd (ground arith), All-unselect P p xs (rw e at a))
  ]

  pub All-imp {κ μ} :
      (P : A → Type κ) (Q : A → Type μ)
      → ((x : A) → P x → Q x)
      → (xs : List A) → All P xs
      → All Q xs
  All-imp P Q f [] a = tt
  All-imp P Q f (x ∷ xs) a = (f x a.0, All-imp P Q f xs a.1)

  pub All-unmap {κ} :
      {B : Type ℓ} (P : B → Type κ) (f : A → B) (xs : List A)
      → All P (map f xs)
      → All (λ x. P (f x)) xs
  All-unmap P f [] a = tt
  All-unmap P f (x ∷ xs) a = (a.0, All-unmap P f xs a.1)

-- `[y for x in xs for y in f(x)]`.
unfoldable pub each {ℓ κ} : {A : Type ℓ} {B : Type κ} → (A → List B) → List A → List B
each f [] = []
each f (x ∷ xs) = f x ++ each f xs

module _ {A : Type 0} where
  pub All-both {κ μ} :
      (P : A → Type κ) (Q : A → Type μ) (xs : List A)
      → All P xs
      → All Q xs
      → All (λ x. P x × Q x) xs
  All-both P Q [] a b = tt
  All-both P Q (x ∷ xs) a b = ((a.0, b.0), All-both P Q xs a.1 b.1)

  pub Any-imp : (P Q : A → Type 0) → ((x : A) → P x → Q x) → (xs : List A) → Any P xs → Any Q xs
  Any-imp P Q f [] a = a
  Any-imp P Q f (x ∷ xs) (inl p) = inl (f x p)
  Any-imp P Q f (x ∷ xs) (inr a) = inr (Any-imp P Q f xs a)

  -- The least element is one of the list.
  pub least-Any :
      (lte : A → A → Bool) (xs : List A) (m : A) → least lte xs ≡ some m → Any (λ x. x ≡ m) xs
  unfolding least
  least-Any lte [] m h = absurd (some-ne-none _ (sym h))
  least-Any lte (x ∷ xs) m h = go (least-Any lte xs) (least lte xs) refl h
    where
      go :
          ((y : A) → least lte xs ≡ some y → Any (λ z. z ≡ y) xs)
          → (o : Option A) → least lte xs ≡ o
          → some (pick lte x o) ≡ some m
          → Any (λ z. z ≡ m) (x ∷ xs)
      go ih none e p = inl (some_eq _ _ p)
      go ih (some y) e p = elim (Bool-cases (lte x y)) [
        | inl t ↦ inl (ground (arith, p, t))
        | inr t ↦ inr (subst (λ k. Any (λ z. z ≡ k) xs) (ground (arith, p, t)) (ih y e))
      ]
