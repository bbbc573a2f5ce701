-- ===== src/Rut/RoundTrip.antt =====
-- The canonical form of a RUT is read back as itself.
use mathlib.Core.Option.{none-ne-some}
use agente_inteligente_comer.Prelude.{
  ℕ, zero, suc, ◌+◌, ◌-◌, ◌*◌, ◌/◌, ◌%◌, ◌≤◌, ◌<◌, ◌≡◌, refl, sym, ap, ◌∙◌, true, false, ◌&&◌, ◌||◌,
  List, [], ◌∷◌, ◌++◌, Option, none, some, arith, ltb, ◌==◌, if◌then◌else◌, length, length-append,
  inl, inr, Bool-cases, Option-cases, some_eq,
}
use agente_inteligente_comer.Rut.{
  is_digit, upper, clean, split_last, all_digits, int_of, digits, str, reversed, weighed,
  check_digit, canonical, checked, normalize_rut,
}

clean-append : (xs ys : List ℕ) → clean (xs ++ ys) ≡ clean xs ++ clean ys
unfolding clean
clean-append [] ys = refl
clean-append (c ∷ xs) ys = elim (Bool-cases (is_digit (upper c) || upper c == 75)) [
  | inl e ↦ rw (e, clean-append xs ys) refl
  | inr e ↦ rw (e, clean-append xs ys) refl
]

clean-digits : (xs : List ℕ) → all_digits xs ≡ true → clean xs ≡ xs
unfolding clean all_digits
clean-digits [] h = refl
clean-digits (c ∷ xs) h =
    let d : is_digit c ≡ true = ground (arith, h) in
    let u : upper c ≡ c = ground (arith, d) in rw (u, d, clean-digits xs (ground (arith, h))) refl

split_last-append : (xs : List ℕ) (c : ℕ) → split_last (xs ++ c ∷ []) ≡ some (xs, c)
unfolding split_last
split_last-append [] c = refl
split_last-append (x ∷ xs) c = rw (split_last-append xs c) refl

all_digits-append : (xs ys : List ℕ) → all_digits (xs ++ ys) ≡ (all_digits xs && all_digits ys)
unfolding all_digits
all_digits-append [] ys = refl
all_digits-append (c ∷ xs) ys = ground (arith, all_digits-append xs ys)

int_of-append : (read : ℕ) (xs ys : List ℕ) → int_of read (xs ++ ys) ≡ int_of (int_of read xs) ys
unfolding int_of
int_of-append read [] ys = refl
int_of-append read (c ∷ xs) ys = int_of-append (read * 10 + (c - 48)) xs ys

digit_in : (k : ℕ) → k < 10 → is_digit (48 + k) ≡ true
digit_in k h = ground (arith, h)

digits_last :
    (fuel number : ℕ) → ltb number 10 ≡ true → digits (suc fuel) number ≡ (48 + number) ∷ []
unfolding digits
digits_last fuel number e = rw (digits, e) refl

digits_step :
    (fuel number : ℕ)
    → ltb number 10 ≡ false
    → digits (suc fuel) number ≡ digits fuel (number / 10) ++ (48 + number % 10) ∷ []
unfolding digits
digits_step fuel number e = rw (digits, e) refl

digits-all_digits : (fuel number : ℕ) → all_digits (digits fuel number) ≡ true
unfolding all_digits digits
digits-all_digits zero number = refl
digits-all_digits (suc fuel) number = elim (Bool-cases (ltb number 10)) [
  | inl e ↦ rw (digits_last fuel number e, digit_in number (ground (arith, e))) refl
  | inr e ↦
      rw
        (
          digits_step fuel number e,
          all_digits-append (digits fuel (number / 10)) ((48 + number % 10) ∷ []),
          digits-all_digits fuel (number / 10),
          digit_in (number % 10) (omega arith),
        )
        refl
]

-- With a digit of fuel for each step down, the digits denote the number.
int_of-digits : (fuel number : ℕ) → number < fuel → int_of 0 (digits fuel number) ≡ number
unfolding int_of digits
int_of-digits zero number h = absurd (omega (arith, h))
int_of-digits (suc fuel) number h = elim (Bool-cases (ltb number 10)) [
  | inl e ↦ rw (digits_last fuel number e) (omega arith)
  | inr e ↦
      let big : 10 ≤ number = ground (arith, e) in
      let less : number / 10 < fuel = omega (arith, h, big) in
      rw
        (
          digits_step fuel number e,
          int_of-append 0 (digits fuel (number / 10)) ((48 + number % 10) ∷ []),
          int_of-digits fuel (number / 10) less,
        )
        (omega arith)
]

length-digits : (fuel number : ℕ) → 1 ≤ length (digits (suc fuel) number)
length-digits fuel number = elim (Bool-cases (ltb number 10)) [
  | inl e ↦ rw (digits_last fuel number e) (omega arith)
  | inr e ↦
      rw (digits_step fuel number e)
        (omega (arith, length-append (digits fuel (number / 10)) ((48 + number % 10) ∷ [])))
]

-- A check digit survives the cleaning.
check_digit-clean : (number : ℕ) → clean (45 ∷ check_digit number ∷ []) ≡ check_digit number ∷ []
unfolding clean check_digit
check_digit-clean number = kept (weighed 0 2 (reversed (str number)))
  where
    digit_of : ℕ → ℕ
    digit_of w =
        let remainder = 11 - w % 11 in
        if remainder == 11 then 48 else if remainder == 10 then 75 else 48 + remainder

    kept : (w : ℕ) → clean (45 ∷ digit_of w ∷ []) ≡ digit_of w ∷ []
    kept w = elim (Bool-cases (11 - w % 11 == 11)) [
      | inl e ↦ rw e refl
      | inr e ↦ elim (Bool-cases (11 - w % 11 == 10)) [
        | inl k ↦ rw (e, k) refl
        | inr k ↦
            let d : is_digit (48 + (11 - w % 11)) ≡ true =
              digit_in (11 - w % 11) (ground (arith, e, k)) in
            let u : upper (48 + (11 - w % 11)) ≡ 48 + (11 - w % 11) = ground (arith, d) in
            rw (e, k, u, d) refl
      ]
    ]

-- The canonical form of a positive number, with its check digit.
canonical-normalize_rut :
    (number : ℕ)
    → ltb 0 number ≡ true
    → normalize_rut (some (canonical number (check_digit number)))
      ≡ some (canonical number (check_digit number))
unfolding normalize_rut str
canonical-normalize_rut number positive =
    let front = digits (suc number) number in
    let given = check_digit number in
    let cleaned : clean (canonical number given) ≡ front ++ given ∷ [] =
      clean-append front (45 ∷ given ∷ [])
      ∙ (ap (λ x. x ++ clean (45 ∷ given ∷ []))
            (clean-digits front (digits-all_digits (suc number) number))
          ∙ ap (λ x. front ++ x) (check_digit-clean number)) in
    let long : ltb (length (front ++ given ∷ [])) 2 ≡ false =
      let l = length-append front (given ∷ []) in
      let k = length-digits number number in ground (arith, l, k) in
    let read : int_of 0 front ≡ number = int_of-digits (suc number) number (omega arith) in
    let same : (check_digit number == given) ≡ true = ground arith in
    rw
      (
        normalize_rut,
        cleaned,
        long,
        split_last-append front given,
        digits-all_digits (suc number) number,
        read,
        positive,
        same,
      )
      refl

checked_cases :
    (number given : ℕ) (out : List ℕ)
    → checked number given ≡ some out
    → (ltb 0 number ≡ true) × (out ≡ canonical number (check_digit number))
checked_cases number given out h = elim (Bool-cases (ltb 0 number && check_digit number == given)) [
  | inr e ↦ absurd (none-ne-some out (rw e at h))
  | inl e ↦
      let same : check_digit number ≡ given = ground (arith, e) in
      (ground (arith, e), rw same (sym (some_eq _ _ (rw e at h))))
]

normalize_rut_cases :
    (raw : Option (List ℕ)) (out : List ℕ)
    → normalize_rut raw ≡ some out
    → (number : ℕ) × (ltb 0 number ≡ true) × (out ≡ canonical number (check_digit number))
unfolding normalize_rut
normalize_rut_cases none out h = absurd (none-ne-some out h)
normalize_rut_cases (some raw) out h = elim (Bool-cases (ltb (length (clean raw)) 2)) [
  | inl e ↦ absurd (none-ne-some out (rw (normalize_rut, e) at h))
  | inr e ↦ elim (Option-cases (split_last (clean raw))) [
    | inl k ↦ absurd (none-ne-some out (rw (normalize_rut, e, k) at h))
    | inr (p, k) ↦ elim (Bool-cases (all_digits p.0)) [
      | inr d ↦ absurd (none-ne-some out (rw (normalize_rut, e, k, d) at h))
      | inl d ↦
          let c = checked_cases (int_of 0 p.0) p.1 out (rw (normalize_rut, e, k, d) at h) in
          (int_of 0 p.0, c.0, c.1)
    ]
  ]
]

-- What the normalisation accepts is the canonical form of a positive number with its check digit, and
-- reads back as itself.
pub normalize_rut_twice :
    (raw : Option (List ℕ)) (out : List ℕ)
    → normalize_rut raw ≡ some out
    → (normalize_rut (some out) ≡ some out)
      × ((number : ℕ) × (0 < number) × (out ≡ canonical number (check_digit number)))
normalize_rut_twice raw out h =
    let c = normalize_rut_cases raw out h in
    (rw c.2 (canonical-normalize_rut c.0 c.1), (c.0, ground (arith, c.1), c.2))
