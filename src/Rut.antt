-- ===== src/Rut.antt =====
-- The Chilean RUT (app/normalization/rut.py). A text is a list of code points; of `upper` only the
-- letter k matters, since the cleaning drops every other letter, and a blank text has nothing left.
pub mod RoundTrip
mod Tests
use agente_inteligente_comer.Prelude.{
  ℕ, zero, suc, ◌+◌, ◌-◌, ◌*◌, ◌/◌, ◌%◌, Bool, true, false, not, ◌&&◌, ◌||◌, List, [], ◌∷◌, ◌++◌,
  Option, none, some, ltb, leb, ◌==◌, if◌then◌else◌, length,
}

-- "0" to "9", "K", "k" and "-".
abbrev pub is_digit : ℕ → Bool
is_digit c = leb 48 c && leb c 57

abbrev pub upper : ℕ → ℕ
upper c = if c == 107 then 75 else c

-- `_CLEAN_RE.sub("", raw.upper())`.
pub clean : List ℕ → List ℕ
clean [] = []
clean (c ∷ cs) =
    let rest = clean cs in if is_digit (upper c) || upper c == 75 then upper c ∷ rest else rest

-- `text[:-1]` and `text[-1]`.
pub split_last : List ℕ → Option (List ℕ × ℕ)
split_last [] = none
split_last (x ∷ xs) = elim (split_last xs) [
  | none ↦ some ([], x)
  | some (front, last) ↦ some (x ∷ front, last)
]

-- `number_part.isdigit()` on a cleaned text.
pub all_digits : List ℕ → Bool
all_digits [] = true
all_digits (c ∷ cs) = is_digit c && all_digits cs

-- `int(text)`, after the digits that were read.
pub int_of : ℕ → List ℕ → ℕ
int_of read [] = read
int_of read (c ∷ cs) = int_of (read * 10 + (c - 48)) cs

-- `str(number)`, with as many digits at most.
pub digits : ℕ → ℕ → List ℕ
digits zero number = []
digits (suc fuel) number = elim (ltb number 10) [
  | true ↦ (48 + number) ∷ []
  | false ↦ digits fuel (number / 10) ++ (48 + number % 10) ∷ []
]

pub str : ℕ → List ℕ
unfolding digits
str number = digits (suc number) number

abbrev pub reversed : List ℕ → List ℕ
reversed [] = []
reversed (c ∷ cs) = reversed cs ++ c ∷ []

-- The loop over the digits, from the last one.
pub weighed : ℕ → ℕ → List ℕ → ℕ
weighed total multiplier [] = total
weighed total multiplier (c ∷ cs) =
    weighed (total + (c - 48) * multiplier) (if ltb multiplier 7 then multiplier + 1 else 2) cs

-- `_check_digit`.
pub check_digit : ℕ → ℕ
unfolding weighed str
check_digit number =
    let remainder = 11 - weighed 0 2 (reversed (str number)) % 11 in
    if remainder == 11 then 48 else if remainder == 10 then 75 else 48 + remainder

abbrev pub canonical : ℕ → ℕ → List ℕ
canonical number given = str number ++ 45 ∷ given ∷ []

abbrev pub checked : ℕ → ℕ → Option (List ℕ)
checked number given =
    if ltb 0 number && check_digit number == given then some (canonical number given) else none

pub normalize_rut : Option (List ℕ) → Option (List ℕ)
unfolding clean split_last all_digits int_of check_digit
normalize_rut none = none
normalize_rut (some raw) =
    let cleaned = clean raw in
    if ltb (length cleaned) 2 then none else elim (split_last cleaned) [
      | none ↦ none
      | some (number_part, given) ↦
          if all_digits number_part then checked (int_of 0 number_part) given else none
    ]
