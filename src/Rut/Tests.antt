-- ===== src/Rut/Tests.antt =====
-- The RUT 76.086.428-5.
use agente_inteligente_comer.Prelude.{ℕ, ◌<◌, ◌≡◌, refl, List, [], ◌∷◌, some}
use agente_inteligente_comer.Rut.{
  clean, split_last, all_digits, int_of, digits, str, weighed, check_digit, canonical,
  normalize_rut,
}
use agente_inteligente_comer.Rut.RoundTrip.{normalize_rut_twice}

abbrev dotted : List ℕ
dotted = 55 ∷ 54 ∷ 46 ∷ 48 ∷ 56 ∷ 54 ∷ 46 ∷ 52 ∷ 50 ∷ 56 ∷ 45 ∷ 53 ∷ []

abbrev plain : List ℕ
plain = 55 ∷ 54 ∷ 48 ∷ 56 ∷ 54 ∷ 52 ∷ 50 ∷ 56 ∷ 45 ∷ 53 ∷ []

read_now : normalize_rut (some dotted) ≡ some plain
unfolding normalize_rut clean split_last all_digits int_of check_digit weighed str digits
read_now = refl

normalize_rut_twice_example :
    (normalize_rut (some plain) ≡ some plain)
    × ((number : ℕ) × (0 < number) × (plain ≡ canonical number (check_digit number)))
normalize_rut_twice_example = normalize_rut_twice (some dotted) plain read_now
