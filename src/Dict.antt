-- ===== src/Dict.antt =====
-- A Python `dict` with text keys, as an association list in insertion order.
pub mod Entries
use text.Mathlib.TextPositions.{eq_refl}
use agente_inteligente_comer.Prelude.{
  String, ◌≡◌, refl, List, [], ◌∷◌, Option, none, some, arith, str_eq, eq_iff, if◌then◌else◌, not,
}

abbrev pub Dict {ℓ} : Type ℓ → Type ℓ
Dict V = List (String × V)

module _ {ℓ} {V : Type ℓ} where
  -- `d.get(k)`.
  unfoldable pub lookup : String → Dict V → Option V
  lookup k [] = none
  lookup k (e ∷ m) = let later = lookup k m in if str_eq e.0 k then some e.1 else later

  -- `d[k] = v`.
  unfoldable pub insert : String → V → Dict V → Dict V
  insert k v [] = (k, v) ∷ []
  insert k v (e ∷ entries) =
      let later = insert k v entries in if not (str_eq e.0 k) then e ∷ later else (k, v) ∷ entries

  -- A key reads what was last written to it, and every other key what it read before.
  pub lookup-insert :
      (written read : String) (value : V) (entries : Dict V)
      → lookup read (insert written value entries)
        ≡ (if str_eq written read then some value else lookup read entries)
  unfolding lookup insert
  lookup-insert written read value [] = refl
  lookup-insert written read value (entry ∷ entries) = ground (
    arith,
    lookup-insert written read value entries,
    eq_iff entry.0 read,
    eq_iff entry.0 written,
    eq_iff written read,
  )

  pub lookup-insert_self :
      (written : String) (value : V) (entries : Dict V)
      → lookup written (insert written value entries) ≡ some value
  lookup-insert_self written value entries = simp (eq_refl, lookup-insert)
