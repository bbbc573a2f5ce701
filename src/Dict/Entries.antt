-- ===== src/Dict/Entries.antt =====
-- Predicates on all entries of a dictionary, and its number of entries, after a write.
use agente_inteligente_comer.Prelude.{
  suc, String, ◌≡◌, refl, List, [], ◌∷◌, some, arith, is_some, if◌then◌else◌, str_eq, length, All,
  Bool-cases, inl, inr,
}
use agente_inteligente_comer.Prelude.{subst, some_eq}
use agente_inteligente_comer.Dict.{lookup, insert}

pub length-insert :
    {V : Type 0} (k : String) (v : V) (m : List (String × V))
    → length (insert k v m) ≡ (if is_some (lookup k m) then length m else suc (length m))
unfolding lookup insert
length-insert k v [] = refl
length-insert k v ((j, w) ∷ m) = ground (arith, length-insert k v m)

pub All-insert :
    {V : Type 0} (P : String × V → Type 0) (k : String) (v : V) (m : List (String × V))
    → P (k, v)
    → All P m
    → All P (insert k v m)
unfolding insert
All-insert P k v [] p a = (p, tt)
All-insert P k v ((j, w) ∷ m) p a = elim (Bool-cases (str_eq j k)) [
  | inl e ↦ rw (insert, e) (p, a.1)
  | inr e ↦ rw (insert, e) (a.0, All-insert P k v m p a.1)
]

pub lookup-All :
    {V : Type 0} (P : V → Type 0) (k : String) (v : V) (m : List (String × V))
    → lookup k m ≡ some v
    → All (λ e. P e.1) m
    → P v
unfolding lookup
lookup-All P k v [] h a = absurd (ground arith)
lookup-All P k v ((j, w) ∷ m) h a = elim (Bool-cases (str_eq j k)) [
  | inl e ↦ subst P (some_eq w v (rw (lookup, e) at h)) a.0
  | inr e ↦ lookup-All P k v m (rw (lookup, e) at h) a.1
]
