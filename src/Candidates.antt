-- ===== src/Candidates.antt =====
-- The ids of candidates of `SQLWorkerStore` (app/prospecting/store.py), with
-- `merge_exact_candidate` of app/prospecting/dedup.py. Of a candidate there are the fields that
-- identify it, with its locations: evidence and scores are left out. `none` is an
-- exception.
pub mod Saving
pub mod Rows
pub mod Held
pub mod Queued
pub mod Saved
mod Tests
use Prim.Native.Nat.{Ordering}
use Prim.Native.String.{◌++◌, compare as compare_text}
use agente_inteligente_comer.Prelude.{
  ℕ, suc, ◌+◌, String, Bool, true, false, not, ◌&&◌, ◌||◌, List, [], ◌∷◌, Option, none, some, ◌==◌,
  if◌then◌else◌, str_eq, is_some, or_else, text_or, holds_text, clip, any, first, least, map,
  select,
}
use mathlib.Core.List.{◌++◌ as append}
use agente_inteligente_comer.Contracts.{
  DedupDisposition, unique, exact_match, possible_duplicate, ProspectingRunSnapshot,
}
use agente_inteligente_comer.Dict.{Dict, insert}
use agente_inteligente_comer.Table.{get, modify}
use agente_inteligente_comer.Tasks.{WorkerTask}
use agente_inteligente_comer.Store.{
  RunRow, OutboxRow, OutboxKind, Element, items, candidates_of, run_key,
}
use agente_inteligente_comer.Outbox.{queue_outbox}
use agente_inteligente_comer.Dedup.{
  ProspectLocation, ProspectCandidate, Normalizers, CandidateMatch, exact_key,
  blocking_higher_priority_conflict, match_candidate, first_text,
}

-- `ProspectingCandidateRecord` of app/db/models.py.
pub record CandidateRow : Type 0 where
  pub id : ℕ
  pub run_id : ℕ
  pub candidate_key : String
  pub payload : ProspectCandidate
  pub dedup_disposition : DedupDisposition
  pub possible_duplicate_of : Option ℕ

abbrev pub row_key : CandidateRow → ℕ
row_key r = r.id

-- The digest, the JSON text that `review_candidate_fingerprint` digests, and the JSON of a candidate.
pub record Encodings : Type 0 where
  pub sha256 : String → String
  pub review_payload : ProspectCandidate → String
  pub dump : ProspectCandidate → Element

abbrev pub is_text : Option String → Bool
is_text none = false
is_text (some s) = not (str_eq s "")

-- The update of a field that the canonical candidate lacks.
abbrev pub filled : Option String → Option String → Option String
filled canonical incoming =
    if not (is_text canonical) && is_text incoming then incoming else canonical

-- `canonical | incoming`.
unfoldable pub merged_ids : Dict String → Dict String → Dict String
merged_ids canonical [] = canonical
merged_ids canonical ((provider, value) ∷ incoming) =
    merged_ids (insert provider value canonical) incoming

-- `a == b` of two ids that may be absent.
abbrev pub same_id : Option String → Option String → Bool
same_id none none = true
same_id (some a) b = holds_text b a
same_id none (some b) = false

-- `sorted(...)[0]` of pairs.
abbrev pub pair_before : String × String → String × String → Bool
pair_before (a, b) (c, d) = elim (compare_text a c) [
  | Ordering.lt ↦ true
  | Ordering.gt ↦ false
  | Ordering.eq ↦ elim (compare_text b d) [ Ordering.gt ↦ false | _ ↦ true ]
]

abbrev same_location : String × String × String → String × String × String → Bool
same_location (r, c, a) (r', c', a') = str_eq r r' && str_eq c c' && str_eq a a'

-- app/prospecting/validation.py
unfoldable pub location_is_in_requested_territory : ProspectLocation → ProspectingRunSnapshot → Bool
location_is_in_requested_territory l snapshot =
    (is_text l.region_code && is_text l.comuna_code)
    && any (λ t. holds_text l.region_code t.region_code && holds_text l.comuna_code t.comuna_code)
        snapshot.campaign.territories

module _ (n : Normalizers) (codes : Encodings) where
  abbrev pub location_key : ProspectLocation → String × String × String
  location_key l = (
    n.normalize_geo (first_text l.region_code l.region_name),
    n.normalize_geo (first_text l.comuna_code l.comuna_name),
    or_else (n.normalize_address l.address) "",
  )

  -- `locations[location_key(location)] = location`, and the values of the dictionary.
  unfoldable pub put_location : ProspectLocation → List ProspectLocation → List ProspectLocation
  put_location l [] = l ∷ []
  put_location l (x ∷ xs) =
      let rest = put_location l xs in
      if same_location (location_key x) (location_key l) then l ∷ xs else x ∷ rest

  -- The locations of `found` put after those of `known`, in order.
  unfoldable pub merged_locations :
      List ProspectLocation → List ProspectLocation → List ProspectLocation
  unfolding put_location
  merged_locations known [] = known
  merged_locations known (l ∷ found) = merged_locations (put_location l known) found

  unfoldable pub merge_exact_candidate :
      ProspectCandidate → ProspectCandidate → Option ProspectCandidate
  unfolding merged_ids merged_locations
  merge_exact_candidate canonical incoming = elim (exact_key n canonical incoming) [
    | none ↦ none
    | some key ↦ elim (blocking_higher_priority_conflict n canonical incoming key) [
      | some _ ↦ none
      | none ↦ some (record canonical {
        provider_ids = merged_ids canonical.provider_ids incoming.provider_ids;
        rut = filled canonical.rut incoming.rut;
        phone = filled canonical.phone incoming.phone;
        website = filled canonical.website incoming.website;
        locations = merged_locations (merged_locations [] canonical.locations) incoming.locations;
      })
    ]
  ]

  abbrev comuna : ProspectCandidate → String
  comuna c = n.normalize_geo (first_text c.location.comuna_code c.location.comuna_name)

  abbrev place_identity : ProspectCandidate → String
  place_identity c =
      "name_comuna_address:"
      ++ or_else (n.normalize_name c.name) "None"
      ++ ":"
      ++ comuna c
      ++ ":"
      ++ or_else (n.normalize_address c.location.address) ""

  -- The text that `candidate_fingerprint` digests.
  unfoldable pub identity : ProspectCandidate → String
  identity c =
      if is_text (n.normalize_rut c.rut)
      then "rut:" ++ or_else (n.normalize_rut c.rut) ""
      else elim (least pair_before c.provider_ids) [
        | some (provider, value) ↦ "provider:" ++ provider ++ ":" ++ value
        | none ↦
            if is_text (n.normalize_website c.website)
            then "domain:" ++ or_else (n.normalize_website c.website) ""
            else if is_text (n.normalize_phone c.phone)
            then "phone:" ++ or_else (n.normalize_phone c.phone) ""
            else place_identity c
      ]

  unfoldable pub candidate_fingerprint : ProspectCandidate → String
  unfolding identity
  candidate_fingerprint c = codes.sha256 (identity c)

  unfoldable pub review_candidate_fingerprint : ProspectCandidate → String
  review_candidate_fingerprint c = codes.sha256 ("review:" ++ codes.review_payload c)

  abbrev is_duplicate : DedupDisposition → Bool
  is_duplicate possible_duplicate = true
  is_duplicate _ = false

  unfoldable pub candidate_id_for_match : ProspectCandidate → CandidateMatch → String
  unfolding candidate_fingerprint review_candidate_fingerprint
  candidate_id_for_match c match =
      if is_duplicate match.disposition
      then "prospect_review_" ++ clip 24 (review_candidate_fingerprint c)
      else text_or c.candidate_id ("prospect_" ++ clip 24 (candidate_fingerprint c))

  -- The candidate with these locations, the first of them its own if its own is not in the run.
  abbrev pub with_locations :
      ProspectingRunSnapshot → ProspectCandidate → List ProspectLocation → Option ProspectCandidate
  with_locations snapshot c [] = none
  with_locations snapshot c (l ∷ locations) = some (record c {
    location = if location_is_in_requested_territory c.location snapshot then c.location else l;
    locations = l ∷ locations;
  })

  -- `scope_candidate_locations`: the locations in the run's territories; an error where there is none.
  unfoldable pub scope_candidate :
      ProspectingRunSnapshot → ProspectCandidate → Option ProspectCandidate
  scope_candidate snapshot c =
      with_locations snapshot c
        (select (λ l. location_is_in_requested_territory l snapshot) c.locations)
