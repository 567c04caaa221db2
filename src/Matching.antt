-- ===== src/Matching.antt =====
-- How local photos are matched to originals:
-- backend/app/logic/media_upgrade/phash_matching.py. A hash is a list of bits. The bipartite matching
-- of the library is an argument: it is given the table of weights and answers, for each photo, a
-- column of a candidate or the photo's own column of the added ones, here `none`.
pub mod Optimal
use wanderbound.Prelude.{
  ℕ, ◌+◌, ◌*◌, String, Bool, true, false, not, ◌&&◌, ◌||◌, ◌==◌, string_eq, nat_eq, Option, none,
  some, List, [], ◌∷◌, length, get_elem?, contains, is_empty, leb, if◌then◌else◌,
}

pub record HashedMedia : Type 0 where
  pub key : String
  pub hash : List Bool

pub record MatchResult : Type 0 where
  pub local_name : String
  pub google_id : String
  pub distance : ℕ

unfoldable pub differs : Bool → Bool → ℕ
differs true true = 0
differs true false = 1
differs false true = 1
differs false false = 0

-- the number of bits in which two hashes of one length differ
unfoldable pub hamming : List Bool → List Bool → ℕ
unfolding differs
hamming [] bs = 0
hamming (a ∷ rest) [] = 0
hamming (a ∷ rest) (b ∷ bs) = differs a b + hamming rest bs

-- the table of costs: a distance for each photo and each column
unfoldable pub cost : List HashedMedia → HashedMedia → ℕ → Option ℕ
unfolding hamming
cost candidates photo column = elim (get_elem? candidates column) [
  | none ↦ none
  | some candidate ↦ some (hamming photo.hash candidate.hash)
]

unfoldable pub unmatched_cost : List HashedMedia → ℕ → ℕ
unmatched_cost photos threshold = length photos * threshold + 1

-- the weights of the columns that the photos are given; a pair that is too far apart has no weight
unfoldable pub weight_of : ℕ → Option ℕ → Option ℕ
weight_of threshold none = none
weight_of threshold (some distance) = if leb distance threshold then some (distance + 1) else none

unfoldable pub add_weight : Option ℕ → Option ℕ → Option ℕ
add_weight none total = none
add_weight (some weight) none = none
add_weight (some weight) (some total) = some (weight + total)

module _ (candidates : List HashedMedia) (threshold : ℕ) where
  -- the weight of an assignment, `none` when it is not one of the table's
  unfoldable pub weight : ℕ → List HashedMedia → List (Option ℕ) → Option ℕ
  unfolding cost weight_of add_weight
  weight unmatched [] [] = some 0
  weight unmatched [] (column ∷ columns) = none
  weight unmatched (photo ∷ photos) [] = none
  weight unmatched (photo ∷ photos) (none ∷ columns) =
      add_weight (some (unmatched + 1)) (weight unmatched photos columns)
  weight unmatched (photo ∷ photos) (some column ∷ columns) =
      add_weight (weight_of threshold (cost candidates photo column))
        (weight unmatched photos columns)

  -- no candidate is given twice
  unfoldable pub is_injective : List ℕ → List (Option ℕ) → Bool
  is_injective taken [] = true
  is_injective taken (none ∷ columns) = is_injective taken columns
  is_injective taken (some column ∷ columns) =
      not (contains taken column) && is_injective (column ∷ taken) columns

  unfoldable pub matches : List HashedMedia → List (Option ℕ) → List MatchResult
  unfolding hamming
  matches [] columns = []
  matches (photo ∷ photos) [] = []
  matches (photo ∷ photos) (none ∷ columns) = matches photos columns
  matches (photo ∷ photos) (some column ∷ columns) =
      let rest = matches photos columns in
      elim (get_elem? candidates column) [
        | none ↦ rest
        | some candidate ↦
            record {
              local_name = photo.key;
              google_id = candidate.key;
              distance = hamming photo.hash candidate.hash;
            }
            ∷ rest
      ]

-- `min_weight_full_bipartite_matching` on the table of the photos, the candidates and the threshold
abbrev pub Solver : Type 0
Solver = List HashedMedia → List HashedMedia → ℕ → List (Option ℕ)

unfoldable pub match_media_globally :
    Solver → List HashedMedia → List HashedMedia → ℕ → List MatchResult
unfolding matches
match_media_globally solve photos candidates threshold =
    if is_empty photos || is_empty candidates
    then []
    else matches candidates threshold photos (solve photos candidates threshold)

-- Items with an id that was met before take the place of the first.
pub record PickedMediaItem : Type 0 where
  pub id : String
  pub content : String

unfoldable pub put_item : List PickedMediaItem → PickedMediaItem → List PickedMediaItem
put_item [] item = item ∷ []
put_item (known ∷ items) item =
    let rest = put_item items item in if known.id == item.id then item ∷ items else known ∷ rest

unfoldable pub put_items : List PickedMediaItem → List PickedMediaItem → List PickedMediaItem
unfolding put_item
put_items known [] = known
put_items known (item ∷ items) = put_items (put_item known item) items

unfoldable pub deduplicate_items : List PickedMediaItem → List PickedMediaItem
unfolding put_items
deduplicate_items items = put_items [] items
