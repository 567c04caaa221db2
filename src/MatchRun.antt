-- ===== src/MatchRun.antt =====
-- The events of a matching run: `run_matching` of backend/app/logic/media_upgrade/matching.py. The
-- hashes of photos and of candidates, the order in which their tasks complete, and the matching of
-- the library are arguments; the diagnostics are left out.
pub mod Checkpoints
pub mod Progress
use wanderbound.Prelude.{
  ℕ, zero, suc, ◌+◌, ◌-◌, ◌*◌, ◌/◌, String, Bool, true, false, not, ◌==◌, string_eq, nat_eq, Option,
  none, some, List, [], ◌∷◌, ◌++◌, map, filter, flatten, contains, set_union, length, leb,
  if◌then◌else◌,
}
use wanderbound.Matching.{
  HashedMedia, MatchResult, Solver, match_media_globally, PickedMediaItem, deduplicate_items,
}

pub data MatchPhase : Type 0 where
  preparing matching : MatchPhase

-- the matches, each with whether its photo is upgraded already
pub data UpgradeEvent : Type 0 where
  match_in_progress : MatchPhase → ℕ → ℕ → UpgradeEvent
  match_completed : ℕ → ℕ → ℕ → List (MatchResult × Bool) → UpgradeEvent

abbrev pub max_match_progress_updates : ℕ
max_match_progress_updates = 100

unfoldable pub is_progress_checkpoint : ℕ → ℕ → Bool
is_progress_checkpoint done total =
    if leb total max_match_progress_updates
    then true
    else not (
        done * max_match_progress_updates / total
        == (done - 1) * max_match_progress_updates / total)

abbrev pub Hashed : Type 0
Hashed = String × Option (List Bool)

-- the events of a phase, from the number of those that are done on
unfoldable pub phase_progress : MatchPhase → ℕ → ℕ → List Hashed → List UpgradeEvent
unfolding is_progress_checkpoint
phase_progress phase total done [] = []
phase_progress phase total done (item ∷ items) =
    let rest = phase_progress phase total (done + 1) items in
    if is_progress_checkpoint (done + 1) total
    then match_in_progress phase (done + 1) total ∷ rest
    else rest

-- the entry of a dict that takes the hashes that are not `none`
unfoldable pub hash_of : List Hashed → String → Option (List Bool)
hash_of [] key = none
hash_of (item ∷ items) key = elim (hash_of items key) [
  | some later ↦ some later
  | none ↦ if item.0 == key then item.1 else none
]

unfoldable pub hashed_media : List Hashed → List String → List HashedMedia
unfolding hash_of
hashed_media hashes [] = []
hashed_media hashes (key ∷ keys) =
    let rest = hashed_media hashes keys in
    elim (hash_of hashes key) [ none ↦ rest | some hash ↦ record { key = key; hash = hash } ∷ rest ]

-- what is outside the run: the completion of tasks gives each of them once, in any order
pub record Tasks : Type 0 where
  pub complete : List String → List String
  pub persisted : String → Option (List Bool)
  pub hash_local : String → Option (List Bool)
  pub hash_candidate : String → Option (List Bool)

unfoldable pub is_persisted : Tasks → String → Bool
is_persisted tasks name = elim (tasks.persisted name) [ none ↦ false | some hash ↦ true ]

-- the stored hashes first, then the others as they complete
unfoldable pub hash_local_media : Tasks → List String → List Hashed
unfolding is_persisted
hash_local_media tasks names =
    map (λ name. (name, tasks.persisted name)) (filter (is_persisted tasks) names)
    ++ map (λ name. (name, tasks.hash_local name))
        (tasks.complete (filter (λ name. not (is_persisted tasks name)) names))

unfoldable pub hash_candidate_media : Tasks → List String → List Hashed
hash_candidate_media tasks ids = map (λ id. (id, tasks.hash_candidate id)) (tasks.complete ids)

-- `dict.fromkeys`: each key where it stands first
unfoldable pub from_keys : List String → List String → List String
from_keys seen [] = []
from_keys seen (key ∷ keys) =
    let later = from_keys (key ∷ seen) keys in
    let known = from_keys seen keys in if contains seen key then known else key ∷ later

unfoldable pub media_names : (String → Bool) → (ℕ → List String) → List ℕ → List String
unfolding from_keys
media_names is_video media_by_step step_ids =
    from_keys [] (filter (λ name. not (is_video name)) (flatten (map media_by_step step_ids)))

unfoldable pub with_upgraded : Option (List String) → MatchResult → MatchResult × Bool
with_upgraded none match = (match, false)
with_upgraded (some upgrade_candidates) match =
    (match, not (contains upgrade_candidates match.local_name))

unfoldable pub run_matching :
    Tasks
    → Solver
    → ℕ
    → List String
    → List PickedMediaItem
    → Option (List String)
    → List UpgradeEvent
unfolding hash_local_media hash_candidate_media phase_progress hashed_media match_media_globally
    with_upgraded
run_matching tasks solve threshold names unique_items upgrade_candidates =
    let ids = map (λ (item : PickedMediaItem). item.id) unique_items in
    let local_hashes = hash_local_media tasks names in
    let candidate_hashes = hash_candidate_media tasks ids in
    let matches =
      match_media_globally solve (hashed_media local_hashes names)
        (hashed_media candidate_hashes ids) threshold in
    phase_progress preparing (length names) 0 local_hashes
    ++ phase_progress matching (length ids) 0 candidate_hashes
    ++ match_completed (length ids) (length matches) (length ids - length matches)
        (map (with_upgraded upgrade_candidates) matches)
      ∷ []

-- the names and the items of a run
unfoldable pub run_matching_for :
    Tasks
    → Solver
    → ℕ
    → (String → Bool)
    → (ℕ → List String)
    → List ℕ
    → (PickedMediaItem → Bool)
    → List PickedMediaItem
    → Option (List String)
    → List UpgradeEvent
unfolding media_names deduplicate_items run_matching
run_matching_for tasks solve threshold is_video media_by_step step_ids is_photo google_items
      upgrade_candidates =
    run_matching tasks solve threshold (media_names is_video media_by_step step_ids)
      (deduplicate_items (filter is_photo google_items)) upgrade_candidates
