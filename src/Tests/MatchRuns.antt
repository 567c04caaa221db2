-- ===== src/Tests/MatchRuns.antt =====
-- A run over two photos, of which one has a stored hash, and one item.
use wanderbound.Prelude.{
  ◌≡◌, refl, String, Bool, true, false, Option, none, some, List, [], ◌∷◌, length,
}
use wanderbound.Matching.{Solver, PickedMediaItem}
use wanderbound.MatchRun.{preparing, match_in_progress, phase_progress, Tasks, run_matching}
use wanderbound.MatchRun.Progress.{length-run_matching, last_told, last_told-phase_progress}

abbrev hash : Option (List Bool)
hash = some (true ∷ false ∷ [])

abbrev persisted : String → Option (List Bool)
persisted name = none

abbrev tasks : Tasks
tasks = record {
  complete = λ names. names;
  persisted = persisted;
  hash_local = λ name. hash;
  hash_candidate = λ id. hash;
}

abbrev solve : Solver
solve photos candidates threshold = some 0 ∷ none ∷ []

abbrev items : List PickedMediaItem
items = record { id = "g"; content = "" } ∷ []

length-run_matching_example : length (run_matching tasks solve 12 ("a" ∷ "b" ∷ []) items none) ≡ 4
length-run_matching_example =
    length-run_matching tasks solve 12 ("a" ∷ "b" ∷ []) items none (λ xs. refl)

last_told-phase_progress_example :
    last_told (phase_progress preparing 2 0 (("a", hash) ∷ ("b", hash) ∷ []))
    ≡ some (match_in_progress preparing 2 2)
last_told-phase_progress_example = last_told-phase_progress preparing ("a", hash) (("b", hash) ∷ [])
