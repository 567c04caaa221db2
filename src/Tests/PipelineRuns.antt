-- ===== src/Tests/PipelineRuns.antt =====
-- An archive with one known trip and one new one.
use wanderbound.Prelude.{
  ℕ, ◌≡◌, refl, Bool, true, false, ◌||◌, String, none, some, List, [], ◌∷◌, if◌then◌else◌,
}
use wanderbound.Pipeline.{
  step, Key, Row, World, committed, save_reupload, is_reconciled, is_orphan, run_processing,
}
use wanderbound.Pipeline.Saved.{find_row, or_stored, last_written, find-save_reupload}

abbrev key_of : String → String → Key
key_of aid id = record { model = step; uid = 1; aid = aid; id = id }

abbrev row_of : String → String → ℕ → Row
row_of aid id value = record { key = key_of aid id; value = value }

abbrev stored : List Row
stored = row_of "alps" "s1" 10 ∷ row_of "alps" "s2" 11 ∷ row_of "gone" "s3" 12 ∷ []

abbrev built : List Row
built = row_of "alps" "s1" 20 ∷ row_of "bali" "s4" 21 ∷ []

abbrev world : Bool → World
world guard = record {
  uid = 1;
  loads = true;
  cleans = true;
  trips =
      record { aid = "alps"; updates = 0 ∷ []; rows = some (row_of "alps" "s1" 20 ∷ []) }
      ∷ record { aid = "bali"; updates = 0 ∷ 1 ∷ []; rows = some (row_of "bali" "s4" 21 ∷ []) }
      ∷ [];
  existing_albums = "alps" ∷ "gone" ∷ [];
  album_ids = none;
  overlay = λ rows. some rows;
  should_continue = some true;
  save_guard = guard;
  database_breaks = false;
}

run_processing-run : (run_processing (world true) stored).table ≡ built
unfolding run_processing
run_processing-run = refl

reupload-run :
    save_reupload stored 1 built
      ("alps" ∷ [])
      ("alps" ∷ "gone" ∷ [])
      ("alps" ∷ "bali" ∷ [])
      true
      false
    ≡ committed built
unfolding save_reupload
reupload-run = refl

find-save_reupload_example :
    find_row built (key_of "alps" "s2")
    ≡ or_stored (last_written built (key_of "alps" "s2")) (
        if is_reconciled 1 ("alps" ∷ []) (key_of "alps" "s2")
          || is_orphan 1 ("alps" ∷ "gone" ∷ []) ("alps" ∷ "bali" ∷ []) (key_of "alps" "s2")
        then none
        else find_row stored (key_of "alps" "s2"))
find-save_reupload_example =
    find-save_reupload stored 1 built ("alps" ∷ []) ("alps" ∷ "gone" ∷ []) ("alps" ∷ "bali" ∷ [])
      true false built (key_of "alps" "s2") reupload-run
