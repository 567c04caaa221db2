-- ===== src/Pipeline.antt =====
-- A run of the processing and the saving of what it built: backend/app/logic/trip_pipeline.py. The
-- rows of the seven tables stand in one list, each with its key and a value for its other columns.
-- What the processing of a trip comes to, the answers of the callbacks, a failure of the database
-- and the overlay of the demo are arguments.
pub mod Protocol
pub mod Saved
use wanderbound.Prelude.{
  ℕ, suc, String, Bool, true, false, not, ◌&&◌, ◌||◌, ◌==◌, string_eq, nat_eq, Option, none, some,
  List, [], ◌∷◌, ◌++◌, map, filter, any, contains, is_empty, if◌then◌else◌,
}

pub data Model : Type 0 where
  album : Model
  album_media : Model
  step : Model
  step_page : Model
  step_page_slot : Model
  step_unused_media : Model
  segment : Model

unfoldable pub model_number : Model → ℕ
model_number album = 0
model_number album_media = 1
model_number step = 2
model_number step_page = 3
model_number step_page_slot = 4
model_number step_unused_media = 5
model_number segment = 6

unfoldable pub is_model : Model → Model → Bool
unfolding model_number
is_model a b = model_number a == model_number b

-- An album is its own `aid`.
pub record Key : Type 0 where
  pub model : Model
  pub uid : ℕ
  pub aid : String
  pub id : String

pub record Row : Type 0 where
  pub key : Key
  pub value : ℕ

unfoldable pub same_key : Key → Key → Bool
unfolding is_model
same_key a b = is_model a.model b.model && a.uid == b.uid && a.aid == b.aid && a.id == b.id

-- the order of the tables when rows are written
abbrev pub models : List Model
models = album ∷ album_media ∷ step ∷ step_page ∷ step_page_slot ∷ step_unused_media ∷ segment ∷ []

unfoldable pub model_rows : Model → List Row → List Row
unfolding is_model
model_rows model rows = filter (λ (row : Row). is_model row.key.model model) rows

-- `session.merge`
unfoldable pub merge_row : List Row → Row → List Row
unfolding same_key
merge_row [] row = row ∷ []
merge_row (stored ∷ table) row =
    let rest = merge_row table row in
    if same_key stored.key row.key then row ∷ table else stored ∷ rest

unfoldable pub merge_rows : List Row → List Row → List Row
unfolding merge_row
merge_rows table [] = table
merge_rows table (row ∷ rows) = merge_rows (merge_row table row) rows

unfoldable pub merge_models : List Model → List Row → List Row → List Row
unfolding merge_rows model_rows
merge_models [] table objects = table
merge_models (model ∷ rest) table objects =
    merge_models rest (merge_rows table (model_rows model objects)) objects

unfoldable pub merge_objects : List Row → List Row → List Row
unfolding merge_models
merge_objects table objects = merge_models models table objects

-- `session.add_all`, which a row that is stored already makes fail
unfoldable pub add_rows : List Row → List Row → Option (List Row)
unfolding same_key
add_rows table [] = some table
add_rows table (row ∷ rows) =
    let rest = add_rows (row ∷ table) rows in
    if any (λ (stored : Row). same_key stored.key row.key) table then none else rest

unfoldable pub add_models : List Model → List Row → List Row → Option (List Row)
unfolding add_rows model_rows
add_models [] table objects = some table
add_models (model ∷ rest) table objects = elim (add_rows table (model_rows model objects)) [
  | none ↦ none
  | some added ↦ add_models rest added objects
]

unfoldable pub add_new_objects : List Row → List Row → Option (List Row)
unfolding add_models
add_new_objects table objects = add_models models table objects

-- how a save ends: committed, refused by its guard, or with an exception of the database
pub data Save : Type 0 where
  committed : List Row → Save
  refused : Save
  failed : Save

unfoldable pub save_new : List Row → List Row → Bool → Bool → Save
unfolding add_new_objects
save_new table objects guard breaks =
    if guard
    then if breaks
      then failed
      else elim (add_new_objects table objects) [ none ↦ failed | some added ↦ committed added ]
    else refused

-- the rows of a reconciled album, but for the album itself
unfoldable pub is_reconciled : ℕ → List String → Key → Bool
unfolding is_model
is_reconciled uid reconciled_aids key =
    key.uid == uid && contains reconciled_aids key.aid && not (is_model key.model album)

-- the rows of an album that is deleted, which go with it
unfoldable pub is_orphan : ℕ → List String → List String → Key → Bool
is_orphan uid expected_aids current_aids key =
    key.uid == uid && contains expected_aids key.aid && not (contains current_aids key.aid)

unfoldable pub save_reupload :
    List Row → ℕ → List Row → List String → List String → List String → Bool → Bool → Save
unfolding is_reconciled is_orphan merge_objects
save_reupload table uid objects reconciled_aids expected_aids current_aids guard breaks =
    if guard
    then if breaks
      then failed
      else committed (
          merge_objects
            (filter (λ (row : Row). not (is_orphan uid expected_aids current_aids row.key))
              (filter (λ (row : Row). not (is_reconciled uid reconciled_aids row.key)) table))
            objects)
    else refused

-- the updates of a trip, and its rows, which an exception keeps back
pub record TripRun : Type 0 where
  pub aid : String
  pub updates : List ℕ
  pub rows : Option (List Row)

pub data Event : Type 0 where
  trip_start : ℕ → Event
  update : ℕ → Event
  error_data : Event

pub record Processed : Type 0 where
  pub events : List Event
  pub all_objects : List Row
  pub reconciled_aids : List String
  pub is_whole : Bool

-- The trips are processed in turn, and one that fails is the last.
unfoldable pub process_trips : List String → ℕ → List TripRun → Processed
process_trips existing_albums index [] = record {
  events = [];
  all_objects = [];
  reconciled_aids = [];
  is_whole = true;
}
process_trips existing_albums index (trip ∷ trips) =
    let rest = process_trips existing_albums (suc index) trips in
    elim trip.rows [
      | none ↦ record {
        events = trip_start index ∷ map update trip.updates;
        all_objects = [];
        reconciled_aids = [];
        is_whole = false;
      }
      | some rows ↦ record {
        events = trip_start index ∷ map update trip.updates ++ rest.events;
        all_objects = rows ++ rest.all_objects;
        reconciled_aids =
            if contains existing_albums trip.aid
            then trip.aid ∷ rest.reconciled_aids
            else rest.reconciled_aids;
        is_whole = rest.is_whole;
      }
    ]

-- What the parts of a run come to: whether the stored rows can be loaded, what the overlay of the
-- demo makes of the rows and whether the run should still continue, each `none` where it raises, and
-- whether the metadata can be removed at the end. Any exception within the save is one of the
-- database.
pub record World : Type 0 where
  pub uid : ℕ
  pub loads : Bool
  pub trips : List TripRun
  pub existing_albums : List String
  pub album_ids : Option (List String)
  pub overlay : List Row → Option (List Row)
  pub should_continue : Option Bool
  pub save_guard : Bool
  pub database_breaks : Bool
  pub cleans : Bool

unfoldable pub trips_of : World → Processed
unfolding process_trips
trips_of world = process_trips world.existing_albums 0 world.trips

unfoldable pub save : World → List Row → List Row → Save
unfolding save_new save_reupload trips_of
save world table objects =
    if is_empty world.existing_albums
    then save_new table objects world.save_guard world.database_breaks
    else save_reupload table world.uid objects (trips_of world).reconciled_aids
        (elim world.album_ids [ none ↦ world.existing_albums | some album_ids ↦ album_ids ])
        (map (λ (trip : TripRun). trip.aid) world.trips) world.save_guard world.database_breaks

-- the events that a run told, the tables that it left, and whether it ended with an exception
pub record ProcessingRun : Type 0 where
  pub events : List Event
  pub table : List Row
  pub is_raised : Bool

abbrev pub told_error : List Event → List Row → ProcessingRun
told_error events table = record {
  events = events ++ error_data ∷ [];
  table = table;
  is_raised = false;
}

abbrev pub raise : List Event → List Row → ProcessingRun
raise events table = record { events = events; table = table; is_raised = true }

-- The metadata are removed after the commit.
unfoldable pub report : List Event → List Row → Bool → Save → ProcessingRun
report events table cleans (committed saved) = record {
  events = events;
  table = saved;
  is_raised = not cleans;
}
report events table cleans refused = told_error events table
report events table cleans failed = told_error events table

unfoldable pub save_processed : World → List Row → ProcessingRun
unfolding trips_of save report
save_processed world table =
    let processed = trips_of world in
    elim (world.overlay processed.all_objects) [
      | none ↦ raise processed.events table
      | some objects ↦ elim world.should_continue [
        | none ↦ raise processed.events table
        | some continues ↦
            if continues
            then report processed.events table world.cleans (save world table objects)
            else told_error processed.events table
      ]
    ]

unfoldable pub run_processing : World → List Row → ProcessingRun
unfolding trips_of save_processed
run_processing world table =
    let processed = trips_of world in
    if not world.loads
    then raise [] table
    else if processed.is_whole
    then save_processed world table
    else told_error processed.events table
