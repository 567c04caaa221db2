-- ===== src/Pipeline/Protocol.antt =====
-- What a run of the processing tells, and when it has saved.
use wanderbound.Prelude.{
  ◌≡◌, Bool, true, false, not, ◌⊎◌, String, Option, none, some, List, [], ◌∷◌, ◌++◌, map, filter,
  contains, is_empty, string_eq, if◌then◌else◌,
}
use wanderbound.Pipeline.{
  Row, Save, committed, refused, failed, TripRun, Event, trip_start, update, error_data, World,
  told_error, raise, trips_of, save_new, save_reupload, run_processing,
}

unfoldable pub is_error : Event → Bool
is_error (trip_start index) = false
is_error (update phase) = false
is_error error_data = true

-- the rows of all the trips, unless one of them was not processed
abbrev pub built_rows : List TripRun → Option (List Row)
built_rows [] = some []
built_rows (trip ∷ trips) =
    let rest = built_rows trips in
    elim trip.rows [
      | none ↦ none
      | some rows ↦ elim rest [ none ↦ none | some others ↦ some (rows ++ others) ]
    ]

abbrev pub aids : World → List String
aids world = map (λ (trip : TripRun). trip.aid) world.trips

-- the save of `objects` over the stored albums, of which those in the archive are reconciled
abbrev pub save_all : World → List Row → List Row → Save
save_all world table objects =
    if is_empty world.existing_albums
    then save_new table objects world.save_guard world.database_breaks
    else save_reupload table world.uid objects
        (filter (contains world.existing_albums) (aids world))
        (elim world.album_ids [ none ↦ world.existing_albums | some album_ids ↦ album_ids ])
        (aids world) world.save_guard world.database_breaks

abbrev pub is_committed : Save → Bool
is_committed (committed saved) = true
is_committed refused = false
is_committed failed = false

abbrev pub told : World → List Event
told world = (trips_of world).events

-- the run saved what it built, and then failed at most to remove the metadata
abbrev pub HasSaved : World → List Row → Type 0
HasSaved world table =
    (rows : List Row) × (objects : List Row) × (after : List Row) × (built_rows world.trips
      ≡ some rows)
    × (world.overlay rows ≡ some objects)
    × (world.should_continue ≡ some true)
    × (save_all world table objects ≡ committed after)
    × (run_processing world table
        ≡ record { events = told world; table = after; is_raised = not world.cleans })

-- why a run may tell an error
abbrev pub IsRefused : World → List Row → Type 0
IsRefused world table =
    (built_rows world.trips ≡ none)
    ⊎ ((world.should_continue ≡ some false)
        ⊎ ((rows : List Row) × (objects : List Row) × (built_rows world.trips ≡ some rows)
            × (world.overlay rows ≡ some objects)
            × (is_committed (save_all world table objects) ≡ false)))

-- why a run may end with an exception before it saves
abbrev pub IsBroken : World → Type 0
IsBroken world =
    (rows : List Row) × (built_rows world.trips ≡ some rows)
    × ((world.overlay rows ≡ none) ⊎ (world.should_continue ≡ none))

-- what a run comes to
abbrev Ending : World → List Row → Type 0
Ending world table =
    HasSaved world table
    ⊎ (((run_processing world table ≡ told_error (told world) table) × IsRefused world table)
        ⊎ (((run_processing world table ≡ raise (told world) table) × IsBroken world)
            ⊎ ((run_processing world table ≡ raise [] table) × (world.loads ≡ false))))
