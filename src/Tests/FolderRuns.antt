-- ===== src/Tests/FolderRuns.antt =====
-- A folder that is replaced, with the replacement stopped twice.
use wanderbound.Prelude.{ℕ, ◌+◌, ◌≡◌, refl, Option, none, some, List, [], ◌∷◌, ◌++◌}
use wanderbound.Folders.{
  Folder, finished, Happening, proceeds, fails, is_killed, runs_again, has_marker,
  replace_folder_once,
}
use wanderbound.Folders.Safety.{Kept, IsNew}
use wanderbound.Folders.Runs.{before, goes, replace_folder_once-Kept, replace_folder_once-finished}

abbrev retain : Option ℕ → ℕ → ℕ
retain none content = content
retain (some previous) content = content + previous

abbrev erode : ℕ → ℕ
erode content = 0

abbrev new_folder : Folder ℕ
new_folder = record { content = 100; marker = none }

abbrev old_folder : Option (Folder ℕ)
old_folder = some (record { content = 7; marker = some "first" })

-- killed when the old folder is set aside, then an exception at the copying of posters
abbrev stops : List Happening
stops = proceeds ∷ proceeds ∷ proceeds ∷ is_killed ∷ proceeds ∷ fails ∷ []

replace_folder_once-Kept_example :
    Kept retain erode "second" 100 old_folder
      (replace_folder_once retain erode "second"
        (before retain erode "second" new_folder old_folder)
        stops).0.source
      (replace_folder_once retain erode "second"
        (before retain erode "second" new_folder old_folder)
        stops).0.target
      (replace_folder_once retain erode "second"
        (before retain erode "second" new_folder old_folder)
        stops).0.backup
unfolding has_marker
replace_folder_once-Kept_example =
    replace_folder_once-Kept retain erode "second" new_folder old_folder stops refl

replace_folder_once-finished_example :
    (after : Folder ℕ) × (replace_folder_once retain erode "second"
        (before retain erode "second" new_folder old_folder)
        (stops ++ runs_again ∷ goes retain erode "second" 7)
      ≡ (record { source = none; target = some after; backup = none }, finished))
    × IsNew retain erode "second" 100 old_folder after
unfolding has_marker
replace_folder_once-finished_example =
    replace_folder_once-finished retain erode "second" new_folder old_folder stops refl
