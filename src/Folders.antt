-- ===== src/Folders.antt =====
-- How the folder of a trip is replaced by the uploaded one: `replace_folder_once` of
-- backend/app/logic/uploads/finalize.py, as the machine of its changes to the disk, so that it can
-- be stopped between any two of them, and in the middle of a removal. The folders have some type of
-- contents. What `_retain_video_posters` copies into the source, and what a removal that is stopped
-- leaves, are arguments, about which nothing is assumed. Source and target are two folders.
pub mod Safety
pub mod Runs
use wanderbound.Prelude.{
  String, Bool, true, false, ◌==◌, string_eq, Option, none, some, List, [], ◌∷◌, if◌then◌else◌,
}

-- the marker is the text of the file `.wanderbound-upload-id`
pub record Folder (A : Type 0) : Type 0 where
  pub content : A
  pub marker : Option String

pub record Disk (A : Type 0) : Type 0 where
  pub source : Option (Folder A)
  pub target : Option (Folder A)
  pub backup : Option (Folder A)

-- what is done next
pub data Place : Type 0 where
  start : Place
  drop_source : Place
  drop_backup : Place
  set_aside : Place
  retain_posters : Place
  mark : Place
  move : Place
  clean : Place
  finished : Place
  raised : Place

-- what happens: the next change is made, an exception stops it, or the program is killed. After an
-- exception or a kill, the step is run again.
pub data Happening : Type 0 where
  proceeds : Happening
  fails : Happening
  is_killed : Happening
  runs_again : Happening

module _ {A : Type 0} where
  unfoldable pub has_marker : String → Option (Folder A) → Bool
  has_marker name none = false
  has_marker name (some folder) = elim folder.marker [ none ↦ false | some text ↦ text == name ]

  -- `if backup.exists() and not target.exists(): backup.rename(target)`
  unfoldable pub restore : Disk A → Disk A
  restore disk = elim disk.backup [
    | none ↦ disk
    | some old ↦ elim disk.target [
      | none ↦ record disk { target = some old; backup = none }
      | some present ↦ disk
    ]
  ]

module _ {A : Type 0} (retain : Option A → A → A) (erode : A → A) (name : String) where
  unfoldable pub begin : Disk A → Disk A × Place
  unfolding has_marker restore
  begin disk = if has_marker name disk.target then (disk, drop_source) else elim disk.source [
    | none ↦ (restore disk, raised)
    | some folder ↦ elim disk.target [
      | none ↦ (disk, retain_posters)
      | some present ↦ (disk, drop_backup)
    ]
  ]

  unfoldable pub content_of : Option (Folder A) → Option A
  content_of none = none
  content_of (some folder) = some folder.content

  -- the renaming of the source, which needs a free place
  unfoldable pub move_source : Disk A → Option (Folder A) → Option (Folder A) → Disk A × Place
  move_source disk (some folder) none = (record disk { target = some folder; source = none }, clean)
  move_source disk (some folder) (some present) = (disk, raised)
  move_source disk none target = (disk, raised)

  unfoldable pub change_source : Disk A → (Folder A → Folder A) → Place → Disk A × Place
  change_source disk change next = elim disk.source [
    | none ↦ (disk, raised)
    | some folder ↦ (record disk { source = some (change folder) }, next)
  ]

  unfoldable pub advance : Disk A → Place → Disk A × Place
  unfolding begin content_of move_source change_source
  advance disk start = begin disk
  advance disk drop_source = (record disk { source = none }, clean)
  advance disk drop_backup = (record disk { backup = none }, set_aside)
  advance disk set_aside = (record disk { backup = disk.target; target = none }, retain_posters)
  advance disk retain_posters =
      change_source disk
        (λ folder. record folder { content = retain (content_of disk.backup) folder.content }) mark
  advance disk mark = change_source disk (λ folder. record folder { marker = some name }) move
  advance disk move = move_source disk disk.source disk.target
  advance disk clean = (record disk { backup = none }, finished)
  advance disk finished = (disk, finished)
  advance disk raised = (disk, raised)

  unfoldable pub erode_folder : Option (Folder A) → Option (Folder A)
  erode_folder none = none
  erode_folder (some folder) = some (record folder { content = erode folder.content })

  -- the disk when a change is stopped in its middle: a removal has begun, and so has the copying
  unfoldable pub interrupt : Disk A → Place → Disk A
  unfolding erode_folder change_source content_of
  interrupt disk start = disk
  interrupt disk drop_source = record disk { source = erode_folder disk.source }
  interrupt disk drop_backup = record disk { backup = erode_folder disk.backup }
  interrupt disk set_aside = disk
  interrupt disk retain_posters =
      (change_source disk
        (λ folder. record folder { content = retain (content_of disk.backup) folder.content })
        mark).0
  interrupt disk mark = disk
  interrupt disk move = disk
  interrupt disk clean = record disk { backup = erode_folder disk.backup }
  interrupt disk finished = disk
  interrupt disk raised = disk

  -- the `except` clause stands around the last changes of the source
  unfoldable pub recover : Disk A → Place → Disk A
  unfolding restore
  recover disk start = disk
  recover disk drop_source = disk
  recover disk drop_backup = disk
  recover disk set_aside = disk
  recover disk retain_posters = restore disk
  recover disk mark = restore disk
  recover disk move = restore disk
  recover disk clean = disk
  recover disk finished = disk
  recover disk raised = disk

  unfoldable pub happen : Disk A × Place → Happening → Disk A × Place
  unfolding advance interrupt recover
  happen (disk, place) proceeds = advance disk place
  happen (disk, place) fails = (recover (interrupt disk place) place, raised)
  happen (disk, place) is_killed = (interrupt disk place, start)
  happen (disk, place) runs_again = (disk, start)

  unfoldable pub replace_folder_once : Disk A × Place → List Happening → Disk A × Place
  unfolding happen
  replace_folder_once state [] = state
  replace_folder_once state (happening ∷ happenings) =
      replace_folder_once (happen state happening) happenings
