-- ===== src/Folders/Safety.antt =====
-- What holds of the folders wherever the replacement of one is stopped, and that it gets through
-- when it is not.
use wanderbound.Prelude.{
  String, true, false, string_eq, eq_refl, ◌≡◌, refl, sym, subst, ◌⊎◌, inl, inr, Option, none, some,
  List, [], ◌∷◌,
}
use wanderbound.Folders.{
  Folder, Disk, Place, start, drop_source, drop_backup, set_aside, retain_posters, mark, move,
  clean, finished, raised, Happening, proceeds, fails, is_killed, runs_again, has_marker, restore,
  begin, content_of, move_source, change_source, advance, erode_folder, interrupt, recover, happen,
  replace_folder_once,
}

-- the uploaded contents, with whatever posters are copied to them
pub data From {A : Type 0} (retain : Option A → A → A) (new : A) : A → Type 0 where
  uploaded : From retain new new
  with_posters :
      (previous : Option A) (content : A)
      → From retain new content
      → From retain new (retain previous content)

module _ {A : Type 0} (retain : Option A → A → A) (erode : A → A) (name : String) (new : A)
    (old : Option (Folder A)) where
  abbrev pub IsNew : Folder A → Type 0
  IsNew folder = From retain new folder.content × (folder.marker ≡ some name)

  abbrev pub Replaced : Option (Folder A) → Type 0
  Replaced none = ⊥
  Replaced (some folder) = IsNew folder

  -- between two runs, by source, target and backup: the upload is in the source, and the folder that
  -- is replaced in the target or set aside; or the upload is in the target
  abbrev pub Kept : Option (Folder A) → Option (Folder A) → Option (Folder A) → Type 0
  Kept none target backup = Replaced target
  Kept (some folder) none backup = From retain new folder.content × (backup ≡ old)
  Kept (some folder) (some present) backup =
      (From retain new folder.content × (old ≡ some present)) ⊎ IsNew present

  abbrev InPlace : Option (Folder A) → Option (Folder A) → Type 0
  InPlace none target = ⊥
  InPlace (some folder) none = ⊥
  InPlace (some folder) (some present) = From retain new folder.content × (old ≡ some present)

  abbrev Aside : Option (Folder A) → Option (Folder A) → Option (Folder A) → Type 0
  Aside none target backup = ⊥
  Aside (some folder) none backup = From retain new folder.content × (backup ≡ old)
  Aside (some folder) (some present) backup = ⊥

  abbrev Marked : Option (Folder A) → Type 0
  Marked none = ⊥
  Marked (some folder) = folder.marker ≡ some name

  -- what holds where the program is, while it runs
  abbrev pub At : Option (Folder A) → Option (Folder A) → Option (Folder A) → Place → Type 0
  At source target backup start = Kept source target backup
  At source target backup raised = Kept source target backup
  At source target backup drop_source = Replaced target
  At source target backup drop_backup = InPlace source target
  At source target backup set_aside = InPlace source target
  At source target backup retain_posters = Aside source target backup
  At source target backup mark = Aside source target backup
  At source target backup move = Aside source target backup × Marked source
  At source target backup clean = (source ≡ none) × Replaced target
  At source target backup finished = (source ≡ none) × (backup ≡ none) × Replaced target

  abbrev pub Holds : Disk A × Place → Type 0
  Holds (disk, place) = At disk.source disk.target disk.backup place

  Kept-of_Replaced :
      (source target backup : Option (Folder A)) → Replaced target → Kept source target backup
  Kept-of_Replaced none target backup h = h
  Kept-of_Replaced (some folder) none backup h = absurd h
  Kept-of_Replaced (some folder) (some present) backup h = inr h

  Kept-of_InPlace :
      (source target backup : Option (Folder A)) → InPlace source target → Kept source target backup
  Kept-of_InPlace none target backup h = absurd h
  Kept-of_InPlace (some folder) none backup h = absurd h
  Kept-of_InPlace (some folder) (some present) backup h = inl h

  Kept-of_Aside :
      (source target backup : Option (Folder A))
      → Aside source target backup
      → Kept source target backup
  Kept-of_Aside none target backup h = absurd h
  Kept-of_Aside (some folder) none backup h = h
  Kept-of_Aside (some folder) (some present) backup h = absurd h

  pub Kept-of_At :
      (source target backup : Option (Folder A)) (place : Place)
      → At source target backup place
      → Kept source target backup
  Kept-of_At source target backup start h = h
  Kept-of_At source target backup raised h = h
  Kept-of_At source target backup drop_source h = Kept-of_Replaced source target backup h
  Kept-of_At source target backup drop_backup h = Kept-of_InPlace source target backup h
  Kept-of_At source target backup set_aside h = Kept-of_InPlace source target backup h
  Kept-of_At source target backup retain_posters h = Kept-of_Aside source target backup h
  Kept-of_At source target backup mark h = Kept-of_Aside source target backup h
  Kept-of_At source target backup move h = Kept-of_Aside source target backup h.0
  Kept-of_At source target backup clean h = Kept-of_Replaced source target backup h.1
  Kept-of_At source target backup finished h = Kept-of_Replaced source target backup h.2

  -- the folder that is replaced has not got the marker of this upload
  module _ (unmarked : has_marker name old ≡ false) where
    pub marked :
        (folder : Folder A) → folder.marker ≡ some name → has_marker name (some folder) ≡ true
    unfolding has_marker
    marked folder h = rw (has_marker, h) (eq_refl name)

    restore-Kept :
        (source target backup : Option (Folder A))
        → Kept source target backup
        → Holds (restore (record { source = source; target = target; backup = backup }), raised)
    unfolding restore
    restore-Kept source target none h = h
    restore-Kept source (some present) (some folder) h = h
    restore-Kept none none (some folder) h = absurd h
    restore-Kept (some folder) none (some aside) h = inl (h.0, sym h.1)

    begin-Holds :
        (source target backup : Option (Folder A))
        → Kept source target backup
        → Holds
            (begin retain erode name (record { source = source; target = target; backup = backup }))
    unfolding begin
    begin-Holds none none backup h = absurd h
    begin-Holds none (some present) backup h = rw (begin, marked present h.1) h
    begin-Holds (some folder) none backup h = h
    begin-Holds (some folder) (some present) backup (inl h) =
        rw (begin, subst (λ f. has_marker name f ≡ false) h.1 unmarked) h
    begin-Holds (some folder) (some present) backup (inr h) = rw (begin, marked present h.1) h

    advance-Holds :
        (source target backup : Option (Folder A)) (place : Place)
        → At source target backup place
        → Holds (
            advance retain erode name
              (record { source = source; target = target; backup = backup })
              place)
    unfolding advance change_source move_source
    advance-Holds source target backup start h = begin-Holds source target backup h
    advance-Holds source target backup raised h = h
    advance-Holds source target backup drop_source h = (refl, h)
    advance-Holds source target backup drop_backup h = h
    advance-Holds none target backup set_aside h = absurd h
    advance-Holds (some folder) none backup set_aside h = absurd h
    advance-Holds (some folder) (some present) backup set_aside h = (h.0, sym h.1)
    advance-Holds none target backup retain_posters h = absurd h
    advance-Holds (some folder) none backup retain_posters h =
        (with_posters (content_of retain erode name backup) folder.content h.0, h.1)
    advance-Holds (some folder) (some present) backup retain_posters h = absurd h
    advance-Holds none target backup mark h = absurd h
    advance-Holds (some folder) none backup mark h = (h, refl)
    advance-Holds (some folder) (some present) backup mark h = absurd h
    advance-Holds none target backup move h = absurd h.0
    advance-Holds (some folder) none backup move h = (refl, (h.0.0, h.1))
    advance-Holds (some folder) (some present) backup move h = absurd h.0
    advance-Holds source target backup clean h = (h.0, refl, h.1)
    advance-Holds source target backup finished h = h

    -- a removal that is stopped takes nothing that is needed
    interrupt-Holds :
        (source target backup : Option (Folder A)) (place : Place)
        → At source target backup place
        → Holds (
          interrupt retain erode name
              (record { source = source; target = target; backup = backup })
              place,
          start,
        )
    unfolding interrupt erode_folder change_source
    interrupt-Holds source target backup start h = h
    interrupt-Holds source target backup raised h = h
    interrupt-Holds none target backup drop_source h = h
    interrupt-Holds (some folder) none backup drop_source h = absurd h
    interrupt-Holds (some folder) (some present) backup drop_source h = inr h
    interrupt-Holds source target backup drop_backup h =
        Kept-of_InPlace source target (erode_folder retain erode name backup) h
    interrupt-Holds source target backup set_aside h = Kept-of_InPlace source target backup h
    interrupt-Holds none target backup retain_posters h = absurd h
    interrupt-Holds (some folder) none backup retain_posters h =
        (with_posters (content_of retain erode name backup) folder.content h.0, h.1)
    interrupt-Holds (some folder) (some present) backup retain_posters h = absurd h
    interrupt-Holds source target backup mark h = Kept-of_Aside source target backup h
    interrupt-Holds source target backup move h = Kept-of_Aside source target backup h.0
    interrupt-Holds source target backup clean h =
        Kept-of_Replaced source target (erode_folder retain erode name backup) h.1
    interrupt-Holds source target backup finished h = Kept-of_Replaced source target backup h.2

    recover-Holds :
        (disk : Disk A) (place : Place)
        → Holds (disk, start)
        → Holds (recover retain erode name disk place, raised)
    unfolding recover
    recover-Holds disk start h = h
    recover-Holds disk drop_source h = h
    recover-Holds disk drop_backup h = h
    recover-Holds disk set_aside h = h
    recover-Holds disk retain_posters h = restore-Kept disk.source disk.target disk.backup h
    recover-Holds disk mark h = restore-Kept disk.source disk.target disk.backup h
    recover-Holds disk move h = restore-Kept disk.source disk.target disk.backup h
    recover-Holds disk clean h = h
    recover-Holds disk finished h = h
    recover-Holds disk raised h = h

    happen-Holds :
        (disk : Disk A) (place : Place) (happening : Happening)
        → Holds (disk, place)
        → Holds (happen retain erode name (disk, place) happening)
    unfolding happen
    happen-Holds disk place proceeds h = advance-Holds disk.source disk.target disk.backup place h
    happen-Holds disk place fails h =
        recover-Holds (interrupt retain erode name disk place) place
          (interrupt-Holds disk.source disk.target disk.backup place h)
    happen-Holds disk place is_killed h =
        interrupt-Holds disk.source disk.target disk.backup place h
    happen-Holds disk place runs_again h = Kept-of_At disk.source disk.target disk.backup place h

    pub replace-Holds :
        (disk : Disk A) (place : Place) (happenings : List Happening)
        → Holds (disk, place)
        → Holds (replace_folder_once retain erode name (disk, place) happenings)
    unfolding replace_folder_once
    replace-Holds disk place [] h = h
    replace-Holds disk place (happening ∷ happenings) h =
        let after = happen retain erode name (disk, place) happening in
        replace-Holds after.0 after.1 happenings (happen-Holds disk place happening h)
