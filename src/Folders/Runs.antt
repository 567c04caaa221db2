-- ===== src/Folders/Runs.antt =====
-- The replacement of a folder from its start: what is kept wherever it is stopped, and where it
-- comes when it is run again.
use wanderbound.Prelude.{
  ℕ, zero, suc, String, false, ◌≡◌, refl, ◌∙◌, ap, subst, inl, inr, Option, none, some, List, [],
  ◌∷◌, ◌++◌,
}
use wanderbound.Folders.{
  Folder, Disk, Place, start, finished, drop_source, drop_backup, retain_posters, mark, clean,
  Happening, proceeds, runs_again, has_marker, begin, content_of, move_source, change_source,
  advance, happen, replace_folder_once,
}
use wanderbound.Folders.Safety.{
  uploaded, with_posters, IsNew, Kept, Kept-of_At, replace-Holds, marked,
}

module _ {A : Type 0} (retain : Option A → A → A) (erode : A → A) (name : String) where
  abbrev pub goes : ℕ → List Happening
  goes zero = []
  goes (suc n) = proceeds ∷ goes n

  replace-append :
      (state : Disk A × Place) (first second : List Happening)
      → replace_folder_once retain erode name state (first ++ second)
        ≡ replace_folder_once retain erode name
            (replace_folder_once retain erode name state first)
            second
  unfolding replace_folder_once
  replace-append state [] second = refl
  replace-append state (happening ∷ first) second =
      replace-append (happen retain erode name state happening) first second

  from_finished :
      (n : ℕ) (disk : Disk A)
      → replace_folder_once retain erode name (disk, finished) (goes n) ≡ (disk, finished)
  unfolding replace_folder_once happen advance
  from_finished zero disk = refl
  from_finished (suc n) disk = from_finished n disk

  from_clean :
      (n : ℕ) (disk : Disk A)
      → replace_folder_once retain erode name (disk, clean) (goes (suc n))
        ≡ (record disk { backup = none }, finished)
  unfolding replace_folder_once happen advance
  from_clean n disk = from_finished n (record disk { backup = none })

  from_drop_source :
      (n : ℕ) (disk : Disk A)
      → replace_folder_once retain erode name (disk, drop_source) (goes (suc (suc n)))
        ≡ (record disk { source = none; backup = none }, finished)
  unfolding replace_folder_once happen advance
  from_drop_source n disk = from_clean n (record disk { source = none })

  abbrev filled : Option (Folder A) → Folder A → Folder A
  filled backup folder = record {
    content = retain (content_of retain erode name backup) folder.content;
    marker = some name;
  }

  from_mark :
      (n : ℕ) (folder : Folder A) (backup : Option (Folder A))
      → replace_folder_once retain erode name
          (record { source = some folder; target = none; backup = backup }, mark)
          (goes (suc (suc (suc n))))
        ≡ (
          record {
            source = none;
            target = some (record folder { marker = some name });
            backup = none;
          },
          finished,
        )
  unfolding replace_folder_once happen advance change_source move_source
  from_mark n folder backup = from_clean n (record {
    source = none;
    target = some (record folder { marker = some name });
    backup = backup;
  })

  from_retain :
      (n : ℕ) (folder : Folder A) (backup : Option (Folder A))
      → replace_folder_once retain erode name
          (record { source = some folder; target = none; backup = backup }, retain_posters)
          (goes (suc (suc (suc (suc n)))))
        ≡ (record { source = none; target = some (filled backup folder); backup = none }, finished)
  unfolding replace_folder_once happen advance change_source
  from_retain n folder backup =
      from_mark n
        (record folder { content = retain (content_of retain erode name backup) folder.content })
        backup

  from_drop_backup :
      (n : ℕ) (folder present : Folder A) (backup : Option (Folder A))
      → replace_folder_once retain erode name
          (record { source = some folder; target = some present; backup = backup }, drop_backup)
          (goes (suc (suc (suc (suc (suc (suc n)))))))
        ≡ (
          record { source = none; target = some (filled (some present) folder); backup = none },
          finished,
        )
  unfolding replace_folder_once happen advance
  from_drop_backup n folder present backup = from_retain n folder (some present)

  from_begin :
      (n : ℕ) (disk : Disk A) (place : Place)
      → begin retain erode name disk ≡ (disk, place)
      → replace_folder_once retain erode name (disk, start) (goes (suc n))
        ≡ replace_folder_once retain erode name (disk, place) (goes n)
  unfolding replace_folder_once happen advance
  from_begin n disk place h = ap (λ state. replace_folder_once retain erode name state (goes n)) h

  from_start :
      (new : A) (old : Option (Folder A))
      → has_marker name old ≡ false
      → (source target backup : Option (Folder A))
      → Kept retain erode name new old source target backup
      → (folder : Folder A) × (replace_folder_once retain erode name
            (record { source = source; target = target; backup = backup }, start)
            (goes 7)
          ≡ (record { source = none; target = some folder; backup = none }, finished))
        × IsNew retain erode name new old folder
  unfolding begin
  from_start new old unmarked none none backup h = absurd h
  from_start new old unmarked none (some present) backup h =
      let disk : Disk A = record { source = none; target = some present; backup = backup } in
      (
        present,
        from_begin 6 disk drop_source
              (rw (begin, marked retain erode name new old unmarked present h.1) refl)
            ∙ from_drop_source 4 disk,
        h,
      )
  from_start new old unmarked (some folder) none backup h = (
    filled backup folder,
    from_begin 6 (record { source = some folder; target = none; backup = backup }) retain_posters
          refl
        ∙ from_retain 2 folder backup,
    (with_posters (content_of retain erode name backup) folder.content h.0, refl),
  )
  from_start new old unmarked (some folder) (some present) backup (inl h) = (
    filled (some present) folder,
    from_begin 6 (record { source = some folder; target = some present; backup = backup })
          drop_backup (rw (begin, subst (λ f. has_marker name f ≡ false) h.1 unmarked) refl)
        ∙ from_drop_backup 0 folder present backup,
    (with_posters (content_of retain erode name (some present)) folder.content h.0, refl),
  )
  from_start new old unmarked (some folder) (some present) backup (inr h) =
      let disk : Disk A = record { source = some folder; target = some present; backup = backup } in
      (
        present,
        from_begin 6 disk drop_source
              (rw (begin, marked retain erode name new old unmarked present h.1) refl)
            ∙ from_drop_source 4 disk,
        h,
      )

  abbrev pub before : Folder A → Option (Folder A) → Disk A × Place
  before folder old = (record { source = some folder; target = old; backup = none }, start)

  init-Kept :
      (folder : Folder A) (old : Option (Folder A))
      → Kept retain erode name folder.content old (some folder) old none
  init-Kept folder none = (uploaded, refl)
  init-Kept folder (some present) = inl (uploaded, refl)

  -- Wherever the replacement of a folder that has not got the upload's marker is stopped, by
  -- exceptions, by kills in the middle of a removal, however often it is run again: either the
  -- target is the uploaded folder with its marker, or the source is still the uploaded folder and
  -- the folder that was there is whole, in the target or set aside. The uploaded folder may have got
  -- posters.
  pub replace_folder_once-Kept :
      (folder : Folder A) (old : Option (Folder A)) (happenings : List Happening)
      → has_marker name old ≡ false
      → Kept retain erode name folder.content old
          (replace_folder_once retain erode name (before folder old) happenings).0.source
          (replace_folder_once retain erode name (before folder old) happenings).0.target
          (replace_folder_once retain erode name (before folder old) happenings).0.backup
  replace_folder_once-Kept folder old happenings unmarked =
      let after = replace_folder_once retain erode name (before folder old) happenings in
      Kept-of_At retain erode name folder.content old after.0.source after.0.target after.0.backup
        after.1
        (replace-Holds retain erode name folder.content old unmarked (before folder old).0 start
          happenings (init-Kept folder old))

  -- However the replacement of a folder was stopped, and however often: when it is run again and is
  -- not stopped, it comes to its end within seven changes. The target is then the uploaded folder
  -- with its marker, and source and backup are gone.
  pub replace_folder_once-finished :
      (folder : Folder A) (old : Option (Folder A)) (happenings : List Happening)
      → has_marker name old ≡ false
      → (after : Folder A) × (replace_folder_once retain erode name
            (before folder old)
            (happenings ++ runs_again ∷ goes 7)
          ≡ (record { source = none; target = some after; backup = none }, finished))
        × IsNew retain erode name folder.content old after
  unfolding happen replace_folder_once
  replace_folder_once-finished folder old happenings unmarked =
      let stopped = (replace_folder_once retain erode name (before folder old) happenings).0 in
      let (after, run, is_new) =
        from_start folder.content old unmarked stopped.source stopped.target stopped.backup
          (replace_folder_once-Kept folder old happenings unmarked) in
      (after, replace-append (before folder old) happenings (runs_again ∷ goes 7) ∙ run, is_new)
