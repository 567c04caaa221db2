-- ===== src/Chapters/Update.antt =====
-- `update_album_settings` of backend/app/logic/chapters.py. The session is left out: the album is
-- changed only after the checks, and what comes back is what is committed.
-- `sqlmodel_update` overwrites the settings other than the chapters that the request sets.
use wanderbound.Prelude.{
  ℕ, ◌≡◌, refl, List, [], Option, none, some, arith, inl, inr, ◌⊎◌, subst, ap, sym,
}
use wanderbound.Chapters.{Chapter, ChapterError, Result, ok, err, ◌>>◌, validate_album_chapters}
use wanderbound.Chapters.Partition.{IsPartition, validate_album_chapters_iff}

pub record Album (S : Type 0) : Type 0 where
  pub chapters : List Chapter
  pub settings : S

-- `update.chapters or []` where the request sets the chapters
unfoldable pub new_chapters : List Chapter → Option (Option (List Chapter)) → List Chapter
new_chapters old none = old
new_chapters old (some none) = []
new_chapters old (some (some chapters)) = chapters

ok-injective : {A : Type 0} {a b : A} → ok a ≡ ok b → a ≡ b
ok-injective e = cc

Result-cases : (r : Result (Unit {0})) → (r ≡ ok tt) ⊎ ((x : ChapterError) × (r ≡ err x))
Result-cases (ok _) = inl refl
Result-cases (err x) = inr (x, refl)

module _ {S P : Type 0} (sqlmodel_update : P → S → S) where
  unfoldable pub update_album_settings :
      List ℕ → Album S → Option (Option (List Chapter)) → P → Result (Album S)
  unfolding new_chapters
  update_album_settings stored album chapters payload = do
    validate_album_chapters stored chapters
    ok (record {
      chapters = new_chapters album.chapters chapters;
      settings = sqlmodel_update payload album.settings;
    })

  -- An album whose chapters divide its steps is left so by every update that is accepted, and an
  -- update of the chapters that would not leave it so is refused.
  pub update_album_settings-IsPartition :
      (stored : List ℕ) (album : Album S) (update : Option (Option (List Chapter))) (payload : P)
      → IsPartition album.chapters stored
      → (after : Album S) → update_album_settings stored album update payload ≡ ok after
      → IsPartition after.chapters stored
        × (after.settings ≡ sqlmodel_update payload album.settings)
  unfolding update_album_settings validate_album_chapters
  update_album_settings-IsPartition stored album none payload h after e =
      let same = ok-injective e in
      (
        subst (λ a. IsPartition a.chapters stored) same h,
        ap (λ (a : Album S). a.settings) (sym same),
      )
  update_album_settings-IsPartition stored album (some none) payload h after e =
      absurd (unfold validate_album_chapters in cc)
  update_album_settings-IsPartition stored album (some (some chapters)) payload h after e =
      elim (Result-cases (validate_album_chapters stored (some (some chapters)))) [
        | inl passed ↦
            let same = ok-injective (rw passed at e) in
            (
              subst (λ a. IsPartition a.chapters stored) same
                  ((validate_album_chapters_iff chapters stored).0 passed),
              ap (λ (a : Album S). a.settings) (sym same),
            )
        | inr (x, failed) ↦ absurd (ground (arith, failed))
      ]
