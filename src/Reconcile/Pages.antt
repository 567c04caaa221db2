-- ===== src/Reconcile/Pages.antt =====
-- The photos on the pages once the slots of missing media are taken out.
use wanderbound.Prelude.{
  String, ◌≡◌, refl, ap, Bool, true, not, Option, none, some, List, [], ◌∷◌, ◌++◌, map, contains,
  filter-append, all-filter, string_eq, filter, flatten, all, is_empty, if◌then◌else◌, Bool-cases,
  inl, inr,
}
use wanderbound.Reconcile.{
  SlotKind, photo, text, Slot, Page, photo_name, keeps, page_media, pages_media, keep_slots,
  keep_pages,
}

abbrev pub outside : List String → String → Bool
outside missing name = not (contains missing name)

-- the pages

kept_slot :
    (missing : List String) (kind : SlotKind) (name : Option String)
    → (if keeps missing kind name then photo_name kind name else [])
      ≡ filter (outside missing) (photo_name kind name)
unfolding keeps photo_name
kept_slot missing text name = refl
kept_slot missing photo none = refl
kept_slot missing photo (some name) = refl

module _ {Text : Type 0} where
  slots_empty : (slots : List (Slot Text)) → is_empty slots ≡ true → slots ≡ []
  slots_empty [] h = refl
  slots_empty (x ∷ slots) h = cc

  page_media-empty : (page : Page Text) → is_empty page.slots ≡ true → page_media page ≡ []
  unfolding page_media
  page_media-empty page h = rw (slots_empty page.slots h)

module _ {Text : Type 0} (missing : List String) where
  abbrev keeps_it : Slot Text → Bool
  keeps_it slot = keeps missing slot.kind slot.media_name

  abbrev names_in : List (Slot Text) → List String
  names_in slots = flatten (map (λ slot. photo_name slot.kind slot.media_name) slots)

  names_in-filter :
      (slots : List (Slot Text))
      → names_in (filter keeps_it slots) ≡ filter (outside missing) (names_in slots)
  names_in-filter [] = refl
  names_in-filter (slot ∷ slots) =
      let here = kept_slot missing slot.kind slot.media_name in
      let split =
        filter-append (outside missing) (photo_name slot.kind slot.media_name) (names_in slots) in
      elim (Bool-cases (keeps_it slot)) [
        | inl kept ↦ rw (kept, split, ← here, kept, names_in-filter slots)
        | inr gone ↦ rw (gone, split, ← here, gone, names_in-filter slots)
      ]

  page_media-keep_slots :
      (page : Page Text)
      → page_media (keep_slots missing page) ≡ filter (outside missing) (page_media page)
  unfolding page_media keep_slots
  page_media-keep_slots page = names_in-filter page.slots

  pub pages_media-keep_pages :
      (pages : List (Page Text))
      → pages_media (keep_pages missing pages) ≡ filter (outside missing) (pages_media pages)
  unfolding pages_media keep_pages
  pages_media-keep_pages [] = refl
  pages_media-keep_pages (page ∷ pages) =
      let split = filter-append (outside missing) (page_media page) (pages_media pages) in
      let here = page_media-keep_slots page in
      let rest = pages_media-keep_pages pages in
      elim (Bool-cases (is_empty (keep_slots missing page).slots)) [
        | inl empty ↦
            rw (empty, split, ← here, page_media-empty (keep_slots missing page) empty) rest
        | inr full ↦
            rw (full, split, here)
              (ap (λ tail. filter (outside missing) (page_media page) ++ tail) rest)
      ]

  pub keep_pages-full :
      (pages : List (Page Text))
      → all (λ page. not (is_empty page.slots)) (keep_pages missing pages) ≡ true
  unfolding keep_pages
  keep_pages-full pages =
      all-filter (λ (page : Page Text). not (is_empty page.slots)) (map (keep_slots missing) pages)
