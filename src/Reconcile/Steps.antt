-- ===== src/Reconcile/Steps.antt =====
-- What is left of a step's media after a new upload.
use wanderbound.Prelude.{
  String, ◌≡◌, refl, ap, ◌∙◌, Bool, true, false, not, ◌&&◌, ◌||◌, Option, none, some, List, [], ◌∷◌,
  ◌++◌, contains, arith, contains-append, contains-filter, contains-all, contains-set_union,
  filter_congr, set_union, string_eq, eq_refl, ◌==◌, filter, any, all, is_empty, if◌then◌else◌,
  Bool-cases, inl, inr,
}
use text.Mathlib.TextEquality.{eq_iff}
use wanderbound.Prelude.Sorting.{sorted, contains-sorted}
use wanderbound.Layout.Step.{Media}
use wanderbound.Reconcile.{
  str_leb, Page, PsStep, StepRead, cover_names, portrait_in, first_name, pages_media, pick_cover,
  old_media, cover_lost, reconcile_step,
}
use wanderbound.Reconcile.Pages.{outside, pages_media-keep_pages, keep_pages-full}

module _ {Text Place Weather : Type 0} where
  contains-old :
      (step : StepRead Text Place Weather) (n : String)
      → contains (old_media step) n ≡ (
          contains (pages_media step.pages) n
          || (contains (cover_names step.cover) n || contains step.unused n))
  unfolding old_media
  contains-old step n =
      contains-append (pages_media step.pages) (cover_names step.cover ++ step.unused) n
      ∙ ap (λ b. contains (pages_media step.pages) n || b)
          (contains-append (cover_names step.cover) step.unused n)

first_name-mem :
    (xs : List String) (n : String)
    → contains (cover_names (first_name xs)) n ≡ true
    → contains xs n ≡ true
unfolding cover_names first_name
first_name-mem [] n h = h
first_name-mem (x ∷ xs) n h = ground (arith, h)

pick_cover-mem :
    {Text : Type 0} (pages : List (Page Text)) (unused : List String)
    (media : String → Option Media) (n : String)
    → contains (cover_names (pick_cover pages unused media)) n ≡ true
    → contains (pages_media pages ++ unused) n ≡ true
unfolding pick_cover
pick_cover-mem pages unused media n h =
    let candidates = pages_media pages ++ unused in
    let portraits = filter (portrait_in media) candidates in
    elim (Bool-cases (is_empty portraits)) [
      | inl none_tall ↦ first_name-mem candidates n (rw none_tall at h)
      | inr tall ↦ ground (
        arith,
        first_name-mem portraits n (rw tall at h),
        contains-filter (portrait_in media) candidates n,
      )
    ]

-- a cover has one name
cover_alone :
    (p : String → Bool) (cover : Option String) (n : String)
    → contains (cover_names cover) n ≡ true
    → p n ≡ true
    → all p (cover_names cover) ≡ true
unfolding cover_names
cover_alone p none n h k = refl
cover_alone p (some name) n h k = elim (Bool-cases (n == name)) [
  | inl same ↦ ground (arith, ap p ((eq_iff n name).0 same))
  | inr other ↦ ground arith
]

module _ {Text Place Weather : Type 0} (step : StepRead Text Place Weather) (ps_step : PsStep Place)
    (disk_media all_on_disk : List String) (media_by_name : String → Option Media) where
  abbrev pub old : List String
  old = old_media step

  abbrev missing : List String
  missing = filter (λ name. not (contains all_on_disk name)) old

  abbrev out : StepRead Text Place Weather
  out = reconcile_step step ps_step disk_media all_on_disk media_by_name

  abbrev on_disk : String → Bool
  on_disk = contains all_on_disk

  abbrev is_added : String → Bool
  is_added n = not (contains old n) && on_disk n

  abbrev added : List String
  added = sorted str_leb (set_union [] (filter is_added disk_media))

  contains-added : (n : String) → contains added n ≡ (contains disk_media n && is_added n)
  contains-added n =
      contains-sorted str_leb (set_union [] (filter is_added disk_media)) n
      ∙ contains-set_union [] (filter is_added disk_media) n
      ∙ contains-filter is_added disk_media n

  -- of what the step refers to, what is not missing is on disk
  outside-eq_on_disk : (n : String) → contains old n ≡ true → outside missing n ≡ on_disk n
  outside-eq_on_disk n h = ground (arith, contains-filter (λ name. not (on_disk name)) old n)

  pages_left : pages_media out.pages ≡ filter on_disk (pages_media step.pages)
  unfolding reconcile_step
  pages_left =
      pages_media-keep_pages missing step.pages
      ∙ filter_congr (outside missing) on_disk (pages_media step.pages)
          (λ n h. outside-eq_on_disk n (ground (arith, contains-old step n)))

  unused_left : out.unused ≡ filter on_disk step.unused ++ added
  unfolding reconcile_step
  unused_left =
      ap (λ xs. xs ++ added)
        (filter_congr (outside missing) on_disk step.unused
          (λ n h. outside-eq_on_disk n (ground (arith, contains-old step n))))

  any-missing :
      (xs : List String)
      → ((n : String) → contains xs n ≡ true → contains old n ≡ true)
      → any (contains missing) xs ≡ not (all on_disk xs)
  any-missing [] h = refl
  any-missing (x ∷ xs) h =
      let here = outside-eq_on_disk x (h x (ground (arith, eq_refl x))) in
      let rest = any-missing xs (λ n k. h n (ground (arith, k))) in ground (arith, here, rest)

  cover_lost-eq : cover_lost missing step.cover ≡ not (all on_disk (cover_names step.cover))
  unfolding cover_lost
  cover_lost-eq = any-missing (cover_names step.cover) (λ n h. ground (arith, contains-old step n))

  cover_kept : all on_disk (cover_names step.cover) ≡ true → out.cover ≡ step.cover
  unfolding reconcile_step
  cover_kept h = ground (arith, cover_lost-eq)

  cover_chosen : out.cover ≡ (
      if all on_disk (cover_names step.cover)
      then step.cover
      else pick_cover out.pages out.unused media_by_name)
  unfolding reconcile_step
  cover_chosen = ground (arith, cover_lost-eq)

  -- The photos on the pages are those that the user put there and that are still on disk, in the
  -- user's order. The unused ones begin with those that were unused and are still on disk, in
  -- order; after them come the photos of the step's folders that are on disk and that the step
  -- did not refer to. A cover that is on disk stays, a lost
  -- one is chosen anew, and no page is left without slots.
  pub reconcile_step-keeps :
      (pages_media out.pages ≡ filter on_disk (pages_media step.pages))
      × ((rest : List String) × (out.unused ≡ filter on_disk step.unused ++ rest)
          × ((n : String) → contains rest n ≡ (contains disk_media n && is_added n)))
      × (out.cover ≡ (
          if all on_disk (cover_names step.cover)
          then step.cover
          else pick_cover out.pages out.unused media_by_name))
      × (all (λ page. not (is_empty page.slots)) out.pages ≡ true)
  unfolding reconcile_step
  reconcile_step-keeps = (
    pages_left,
    (added, unused_left, contains-added),
    cover_chosen,
    keep_pages-full missing step.pages,
  )

  contains-out_pages :
      (n : String)
      → contains (pages_media out.pages) n ≡ (contains (pages_media step.pages) n && on_disk n)
  contains-out_pages n = rw pages_left (contains-filter on_disk (pages_media step.pages) n)

  contains-out_unused :
      (n : String)
      → contains out.unused n ≡ ((contains step.unused n && on_disk n) || contains added n)
  contains-out_unused n = rw unused_left (
      contains-append (filter on_disk step.unused) added n
      ∙ ap (λ b. b || contains added n) (contains-filter on_disk step.unused n))

  cover_replaced :
      all on_disk (cover_names step.cover) ≡ false
      → out.cover ≡ pick_cover out.pages out.unused media_by_name
  unfolding reconcile_step
  cover_replaced h = rw (cover_lost-eq, h) refl

  cover_on_disk : (n : String) → contains (cover_names out.cover) n ≡ true → on_disk n ≡ true
  cover_on_disk n h = elim (Bool-cases (all on_disk (cover_names step.cover))) [
    | inl kept ↦ contains-all on_disk (cover_names step.cover) n kept (rw (cover_kept kept) at h)
    | inr lost ↦ ground (
      arith,
      pick_cover-mem out.pages out.unused media_by_name n (rw (cover_replaced lost) at h),
      contains-append (pages_media out.pages) out.unused n,
      contains-out_pages n,
      contains-out_unused n,
      contains-added n,
    )
  ]

  -- Everything that the step refers to afterwards is on disk: no page, cover or unused photo
  -- points to a file that the upload did not bring.
  pub reconcile_step-on_disk : (n : String) → contains (old_media out) n ≡ true → on_disk n ≡ true
  reconcile_step-on_disk n h = ground (
    arith,
    contains-old out n,
    contains-out_pages n,
    contains-out_unused n,
    contains-added n,
    cover_on_disk n,
  )

  -- Nothing that the upload brought for the step is left out: every photo of the step's folders
  -- that is on disk is referred to afterwards.
  pub reconcile_step_complete :
      (n : String)
      → contains disk_media n ≡ true
      → on_disk n ≡ true
      → contains (old_media out) n ≡ true
  reconcile_step_complete n h k = elim (Bool-cases (contains (cover_names step.cover) n)) [
    | inl cover ↦
        let same = cover_kept (cover_alone on_disk step.cover n cover k) in
        ground (arith, contains-old out n, ap (λ c. contains (cover_names c) n) same)
    | inr other ↦ ground (
      arith,
      contains-old step n,
      contains-old out n,
      contains-out_pages n,
      contains-out_unused n,
      contains-added n,
    )
  ]
