-- ===== src/Tests/LayoutRuns.antt =====
-- The page builder on small folders.
use mathlib.Core.List.{Perm, head?}
use wanderbound.Prelude.{
  ℕ, ◌≤◌, ◌≡◌, refl, List, [], ◌∷◌, ◌++◌, some, arith, flatten, length, All, ltb,
}
use wanderbound.Prelude.Sorting.{sorted}
use wanderbound.Layout.{
  portrait_page_count, landscape_page_count, three_page_count, bad_page_count, optimal_mixed_count,
  mixed_total, mixed_bad, mixed_loop, try_mixed, build_pages,
}
use wanderbound.Layout.Pages.{build_pages-perm}
use wanderbound.Layout.Shapes.{Shape, build_pages-minimal, portraits, landscapes}
use wanderbound.Layout.Printable.{IsPrintablePage, build_pages-IsPrintablePage}
use wanderbound.Layout.Step.{
  Media, Layout, build_step_layout, build_step_layout-perm, returned, names, portraits_of,
  landscapes_of, shown, is_portrait, narrower,
}

abbrev ps : List ℕ
ps = 1 ∷ 2 ∷ 3 ∷ 4 ∷ []

abbrev ls : List ℕ
ls = 11 ∷ 12 ∷ 13 ∷ 14 ∷ 15 ∷ 16 ∷ []

abbrev pages : List (List ℕ)
pages = (2 ∷ 3 ∷ 4 ∷ []) ∷ (1 ∷ 11 ∷ 12 ∷ []) ∷ (13 ∷ 14 ∷ 15 ∷ 16 ∷ []) ∷ []

build_pages-run : build_pages ps ls ≡ some pages
unfolding build_pages optimal_mixed_count mixed_loop try_mixed mixed_total mixed_bad bad_page_count
    three_page_count portrait_page_count landscape_page_count
build_pages-run = refl

build_pages-perm_example :
    (out : List (List ℕ)) × (build_pages ps ls ≡ some out) × Perm (flatten out) (ps ++ ls)
build_pages-perm_example = build_pages-perm ps ls

abbrev by_threes : List Shape
by_threes = portraits 2 ∷ portraits 2 ∷ landscapes 3 ∷ landscapes 3 ∷ []

build_pages-minimal_example : length pages ≤ length by_threes
build_pages-minimal_example =
    build_pages-minimal ps ls pages by_threes build_pages-run (omega arith) (omega arith)
      (omega arith)

build_pages-IsPrintablePage_example : All (IsPrintablePage (λ n. ltb n 10)) pages
build_pages-IsPrintablePage_example =
    build_pages-IsPrintablePage (λ n. ltb n 10) ps ls (refl, (refl, (refl, (refl, tt))))
      (refl, (refl, (refl, (refl, (refl, (refl, tt)))))) pages build_pages-run

abbrev folder : List Media
folder =
    record { name = "sea.jpg"; width = 1600; height = 900 }
    ∷ record { name = "tower.jpg"; width = 900; height = 1600 }
    ∷ record { name = "hut.jpg"; width = 1200; height = 1000 }
    ∷ []

build_step_layout-run :
    build_step_layout folder
    ≡ returned (
        some (record {
          cover = "tower.jpg";
          pages = ("hut.jpg" ∷ []) ∷ ("sea.jpg" ∷ []) ∷ [];
          media = folder;
        }))
unfolding build_step_layout build_pages optimal_mixed_count mixed_loop try_mixed mixed_total
    mixed_bad bad_page_count three_page_count portrait_page_count landscape_page_count is_portrait
    narrower sorted
build_step_layout-run = refl

folder_full : ◌≡◌ {A = List Media} folder [] → ⊥
folder_full e = cc

build_step_layout-perm_example :
    (l : Layout) × (build_step_layout folder ≡ returned (some l))
    × (l.media ≡ folder)
    × (head? (names (portraits_of folder) ++ names (landscapes_of folder)) ≡ some l.cover)
    × Perm (shown (names (portraits_of folder)) l) (names folder)
build_step_layout-perm_example = build_step_layout-perm folder refl folder_full
