-- ===== src/Layout/Step.antt =====
-- `build_step_layout` of backend/app/logic/layout/builder.py, on the media that `_step_media` found
-- in the step's folder, and `Media` of backend/app/logic/layout/media.py.
-- Aspect ratios are compared by cross multiplication, which orders them as the doubles that the
-- code divides out do for sides below 2 ^ 26 pixels.
use mathlib.Core.List.Perm
use mathlib.Core.List.{Perm, perm_middle, map-append}
use wanderbound.Prelude.{
  ℕ, ◌*◌, ◌≡◌, ◌≢◌, refl, String, Bool, false, not, List, [], ◌∷◌, ◌++◌, map, Option, none, some,
  filter, any, is_empty, flatten, ltb, leb, nat_beq, if◌then◌else◌, Bool-cases, inl, inr,
}
use mathlib.Core.List.{head?}
use wanderbound.Prelude.Sorting.{sorted, sorted-perm}
use wanderbound.Layout.{build_pages}
use wanderbound.Layout.Pages.{build_pages-perm}

pub record Media : Type 0 where
  pub name : String
  pub width : ℕ
  pub height : ℕ

-- `aspect_ratio < 9 / 10`
unfoldable pub is_portrait : Media → Bool
is_portrait m = ltb (10 * m.width) (9 * m.height)

-- `a.aspect_ratio <= b.aspect_ratio`
unfoldable pub narrower : Media → Media → Bool
narrower a b = leb (a.width * b.height) (b.width * a.height)

pub record Layout : Type 0 where
  pub cover : String
  pub pages : List (List String)
  pub media : List Media

pub data Outcome : Type 0 where
  zero_division index_error : Outcome
  returned : Option Layout → Outcome

unfoldable pub lay_out : String → List String → List String → List Media → Outcome
lay_out cover portraits landscapes media = elim (build_pages portraits landscapes) [
  | none ↦ index_error
  | some pages ↦ returned (some (record { cover = cover; pages = pages; media = media }))
]

-- the cover is the first portrait, or else the first landscape, which then stays on its page
unfoldable pub with_cover : List String → List String → List Media → Outcome
unfolding lay_out
with_cover [] [] media = returned none
with_cover [] (l ∷ landscapes) media = lay_out l [] (l ∷ landscapes) media
with_cover (p ∷ portraits) landscapes media = lay_out p portraits landscapes media

unfoldable pub portraits_of : List Media → List Media
portraits_of media = sorted (λ a b. narrower b a) (filter is_portrait media)

unfoldable pub landscapes_of : List Media → List Media
landscapes_of media = sorted narrower (filter (λ m. not (is_portrait m)) media)

-- The division raises for an image of height zero.
unfoldable pub build_step_layout : List Media → Outcome
unfolding with_cover portraits_of landscapes_of
build_step_layout media =
    if any (λ m. nat_beq m.height 0) media
    then zero_division
    else with_cover (map (λ m. m.name) (portraits_of media))
        (map (λ m. m.name) (landscapes_of media)) media

filter-not-perm {ℓ} :
    {A : Type ℓ} (p : A → Bool) (xs : List A) → Perm (filter p xs ++ filter (λ x. not (p x)) xs) xs
filter-not-perm p [] = Perm.nil
filter-not-perm p (x ∷ xs) = elim (Bool-cases (p x)) [
  | inl it_is ↦ rw it_is (Perm.cons x (filter-not-perm p xs))
  | inr it_is_not ↦ rw it_is_not (
      Perm.trans (perm_middle (filter p xs) (filter (λ y. not (p y)) xs))
        (Perm.cons x (filter-not-perm p xs)))
]

abbrev pub names : List Media → List String
names = map (λ m. m.name)

-- Each medium's name stands on one of the two sides, as often as in the folder.
sides-perm :
    (media : List Media)
    → Perm (names (portraits_of media) ++ names (landscapes_of media)) (names media)
unfolding portraits_of landscapes_of
sides-perm media =
    let wide = sorted-perm (λ a b. narrower b a) (filter is_portrait media) in
    let rest = sorted-perm narrower (filter (λ m. not (is_portrait m)) media) in
    rw (← map-append) (
      Perm.map (λ (m : Media). m.name)
        (Perm.trans (Perm.append wide rest) (filter-not-perm is_portrait media)))

-- The photos that the step shows: the cover, unless it was taken from the landscapes and stands on
-- a page too, and the photos on the pages.
abbrev pub shown : List String → Layout → List String
shown portraits l = if is_empty portraits then flatten l.pages else l.cover ∷ flatten l.pages

with_cover-keeps :
    (ps ls : List String) (media : List Media)
    → ps ++ ls ≢ []
    → (l : Layout) × (with_cover ps ls media ≡ returned (some l))
      × (l.media ≡ media)
      × (head? (ps ++ ls) ≡ some l.cover)
      × Perm (shown ps l) (ps ++ ls)
unfolding with_cover
with_cover-keeps [] [] media h = absurd (h refl)
with_cover-keeps [] (x ∷ ls) media h =
    let (pages, e, same) = build_pages-perm [] (x ∷ ls) in
    (record { cover = x; pages = pages; media = media }, rw (e, lay_out) refl, refl, refl, same)
with_cover-keeps (x ∷ ps) ls media h =
    let (pages, e, same) = build_pages-perm ps ls in
    (
      record { cover = x; pages = pages; media = media },
      rw (e, lay_out) refl,
      refl,
      refl,
      Perm.cons x same,
    )

sides-ne-nil :
    (media : List Media)
    → media ≢ []
    → names (portraits_of media) ++ names (landscapes_of media) ≢ []
sides-ne-nil [] h e = h refl
sides-ne-nil (m ∷ media) h e =
    let none_left : Perm [] (names (m ∷ media)) = rw e at (sides-perm (m ∷ media)) in
    let no_names : [] ≡ names (m ∷ media) = Perm.nil-eq none_left in cc

-- A folder with media, none of height zero, gets a layout. It lists the media as they were found,
-- its cover is the first photo of the order of portraits before landscapes. Where there are
-- portraits, the cover and the pages together show each photo exactly once. Where there are none,
-- the pages alone do, so that the cover is shown on a page as well.
pub build_step_layout-perm :
    (media : List Media)
    → any (λ m. nat_beq m.height 0) media ≡ false
    → media ≢ []
    → (l : Layout) × (build_step_layout media ≡ returned (some l))
      × (l.media ≡ media)
      × (head? (names (portraits_of media) ++ names (landscapes_of media)) ≡ some l.cover)
      × Perm (shown (names (portraits_of media)) l) (names media)
unfolding build_step_layout
build_step_layout-perm media ok h =
    let (l, e, kept, cover, same) =
      with_cover-keeps (names (portraits_of media)) (names (landscapes_of media)) media
        (sides-ne-nil media h) in
    (l, rw ok e, kept, cover, Perm.trans same (sides-perm media))
