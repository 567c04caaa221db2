-- ===== src/Layout/Shapes.antt =====
-- The shapes of page that the album can print, and the least number of pages that a mix of
-- portraits and landscapes can take in those shapes, whatever lays them out.
use wanderbound.Prelude.{
  ℕ, ◌+◌, ◌*◌, ◌≤◌, ◌≡◌, refl, arith, List, [], ◌∷◌, some, length, All, subst₂,
}
use wanderbound.Layout.{portrait_page_count, landscape_page_count, mixed_total, build_pages}
use wanderbound.Layout.Mixed.{optimal_mixed_count-NoWorse}
use wanderbound.Layout.Landscapes.{IsLandscapeSize}
use wanderbound.Layout.Pages.{build_pages-length}

pub data Shape : Type 0 where
  portraits landscapes : ℕ → Shape
  mixed : Shape

abbrev pub IsPrintable : Shape → Type 0
IsPrintable (portraits n) = (1 ≤ n) × (n ≤ 3)
IsPrintable (landscapes n) = IsLandscapeSize n
IsPrintable mixed = Unit

abbrev pub portraits_in : Shape → ℕ
portraits_in (portraits n) = n
portraits_in (landscapes n) = 0
portraits_in mixed = 1

abbrev pub landscapes_in : Shape → ℕ
landscapes_in (portraits n) = 0
landscapes_in (landscapes n) = n
landscapes_in mixed = 2

abbrev pub sum_of : (Shape → ℕ) → List Shape → ℕ
sum_of f [] = 0
sum_of f (s ∷ shapes) = f s + sum_of f shapes

-- A packing by kind: so many mixed pages, so many pages of portraits with so many portraits, and
-- the same for landscapes.
record Tally (shapes : List Shape) : Type 0 where
  b : ℕ
  p_pages : ℕ
  p_photos : ℕ
  l_pages : ℕ
  l_photos : ℕ
  pages : length shapes ≡ b + p_pages + l_pages
  all_portraits : sum_of portraits_in shapes ≡ b + p_photos
  all_landscapes : sum_of landscapes_in shapes ≡ 2 * b + l_photos
  p_room : p_photos ≤ 3 * p_pages
  l_room : l_photos ≤ 4 * l_pages
  l_pair : l_photos ≡ 2 → 2 ≤ l_pages

tally : (shapes : List Shape) → All IsPrintable shapes → Tally shapes
tally [] h = record {
  b = 0;
  p_pages = 0;
  p_photos = 0;
  l_pages = 0;
  l_photos = 0;
  pages = refl;
  all_portraits = refl;
  all_landscapes = refl;
  p_room = omega arith;
  l_room = omega arith;
  l_pair = omega arith;
}
tally (portraits n ∷ shapes) (h, hs) =
    let t = tally shapes hs in
    record {
      b = t.b;
      p_pages = t.p_pages + 1;
      p_photos = n + t.p_photos;
      l_pages = t.l_pages;
      l_photos = t.l_photos;
      pages = omega (arith, t.pages);
      all_portraits = omega (arith, t.all_portraits);
      all_landscapes = omega (arith, t.all_landscapes);
      p_room = omega (arith, t.p_room);
      l_room = t.l_room;
      l_pair = t.l_pair;
    }
tally (landscapes n ∷ shapes) (h, hs) =
    let t = tally shapes hs in
    record {
      b = t.b;
      p_pages = t.p_pages;
      p_photos = t.p_photos;
      l_pages = t.l_pages + 1;
      l_photos = n + t.l_photos;
      pages = omega (arith, t.pages);
      all_portraits = omega (arith, t.all_portraits);
      all_landscapes = omega (arith, t.all_landscapes);
      p_room = t.p_room;
      l_room = omega (arith, t.l_room);
      l_pair = omega (arith, t.l_room);
    }
tally (mixed ∷ shapes) (h, hs) =
    let t = tally shapes hs in
    record {
      b = t.b + 1;
      p_pages = t.p_pages;
      p_photos = t.p_photos;
      l_pages = t.l_pages;
      l_photos = t.l_photos;
      pages = omega (arith, t.pages);
      all_portraits = omega (arith, t.all_portraits);
      all_landscapes = omega (arith, t.all_landscapes);
      p_room = t.p_room;
      l_room = t.l_room;
      l_pair = t.l_pair;
    }

module _ {shapes : List Shape} (t : Tally shapes) where
  open t use {b, p_pages, p_photos, l_pages, l_photos}

  mixed_total-le :
      mixed_total (sum_of portraits_in shapes) (sum_of landscapes_in shapes) b ≤ length shapes
  unfolding mixed_total portrait_page_count landscape_page_count
  mixed_total-le =
      rw (t.pages, t.all_portraits, t.all_landscapes) (ground (arith, t.p_room, t.l_room, t.l_pair))

-- No packing of the same photos into printable pages, of whatever shapes, has fewer pages than
-- the one that the builder returns.
pub build_pages-minimal {ℓ} :
    {A : Type ℓ} (ps ls : List A) (pages : List (List A)) (shapes : List Shape)
    → build_pages ps ls ≡ some pages
    → All IsPrintable shapes
    → sum_of portraits_in shapes ≡ length ps
    → sum_of landscapes_in shapes ≡ length ls
    → length pages ≤ length shapes
build_pages-minimal ps ls pages shapes e h np nl =
    let t = tally shapes h in
    omega (
      arith,
      build_pages-length ps ls pages e,
      optimal_mixed_count-NoWorse (length ps) (length ls) t.b (omega (arith, t.all_portraits))
          (omega (arith, t.all_landscapes)),
      subst₂ (λ p l. mixed_total p l t.b ≤ length shapes) np nl (mixed_total-le t),
    )
