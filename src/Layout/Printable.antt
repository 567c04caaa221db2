-- ===== src/Layout/Printable.antt =====
-- Every page that the builder returns has a printable shape.
use wanderbound.Prelude.{
  ℕ, ◌+◌, ◌*◌, ◌≤◌, ◌≡◌, refl, Bool, true, false, arith, List, [], ◌∷◌, ◌++◌, some, length, All,
  subst, sym, drop, All-flatten, All-imp, All-both, All-append, All-drop, if◌then◌else◌,
}
use wanderbound.Layout.{build_pages, batched, pages_of, landscape_pages}
use wanderbound.Layout.Batches.{flatten-batched, All-batched_short}
use wanderbound.Layout.Landscapes.{
  IsLandscapeSize, flatten-landscape_pages, landscape_pages-IsLandscapeSize,
}
use wanderbound.Layout.Triples.{triples, All-triples}
use wanderbound.Layout.Pages.{mixed, laid_out, build_pages-eq-laid_out}
use wanderbound.Layout.Shapes.{
  Shape, portraits, landscapes, mixed as one_and_two, IsPrintable, portraits_in, landscapes_in,
}

module _ {ℓ} {A : Type ℓ} (is_portrait : A → Bool) where
  abbrev pub count_if : Bool → List A → ℕ
  count_if kind [] = 0
  count_if true (x ∷ xs) = (if is_portrait x then 1 else 0) + count_if true xs
  count_if false (x ∷ xs) = (if is_portrait x then 0 else 1) + count_if false xs

  -- The page holds as many portraits and landscapes as some printable shape.
  abbrev pub IsPrintablePage : List A → Type 0
  IsPrintablePage page =
      (s : Shape) × IsPrintable s
      × (count_if true page ≡ portraits_in s)
      × (count_if false page ≡ landscapes_in s)

  abbrev IsPortrait : A → Type 0
  IsPortrait x = is_portrait x ≡ true

  abbrev IsLandscape : A → Type 0
  IsLandscape x = is_portrait x ≡ false

  count_portraits :
      (xs : List A) → All IsPortrait xs → (count_if true xs ≡ length xs) × (count_if false xs ≡ 0)
  count_portraits [] h = (refl, refl)
  count_portraits (x ∷ xs) h =
      let ih = count_portraits xs h.1 in rw h.0 (omega (arith, ih), omega (arith, ih))

  count_landscapes :
      (xs : List A) → All IsLandscape xs → (count_if true xs ≡ 0) × (count_if false xs ≡ length xs)
  count_landscapes [] h = (refl, refl)
  count_landscapes (x ∷ xs) h =
      let ih = count_landscapes xs h.1 in rw h.0 (omega (arith, ih), omega (arith, ih))

  portrait_page :
      (page : List A)
      → All IsPortrait page × ((1 ≤ length page) × (length page ≤ 3))
      → IsPrintablePage page
  portrait_page page (h, (lo, hi)) =
      let (p, l) = count_portraits page h in (portraits (length page), (lo, hi), p, l)

  landscape_page :
      (page : List A) → All IsLandscape page × IsLandscapeSize (length page) → IsPrintablePage page
  landscape_page page (h, size) =
      let (p, l) = count_landscapes page h in (landscapes (length page), size, p, l)

  triple_page :
      (p a b : A) → IsPortrait p → IsLandscape a → IsLandscape b → IsPrintablePage (p ∷ a ∷ b ∷ [])
  triple_page p a b hp ha hb = (one_and_two, tt, rw (hp, ha, hb) refl, rw (hp, ha, hb) refl)

  module _ (ps ls : List A) (portrait : All IsPortrait ps) (landscape : All IsLandscape ls) where
    only_portraits : All IsPrintablePage (pages_of (drop (mixed ps ls) ps) 3)
    unfolding pages_of
    only_portraits =
        let rest = drop (mixed ps ls) ps in
        let pages = batched (length rest) 3 rest in
        let whole = flatten-batched (length rest) 3 rest (omega arith) (omega arith) in
        All-imp (λ page. All IsPortrait page × ((1 ≤ length page) × (length page ≤ 3)))
          IsPrintablePage portrait_page pages
          (All-both (All IsPortrait) (λ page. (1 ≤ length page) × (length page ≤ 3)) pages
            (All-flatten IsPortrait pages
              (subst (All IsPortrait) (sym whole) (All-drop IsPortrait (mixed ps ls) ps portrait)))
            (All-batched_short (length rest) 3 rest (omega arith)))

    only_landscapes : All IsPrintablePage (landscape_pages (drop (2 * mixed ps ls) ls))
    only_landscapes =
        let rest = drop (2 * mixed ps ls) ls in
        let pages = landscape_pages rest in
        All-imp (λ page. All IsLandscape page × IsLandscapeSize (length page)) IsPrintablePage
          landscape_page pages
          (All-both (All IsLandscape) (λ page. IsLandscapeSize (length page)) pages
            (All-flatten IsLandscape pages (
              subst (All IsLandscape) (sym (flatten-landscape_pages rest))
                (All-drop IsLandscape (2 * mixed ps ls) ls landscape)))
            (landscape_pages-IsLandscapeSize rest))

    -- Every page of the layout holds one to three portraits, or one, three or four landscapes, or
    -- one portrait and two landscapes.
    pub build_pages-IsPrintablePage :
        (pages : List (List A)) → build_pages ps ls ≡ some pages → All IsPrintablePage pages
    build_pages-IsPrintablePage pages e =
        let same : pages ≡ laid_out ps ls = cc (build_pages-eq-laid_out ps ls) in
        subst (All IsPrintablePage) (sym same) (
          All-append IsPrintablePage
            (pages_of (drop (mixed ps ls) ps) 3 ++ triples (mixed ps ls) ps ls) _
            (All-append IsPrintablePage (pages_of (drop (mixed ps ls) ps) 3) _ only_portraits (
              All-triples IsPrintablePage IsPortrait IsLandscape triple_page (mixed ps ls) ps ls
                portrait landscape))
            only_landscapes)
