-- ===== src/Layout/Pages.antt =====
-- The pages of a step: the builder never reads past the end of a list, loses and repeats no photo,
-- makes only pages that the album can print, and makes as few of them as there can be.
use mathlib.Core.List.Perm
use mathlib.Core.List.{Perm, append_assoc, perm_append_comm}
use wanderbound.Prelude.{
  ℕ, ◌*◌, ◌≡◌, ap, ◌∙◌, subst₂, arith, List, ◌++◌, some, length, take, drop, take-append-drop,
  flatten, flatten-append, length-append, length-drop,
}
use wanderbound.Layout.{
  optimal_mixed_count, portrait_page_count, mixed_total, landscape_page_count, pages_of,
  landscape_pages, build_pages,
}
use wanderbound.Layout.Mixed.{optimal_mixed_count-fits}
use wanderbound.Layout.Batches.{flatten-batched, length-batched_three}
use wanderbound.Layout.Landscapes.{flatten-landscape_pages, length-landscape_pages}
use wanderbound.Layout.Triples.{
  triples, mixed_pages-eq-triples, flatten-triples-perm, length-triples,
}

regroup {ℓ} :
    {A : Type ℓ} (rest front back ends both : List A)
    → Perm both (front ++ back)
    → Perm ((rest ++ both) ++ ends) ((front ++ rest) ++ (back ++ ends))
regroup rest front back ends both h =
    let split = Perm.append_right ends (Perm.append_left rest h) in
    let turn = Perm.append_right ends (Perm.append_right back (perm_append_comm rest front)) in
    Perm.trans split (simp append_assoc (simp append_assoc at turn))

module _ {ℓ} {A : Type ℓ} (ps ls : List A) where
  abbrev pub mixed : ℕ
  mixed = optimal_mixed_count (length ps) (length ls)

  abbrev pub laid_out : List (List A)
  laid_out =
      pages_of (drop mixed ps) 3 ++ triples mixed ps ls ++ landscape_pages (drop (2 * mixed) ls)

  pub build_pages-eq-laid_out : build_pages ps ls ≡ some laid_out
  unfolding build_pages
  build_pages-eq-laid_out =
      let (few, fits) = optimal_mixed_count-fits (length ps) (length ls) in
      rw (mixed_pages-eq-triples ps ls mixed few fits)

  flatten-laid_out :
      flatten laid_out ≡ drop mixed ps ++ flatten (triples mixed ps ls) ++ drop (2 * mixed) ls
  unfolding pages_of
  flatten-laid_out = rw (
    flatten-append,
    flatten-append,
    flatten-landscape_pages,
    flatten-batched (length (drop mixed ps)) 3 (drop mixed ps) (omega arith) (omega arith),
  )

  laid_out-perm : Perm (flatten laid_out) (ps ++ ls)
  laid_out-perm =
      let (few, fits) = optimal_mixed_count-fits (length ps) (length ls) in
      let all_ps = take-append-drop mixed ps in
      let all_ls = take-append-drop (2 * mixed) ls in
      rw flatten-laid_out (
        subst₂
          (λ p l.
            Perm ((drop mixed ps ++ flatten (triples mixed ps ls)) ++ drop (2 * mixed) ls) (p ++ l))
          all_ps all_ls
          (regroup (drop mixed ps) (take mixed ps) (take (2 * mixed) ls) (drop (2 * mixed) ls)
            (flatten (triples mixed ps ls)) (flatten-triples-perm ps ls mixed few fits)))

  -- The builder never indexes past the end of a list, and every photo it is given stands on
  -- exactly one page, as often as it was given.
  pub build_pages-perm :
      (pages : List (List A)) × (build_pages ps ls ≡ some pages) × Perm (flatten pages) (ps ++ ls)
  build_pages-perm = (laid_out, build_pages-eq-laid_out, laid_out-perm)

  length-laid_out : length laid_out ≡ mixed_total (length ps) (length ls) mixed
  unfolding mixed_total pages_of portrait_page_count
  length-laid_out =
      let (few, fits) = optimal_mixed_count-fits (length ps) (length ls) in
      let only = drop mixed ps in
      let wide = drop (2 * mixed) ls in
      omega (
        arith,
        length-append {ℓ} (pages_of only 3 ++ triples mixed ps ls) (landscape_pages wide),
        length-append {ℓ} (pages_of only 3) (triples mixed ps ls),
        length-batched_three (length only) only (omega arith),
        length-drop {ℓ} mixed ps,
        length-triples ps ls mixed few fits,
        length-landscape_pages wide,
        ap landscape_page_count (length-drop {ℓ} (2 * mixed) ls),
      )

  -- The number of pages built is the total of the number of mixed pages found.
  pub build_pages-length :
      (pages : List (List A))
      → build_pages ps ls ≡ some pages
      → length pages ≡ mixed_total (length ps) (length ls) mixed
  build_pages-length pages e =
      let same : pages ≡ laid_out = cc build_pages-eq-laid_out in ap length same ∙ length-laid_out
