-- ===== src/Routes/Plan.antt =====
-- The parts of a route: they cover its points, and each fits into one request.
use wanderbound.Prelude.{
  ℕ, zero, suc, ◌-◌, ◌≤◌, ◌≡◌, refl, ap, ◌∙◌, arith, Bool, true, false, ◌&&◌, List, [], ◌∷◌, ◌++◌,
  length, take, drop, all, leb, take-append-drop, append_nil, length-drop, length-take, Bool-cases,
  inl, inr,
}
use wanderbound.Routes.{
  TimedCoords, RoutePart, matching, directions, matching_parts, match_chunk_coords,
}

one_less : (c : ℕ) → suc (suc c) - 1 ≡ suc c
one_less c = omega arith

module _ {Coord : Type 0} where
  abbrev pub points_of : RoutePart Coord → TimedCoords Coord
  points_of (matching points) = points
  points_of (directions points) = points

  abbrev tails : List (RoutePart Coord) → TimedCoords Coord
  tails [] = []
  tails (part ∷ parts) = drop 1 (points_of part) ++ tails parts

  -- the parts put together, without the points that two parts share
  abbrev pub stitched : List (RoutePart Coord) → TimedCoords Coord
  stitched [] = []
  stitched (part ∷ parts) = points_of part ++ tails parts

  abbrev pub fits_request : ℕ → RoutePart Coord → Bool
  fits_request chunk part = leb 2 (length (points_of part)) && leb (length (points_of part)) chunk

  drop-suc : (n : ℕ) (points : TimedCoords Coord) → drop 1 (drop n points) ≡ drop (suc n) points
  drop-suc zero [] = refl
  drop-suc zero (point ∷ points) = refl
  drop-suc (suc n) [] = refl
  drop-suc (suc n) (point ∷ points) = drop-suc n points

  not_one :
      (point next : Coord × ℕ) (points : TimedCoords Coord)
      → leb (length (point ∷ next ∷ points)) 1 ≡ false
  not_one point next points = ground arith

  parts-tails :
      (c fuel : ℕ) (points : TimedCoords Coord)
      → length points ≤ fuel
      → tails (matching_parts (suc (suc c)) fuel points) ≡ drop 1 points
  unfolding matching_parts
  parts-tails c zero [] h = refl
  parts-tails c zero (point ∷ points) h = absurd (omega (arith, h))
  parts-tails c (suc fuel) [] h = refl
  parts-tails c (suc fuel) (point ∷ []) h = refl
  parts-tails c (suc fuel) (point ∷ next ∷ points) h =
      elim (Bool-cases (leb (length (point ∷ next ∷ points)) (suc (suc c)))) [
        | inl short ↦ rw (not_one point next points, short) (append_nil (next ∷ points))
        | inr long ↦
            rw (not_one point next points, long, one_less c)
              (ap (λ rest. next ∷ (take c points ++ rest))
                  (parts-tails c fuel (drop c (next ∷ points))
                      (omega (arith, h, length-drop {0} c (next ∷ points)))
                    ∙ drop-suc c (next ∷ points))
                ∙ ap (◌∷◌ next) (take-append-drop c points))
      ]

  parts-fit :
      (c fuel : ℕ) (points : TimedCoords Coord)
      → all (fits_request (suc (suc c))) (matching_parts (suc (suc c)) fuel points) ≡ true
  unfolding matching_parts
  parts-fit c zero points = refl
  parts-fit c (suc fuel) points =
      ground (arith, parts-fit c fuel (drop (suc c) points), length-take {0} (suc (suc c)) points)

  parts_stitched :
      (c fuel : ℕ) (points : TimedCoords Coord)
      → length points ≤ fuel
      → 2 ≤ length points
      → stitched (matching_parts (suc (suc c)) fuel points) ≡ points
  unfolding matching_parts
  parts_stitched c fuel [] h k = absurd (omega (arith, k))
  parts_stitched c fuel (point ∷ []) h k = absurd (omega (arith, k))
  parts_stitched c zero (point ∷ next ∷ points) h k = absurd (omega (arith, h))
  parts_stitched c (suc fuel) (point ∷ next ∷ points) h k =
      elim (Bool-cases (leb (length (point ∷ next ∷ points)) (suc (suc c)))) [
        | inl short ↦ rw (not_one point next points, short) (append_nil (point ∷ next ∷ points))
        | inr long ↦
            rw (not_one point next points, long, one_less c)
              (ap (λ rest. point ∷ next ∷ (take c points ++ rest))
                  (parts-tails c fuel (drop c (next ∷ points))
                      (omega (arith, h, length-drop {0} c (next ∷ points)))
                    ∙ drop-suc c (next ∷ points))
                ∙ ap (λ rest. point ∷ next ∷ rest) (take-append-drop c points))
      ]

  -- A trace of two points or more that is matched in parts is covered by them: put together without the points that two
  -- parts share, they are the trace, and each has from two to 90 points, as a request may.
  pub matching_parts-stitched :
      (points : TimedCoords Coord)
      → 2 ≤ length points
      → (stitched (matching_parts match_chunk_coords (length points) points) ≡ points)
        × (all
              (fits_request match_chunk_coords)
              (matching_parts match_chunk_coords (length points) points)
            ≡ true)
  matching_parts-stitched points h = (
    parts_stitched 88 (length points) points (omega arith) h,
    parts-fit 88 (length points) points,
  )
