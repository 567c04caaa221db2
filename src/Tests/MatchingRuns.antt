-- ===== src/Tests/MatchingRuns.antt =====
-- A photo and its original.
use wanderbound.Prelude.{
  ℕ, zero, suc, ◌≡◌, ◌≤◌, ◌<◌, ◌⊎◌, refl, arith, String, Bool, true, false, Option, none, some,
  List, [], ◌∷◌, length,
}
use wanderbound.Operations.Lifecycle.{some-injective}
use wanderbound.Matching.{
  HashedMedia, Solver, PickedMediaItem, unmatched_cost, weight, is_injective, matches,
  match_media_globally, deduplicate_items,
}
use wanderbound.Matching.Optimal.{total_distance, IsLeast, match_media_globally-best}

abbrev media : String → List Bool → HashedMedia
media key hash = record { key = key; hash = hash }

abbrev photos : List HashedMedia
photos = media "a.jpg" (true ∷ false ∷ true ∷ []) ∷ []

abbrev originals : List HashedMedia
originals = media "g1" (true ∷ true ∷ true ∷ []) ∷ []

abbrev solve : Solver
solve local_media candidate_media threshold = some 0 ∷ []

least :
    (others : List (Option ℕ)) (v : ℕ)
    → weight originals 12 (unmatched_cost photos 12) photos others ≡ some v
    → 2 ≤ v
unfolding weight unmatched_cost
least [] v h = absurd cc
least (none ∷ []) v h = omega (arith, some-injective h)
least (none ∷ column ∷ columns) v h = absurd cc
least (some zero ∷ []) v h = omega (arith, some-injective h)
least (some zero ∷ column ∷ columns) v h = absurd cc
least (some (suc n) ∷ columns) v h = absurd cc

given : IsLeast photos originals 12 (some 0 ∷ [])
unfolding weight is_injective
given = record {
  weight_given = 2;
  is_matching = refl;
  gives_once = refl;
  least = λ others v once h. least others v h;
}

match_media_globally-best_example :
    (length (matches originals 12 photos (none ∷ []))
      < length (match_media_globally solve photos originals 12))
    ⊎ ((length (matches originals 12 photos (none ∷ []))
          ≡ length (match_media_globally solve photos originals 12))
        × (total_distance (match_media_globally solve photos originals 12)
            ≤ total_distance (matches originals 12 photos (none ∷ []))))
unfolding weight is_injective unmatched_cost
match_media_globally-best_example =
    match_media_globally-best solve photos originals 12 (none ∷ []) 14 given refl refl

abbrev item : String → String → PickedMediaItem
item id content = record { id = id; content = content }

deduplicate-run :
    deduplicate_items (item "x" "1" ∷ item "y" "2" ∷ item "x" "3" ∷ [])
    ≡ item "x" "3" ∷ item "y" "2" ∷ []
unfolding deduplicate_items
deduplicate-run = refl
