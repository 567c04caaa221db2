-- ===== src/Segments/Runs.antt =====
-- Runs of points, and what may be said of each when adjacent ones are joined.
use wanderbound.Prelude.{
  ◌≡◌, refl, sym, ap, ◌∙◌, arith, true, List, [], ◌∷◌, ◌++◌, map, All, Bool-cases, inl, inr, subst,
  if◌then◌else◌,
}
use wanderbound.Segments.{Mode, flight, hike, other, is_mode, Fix, Run, push, runs, unrun}

pub is_mode→eq : (a b : Mode) → is_mode a b ≡ true → a ≡ b
unfolding is_mode
is_mode→eq flight flight h = refl
is_mode→eq flight hike h = absurd (ground (arith, h))
is_mode→eq flight other h = absurd (ground (arith, h))
is_mode→eq hike flight h = absurd (ground (arith, h))
is_mode→eq hike hike h = refl
is_mode→eq hike other h = absurd (ground (arith, h))
is_mode→eq other flight h = absurd (ground (arith, h))
is_mode→eq other hike h = absurd (ground (arith, h))
is_mode→eq other other h = refl

pub is_mode_refl : (a : Mode) → is_mode a a ≡ true
unfolding is_mode
is_mode_refl flight = refl
is_mode_refl hike = refl
is_mode_refl other = refl

module _ {Place : Type 0} where
  -- the points of a table, without their modes
  abbrev pub fixes_of : List (Fix Place × Mode) → List (Fix Place)
  fixes_of points = map (λ (point : Fix Place × Mode). point.0) points

  unrun-push :
      (fix : Fix Place) (mode : Mode) (rest : List (Run Place))
      → unrun (push fix mode rest) ≡ (fix, mode) ∷ unrun rest
  unfolding unrun push
  unrun-push fix mode [] = refl
  unrun-push fix mode ((next, fixes) ∷ rest) = elim (Bool-cases (is_mode mode next)) [
    | inl same ↦
        rw (push, same)
          (ap (λ m. (fix, m) ∷ (map (λ f. (f, next)) fixes ++ unrun rest))
            (sym (is_mode→eq mode next same)))
    | inr apart ↦ rw (push, apart) refl
  ]

  pub unrun-runs : (points : List (Fix Place × Mode)) → unrun (runs points) ≡ points
  unfolding unrun runs
  unrun-runs [] = refl
  unrun-runs ((fix, mode) ∷ points) =
      unrun-push fix mode (runs points) ∙ ap (◌∷◌ (fix, mode)) (unrun-runs points)

  -- a run put before others, joined with the first if that has its mode
  unfoldable join : Mode → List (Fix Place) → List (Run Place) → List (Run Place)
  join mode fixes [] = (mode, fixes) ∷ []
  join mode fixes ((next, more) ∷ rest) =
      if is_mode mode next
      then (next, fixes ++ more) ∷ rest
      else (mode, fixes) ∷ (next, more) ∷ rest

  push-join :
      (mode : Mode) (fix next : Fix Place) (fixes : List (Fix Place)) (rest : List (Run Place))
      → push fix mode (join mode (next ∷ fixes) rest) ≡ join mode (fix ∷ next ∷ fixes) rest
  unfolding push join
  push-join mode fix next fixes [] = rw (push, is_mode_refl mode) refl
  push-join mode fix next fixes ((kind, more) ∷ rest) = elim (Bool-cases (is_mode mode kind)) [
    | inl same ↦ rw (join, same, push, same) refl
    | inr apart ↦ rw (join, apart, push, is_mode_refl mode) refl
  ]

  push-one :
      (mode : Mode) (fix : Fix Place) (rest : List (Run Place))
      → push fix mode rest ≡ join mode (fix ∷ []) rest
  unfolding push join
  push-one mode fix [] = refl
  push-one mode fix ((kind, more) ∷ rest) = refl

  runs-join :
      (mode : Mode) (fix : Fix Place) (fixes : List (Fix Place)) (points : List (Fix Place × Mode))
      → runs (map (λ f. (f, mode)) (fix ∷ fixes) ++ points) ≡ join mode (fix ∷ fixes) (runs points)
  unfolding runs
  runs-join mode fix [] points = push-one mode fix (runs points)
  runs-join mode fix (next ∷ fixes) points =
      ap (push fix mode) (runs-join mode next fixes points)
      ∙ push-join mode fix next fixes (runs points)

  -- a property of runs that a run keeps when points of its mode are put before it
  module _ (P : Mode → List (Fix Place) → Type 0)
      (grows : (mode : Mode) (fix : Fix Place) (fixes : List (Fix Place))
        → P mode fixes
        → P mode (fix ∷ fixes)) where
    abbrev pub Holds : List (Run Place) → Type 0
    Holds rest = All (λ (run : Run Place). P run.0 run.1) rest

    grows-append :
        (mode : Mode) (fixes more : List (Fix Place)) → P mode more → P mode (fixes ++ more)
    grows-append mode [] more h = h
    grows-append mode (fix ∷ fixes) more h =
        grows mode fix (fixes ++ more) (grows-append mode fixes more h)

    join-Holds :
        (mode : Mode) (fixes : List (Fix Place)) (rest : List (Run Place))
        → P mode fixes
        → Holds rest
        → Holds (join mode fixes rest)
    unfolding join
    join-Holds mode fixes [] h k = (h, tt)
    join-Holds mode fixes ((next, more) ∷ rest) h k = elim (Bool-cases (is_mode mode next)) [
      | inl same ↦ rw (join, same) (grows-append next fixes more k.0, k.1)
      | inr apart ↦ rw (join, apart) (h, k)
    ]

    -- Runs that have the property have it when they are joined.
    pub runs-Holds : (rest : List (Run Place)) → Holds rest → Holds (runs (unrun rest))
    unfolding unrun runs
    runs-Holds [] h = tt
    runs-Holds ((mode, []) ∷ rest) h = runs-Holds rest h.1
    runs-Holds ((mode, fix ∷ fixes) ∷ rest) h =
        subst Holds (sym (runs-join mode fix fixes (unrun rest)))
          (join-Holds mode (fix ∷ fixes) (runs (unrun rest)) h.0 (runs-Holds rest h.1))
