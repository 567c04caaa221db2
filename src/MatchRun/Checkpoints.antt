-- ===== src/MatchRun/Checkpoints.antt =====
-- How many of the numbers up to a total are checkpoints, and that the total is one.
use native.Mathlib.Nat.{
  div-lt_iff_lt-mul, le-div_iff_mul-le, div-mul-le_self, lt-div-mul-add, mul-div_cancel_left,
}
use wanderbound.Prelude.{
  ℕ, suc, ◌+◌, ◌-◌, ◌*◌, ◌/◌, ◌≤◌, ◌<◌, ◌≡◌, refl, ap, ◌∙◌, arith, nat_eq, List, [], ◌∷◌, length,
  leb, min, if◌then◌else◌, Bool-cases, inl, inr,
}
use wanderbound.MatchRun.{MatchPhase, Hashed, is_progress_checkpoint, phase_progress}

abbrev pub share : ℕ → ℕ → ℕ
share done total = done * 100 / total

-- one more that is done is at most one more hundredth
share-grows : (done total : ℕ) → 100 < total → share done total ≤ share (done + 1) total
share-grows done total h =
    (le-div_iff_mul-le {k = total} {x = share done total} {y = (done + 1) * 100}
        (omega (arith, h))).1
      (omega (arith, div-mul-le_self (done * 100) total))

share-step : (done total : ℕ) → 100 < total → share (done + 1) total ≤ share done total + 1
share-step done total h =
    let under =
      (div-lt_iff_lt-mul {k = total} {x = (done + 1) * 100} {y = share done total + 2}
          (omega (arith, h))).1
        (omega (arith, h, lt-div-mul-add {a = done * 100} {b = total} (omega (arith, h)))) in
    omega (arith, under)

pub share-last : (done total : ℕ) → done + 1 ≡ total → share done total < 100
share-last done total h =
    (div-lt_iff_lt-mul {k = total} {x = done * 100} {y = 100} (omega (arith, h))).1
      (omega (arith, h))

share_none : (total : ℕ) → 0 < total → share 0 total ≡ 0
share_none total h =
    omega (arith, (div-lt_iff_lt-mul {k = total} {x = 0 * 100} {y = 1} h).1 (omega (arith, h)))

pub share_whole : (total : ℕ) → 0 < total → share total total ≡ 100
share_whole total h = mul-div_cancel_left 100 h

pub minus_one : (n : ℕ) → n + 1 - 1 ≡ n
minus_one n = omega arith

plus_none : (n : ℕ) → n + 0 ≡ n
plus_none n = omega arith

none_plus : (n : ℕ) → 0 + n ≡ n
none_plus n = omega arith

plus_one : (m n : ℕ) → m + 1 + n ≡ m + suc n
plus_one m n = omega arith

share-checkpoint :
    (done total : ℕ)
    → 100 < total
    → share (done + 1) total
      ≡ share done total + (if is_progress_checkpoint (done + 1) total then 1 else 0)
unfolding is_progress_checkpoint
share-checkpoint done total h =
    rw (is_progress_checkpoint, minus_one done)
      (ground (arith, h, share-grows done total h, share-step done total h))

-- the number of the events that are still to come, in hundredths
phase_progress-share :
    (phase : MatchPhase) (total done : ℕ) (items : List Hashed)
    → 100 < total
    → length (phase_progress phase total done items) + share done total
      ≡ share (done + length items) total
unfolding phase_progress
phase_progress-share phase total done [] h = rw (plus_none done) (omega arith)
phase_progress-share phase total done (item ∷ items) h =
    let rest =
      phase_progress-share phase total (done + 1) items h
      ∙ ap (λ n. share n total) (plus_one done (length items)) in
    ground (arith, share-checkpoint done total h, rest)

phase_progress-all :
    (phase : MatchPhase) (total done : ℕ) (items : List Hashed)
    → total ≤ 100
    → length (phase_progress phase total done items) ≡ length items
unfolding phase_progress is_progress_checkpoint
phase_progress-all phase total done [] h = refl
phase_progress-all phase total done (item ∷ items) h =
    ground (arith, h, phase_progress-all phase total (done + 1) items h)

-- A phase with as many items as its total has an event for each of them, or a hundred.
pub length-phase_progress :
    (phase : MatchPhase) (items : List Hashed)
    → length (phase_progress phase (length items) 0 items) ≡ min (length items) 100
length-phase_progress phase items = elim (Bool-cases (leb (length items) 100)) [
  | inl few ↦
      let fewer : length items ≤ 100 = ground (arith, few) in
      omega (arith, fewer, phase_progress-all phase (length items) 0 items fewer)
  | inr many ↦
      let more : 100 < length items = ground (arith, many) in
      omega (
        arith,
        more,
        phase_progress-share phase (length items) 0 items more,
        share_none (length items) (omega (arith, more)),
        share_whole (length items) (omega (arith, more)),
        ap (λ n. share n (length items)) (none_plus (length items)),
      )
]
