-- ===== src/Reconcile/Assignment.antt =====
-- `_assign_new_steps_to_chapters` of backend/app/logic/reconcile.py: the steps that a new upload
-- adds go to the last chapter.
use wanderbound.Prelude.{
  ℕ, ◌+◌, ◌≤◌, some, ◌≢◌, ◌≡◌, refl, ◌∙◌, ap, Bool, true, false, not, ◌||◌, List, [], ◌∷◌, ◌++◌,
  map, arith, contains, contains-append, count, count-append, count-filter, count-eq_zero,
  count_pos, set_union, contains-set_union, nat_eq, string_eq, filter, is_empty, leb, all,
  if◌then◌else◌, Bool-cases, inl, inr,
}
use wanderbound.Prelude.Sorting.{sorted, count-sorted}
use wanderbound.Chapters.{Chapter, ok, validate_album_chapters}
use wanderbound.Chapters.Scanned.{ids, all_step_ids, has_steps}
use wanderbound.Chapters.Partition.{IsPartition, validate_album_chapters_iff}
use wanderbound.Reconcile.{StepRead}

-- `chapters[-1].step_ids = [*chapters[-1].step_ids, *missing]`
unfoldable pub add_to_last : List ℕ → List Chapter → List Chapter
add_to_last missing [] = []
add_to_last missing (chapter ∷ []) = record chapter { step_ids = chapter.step_ids ++ missing } ∷ []
add_to_last missing (chapter ∷ next ∷ chapters) = chapter ∷ add_to_last missing (next ∷ chapters)

module _ {Text Place Weather : Type 0} where
  abbrev pub new_ids : List (StepRead Text Place Weather) → List ℕ
  new_ids = map (λ s. s.id)

  abbrev pub by_time : StepRead Text Place Weather → StepRead Text Place Weather → Bool
  by_time a b = leb a.ps.timestamp b.ps.timestamp

  unfoldable pub assign_new_steps_to_chapters :
      List Chapter → List (StepRead Text Place Weather) → List Chapter
  unfolding add_to_last
  assign_new_steps_to_chapters chapters new_steps =
      let new_step_ids = new_ids (sorted by_time new_steps) in
      let assigned = set_union [] (all_step_ids chapters) in
      let missing = filter (λ step_id. not (contains assigned step_id)) new_step_ids in
      if is_empty chapters || is_empty new_steps
      then chapters
      else if is_empty missing
      then chapters
      else add_to_last missing chapters

count-add_to_last :
    (missing : List ℕ) (chapters : List Chapter) (i : ℕ)
    → is_empty chapters ≡ false
    → count (all_step_ids (add_to_last missing chapters)) i
      ≡ count (all_step_ids chapters) i + count missing i
unfolding add_to_last
count-add_to_last missing [] i h = absurd (ground arith)
count-add_to_last missing (c ∷ []) i h = omega (
  arith,
  count-append (c.step_ids ++ missing) [] i,
  count-append c.step_ids missing i,
  count-append c.step_ids [] i,
)
count-add_to_last missing (c ∷ next ∷ chapters) i h = omega (
  arith,
  count-append c.step_ids (all_step_ids (add_to_last missing (next ∷ chapters))) i,
  count-append c.step_ids (all_step_ids (next ∷ chapters)) i,
  count-add_to_last missing (next ∷ chapters) i refl,
)

ids-add_to_last :
    (missing : List ℕ) (chapters : List Chapter) → ids (add_to_last missing chapters) ≡ ids chapters
unfolding add_to_last
ids-add_to_last missing [] = refl
ids-add_to_last missing (c ∷ []) = refl
ids-add_to_last missing (c ∷ next ∷ chapters) =
    ap (◌∷◌ c.id) (ids-add_to_last missing (next ∷ chapters))

is_empty-add_to_last :
    (missing : List ℕ) (chapters : List Chapter)
    → is_empty (add_to_last missing chapters) ≡ is_empty chapters
unfolding add_to_last
is_empty-add_to_last missing [] = refl
is_empty-add_to_last missing (c ∷ []) = refl
is_empty-add_to_last missing (c ∷ next ∷ chapters) = refl

is_empty-append : (xs ys : List ℕ) → is_empty xs ≡ false → is_empty (xs ++ ys) ≡ false
is_empty-append [] ys h = absurd (ground arith)
is_empty-append (x ∷ xs) ys h = refl

has_steps-add_to_last :
    (missing : List ℕ) (chapters : List Chapter)
    → all has_steps chapters ≡ true
    → all has_steps (add_to_last missing chapters) ≡ true
unfolding add_to_last
has_steps-add_to_last missing [] h = refl
has_steps-add_to_last missing (c ∷ []) h = ground (arith, is_empty-append c.step_ids missing)
has_steps-add_to_last missing (c ∷ next ∷ chapters) h =
    ground (arith, has_steps-add_to_last missing (next ∷ chapters))

count-is_empty : (xs : List ℕ) (i : ℕ) → is_empty xs ≡ true → count xs i ≡ 0
count-is_empty [] i h = refl
count-is_empty (x ∷ xs) i h = absurd (ground arith)

count_of_empty :
    {Text Place Weather : Type 0} (steps : List (StepRead Text Place Weather))
    → is_empty steps ≡ true
    → (i : ℕ) → count (new_ids steps) i ≡ 0
count_of_empty [] h i = refl
count_of_empty (s ∷ steps) h i = absurd (ground arith)

module _ {Text Place Weather : Type 0} (chapters : List Chapter) (stored : List ℕ)
    (new_steps : List (StepRead Text Place Weather)) (h : IsPartition chapters stored)
    (once : (i : ℕ) → count (new_ids new_steps) i ≤ 1) where
  abbrev missing : List ℕ
  missing =
      filter (λ step_id. not (contains (set_union [] (all_step_ids chapters)) step_id))
        (new_ids (sorted by_time new_steps))

  -- the steps that are added are the new ones that the album did not have
  count-missing :
      (i : ℕ) → count missing i ≡ (if contains stored i then 0 else count (new_ids new_steps) i)
  count-missing i = ground (
    arith,
    count-filter (λ step_id. not (contains (set_union [] (all_step_ids chapters)) step_id))
        (new_ids (sorted by_time new_steps)) i,
    count-sorted by_time (λ (s : StepRead Text Place Weather). s.id) new_steps i,
    contains-set_union [] (all_step_ids chapters) i,
    h.covered i,
    count_pos (all_step_ids chapters) i,
    count-eq_zero (all_step_ids chapters) i,
  )

  covered_after :
      (i : ℕ)
      → count (all_step_ids chapters) i + count missing i
        ≡ (if contains (stored ++ new_ids new_steps) i then 1 else 0)
  covered_after i = ground (
    arith,
    count-missing i,
    h.covered i,
    once i,
    contains-append stored (new_ids new_steps) i,
    count_pos (new_ids new_steps) i,
    count-eq_zero (new_ids new_steps) i,
  )

  added-IsPartition : IsPartition (add_to_last missing chapters) (stored ++ new_ids new_steps)
  added-IsPartition = record {
    some_chapter = is_empty-add_to_last missing chapters ∙ h.some_chapter;
    distinct_ids = λ k. rw (ids-add_to_last missing chapters) (h.distinct_ids k);
    each_has_steps = has_steps-add_to_last missing chapters h.each_has_steps;
    covered = λ i. count-add_to_last missing chapters i h.some_chapter ∙ covered_after i;
  }

  unchanged-IsPartition :
      ((i : ℕ) → count missing i ≡ 0) → IsPartition chapters (stored ++ new_ids new_steps)
  unchanged-IsPartition none_left = record {
    some_chapter = h.some_chapter;
    distinct_ids = h.distinct_ids;
    each_has_steps = h.each_has_steps;
    covered = λ i. omega (arith, covered_after i, none_left i);
  }

  -- Chapters that divide the steps of the album divide them together with the new steps, once
  -- these are assigned, whether or not some of the new steps were there before. The new steps are
  -- told apart by their ids.
  pub assign_new_steps-IsPartition :
      IsPartition (assign_new_steps_to_chapters chapters new_steps) (stored ++ new_ids new_steps)
  unfolding assign_new_steps_to_chapters
  assign_new_steps-IsPartition = elim (Bool-cases (is_empty new_steps)) [
    | inl none_new ↦
        rw (h.some_chapter, none_new)
          (unchanged-IsPartition
            (λ i. ground (arith, count-missing i, count_of_empty new_steps none_new i)))
    | inr some_new ↦ elim (Bool-cases (is_empty missing)) [
      | inl none_left ↦
          rw (h.some_chapter, some_new, none_left)
            (unchanged-IsPartition (λ i. count-is_empty missing i none_left))
      | inr some_left ↦ rw (h.some_chapter, some_new, some_left) added-IsPartition
    ]
  ]

assigned-keeps :
    {Text Place Weather : Type 0} (chapters : List Chapter)
    (new_steps : List (StepRead Text Place Weather)) (i : ℕ)
    → count (all_step_ids chapters) i
      ≤ count (all_step_ids (assign_new_steps_to_chapters chapters new_steps)) i
unfolding assign_new_steps_to_chapters
assigned-keeps [] new_steps i = omega arith
assigned-keeps (c ∷ chapters) new_steps i =
    let left =
      filter (λ step_id. not (contains (set_union [] (all_step_ids (c ∷ chapters))) step_id))
        (new_ids (sorted by_time new_steps)) in
    elim (Bool-cases (is_empty new_steps)) [
      | inl none_new ↦ rw none_new (omega arith)
      | inr some_new ↦ elim (Bool-cases (is_empty left)) [
        | inl none_left ↦ rw (some_new, none_left) (omega arith)
        | inr some_left ↦
            rw (some_new, some_left) (omega (arith, count-add_to_last left (c ∷ chapters) i refl))
      ]
    ]

-- A step that an album's chapters hold and that the new upload no longer has stays in a chapter:
-- the chapters that come out are then refused by the checks of a chapter update.
pub assign_new_steps-stale :
    {Text Place Weather : Type 0} (chapters : List Chapter)
    (new_steps : List (StepRead Text Place Weather)) (stored : List ℕ) (i : ℕ)
    → contains (all_step_ids chapters) i ≡ true
    → contains stored i ≡ false
    → validate_album_chapters stored (some (some (assign_new_steps_to_chapters chapters new_steps)))
      ≢ ok tt
assign_new_steps-stale chapters new_steps stored i held gone passed =
    let after =
      (validate_album_chapters_iff (assign_new_steps_to_chapters chapters new_steps) stored).0
        passed in
    absurd (
      ground (
        arith,
        after.covered i,
        count_pos (all_step_ids chapters) i,
        assigned-keeps chapters new_steps i,
      ))
