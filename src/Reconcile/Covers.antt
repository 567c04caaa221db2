-- ===== src/Reconcile/Covers.antt =====
-- `_fix_album_covers` of backend/app/logic/reconcile.py: chapter covers that the upload does not
-- have, or that are no longer plain photos, are replaced. The set of eligible covers is a list
-- without a fixed order: its head is what `next(iter(…))` returns.
use wanderbound.Prelude.{
  ◌≡◌, refl, ap, String, Bool, true, false, ◌&&◌, Option, none, some, List, [], ◌∷◌, map, arith,
  contains, eq_refl, string_eq, ◌==◌, all, is_empty, if◌then◌else◌, Bool-cases, inl, inr,
}
use wanderbound.Chapters.{Chapter}
use wanderbound.Chapters.Scanned.{ids}
use wanderbound.Reconcile.{StepRead}

-- `a or b` of a name that may be absent or empty
unfoldable pub or_else : Option String → String → String
or_else none other = other
or_else (some name) other = if name == "" then other else name

unfoldable pub any_of : List String → String
any_of [] = ""
any_of (name ∷ _) = name

-- `next((s.cover for s in steps if s.cover in eligible_covers), None)`
unfoldable pub first_eligible : List String → List (Option String) → Option String
first_eligible eligible [] = none
first_eligible eligible (none ∷ covers) = first_eligible eligible covers
first_eligible eligible (some name ∷ covers) =
    if contains eligible name then some name else first_eligible eligible covers

module _ {Text Place Weather : Type 0} where
  unfoldable pub cover_fallback : List String → String → List (StepRead Text Place Weather) → String
  unfolding or_else any_of first_eligible
  cover_fallback eligible cover_name steps =
      if contains eligible cover_name
      then cover_name
      else or_else (first_eligible eligible (map (λ s. s.cover) steps)) (any_of eligible)

unfoldable pub fix_cover : List String → String → String → String
fix_cover eligible fallback cover = if contains eligible cover then cover else fallback

unfoldable pub fix_chapters : List String → String → List Chapter → List Chapter
unfolding fix_cover
fix_chapters eligible fallback [] = []
fix_chapters eligible fallback (c ∷ chapters) =
    record c {
      front_cover_photo = fix_cover eligible fallback c.front_cover_photo;
      back_cover_photo = fix_cover eligible fallback c.back_cover_photo;
    }
    ∷ fix_chapters eligible fallback chapters

module _ {Text Place Weather : Type 0} where
  unfoldable pub fix_album_covers :
      List Chapter → List String → String → List (StepRead Text Place Weather) → List Chapter
  unfolding cover_fallback fix_chapters
  fix_album_covers chapters eligible cover_name steps =
      fix_chapters eligible (cover_fallback eligible cover_name steps) chapters

first_eligible-mem :
    (eligible : List String) (covers : List (Option String)) (name : String)
    → first_eligible eligible covers ≡ some name
    → contains eligible name ≡ true
unfolding first_eligible
first_eligible-mem eligible [] name h = cc
first_eligible-mem eligible (none ∷ covers) name h = first_eligible-mem eligible covers name h
first_eligible-mem eligible (some x ∷ covers) name h = elim (Bool-cases (contains eligible x)) [
  | inl there ↦ ground (arith, h)
  | inr not_there ↦ first_eligible-mem eligible covers name (rw not_there at h)
]

any_of-mem :
    (eligible : List String)
    → is_empty eligible ≡ false
    → contains eligible (any_of eligible) ≡ true
unfolding any_of
any_of-mem [] h = absurd (ground arith)
any_of-mem (x ∷ eligible) h = ground (arith, eq_refl x)

or_else-mem :
    (eligible : List String) (found : Option String)
    → is_empty eligible ≡ false
    → ((name : String) → found ≡ some name → contains eligible name ≡ true)
    → contains eligible (or_else found (any_of eligible)) ≡ true
unfolding or_else
or_else-mem eligible none h k = any_of-mem eligible h
or_else-mem eligible (some name) h k = ground (arith, any_of-mem eligible h, k name refl)

cover_fallback-eligible :
    {Text Place Weather : Type 0} (eligible : List String) (cover_name : String)
    (steps : List (StepRead Text Place Weather))
    → is_empty eligible ≡ false
    → contains eligible (cover_fallback eligible cover_name steps) ≡ true
unfolding cover_fallback
cover_fallback-eligible eligible cover_name steps h =
    elim (Bool-cases (contains eligible cover_name)) [
      | inl there ↦ ground arith
      | inr not_there ↦ rw not_there (
          or_else-mem eligible (first_eligible eligible (map (λ s. s.cover) steps)) h
            (first_eligible-mem eligible (map (λ s. s.cover) steps)))
    ]

abbrev pub covers_in : List String → Chapter → Bool
covers_in eligible c = contains eligible c.front_cover_photo && contains eligible c.back_cover_photo

fix_chapters-eligible :
    (eligible : List String) (fallback : String) (chapters : List Chapter)
    → contains eligible fallback ≡ true
    → all (covers_in eligible) (fix_chapters eligible fallback chapters) ≡ true
unfolding fix_chapters
fix_chapters-eligible eligible fallback [] h = refl
fix_chapters-eligible eligible fallback (c ∷ chapters) h =
    ground (arith, fix_chapters-eligible eligible fallback chapters)

ids-fix_chapters :
    (eligible : List String) (fallback : String) (chapters : List Chapter)
    → (ids (fix_chapters eligible fallback chapters) ≡ ids chapters)
      × (map (λ c. c.step_ids) (fix_chapters eligible fallback chapters)
          ≡ map (λ c. c.step_ids) chapters)
unfolding fix_chapters
ids-fix_chapters eligible fallback [] = (refl, refl)
ids-fix_chapters eligible fallback (c ∷ chapters) =
    let (keys, steps) = ids-fix_chapters eligible fallback chapters in
    (ap (◌∷◌ c.id) keys, ap (◌∷◌ c.step_ids) steps)

-- Where any cover is eligible, both covers of every chapter are eligible afterwards; the ids and
-- the steps of the chapters are untouched.
pub fix_album_covers-eligible :
    {Text Place Weather : Type 0} (chapters : List Chapter) (eligible : List String)
    (cover_name : String) (steps : List (StepRead Text Place Weather))
    → is_empty eligible ≡ false
    → (all (covers_in eligible) (fix_album_covers chapters eligible cover_name steps) ≡ true)
      × (ids (fix_album_covers chapters eligible cover_name steps) ≡ ids chapters)
      × (map (λ c. c.step_ids) (fix_album_covers chapters eligible cover_name steps)
          ≡ map (λ c. c.step_ids) chapters)
unfolding fix_album_covers
fix_album_covers-eligible chapters eligible cover_name steps h =
    let fallback = cover_fallback eligible cover_name steps in
    let (keys, step_ids) = ids-fix_chapters eligible fallback chapters in
    (
      fix_chapters-eligible eligible fallback chapters
          (cover_fallback-eligible eligible cover_name steps h),
      keys,
      step_ids,
    )
