-- ===== src/Chapters/Scanned.antt =====
-- What the loop over the chapters of a payload accepts, and the set of steps that it collects.
use wanderbound.Prelude.{
  ℕ, ◌≡◌, refl, ◌∙◌, String, Bool, true, false, not, ◌&&◌, ◌||◌, arith, List, [], ◌∷◌, ◌++◌, map,
  contains, contains-set_add, contains-append, fresh, set_add, set_union, nat_eq, string_eq,
  fresh-append, is_empty, flatten, all, Bool-cases, inl, inr,
}
use wanderbound.Chapters.{
  Chapter, ChapterError, duplicate_chapter, no_steps, already_assigned, Scan, ok, err, fresh_scan,
  scan_step, scan_steps, scan_chapters, no_duplicate, validate_chapter_payload,
}

abbrev pub ids : List Chapter → List String
ids = map (λ c. c.id)

abbrev pub all_step_ids : List Chapter → List ℕ
all_step_ids chapters = flatten (map (λ c. c.step_ids) chapters)

abbrev pub has_steps : Chapter → Bool
has_steps c = not (is_empty c.step_ids)

scan_steps-requested :
    (s : Scan) (steps : List ℕ) (i : ℕ)
    → contains (scan_steps s steps).requested i ≡ (contains s.requested i || contains steps i)
unfolding scan_steps
scan_steps-requested s [] i = ground arith
scan_steps-requested s (x ∷ steps) i =
    ground (arith, scan_steps-requested (scan_step s x) steps i, contains-set_add s.requested x i)

scan_steps-assigned :
    (s : Scan) (steps : List ℕ) → (scan_steps s steps).assigned ≡ set_union s.assigned steps
unfolding scan_steps
scan_steps-assigned s [] = refl
scan_steps-assigned s (x ∷ steps) = scan_steps-assigned (scan_step s x) steps

scan_steps-chapter_ids :
    (s : Scan) (steps : List ℕ) → (scan_steps s steps).chapter_ids ≡ s.chapter_ids
unfolding scan_steps
scan_steps-chapter_ids s [] = refl
scan_steps-chapter_ids s (x ∷ steps) = scan_steps-chapter_ids (scan_step s x) steps

is_empty-snoc {ℓ} : {A : Type ℓ} (xs : List A) (x : A) → is_empty (xs ++ x ∷ []) ≡ false
is_empty-snoc [] x = refl
is_empty-snoc (y ∷ xs) x = refl

scan_steps-duplicates :
    (s : Scan) (steps : List ℕ)
    → is_empty (scan_steps s steps).duplicates ≡ (is_empty s.duplicates && fresh s.assigned steps)
unfolding scan_steps
scan_steps-duplicates s [] = ground arith
scan_steps-duplicates s (x ∷ steps) =
    ground (arith, scan_steps-duplicates (scan_step s x) steps, is_empty-snoc s.duplicates x)

-- the variables after the loop, where no check stops it
pub after : Scan → List Chapter → Scan
after s [] = s
after s (c ∷ chapters) =
    after (scan_steps (record s { chapter_ids = set_add s.chapter_ids c.id }) c.step_ids) chapters

abbrev pub passes : Scan → List Chapter → Bool
passes s chapters = fresh s.chapter_ids (ids chapters) && all has_steps chapters

abbrev entered : Scan → Chapter → Scan
entered s c = record s { chapter_ids = set_add s.chapter_ids c.id }

scan_chapters-of_passes :
    (s : Scan) (chapters : List Chapter)
    → passes s chapters ≡ true
    → scan_chapters s chapters ≡ ok (after s chapters)
unfolding scan_chapters after
scan_chapters-of_passes s [] h = refl
scan_chapters-of_passes s (c ∷ chapters) h =
    let ids_kept = scan_steps-chapter_ids (entered s c) c.step_ids in
    let rest =
      scan_chapters-of_passes (scan_steps (entered s c) c.step_ids) chapters
        (rw ids_kept (ground arith)) in
    ground (arith, rest)

scan_chapters-of_fails :
    (s : Scan) (chapters : List Chapter)
    → passes s chapters ≡ false
    → (x : ChapterError) × (scan_chapters s chapters ≡ err x)
unfolding scan_chapters
scan_chapters-of_fails s [] h = absurd (ground arith)
scan_chapters-of_fails s (c ∷ chapters) h = elim (Bool-cases (contains s.chapter_ids c.id)) [
  | inl old ↦ (duplicate_chapter c.id, rw old refl)
  | inr new ↦ elim (Bool-cases (is_empty c.step_ids)) [
    | inl empty ↦ (no_steps c.id, rw (new, empty) refl)
    | inr full ↦
        let ids_kept = scan_steps-chapter_ids (entered s c) c.step_ids in
        let (x, e) =
          scan_chapters-of_fails (scan_steps (entered s c) c.step_ids) chapters
            (rw ids_kept (ground arith)) in
        (x, ground (arith, e))
  ]
]

pub after-requested :
    (s : Scan) (chapters : List Chapter) (i : ℕ)
    → contains (after s chapters).requested i
      ≡ (contains s.requested i || contains (all_step_ids chapters) i)
unfolding after
after-requested s [] i = ground arith
after-requested s (c ∷ chapters) i = ground (
  arith,
  after-requested (scan_steps (entered s c) c.step_ids) chapters i,
  scan_steps-requested (entered s c) c.step_ids i,
  contains-append c.step_ids (all_step_ids chapters) i,
)

after-duplicates :
    (s : Scan) (chapters : List Chapter)
    → is_empty (after s chapters).duplicates
      ≡ (is_empty s.duplicates && fresh s.assigned (all_step_ids chapters))
unfolding after
after-duplicates s [] = ground arith
after-duplicates s (c ∷ chapters) =
    let assigned = scan_steps-assigned (entered s c) c.step_ids in
    let first = scan_steps-duplicates (entered s c) c.step_ids in
    let rest = after-duplicates (scan_steps (entered s c) c.step_ids) chapters in
    rest ∙ (rw (first, assigned, fresh-append) (ground arith))

-- what the payload check accepts
unfoldable pub payload_ok : List Chapter → Bool
payload_ok chapters = passes fresh_scan chapters && fresh [] (all_step_ids chapters)

no_duplicate-of_full :
    (s : Scan) (xs : List ℕ)
    → is_empty xs ≡ false
    → (x : ChapterError) × (no_duplicate s xs ≡ err x)
unfolding no_duplicate
no_duplicate-of_full s [] h = absurd (ground arith)
no_duplicate-of_full s (y ∷ xs) h = (already_assigned y, refl)

pub payload-of_ok :
    (chapters : List Chapter)
    → payload_ok chapters ≡ true
    → validate_chapter_payload chapters ≡ ok (after fresh_scan chapters).requested
unfolding validate_chapter_payload payload_ok no_duplicate
payload-of_ok chapters h =
    let scanned = scan_chapters-of_passes fresh_scan chapters (ground arith) in
    ground (arith, scanned, after-duplicates fresh_scan chapters)

pub payload-of_not_ok :
    (chapters : List Chapter)
    → payload_ok chapters ≡ false
    → (x : ChapterError) × (validate_chapter_payload chapters ≡ err x)
unfolding validate_chapter_payload payload_ok
payload-of_not_ok chapters h = elim (Bool-cases (passes fresh_scan chapters)) [
  | inl good ↦
      let repeated : is_empty (after fresh_scan chapters).duplicates ≡ false =
        ground (arith, after-duplicates fresh_scan chapters) in
      rw (scan_chapters-of_passes fresh_scan chapters good) (
        no_duplicate-of_full (after fresh_scan chapters) (after fresh_scan chapters).duplicates
          repeated)
  | inr bad ↦ let (x, e) = scan_chapters-of_fails fresh_scan chapters bad in (x, rw e refl)
]
