-- ===== src/Chapters/Scope.antt =====
-- What is printed of an album when one chapter is asked for: the projections of
-- backend/app/logic/chapters.py and `build_print_bundle_scope` of backend/app/logic/album_scope.py.
-- A timestamp and a date are only compared, and stand as natural numbers. The length of a track is
-- computed in floating point: `total_length_km`, Python's sum of floats
-- and the rounding are parameters.
use wanderbound.Prelude.{
  ℕ, ◌≤◌, ◌≡◌, refl, List, [], ◌∷◌, map, Option, none, some, arith, String, true, ◌&&◌, contains,
  count, if◌then◌else◌, filter, any, leb, nat_eq, string_eq, nat_beq_iff, ◌==◌, set_union, length,
  contains-set_union, count-append, count_pos, count-eq_zero,
}
use wanderbound.Chapters.{Chapter}
use wanderbound.Chapters.Scanned.{all_step_ids}
use wanderbound.Chapters.Partition.{IsPartition}

pub record Step : Type 0 where
  pub id : ℕ
  pub timestamp : ℕ
  pub date : ℕ

pub record Segment (Point : Type 0) : Type 0 where
  pub start_time : ℕ
  pub end_time : ℕ
  pub points : List Point

unfoldable pub find_chapter : List Chapter → String → Option Chapter
find_chapter [] chapter_id = none
find_chapter (chapter ∷ chapters) chapter_id =
    if chapter.id == chapter_id then some chapter else find_chapter chapters chapter_id

unfoldable pub steps_for_chapter : List Step → Chapter → List Step
steps_for_chapter steps chapter =
    let wanted = set_union [] chapter.step_ids in filter (λ step. contains wanted step.id) steps

-- `steps[-1]`
unfoldable pub last_step : Step → List Step → Step
last_step step [] = step
last_step step (next ∷ steps) = last_step next steps

module _ {Point : Type 0} where
  unfoldable pub segments_for_steps : List (Segment Point) → List Step → List (Segment Point)
  unfolding last_step
  segments_for_steps segments [] = []
  segments_for_steps segments (step ∷ steps) =
      let start = step.timestamp in
      let end = (last_step step steps).timestamp in
      filter (λ segment. leb segment.start_time end && leb start segment.end_time) segments

abbrev pub DateRange : Type 0
DateRange = ℕ × ℕ

unfoldable pub map_ranges_for_steps : List DateRange → List Step → List DateRange
map_ranges_for_steps ranges steps =
    let step_dates = set_union [] (map (λ step. step.date) steps) in
    filter (λ (range : DateRange). any (λ date. leb range.0 date && leb date range.1) step_dates)
      ranges

-- the album, with the settings and the media that every scope keeps
pub record PrintAlbum (S : Type 0) : Type 0 where
  pub chapters : List Chapter
  pub maps_ranges : List DateRange
  pub rest : S

unfoldable pub album_for_chapter : {S : Type 0} → PrintAlbum S → Chapter → List Step → PrintAlbum S
unfolding map_ranges_for_steps
album_for_chapter album chapter steps = record {
  chapters = chapter ∷ [];
  maps_ranges = map_ranges_for_steps album.maps_ranges steps;
  rest = album.rest;
}

pub record PrintBundle (S Point F : Type 0) : Type 0 where
  pub album : PrintAlbum S
  pub steps : List Step
  pub segments : List (Segment Point)
  pub total_distance_km : F

module _ {Point F : Type 0} (sum_km : List F → F) (round_km : F → F)
    (total_length_km : List Point → F) where
  unfoldable pub total_distance_km : List (Segment Point) → F
  total_distance_km segments =
      round_km (sum_km (map (λ segment. total_length_km segment.points) segments))

module _ {S Point F : Type 0} (sum_km : List F → F) (round_km : F → F)
    (total_length_km : List Point → F) where
  unfoldable pub bundle : PrintAlbum S → List Step → List (Segment Point) → PrintBundle S Point F
  unfolding total_distance_km
  bundle album steps segments = record {
    album = album;
    steps = steps;
    segments = segments;
    total_distance_km = total_distance_km sum_km round_km total_length_km segments;
  }

  unfoldable pub chapter_bundle :
      PrintAlbum S → List Step → List (Segment Point) → Chapter → PrintBundle S Point F
  unfolding bundle album_for_chapter
  chapter_bundle album steps segments chapter =
      let scoped_steps = steps_for_chapter steps chapter in
      bundle (album_for_chapter album chapter scoped_steps) scoped_steps
        (segments_for_steps segments scoped_steps)

  -- `none` is the ChapterNotFoundError.
  unfoldable pub build_print_bundle_scope :
      PrintAlbum S
      → List Step
      → List (Segment Point)
      → Option String
      → Option (PrintBundle S Point F)
  unfolding chapter_bundle
  build_print_bundle_scope album steps segments none = some (bundle album steps segments)
  build_print_bundle_scope album steps segments (some chapter_id) =
      elim (find_chapter album.chapters chapter_id) [
        | none ↦ none
        | some chapter ↦ some (chapter_bundle album steps segments chapter)
      ]

filter_by_id :
    (wanted : List ℕ) (steps : List Step) (i : ℕ)
    → contains (map (λ s. s.id) (filter (λ step. contains wanted step.id) steps)) i
      ≡ (contains (map (λ s. s.id) steps) i && contains wanted i)
filter_by_id wanted [] i = refl
filter_by_id wanted (step ∷ steps) i =
    ground (arith, filter_by_id wanted steps i, nat_beq_iff i step.id)

abbrev pub step_ids_of : List Step → List ℕ
step_ids_of = map (λ s. s.id)

scope_ids :
    (steps : List Step) (c : Chapter) (i : ℕ)
    → contains (step_ids_of (steps_for_chapter steps c)) i
      ≡ (contains (step_ids_of steps) i && contains c.step_ids i)
unfolding steps_for_chapter
scope_ids steps c i =
    ground
      (arith, filter_by_id (set_union [] c.step_ids) steps i, contains-set_union [] c.step_ids i)

-- The chapters in whose scope a step stands.
abbrev pub scopes_with : List Step → List Chapter → ℕ → List Chapter
scopes_with steps chapters i =
    filter (λ c. contains (step_ids_of (steps_for_chapter steps c)) i) chapters

length-scopes_with :
    (steps : List Step) (chapters : List Chapter) (i : ℕ)
    → contains (step_ids_of steps) i ≡ true
    → count (all_step_ids chapters) i ≤ 1
    → length (scopes_with steps chapters i) ≡ count (all_step_ids chapters) i
length-scopes_with steps [] i known few = refl
length-scopes_with steps (c ∷ chapters) i known few =
    let split = count-append c.step_ids (all_step_ids chapters) i in
    let rest = length-scopes_with steps chapters i known (omega (arith, split)) in
    ground
      (arith, split, rest, scope_ids steps c i, count_pos c.step_ids i, count-eq_zero c.step_ids i)

-- In an album whose chapters divide its steps, every step is printed with exactly one chapter.
pub scopes_with_unique :
    (steps : List Step) (chapters : List Chapter) (i : ℕ)
    → IsPartition chapters (step_ids_of steps)
    → contains (step_ids_of steps) i ≡ true
    → length (scopes_with steps chapters i) ≡ 1
scopes_with_unique steps chapters i h known =
    let once = h.covered i in
    ground (arith, once, length-scopes_with steps chapters i known (ground (arith, once)))
