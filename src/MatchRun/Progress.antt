-- ===== src/MatchRun/Progress.antt =====
-- The progress that a client is told of: how many events there are, and that each phase is told to
-- be complete.
use wanderbound.Prelude.{
  ℕ, suc, ◌+◌, ◌≡◌, refl, ap, ◌∙◌, subst, arith, String, Bool, true, not, nat_eq, Option, none,
  some, List, [], ◌∷◌, ◌++◌, map, filter, length, length-append, min,
}
use wanderbound.Matching.{Solver, PickedMediaItem}
use wanderbound.MatchRun.{
  MatchPhase, preparing, matching, UpgradeEvent, match_in_progress, Hashed, is_progress_checkpoint,
  phase_progress, Tasks, is_persisted, hash_local_media, hash_candidate_media, run_matching,
}
use wanderbound.MatchRun.Checkpoints.{length-phase_progress, share-last, share_whole, minus_one}

length-map : {A B : Type 0} (f : A → B) (xs : List A) → length (map f xs) ≡ length xs
length-map f [] = refl
length-map f (x ∷ xs) = ap suc (length-map f xs)

length-parts :
    {A : Type 0} (p : A → Bool) (xs : List A)
    → length (filter p xs) + length (filter (λ x. not (p x)) xs) ≡ length xs
length-parts p [] = refl
length-parts p (x ∷ xs) = ground (arith, length-parts p xs)

length-hash_local_media :
    (tasks : Tasks) (names : List String)
    → ((xs : List String) → length (tasks.complete xs) ≡ length xs)
    → length (hash_local_media tasks names) ≡ length names
unfolding hash_local_media
length-hash_local_media tasks names each =
    let kept = filter (is_persisted tasks) names in
    let others = filter (λ name. not (is_persisted tasks name)) names in
    let stored : String → Hashed = λ name. (name, tasks.persisted name) in
    let computed : String → Hashed = λ name. (name, tasks.hash_local name) in
    omega (
      arith,
      length-append {0} (map stored kept) (map computed (tasks.complete others)),
      length-map stored kept,
      length-map computed (tasks.complete others),
      each others,
      length-parts (is_persisted tasks) names,
    )

length-phase :
    (phase : MatchPhase) (total : ℕ) (items : List Hashed)
    → length items ≡ total
    → length (phase_progress phase total 0 items) ≡ min total 100
length-phase phase total items h =
    subst (λ t. length (phase_progress phase t 0 items) ≡ min t 100) h
      (length-phase_progress phase items)

length-events :
    (first second : List UpgradeEvent) (last : UpgradeEvent)
    → length (first ++ second ++ last ∷ []) ≡ length first + length second + 1
length-events first second last =
    omega (arith, length-append {0} (first ++ second) (last ∷ []), length-append {0} first second)

-- A run tells an event for each photo, or a hundred where there are more, as many for the items, and
-- one at its end, where the tasks that are started complete once each.
pub length-run_matching :
    (tasks : Tasks) (solve : Solver) (threshold : ℕ) (names : List String)
    (items : List PickedMediaItem) (upgrade_candidates : Option (List String))
    → ((xs : List String) → length (tasks.complete xs) ≡ length xs)
    → length (run_matching tasks solve threshold names items upgrade_candidates)
      ≡ min (length names) 100 + min (length items) 100 + 1
unfolding run_matching hash_candidate_media
length-run_matching tasks solve threshold names items upgrade_candidates each =
    let ids = map (λ (item : PickedMediaItem). item.id) items in
    let computed : String → Hashed = λ id. (id, tasks.hash_candidate id) in
    let count_ids = length-map (λ (item : PickedMediaItem). item.id) items in
    let photos =
      length-phase preparing (length names) (hash_local_media tasks names)
        (length-hash_local_media tasks names each) in
    let candidates =
      length-phase matching (length ids) (hash_candidate_media tasks ids)
        (length-map computed (tasks.complete ids) ∙ each ids) in
    length-events (phase_progress preparing (length names) 0 (hash_local_media tasks names))
      (phase_progress matching (length ids) 0 (hash_candidate_media tasks ids)) _
    ∙ rw (photos, candidates, count_ids) refl

abbrev pub last_told : List UpgradeEvent → Option UpgradeEvent
last_told [] = none
last_told (event ∷ events) = elim (last_told events) [ none ↦ some event | some later ↦ some later ]

total-Checkpoint : (done : ℕ) → is_progress_checkpoint (done + 1) (done + 1) ≡ true
unfolding is_progress_checkpoint
total-Checkpoint done =
    rw (is_progress_checkpoint, minus_one done)
      (ground (arith, share-last done (done + 1) refl, share_whole (done + 1) (omega arith)))

last-from :
    (phase : MatchPhase) (total done : ℕ) (item : Hashed) (items : List Hashed)
    → done + length (item ∷ items) ≡ total
    → last_told (phase_progress phase total done (item ∷ items))
      ≡ some (match_in_progress phase total total)
unfolding phase_progress
last-from phase total done item [] h =
    subst
      (λ t.
        last_told (phase_progress phase t done (item ∷ [])) ≡ some (match_in_progress phase t t))
      h (rw (phase_progress, total-Checkpoint done) refl)
last-from phase total done item (next ∷ items) h =
    let rest = last-from phase total (done + 1) next items (omega (arith, h)) in
    ground (arith, rest)

-- The last event of a phase that has something to do tells that all is done.
pub last_told-phase_progress :
    (phase : MatchPhase) (item : Hashed) (items : List Hashed)
    → last_told (phase_progress phase (length (item ∷ items)) 0 (item ∷ items))
      ≡ some (match_in_progress phase (length (item ∷ items)) (length (item ∷ items)))
last_told-phase_progress phase item items =
    last-from phase (length (item ∷ items)) 0 item items (omega arith)
