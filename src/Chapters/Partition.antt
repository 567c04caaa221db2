-- ===== src/Chapters/Partition.antt =====
-- When the checks pass: exactly on the lists of chapters that divide the album's steps.
use wanderbound.Prelude.{
  ℕ, ◌≤◌, ◌≡◌, ◌↔◌, refl, String, Bool, true, false, ◌&&◌, arith, some, List, [], ◌∷◌, contains,
  count, count_pos, count-eq_zero, contains-set_union, fresh, fresh→count, count→fresh, set_union,
  nat_eq, string_eq, is_empty, if◌then◌else◌, all, Bool-cases, inl, inr,
}
use wanderbound.Chapters.{Chapter, ChapterError, ok, err, fresh_scan, validate_album_chapters}
use wanderbound.Chapters.Scanned.{
  ids, all_step_ids, has_steps, after, payload_ok, payload-of_ok, payload-of_not_ok,
  after-requested,
}
use wanderbound.Chapters.Coverage.{
  same_steps, same_steps→eq, eq→same_steps, coverage-of_same, coverage-of_different,
}

-- The chapters divide the album's steps among themselves.
pub record IsPartition (chapters : List Chapter) (stored : List ℕ) : Type 0 where
  pub some_chapter : is_empty chapters ≡ false
  pub distinct_ids : (k : String) → count (ids chapters) k ≤ 1
  pub each_has_steps : all has_steps chapters ≡ true
  pub covered : (i : ℕ) → count (all_step_ids chapters) i ≡ (if contains stored i then 1 else 0)

accepts : List Chapter → List ℕ → Bool
accepts chapters stored =
    payload_ok chapters && same_steps (after fresh_scan chapters).requested (set_union [] stored)

requested-eq_steps :
    (chapters : List Chapter) (i : ℕ)
    → contains (after fresh_scan chapters).requested i ≡ contains (all_step_ids chapters) i
requested-eq_steps chapters i = after-requested fresh_scan chapters i

IsPartition-of_accepts :
    (c : Chapter) (cs : List Chapter) (stored : List ℕ)
    → accepts (c ∷ cs) stored ≡ true
    → IsPartition (c ∷ cs) stored
unfolding accepts payload_ok
IsPartition-of_accepts c cs stored h =
    let all = c ∷ cs in
    let steps = all_step_ids all in
    let keys : fresh [] (ids all) ≡ true = ground arith in
    let once : fresh [] steps ≡ true = ground arith in
    let same =
      same_steps→eq (after fresh_scan all).requested (set_union [] stored) (ground arith) in
    record {
      some_chapter = refl;
      distinct_ids = λ k. (fresh→count [] (ids all) keys k).0;
      each_has_steps = ground arith;
      covered = λ i. ground (
        arith,
        same i,
        requested-eq_steps all i,
        contains-set_union [] stored i,
        (fresh→count [] steps once i).0,
        count_pos steps i,
        count-eq_zero steps i,
      );
    }

accepts-of_IsPartition :
    (chapters : List Chapter) (stored : List ℕ)
    → IsPartition chapters stored
    → accepts chapters stored ≡ true
unfolding accepts payload_ok
accepts-of_IsPartition chapters stored h =
    let steps = all_step_ids chapters in
    let keys = count→fresh [] (ids chapters) h.distinct_ids (λ k in_nil. absurd (ground arith)) in
    let once =
      count→fresh [] steps (λ i. ground (arith, h.covered i)) (λ k in_nil. absurd (ground arith)) in
    let same = eq→same_steps (after fresh_scan chapters).requested (set_union [] stored) λ i.
      ground (
        arith,
        h.covered i,
        requested-eq_steps chapters i,
        contains-set_union [] stored i,
        count_pos steps i,
        count-eq_zero steps i,
      ) in
    ground (arith, keys, once, same, h.each_has_steps)

-- a nonempty list is checked by `accepts`
validate-of_accepts :
    (c : Chapter) (cs : List Chapter) (stored : List ℕ)
    → accepts (c ∷ cs) stored ≡ true
    → validate_album_chapters stored (some (some (c ∷ cs))) ≡ ok tt
unfolding validate_album_chapters accepts
validate-of_accepts c cs stored h =
    rw (payload-of_ok (c ∷ cs) (ground arith))
      (coverage-of_same (after fresh_scan (c ∷ cs)).requested (set_union [] stored) (ground arith))

validate-of_not_accepts :
    (c : Chapter) (cs : List Chapter) (stored : List ℕ)
    → accepts (c ∷ cs) stored ≡ false
    → (x : ChapterError) × (validate_album_chapters stored (some (some (c ∷ cs))) ≡ err x)
unfolding validate_album_chapters accepts
validate-of_not_accepts c cs stored h = elim (Bool-cases (payload_ok (c ∷ cs))) [
  | inl good ↦ rw (payload-of_ok (c ∷ cs) good) (
      coverage-of_different (after fresh_scan (c ∷ cs)).requested (set_union [] stored)
        (ground arith))
  | inr bad ↦ let (x, e) = payload-of_not_ok (c ∷ cs) bad in (x, rw e refl)
]

-- A list of chapters is accepted exactly if it divides the album's steps: there is a chapter, no
-- two chapters share an id, no chapter is without steps, and every stored step stands in exactly
-- one place of one chapter and no other step does.
pub validate_album_chapters_iff :
    (chapters : List Chapter) (stored : List ℕ)
    → (validate_album_chapters stored (some (some chapters)) ≡ ok tt) ↔ IsPartition chapters stored
validate_album_chapters_iff [] stored = (
  λ h. absurd (unfold validate_album_chapters in ground arith),
  λ h. absurd (ground (arith, h.some_chapter)),
)
validate_album_chapters_iff (c ∷ cs) stored = elim (Bool-cases (accepts (c ∷ cs) stored)) [
  | inl good ↦
      (λ h. IsPartition-of_accepts c cs stored good, λ h. validate-of_accepts c cs stored good)
  | inr bad ↦
      let (x, e) = validate-of_not_accepts c cs stored bad in
      (λ h. cc, λ h. cc (accepts-of_IsPartition (c ∷ cs) stored h))
]
