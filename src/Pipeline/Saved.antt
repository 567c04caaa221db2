-- ===== src/Pipeline/Saved.antt =====
-- The tables after a save over stored albums, as a map from keys to values.
use wanderbound.Prelude.{
  ℕ, ◌≡◌, refl, ◌∙◌, ap, sym, arith, Bool, true, false, not, ◌||◌, string_eq, nat_eq, eq_comm, inl,
  inr, String, Option, none, some, List, [], ◌∷◌, filter, any, Bool-cases, if◌then◌else◌, contains,
}
use wanderbound.Pipeline.{
  Model, album, album_media, step, step_page, step_page_slot, step_unused_media, segment, is_model,
  Key, Row, same_key, models, model_rows, merge_row, merge_rows, merge_models, merge_objects, Save,
  committed, refused, failed, save_reupload, is_reconciled, is_orphan,
}

unfoldable pub find_row : List Row → Key → Option ℕ
find_row [] key = none
find_row (row ∷ rows) key = if same_key row.key key then some row.value else find_row rows key

abbrev pub or_stored : Option ℕ → Option ℕ → Option ℕ
or_stored none stored = stored
or_stored (some value) stored = some value

-- the value of the last of the rows that have the key
unfoldable pub last_written : List Row → Key → Option ℕ
last_written [] key = none
last_written (row ∷ rows) key =
    or_stored (last_written rows key) (if same_key row.key key then some row.value else none)

same_key-congr : (a b c : Key) → same_key a b ≡ true → same_key a c ≡ same_key b c
unfolding same_key is_model
same_key-congr a b c h =
    ground (arith, h, string_eq.same_iff a.aid b.aid, string_eq.same_iff a.id b.id)

same_key_comm : (a b : Key) → same_key a b ≡ same_key b a
unfolding same_key is_model
same_key_comm a b = ground (arith, eq_comm a.aid b.aid, eq_comm a.id b.id)

find-merge_row :
    (table : List Row) (row : Row) (key : Key)
    → find_row (merge_row table row) key
      ≡ (if same_key row.key key then some row.value else find_row table key)
unfolding find_row merge_row
find-merge_row [] row key = refl
find-merge_row (stored ∷ table) row key = elim (Bool-cases (same_key stored.key row.key)) [
  | inl here ↦ ground (arith, here, same_key-congr stored.key row.key key here)
  | inr elsewhere ↦ ground (
    arith,
    elsewhere,
    find-merge_row table row key,
    same_key-congr row.key key stored.key,
    same_key_comm row.key stored.key,
    same_key_comm key stored.key,
  )
]

find-merge_rows :
    (table rows : List Row) (key : Key)
    → find_row (merge_rows table rows) key ≡ or_stored (last_written rows key) (find_row table key)
unfolding merge_rows last_written
find-merge_rows table [] key = refl
find-merge_rows table (row ∷ rows) key =
    ground (arith, find-merge_rows (merge_row table row) rows key, find-merge_row table row key)

-- only the rows of its table have a key
last-model_rows :
    (model : Model) (objects : List Row) (key : Key)
    → last_written (model_rows model objects) key
      ≡ (if is_model key.model model then last_written objects key else none)
unfolding last_written model_rows same_key is_model
last-model_rows model [] key = ground arith
last-model_rows model (row ∷ objects) key = elim (Bool-cases (is_model row.key.model model)) [
  | inl kept ↦ ground (arith, kept, last-model_rows model objects key)
  | inr dropped ↦ ground (arith, dropped, last-model_rows model objects key)
]

find-merge_models :
    (names : List Model) (table objects : List Row) (key : Key)
    → find_row (merge_models names table objects) key ≡ (
        if any (is_model key.model) names
        then or_stored (last_written objects key) (find_row table key)
        else find_row table key)
unfolding merge_models
find-merge_models [] table objects key = refl
find-merge_models (model ∷ names) table objects key = ground (
  arith,
  find-merge_models names (merge_rows table (model_rows model objects)) objects key,
  find-merge_rows table (model_rows model objects) key,
  last-model_rows model objects key,
)

any-models : (model : Model) → any (is_model model) models ≡ true
unfolding is_model
any-models album = refl
any-models album_media = refl
any-models step = refl
any-models step_page = refl
any-models step_page_slot = refl
any-models step_unused_media = refl
any-models segment = refl

find-filter :
    (p : Key → Bool) (table : List Row) (key : Key)
    → ((a b : Key) → same_key a b ≡ true → p a ≡ p b)
    → find_row (filter (λ (row : Row). p row.key) table) key
      ≡ (if p key then find_row table key else none)
unfolding find_row
find-filter p [] key h = ground arith
find-filter p (row ∷ table) key h = ground (arith, find-filter p table key h, h row.key key)

same_aid : (a b : Key) → same_key a b ≡ true → a.aid ≡ b.aid
unfolding same_key
same_aid a b h = (string_eq.same_iff a.aid b.aid).0 (ground (arith, h))

same_key-reconciled :
    (uid : ℕ) (aids : List String) (a b : Key)
    → same_key a b ≡ true
    → is_reconciled uid aids a ≡ is_reconciled uid aids b
unfolding is_reconciled same_key is_model
same_key-reconciled uid aids a b h = ground (arith, h, ap (contains aids) (same_aid a b h))

same_key-orphan :
    (uid : ℕ) (expected current : List String) (a b : Key)
    → same_key a b ≡ true
    → is_orphan uid expected current a ≡ is_orphan uid expected current b
unfolding is_orphan same_key is_model
same_key-orphan uid expected current a b h =
    ground
      (arith, h, ap (contains expected) (same_aid a b h), ap (contains current) (same_aid a b h))

table_of : List Row → Save → List Row
table_of table (committed saved) = saved
table_of table refused = table
table_of table failed = table

-- A save over stored albums that is committed leaves under each key the last of the new values, and
-- where there is none the stored value, unless the key belongs to a reconciled album or to one that
-- is expected and not in the archive: then nothing. So the rows of other users and of other albums
-- stay as they are, but for the new values.
pub find-save_reupload :
    (table : List Row) (uid : ℕ) (objects : List Row) (reconciled expected current : List String)
    (guard breaks : Bool) (after : List Row) (key : Key)
    → save_reupload table uid objects reconciled expected current guard breaks ≡ committed after
    → find_row after key
      ≡ or_stored (last_written objects key) (
          if is_reconciled uid reconciled key || is_orphan uid expected current key
          then none
          else find_row table key)
unfolding save_reupload merge_objects table_of
find-save_reupload table uid objects reconciled expected current false breaks after key h =
    absurd cc
find-save_reupload table uid objects reconciled expected current true true after key h = absurd cc
find-save_reupload table uid objects reconciled expected current true false after key h =
    let others = filter (λ (row : Row). not (is_reconciled uid reconciled row.key)) table in
    let kept = filter (λ (row : Row). not (is_orphan uid expected current row.key)) others in
    let here : find_row kept key
        ≡ (if not (is_orphan uid expected current key) then find_row others key else none) =
      find-filter (λ k. not (is_orphan uid expected current k)) others key
        (λ a b same. ap not (same_key-orphan uid expected current a b same)) in
    let there : find_row others key
        ≡ (if not (is_reconciled uid reconciled key) then find_row table key else none) =
      find-filter (λ k. not (is_reconciled uid reconciled k)) table key
        (λ a b same. ap not (same_key-reconciled uid reconciled a b same)) in
    sym (ap (λ result. find_row (table_of table result) key) h)
    ∙ find-merge_models models kept objects key
    ∙ ground (arith, any-models key.model, here, there)
