-- ===== src/Operations/Race.antt =====
-- Two statements that want to end the same operation, as the workflow, its save guard and a new
-- upload do.
use wanderbound.Prelude.{
  ℕ, ◌≡◌, refl, ap, subst, arith, String, Bool, true, false, not, ◌&&◌, ◌==◌, string_eq, nat_eq,
  Option, some, List, [], ◌∷◌, any, Bool-cases, inl, inr,
}
use wanderbound.Operations.{
  Status, queued, running, succeeded, failed, cancelled, stale, Operation, is_active, is_terminal,
  is_stale, update_where, is_active_row, mark_processing_operation_running,
  complete_processing_operation, mark_user_processing_operations_stale,
}

-- no row of the operation is active
abbrev pub Ended : List Operation → String → Type 0
Ended rows id = any (is_active_row id) rows ≡ false

update_where-none :
    (chosen : Operation → Bool) (set : Operation → Operation) (rows : List Operation)
    → any chosen rows ≡ false
    → update_where chosen set rows ≡ rows
unfolding update_where
update_where-none chosen set [] h = refl
update_where-none chosen set (row ∷ rows) h = ground (arith, update_where-none chosen set rows)

any-update_where :
    (chosen left : Operation → Bool) (set : Operation → Operation)
    → ((row : Operation) → chosen row ≡ true → left (set row) ≡ false)
    → ((row : Operation) → chosen row ≡ false → left row ≡ false)
    → (rows : List Operation) → any left (update_where chosen set rows) ≡ false
unfolding update_where
any-update_where chosen left set hit missed [] = refl
any-update_where chosen left set hit missed (row ∷ rows) =
    let rest = any-update_where chosen left set hit missed rows in
    elim (Bool-cases (chosen row)) [
      | inl chose ↦ ground (arith, hit row chose)
      | inr passed ↦ ground (arith, missed row passed)
    ]

Ended-kept :
    (rows : List Operation) (id : String) (executor error_code : Option String) (status : Status)
    (now : ℕ)
    → Ended rows id
    → is_terminal status ≡ true
    → (mark_processing_operation_running rows id executor now ≡ (rows, false))
      × (complete_processing_operation rows id status error_code now ≡ some (rows, false))
unfolding mark_processing_operation_running complete_processing_operation
Ended-kept rows id executor error_code status now h ended = (
  rw (update_where-none (is_active_row id) _ rows h, h) refl,
  rw (ended, update_where-none (is_active_row id) _ rows h, h) refl,
)

some-injective : {A : Type 0} {a b : A} → some a ≡ some b → a ≡ b
some-injective e = cc

complete-Ended :
    (rows after : List Operation) (id : String) (status : Status) (error_code : Option String)
    (now : ℕ) (changed : Bool)
    → complete_processing_operation rows id status error_code now ≡ some (after, changed)
    → Ended after id
unfolding complete_processing_operation is_terminal
complete-Ended rows after id status error_code now changed e =
    elim (Bool-cases (is_terminal status)) [
      | inl ended ↦
          subst (λ xs. Ended xs id) (ap (λ p. p.0) (some-injective (rw ended at e)))
            (any-update_where (is_active_row id) (is_active_row id) _ (λ row h. ground arith)
              (λ row h. h) rows)
      | inr going ↦ absurd (ground (arith, e))
    ]

stale-inactive : (s : Status) → is_stale s ≡ true → is_active s ≡ false
unfolding is_stale is_active
stale-inactive queued h = absurd (ground arith)
stale-inactive running h = absurd (ground arith)
stale-inactive succeeded h = refl
stale-inactive failed h = refl
stale-inactive cancelled h = refl
stale-inactive stale h = refl

mark_stale-Ended :
    (rows : List Operation) (uid now : ℕ) (id : String)
    → any (λ row. row.operation_id == id && not (row.uid == uid)) rows ≡ false
    → Ended (mark_user_processing_operations_stale rows uid now).0 id
unfolding mark_user_processing_operations_stale update_where is_active
mark_stale-Ended [] uid now id h = refl
mark_stale-Ended (row ∷ rows) uid now id h =
    let rest = mark_stale-Ended rows uid now id (ground arith) in
    elim (Bool-cases (row.uid == uid && not (is_stale row.status))) [
      | inl chose ↦ ground (arith, rest)
      | inr passed ↦ ground (arith, rest, stale-inactive row.status)
    ]

-- The first completion wins: once an operation has been completed, whether by the workflow or by
-- its save guard, every later start and every later completion leaves the table as it is and
-- reports that it changed nothing.
pub complete_twice :
    (rows after : List Operation) (id : String) (first second : Status)
    (error_code other_code executor : Option String) (now later : ℕ) (changed : Bool)
    → complete_processing_operation rows id first error_code now ≡ some (after, changed)
    → is_terminal second ≡ true
    → (mark_processing_operation_running after id executor later ≡ (after, false))
      × (complete_processing_operation after id second other_code later ≡ some (after, false))
complete_twice rows after id first second error_code other_code executor now later changed e ended =
    Ended-kept after id executor other_code second later
      (complete-Ended rows after id first error_code now changed e) ended

-- A new upload overtakes the processing of the one before: once the operations of a user are marked
-- stale, a start or a completion of any of them leaves the table as it is and reports that it
-- changed nothing.
pub complete_of_stale :
    (rows : List Operation) (uid now later : ℕ) (id : String) (status : Status)
    (executor error_code : Option String)
    → any (λ row. row.operation_id == id && not (row.uid == uid)) rows ≡ false
    → is_terminal status ≡ true
    → let after = (mark_user_processing_operations_stale rows uid now).0 in
      (mark_processing_operation_running after id executor later ≡ (after, false))
      × (complete_processing_operation after id status error_code later ≡ some (after, false))
complete_of_stale rows uid now later id status executor error_code h ended =
    Ended-kept (mark_user_processing_operations_stale rows uid now).0 id executor error_code status
      later (mark_stale-Ended rows uid now id h) ended
