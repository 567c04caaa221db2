-- ===== src/Tokens/Single.antt =====
-- Pops of one token, and of one that was just stored.
use wanderbound.Prelude.{
  ℕ, ◌+◌, ◌≡◌, refl, ap, arith, String, Bool, false, not, string_eq, eq_refl, none, some, List, [],
  ◌∷◌, filter, filter-append, append_nil, leb, if◌then◌else◌, Bool-cases, inl, inr,
}
use wanderbound.Tokens.{ArtifactToken, is_refused, is_row, store, hand_out, take_row, pop}

filter_left : {A : Type 0} (p : A → Bool) (xs : List A) → filter p (filter (λ x. not (p x)) xs) ≡ []
filter_left p [] = refl
filter_left p (x ∷ xs) = ground (arith, filter_left p xs)

filter_rest :
    {A : Type 0} (p : A → Bool) (xs : List A) → filter p xs ≡ [] → filter (λ x. not (p x)) xs ≡ xs
filter_rest p [] h = refl
filter_rest p (x ∷ xs) h = elim (Bool-cases (p x)) [
  | inl chosen ↦ absurd (ground (arith, h, chosen))
  | inr passed ↦ rw passed (ap (◌∷◌ x) (filter_rest p xs (rw passed at h)))
]

module _ {Data : Type 0} (dir_name : String) where
  take_again :
      (rows : List (ArtifactToken Data)) (token : String) (now later : ℕ)
      → take_row dir_name (take_row dir_name rows token now).rows token later
        ≡ record { rows = (take_row dir_name rows token now).rows; handed = none; evicted = [] }
  unfolding take_row hand_out
  take_again rows token now later =
      let gone = filter_left (is_row dir_name token) rows in
      rw
        (
          gone,
          filter_rest (is_row dir_name token) (filter (λ row. not (is_row dir_name token row)) rows)
              gone,
        )
        refl

  hand_out-eq :
      (row : ArtifactToken Data) (later : ℕ)
      → hand_out (row ∷ []) later ≡ (
        (if leb row.expires_at later then none else some row.payload),
        (if leb row.expires_at later then row.payload ∷ [] else []),
      )
  unfolding hand_out
  hand_out-eq row later = elim (Bool-cases (leb row.expires_at later)) [
    | inl over ↦ rw over refl
    | inr open_still ↦ rw open_still refl
  ]

  -- Whatever the first pop of a token gave, every later one gives nothing, evicts nothing and
  -- leaves the table as it is.
  pub pop_again :
      (rows : List (ArtifactToken Data)) (token : String) (now later : ℕ)
      → pop dir_name (pop dir_name rows token now).rows token later
        ≡ record { rows = (pop dir_name rows token now).rows; handed = none; evicted = [] }
  unfolding pop
  pop_again rows token now later = elim (Bool-cases (is_refused token)) [
    | inl refused ↦ rw (pop, refused) refl
    | inr good ↦ rw (pop, good) (take_again rows token now later)
  ]

  -- A stored file is handed out for its token until the time to live is over, and its row is gone
  -- afterwards; from then on the token gives nothing and the file is evicted.
  pub pop-store :
      (path_of : Data → String) (ttl : ℕ) (rows : List (ArtifactToken Data)) (content : Data)
      (token : String) (now later : ℕ)
      → is_refused token ≡ false
      → filter (is_row dir_name token) rows ≡ []
      → pop dir_name (store path_of dir_name ttl rows content token now) token later ≡ record {
        rows = rows;
        handed = if leb (now + ttl) later then none else some content;
        evicted = if leb (now + ttl) later then content ∷ [] else [];
      }
  unfolding pop store take_row
  pop-store path_of ttl rows content token now later good fresh =
      let row : ArtifactToken Data = record {
        token = token;
        namespace = dir_name;
        path = path_of content;
        payload = content;
        expires_at = now + ttl;
      } in
      rw
        (
          pop,
          good,
          filter-append (is_row dir_name token) rows (row ∷ []),
          filter-append (λ r. not (is_row dir_name token r)) rows (row ∷ []),
          fresh,
          filter_rest (is_row dir_name token) rows fresh,
          eq_refl token,
          eq_refl dir_name,
          append_nil rows,
          hand_out-eq row later,
        )
        refl
