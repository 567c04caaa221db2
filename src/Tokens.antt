-- ===== src/Tokens.antt =====
-- The tokens that a browser trades for a finished file: `ArtifactTokenStore` of
-- backend/app/core/tokens.py, on the table `artifact_token`. `Data` is the payload. The random token
-- and the time are arguments, and what `on_evict` is called with is returned. A time is a natural
-- number, so the conversion of one without a zone is left out.
pub mod Single
pub mod Cleanup
use text.Mathlib.Text.{starts_with, find?}
use wanderbound.Prelude.{
  ℕ, ◌+◌, String, Bool, true, false, not, ◌&&◌, ◌||◌, ◌==◌, string_eq, Option, none, some, List, [],
  ◌∷◌, ◌++◌, map, filter, leb, if◌then◌else◌,
}

pub record ArtifactToken (Data : Type 0) : Type 0 where
  pub token : String
  pub namespace : String
  pub path : String
  pub payload : Data
  pub expires_at : ℕ

-- what `pop` leaves, returns and evicts
pub record Popped (Data : Type 0) : Type 0 where
  pub rows : List (ArtifactToken Data)
  pub handed : Option Data
  pub evicted : List Data

-- `part in text`
unfoldable pub has_part : String → String → Bool
has_part text part = elim (find? text part) [ none ↦ false | some _ ↦ true ]

-- `not token or "/" in token or "\\" in token or token.startswith(".")`
unfoldable pub is_refused : String → Bool
unfolding has_part
is_refused token = token == "" || has_part token "/" || has_part token "\\" || starts_with token "."

module _ {Data : Type 0} where
  abbrev pub is_row : String → String → ArtifactToken Data → Bool
  is_row dir_name token row = row.token == token && row.namespace == dir_name

  abbrev pub is_expired : String → ℕ → ArtifactToken Data → Bool
  is_expired dir_name now row = row.namespace == dir_name && leb row.expires_at now

  -- `path_of` is `data["path"]`.
  unfoldable pub store :
      (Data → String)
      → String
      → ℕ
      → List (ArtifactToken Data)
      → Data
      → String
      → ℕ
      → List (ArtifactToken Data)
  store path_of dir_name ttl rows content new_token now =
      rows
      ++ record {
        token = new_token;
        namespace = dir_name;
        path = path_of content;
        payload = content;
        expires_at = now + ttl;
      }
        ∷ []

  -- what is done with the rows that the delete returned, of which there is at most one
  unfoldable pub hand_out : List (ArtifactToken Data) → ℕ → Option Data × List Data
  hand_out [] now = (none, [])
  hand_out (row ∷ _) now =
      if leb row.expires_at now then (none, row.payload ∷ []) else (some row.payload, [])

  -- the delete that returns what it deleted
  unfoldable pub take_row : String → List (ArtifactToken Data) → String → ℕ → Popped Data
  unfolding hand_out
  take_row dir_name rows token now =
      let result = hand_out (filter (is_row dir_name token) rows) now in
      record {
        rows = filter (λ row. not (is_row dir_name token row)) rows;
        handed = result.0;
        evicted = result.1;
      }

  unfoldable pub pop : String → List (ArtifactToken Data) → String → ℕ → Popped Data
  unfolding is_refused take_row
  pop dir_name rows token now =
      if is_refused token
      then record { rows = rows; handed = none; evicted = [] }
      else take_row dir_name rows token now

  unfoldable pub cleanup_expired :
      String → List (ArtifactToken Data) → ℕ → List (ArtifactToken Data) × List Data
  cleanup_expired dir_name rows now = (
    filter (λ row. not (is_expired dir_name now row)) rows,
    map (λ row. row.payload) (filter (is_expired dir_name now) rows),
  )
