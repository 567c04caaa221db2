-- ===== src/Tests/TokenRuns.antt =====
-- Tokens that are stored, handed out and cleaned up.
use wanderbound.Prelude.{ℕ, ◌≡◌, refl, String, true, some, none, List, [], ◌∷◌}
use wanderbound.Tokens.{ArtifactToken, is_refused, pop}
use wanderbound.Tokens.Single.{pop_again}

abbrev row : String → String → ℕ → ArtifactToken ℕ
row token namespace expires_at = record {
  token = token;
  namespace = namespace;
  path = "x.pdf";
  payload = expires_at;
  expires_at = expires_at;
}

abbrev rows : List (ArtifactToken ℕ)
rows = row "abc" "pdf" 50 ∷ row "def" "pdf" 20 ∷ row "abc" "zip" 70 ∷ []

refused-run : is_refused "../x" ≡ true
unfolding is_refused
refused-run = refl

pop-run : (pop "pdf" rows "abc" 40).handed ≡ some 50
unfolding pop
pop-run = refl

pop_again_example :
    pop "pdf" (pop "pdf" rows "abc" 40).rows "abc" 45
    ≡ record { rows = row "def" "pdf" 20 ∷ row "abc" "zip" 70 ∷ []; handed = none; evicted = [] }
unfolding pop
pop_again_example = pop_again "pdf" rows "abc" 40 45
