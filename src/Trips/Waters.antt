-- ===== src/Trips/Waters.antt =====
-- The countries of steps at sea: `resolve_international_waters`.
use wanderbound.Prelude.{
  ℕ, zero, suc, ◌≡◌, arith, String, Bool, not, ◌==◌, string_eq, Option, none, some, List, [], ◌∷◌,
  filter, take, get_elem?, length, ltb, if◌then◌else◌, Bool-cases, inl, inr,
}
use text.Mathlib.TextEquality.{eq_iff}
use wanderbound.Trips.{resolve_waters, resolve_international_waters}

abbrev pub last_or : String → List String → String
last_or code [] = code
last_or code (next ∷ codes) = last_or next codes

abbrev pub is_land : String → Bool
is_land code = not (code == "00")

abbrev known : Option String → String
known none = "00"
known (some code) = code

resolve-country :
    (prev : Option String) (run : ℕ) (codes : List String) (i : ℕ)
    → get_elem? (resolve_waters prev run codes).0 i ≡ (
        if ltb i (length codes)
        then some (last_or (known prev) (filter is_land (take (suc i) codes)))
        else none)
unfolding resolve_waters
resolve-country none run [] i = ground arith
resolve-country (some prev) run [] i = ground arith
resolve-country none run (code ∷ codes) zero = ground (arith, eq_iff code "00")
resolve-country (some prev) run (code ∷ codes) zero = ground arith
resolve-country none run (code ∷ codes) (suc i) = elim (Bool-cases (code == "00")) [
  | inl sea ↦ ground (arith, sea, resolve-country none run codes i)
  | inr land ↦ ground (arith, land, resolve-country (some code) 0 codes i)
]
resolve-country (some prev) run (code ∷ codes) (suc i) = elim (Bool-cases (code == "00")) [
  | inl sea ↦ ground (arith, sea, resolve-country (some prev) (suc run) codes i)
  | inr land ↦ ground (arith, land, resolve-country (some code) 0 codes i)
]

-- Each step is given the country of the last step on land up to it, itself included, and the code
-- "00" is only kept before the first step on land. No step is added or lost.
pub get_elem-resolve_international_waters :
    (codes : List String) (i : ℕ)
    → get_elem? (resolve_international_waters codes).0 i ≡ (
        if ltb i (length codes)
        then some (last_or "00" (filter is_land (take (suc i) codes)))
        else none)
unfolding resolve_international_waters
get_elem-resolve_international_waters codes i = resolve-country none 0 codes i
