-- ===== src/Prelude/Lists.antt =====
-- Lists measured by native numbers, membership of texts.
use Prim.Native.Nat.{ℕ, suc, ◌+◌, ◌≤◌, ◌<◌}
use Prim.Native.String.{String}
use mathlib.Core.Path.{◌≡◌, ap}
use mathlib.Core.Logic.{◌≢◌}
use mathlib.Core.Bool.{Bool, true, false, ◌&&◌, ◌||◌}
use mathlib.Core.List.{List, [], ◌∷◌, ◌++◌}
use native.Mathlib.Omega.{arith}
use cluster_api_provider_clo.Prelude.Tests.{◌==◌, ==_iff, if◌then◌else◌, ltb}

module _ {ℓ} {A : Type ℓ} where
  abbrev pub length : List A → ℕ
  length [] = 0
  length (x ∷ xs) = suc (length xs)

  pub length-append : (xs ys : List A) → length (xs ++ ys) ≡ length xs + length ys
  length-append [] ys = omega arith
  length-append (x ∷ xs) ys = omega (arith, length-append xs ys)

-- Membership, as the keys of a `map[string]bool` that a loop has filled.
unfoldable pub contains : List String → String → Bool
contains [] a = false
contains (x ∷ xs) a = x == a || contains xs a

-- The list without the first `a`.
erase : String → List String → List String
erase a [] = []
erase a (x ∷ xs) = if x == a then xs else x ∷ erase a xs

length-erase :
    (a : String) (xs : List String) → contains xs a ≡ true → length (erase a xs) + 1 ≡ length xs
unfolding contains erase
length-erase a [] h = ground arith
length-erase a (x ∷ xs) h = ground (arith, length-erase a xs)

contains-erase :
    (a b : String) (xs : List String)
    → a ≢ b
    → contains xs b ≡ true
    → contains (erase a xs) b ≡ true
unfolding contains erase
contains-erase a b [] d h = h
contains-erase a b (x ∷ xs) d h = ground (arith, ==_iff x a, ==_iff x b, contains-erase a b xs)

abbrev pub All {ℓ κ} : {A : Type ℓ} → (A → Type κ) → List A → Type κ
All Holds [] = Unit
All Holds (first ∷ rest) = Holds first × All Holds rest

-- The names rise under a numbering, so no two are the same.
unfoldable pub ascending : (String → ℕ) → ℕ → List String → Bool
ascending f bound [] = true
ascending f bound (x ∷ xs) = ltb bound (f x) && ascending f (f x) xs

All-erase :
    (f : String → ℕ) (a : String) (used xs : List String) (bound : ℕ)
    → f a ≤ bound
    → ascending f bound xs ≡ true
    → All (λ x. contains used x ≡ true) xs
    → All (λ x. contains (erase a used) x ≡ true) xs
unfolding ascending
All-erase f a used [] bound le up h = tt
All-erase f a used (x ∷ xs) bound le up h = (
  contains-erase a x used (λ e. omega (arith, le_lt, ap f e)) h.0,
  All-erase f a used xs (f x) (ground arith) (ground arith) h.1,
)
  where
    le_lt : f a < f x
    le_lt = ground arith

-- Distinct names that all occur in a list are no more than its entries.
pub length-le_of_contains :
    (f : String → ℕ) (used xs : List String) (bound : ℕ)
    → ascending f bound xs ≡ true
    → All (λ x. contains used x ≡ true) xs
    → length xs ≤ length used
unfolding ascending
length-le_of_contains f used [] bound up h = omega arith
length-le_of_contains f used (x ∷ xs) bound up h = omega (
  arith,
  length-erase x used h.0,
  length-le_of_contains f (erase x used) xs (f x) (ground arith)
      (All-erase f x used xs (f x) (omega arith) (ground arith) h.1),
)
