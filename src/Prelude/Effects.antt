-- ===== src/Prelude/Effects.antt =====
-- Calls that may fail and that change a world `W`: `(T, error)` results of Go, with the outside
-- state passed on. Nothing is rolled back when a step fails.
use mathlib.Core.Path.{◌≡◌, refl}
use mathlib.Core.Logic.{◌⊎◌, inl, inr}
use mathlib.Core.Bool.{Bool, true, false}

pub data Result {ℓ κ} (E : Type ℓ) (A : Type κ) : Type (ℓ ⊔ κ) where
  ok : A → Result E A
  err : E → Result E A

abbrev pub Action : Type 0 → Type 0 → Type 0 → Type 0
Action W E A = W → Result E A × W

abbrev pub ret : {W E A : Type 0} → A → Action W E A
ret a w = (ok a, w)

abbrev pub fail : {W E A : Type 0} → E → Action W E A
fail e w = (err e, w)

-- The rest of a chain, run from the result of its first call.
abbrev pub run_next : {W E A B : Type 0} → (A → Action W E B) → Result E A × W → Result E B × W
run_next f (ok a, w) = f a w
run_next f (err e, w) = (err e, w)

infixl 5 ◌>>=◌ ◌>>◌
abbrev pub ◌>>=◌ : {W E A B : Type 0} → Action W E A → (A → Action W E B) → Action W E B
◌>>=◌ m f w = run_next f (m w)

abbrev pub ◌>>◌ : {W E A B : Type 0} → Action W E A → Action W E B → Action W E B
◌>>◌ m k w = run_next (λ _. k) (m w)

-- `if err != nil { return f(err) }`
abbrev pub or_return : {W E F A : Type 0} → (E → F) → Result E A × W → Result F A × W
or_return f (ok a, w) = (ok a, w)
or_return f (err e, w) = (err (f e), w)

abbrev pub map_err : {W E F A : Type 0} → (E → F) → Action W E A → Action W F A
map_err f m w = or_return f (m w)

-- A call whose error the caller looks at itself.
abbrev pub attempt : {W E F A : Type 0} → Action W E A → Action W F (Result E A)
attempt m w = let (r, w') = m w in (ok r, w')

abbrev pub guard : {W E : Type 0} → Bool → E → Action W E (Unit {0})
guard true e w = (ok tt, w)
guard false e w = (err e, w)

-- A call outside, which leaves the own state as it is.
abbrev pub outside : {C W E A : Type 0} → Action W E A → Action (C × W) E A
outside m (c, w) = let (r, w') = m w in (r, (c, w'))

pub Result-cases {ℓ κ} :
    {E : Type ℓ} {A : Type κ} (r : Result E A) → ((a : A) × (r ≡ ok a)) ⊎ ((e : E) × (r ≡ err e))
Result-cases (ok a) = inl (a, refl)
Result-cases (err e) = inr (e, refl)
