-- ===== src/Prelude/Text.antt =====
-- The `%d` of `fmt.Sprintf`, and a reading of texts as numbers that tells printed names apart.
use Prim.Native.Char.{code, Char}
use mathlib.Core.Path.{◌≡◌, ap, ◌∙◌}
use mathlib.Core.Bool.{Bool, true, not, ◌&&◌}
use mathlib.Core.Option.{Option, none, some}
use mathlib.Core.List.{List, [], ◌∷◌}
use native.Mathlib.Omega.{arith}
use text.Mathlib.TextLemmas.{nil-append, cons-append}
use Prim.Native.Nat.{ℕ, zero, suc, ◌+◌, ◌-◌, ◌*◌, ◌/◌, ◌%◌}
use Prim.Native.String.{String, ◌++◌ as ◌<>◌}
use cluster_api_provider_clo.Prelude.Tests.{ltb, nat_eq, if◌then◌else◌}

-- The text at a position, and the last one after the end.
pick : ℕ → String → List String → String
pick n last [] = last
pick n last (t ∷ ts) = let rest = pick (n - 1) last ts in if nat_eq n 0 then t else rest

digit : ℕ → String
unfolding pick
digit n = pick n "9" ("0" ∷ "1" ∷ "2" ∷ "3" ∷ "4" ∷ "5" ∷ "6" ∷ "7" ∷ "8" ∷ [])

-- One round for each digit: `n` rounds and one more are always enough.
decimal_loop : ℕ → ℕ → String → String
decimal_loop zero n acc = acc
decimal_loop (suc rounds) n acc =
    let rest = decimal_loop rounds (n / 10) (digit (n % 10) <> acc) in
    if ltb n 10 then digit n <> acc else rest

unfoldable pub decimal : ℕ → String
unfolding digit decimal_loop
decimal n = decimal_loop (suc n) n ""

read_loop : ℕ → String → ℕ
read_loop acc String.[] = acc
read_loop acc (String.◌∷◌ c s) = read_loop (acc * 11 + (code c - 48)) s

-- The characters `0` to `9` and `:` read as digits of base 11.
unfoldable pub base_eleven : String → ℕ
unfolding read_loop
base_eleven s = read_loop 0 s

-- No character of the text is the separator.
abbrev pub lacks : Char → String → Bool
lacks separator String.[] = true
lacks separator (String.◌∷◌ c s) = not (nat_eq (code c) (code separator)) && lacks separator s

-- The text before and after the first separator.
unfoldable pub split_once : Char → String → Option (String × String)
split_once separator String.[] = none
split_once separator (String.◌∷◌ c s) =
    if nat_eq (code c) (code separator)
    then some (String.[], s)
    else elim (split_once separator s) [
      | none ↦ none
      | some (before, after) ↦ some (String.◌∷◌ c before, after)
    ]

pub split_once-append :
    (c : Char) (s t : String)
    → lacks c s ≡ true
    → split_once c (s <> (String.◌∷◌ c String.[] <> t)) ≡ some (s, t)
unfolding split_once
split_once-append c String.[] t h =
    ap (split_once c) (nil-append (String.◌∷◌ c String.[] <> t) ∙ cons-append c "" t)
    ∙ ground arith
    ∙ ap (λ rest. some ("", rest)) (nil-append t)
split_once-append c (String.◌∷◌ d s) t h =
    ap (split_once c) (cons-append d s (String.◌∷◌ c String.[] <> t))
    ∙ ground (arith, split_once-append c s t)
