-- ===== src/Prelude/Text.antt =====
-- Python's `str` where the program measures or cuts it: a list of code points. Decimal numbers,
-- `join`, `replace` and the values of a JSON-like attribute.
use Prim.Native.Nat.{ℕ, zero, suc, ◌+◌, ◌-◌, ◌/◌, ◌%◌}
use Prim.Native.Char.{code}
use Prim.Native.String.{String}
use mathlib.Core.Bool.{Bool, true, false, ◌&&◌}
use mathlib.Core.List.{List, [], ◌∷◌, ◌++◌}
use graphify_daemon_portfoli.Prelude.Tests.{ltb, ◌==◌, if◌then◌else◌}
use graphify_daemon_portfoli.Prelude.Lists.{length}

abbrev pub Text : Type 0
Text = List ℕ

abbrev pub codes : String → Text
codes String.[] = []
codes (String.◌∷◌ c s) = code c ∷ codes s

show_fuel : ℕ → ℕ → Text
show_fuel zero n = []
show_fuel (suc f) n =
    let rest = show_fuel f (n / 10) in
    if ltb n 10 then (48 + n) ∷ [] else rest ++ (48 + n % 10) ∷ []

-- `str(n)` of a natural number: at most `n + 1` digits
unfoldable pub show : ℕ → Text
unfolding show_fuel
show n = show_fuel (suc n) n

-- `sep.join(lines)`
unfoldable pub join : Text → List Text → Text
join sep [] = []
join sep (x ∷ []) = x
join sep (x ∷ y ∷ xs) = x ++ (sep ++ join sep (y ∷ xs))

-- `text.startswith(pattern)`
unfoldable pub starts_with : Text → Text → Bool
starts_with s [] = true
starts_with [] (p ∷ ps) = false
starts_with (c ∷ s) (p ∷ ps) = (c == p) && starts_with s ps

-- The scan of `text.replace(pattern, marker)`; `skip` characters belong to the last match.
unfoldable pub replace_from : Text → Text → ℕ → Text → Text
replace_from pat marker skip [] = []
replace_from pat marker (suc skip) (c ∷ s) = replace_from pat marker skip s
replace_from pat marker zero (c ∷ s) = elim (starts_with (c ∷ s) pat) [
  | true ↦ marker ++ replace_from pat marker (length pat - 1) s
  | false ↦ c ∷ replace_from pat marker zero s
]

-- `text.replace(pattern, marker)` for a pattern that is not empty
abbrev pub replace : Text → Text → Text → Text
replace pat marker s = replace_from pat marker zero s

-- A value of an attribute.
pub data Value : Type 0 where
  null : Value
  number : ℕ → Value
  text : String → Value
