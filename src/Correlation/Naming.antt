-- ===== src/Correlation/Naming.antt =====
-- backend/app/utils/naming.py: unique variable names. Names are kept in a list, as the set of those
-- taken; a number is printed in decimal.
pub mod Decimal
pub mod Fresh
use Prim.Native.String.{◌++◌ as ◌++ₛ◌}
use auto_correlation.Prelude.{
  ℕ, zero, suc, ◌+◌, String, Bool, true, false, ◌||◌, List, [], ◌∷◌, if◌then◌else◌, str_eq, length,
}
use auto_correlation.Correlation.Naming.Decimal.{decimal}

unfoldable pub is_in : String → List String → Bool
is_in x [] = false
is_in x (y ∷ l) = str_eq y x || is_in x l

-- `f"{name}_{i}"`
abbrev pub numbered : String → ℕ → String
numbered name i = name ++ₛ ("_" ++ₛ decimal i)

-- The `while` loop from `i` on, which ends within the fuel.
unfoldable pub first_free : ℕ → ℕ → String → List String → ℕ
unfolding is_in
first_free zero i name taken = i
first_free (suc fuel) i name taken =
    let rest = first_free fuel (i + 1) name taken in
    if is_in (numbered name i) taken then rest else i

-- The name, and the names taken after it.
unfoldable pub dedupe_variable_name : String → List String → String × List String
unfolding first_free is_in
dedupe_variable_name name taken =
    if is_in name taken
    then (let unique = numbered name (first_free (length taken + 1) 2 name taken) in
        (unique, unique ∷ taken))
    else (name, name ∷ taken)
