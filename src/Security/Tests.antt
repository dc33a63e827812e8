-- ===== src/Security/Tests.antt =====
-- Three calls of one client under a limit of two in ten seconds, and a fourth after them.
use auto_correlation.Prelude.{ℕ, ◌-◌, ◌≤◌, String, ◌≡◌, refl, List, [], ◌∷◌, tally, length}
use auto_correlation.Prelude.Dict.{lookup, put}
use auto_correlation.Security.{new, calls, begun, in_window, allowed-le}

abbrev four_calls : List (ℕ × String)
four_calls = (20, "client") ∷ (1, "client") ∷ (1, "client") ∷ (12, "client") ∷ []

three_allowed : length (calls four_calls (begun 2 10)).allowed ≡ 3
unfolding calls lookup put new
three_allowed = refl

allowed-le_example :
    tally
      (in_window "client" ((calls four_calls (begun 2 10)).clock - 10))
      (calls four_calls (begun 2 10)).allowed
    ≤ 2
allowed-le_example = allowed-le 2 10 four_calls "client"
