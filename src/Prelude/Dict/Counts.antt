-- ===== src/Prelude/Dict/Counts.antt =====
-- How many values of a dictionary pass a test, after each write; and that keys stay unique.
use Prim.Native.Nat.{ℕ, ◌+◌, ◌≤◌}
use Prim.Native.String.{String}
use mathlib.Core.Path.{◌≡◌}
use mathlib.Core.Bool.{Bool, false}
use mathlib.Core.Option.{Option, none, some}
use mathlib.Core.List.{[], ◌∷◌}
use native.Mathlib.Omega.{arith}
use text.Mathlib.Text.{◌==◌ as str_eq}
use text.Mathlib.TextEquality.{eq_iff}
use auto_correlation.Prelude.Tests.{if◌then◌else◌}
use auto_correlation.Prelude.Lists.{tally}
use auto_correlation.Prelude.Dict.{Dict, lookup, put, pop, pop_where, values, Fresh, HasUniqueKeys}

module _ {ℓ} {V : Type ℓ} where
  Fresh-put :
      (k j : String) (v : V) (d : Dict V) → str_eq j k ≡ false → Fresh k d → Fresh k (put j v d)
  unfolding put
  Fresh-put k j v [] e f = (e, tt)
  Fresh-put k j v ((i, w) ∷ d) e f = ground (arith, Fresh-put k j v d e f.1)

  pub put-HasUniqueKeys :
      (k : String) (v : V) (d : Dict V) → HasUniqueKeys d → HasUniqueKeys (put k v d)
  unfolding put
  put-HasUniqueKeys k v [] u = (tt, tt)
  put-HasUniqueKeys k v ((i, w) ∷ d) u =
      ground (arith, put-HasUniqueKeys k v d u.1, Fresh-put i k v d, eq_iff i k, eq_iff k i)

  Fresh-pop : (k j : String) (d : Dict V) → Fresh k d → Fresh k (pop j d)
  unfolding pop
  Fresh-pop k j [] f = f
  Fresh-pop k j ((i, w) ∷ d) f = ground (arith, Fresh-pop k j d f.1)

  pub pop-HasUniqueKeys : (k : String) (d : Dict V) → HasUniqueKeys d → HasUniqueKeys (pop k d)
  unfolding pop
  pop-HasUniqueKeys k [] u = u
  pop-HasUniqueKeys k ((i, w) ∷ d) u =
      ground (arith, pop-HasUniqueKeys k d u.1, Fresh-pop i k d u.0)

  Fresh-pop_where : (p : V → Bool) (k : String) (d : Dict V) → Fresh k d → Fresh k (pop_where p d)
  unfolding pop_where
  Fresh-pop_where p k [] f = f
  Fresh-pop_where p k ((j, w) ∷ d) f = ground (arith, Fresh-pop_where p k d f.1)

  pub pop_where-HasUniqueKeys :
      (p : V → Bool) (d : Dict V) → HasUniqueKeys d → HasUniqueKeys (pop_where p d)
  unfolding pop_where
  pop_where-HasUniqueKeys p [] u = u
  pop_where-HasUniqueKeys p ((j, w) ∷ d) u =
      ground (arith, pop_where-HasUniqueKeys p d u.1, Fresh-pop_where p j d u.0)

  -- 1 if the value passes the test.
  abbrev pub weight : (V → Bool) → Option V → ℕ
  weight p none = 0
  weight p (some v) = if p v then 1 else 0

  pub tally-put :
      (p : V → Bool) (k : String) (v : V) (d : Dict V)
      → tally p (values (put k v d)) + weight p (lookup k d)
        ≡ tally p (values d) + weight p (some v)
  unfolding put lookup
  tally-put p k v [] = ground arith
  tally-put p k v ((i, w) ∷ d) = ground (arith, tally-put p k v d)

  pub tally-pop-le :
      (p : V → Bool) (k : String) (d : Dict V) → tally p (values (pop k d)) ≤ tally p (values d)
  unfolding pop
  tally-pop-le p k [] = omega arith
  tally-pop-le p k ((i, w) ∷ d) = ground (arith, tally-pop-le p k d)

  pub tally-pop_where-le :
      (p q : V → Bool) (d : Dict V) → tally p (values (pop_where q d)) ≤ tally p (values d)
  unfolding pop_where
  tally-pop_where-le p q [] = omega arith
  tally-pop_where-le p q ((i, w) ∷ d) = ground (arith, tally-pop_where-le p q d)

  tally-pop_of_Fresh :
      (p : V → Bool) (k : String) (d : Dict V)
      → Fresh k d
      → tally p (values (pop k d)) ≡ tally p (values d)
  unfolding pop
  tally-pop_of_Fresh p k [] f = omega arith
  tally-pop_of_Fresh p k ((i, w) ∷ d) f = ground (arith, tally-pop_of_Fresh p k d f.1)

  pub tally-pop :
      (p : V → Bool) (k : String) (d : Dict V)
      → HasUniqueKeys d
      → tally p (values (pop k d)) + weight p (lookup k d) ≡ tally p (values d)
  unfolding pop lookup
  tally-pop p k [] u = omega arith
  tally-pop p k ((i, w) ∷ d) u =
      ground (arith, tally-pop p k d u.1, tally-pop_of_Fresh p i d u.0, eq_iff i k)
