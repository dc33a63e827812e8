-- ===== src/Prelude/Dict.antt =====
-- Python's `dict` with string keys: an association list in insertion order. Assignment to a key
-- that is there keeps its place, a new key comes last.
pub mod Counts
use Prim.Native.String.{String}
use mathlib.Core.Path.{◌≡◌, refl}
use mathlib.Core.Bool.{Bool, false}
use mathlib.Core.Option.{Option, none, some}
use mathlib.Core.List.{List, [], ◌∷◌, map}
use native.Mathlib.Omega.{arith}
use text.Mathlib.Text.{◌==◌ as str_eq}
use text.Mathlib.TextEquality.{eq_iff}
use auto_correlation.Prelude.Tests.{if◌then◌else◌}

abbrev pub Dict {ℓ} : Type ℓ → Type ℓ
Dict V = List (String × V)

module _ {ℓ} {V : Type ℓ} where
  -- `d.get(k)`
  unfoldable pub lookup : String → Dict V → Option V
  lookup k [] = none
  lookup k ((j, v) ∷ d) = if str_eq j k then some v else lookup k d

  -- `d[k] = v`
  unfoldable pub put : String → V → Dict V → Dict V
  put k v [] = (k, v) ∷ []
  put k v ((j, w) ∷ d) = if str_eq j k then (j, v) ∷ d else (j, w) ∷ put k v d

  -- `d.pop(k, None)`
  unfoldable pub pop : String → Dict V → Dict V
  pop k [] = []
  pop k ((j, w) ∷ d) = if str_eq j k then pop k d else (j, w) ∷ pop k d

  -- `d.values()`
  abbrev pub values : Dict V → List V
  values = map (λ e. e.1)

  -- Pops every entry whose value passes the test.
  unfoldable pub pop_where : (V → Bool) → Dict V → Dict V
  pop_where p [] = []
  pop_where p ((j, w) ∷ d) = if p w then pop_where p d else (j, w) ∷ pop_where p d

  -- Keys are unique.
  abbrev pub Fresh : String → Dict V → Type 0
  Fresh k [] = Unit
  Fresh k (e ∷ d) = (str_eq e.0 k ≡ false) × Fresh k d

  abbrev pub HasUniqueKeys : Dict V → Type 0
  HasUniqueKeys [] = Unit
  HasUniqueKeys (e ∷ d) = Fresh e.0 d × HasUniqueKeys d

  pub lookup-put :
      (k j : String) (v : V) (d : Dict V)
      → lookup j (put k v d) ≡ (if str_eq k j then some v else lookup j d)
  unfolding lookup put
  lookup-put k j v [] = refl
  lookup-put k j v ((i, w) ∷ d) =
      ground (arith, eq_iff k j, eq_iff i k, eq_iff i j, lookup-put k j v d)

  pub lookup-pop :
      (k j : String) (d : Dict V) → lookup j (pop k d) ≡ (if str_eq k j then none else lookup j d)
  unfolding lookup pop
  lookup-pop k j [] = ground arith
  lookup-pop k j ((i, w) ∷ d) = ground (arith, eq_iff k j, eq_iff i k, eq_iff i j, lookup-pop k j d)

  lookup_of_Fresh : (k : String) (d : Dict V) → Fresh k d → lookup k d ≡ none
  unfolding lookup
  lookup_of_Fresh k [] f = refl
  lookup_of_Fresh k ((j, w) ∷ d) f = ground (arith, lookup_of_Fresh k d)

  -- What is left of an optional value after the sweep by a test.
  abbrev pub survivor : (V → Bool) → Option V → Option V
  survivor p none = none
  survivor p (some v) = if p v then none else some v

  Fresh-pop_where : (p : V → Bool) (k : String) (d : Dict V) → Fresh k d → Fresh k (pop_where p d)
  unfolding pop_where
  Fresh-pop_where p k [] f = f
  Fresh-pop_where p k ((j, w) ∷ d) f = ground (arith, Fresh-pop_where p k d f.1)

  pub lookup-pop_where :
      (p : V → Bool) (k : String) (d : Dict V)
      → HasUniqueKeys d
      → lookup k (pop_where p d) ≡ survivor p (lookup k d)
  unfolding lookup pop_where
  lookup-pop_where p k [] u = refl
  lookup-pop_where p k ((j, w) ∷ d) u =
      ground (arith, lookup-pop_where p k d u.1, lookup_of_Fresh j d u.0, eq_iff j k)
