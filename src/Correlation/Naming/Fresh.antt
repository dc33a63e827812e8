-- ===== src/Correlation/Naming/Fresh.antt =====
-- The search for a free name ends with one.
use Prim.Native.String.{◌++◌ as ◌++ₛ◌}
use text.Mathlib.TextLemmas.{append_cancel_left}
use auto_correlation.Prelude.{
  ℕ, zero, suc, ◌+◌, ◌≤◌, ◌<◌, String, ◌≡◌, refl, true, false, List, [], ◌∷◌, if◌then◌else◌, str_eq,
  eq_iff, ◌==◌, ==_iff, length, arith, Bool-cases, inl, inr, ◌⊎◌, subst,
}
use auto_correlation.Correlation.Naming.Decimal.{decimal, decimal_inj}
use auto_correlation.Correlation.Naming.{is_in, numbered, first_free, dedupe_variable_name}

numbered_inj : (name : String) (i j : ℕ) → numbered name i ≡ numbered name j → i ≡ j
numbered_inj name i j e = decimal_inj i j (
    append_cancel_left "_" (decimal i) (decimal j)
      (append_cancel_left name ("_" ++ₛ decimal i) ("_" ++ₛ decimal j) e))

remove : String → List String → List String
remove x [] = []
remove x (y ∷ l) = if str_eq y x then l else y ∷ remove x l

length-remove :
    (x : String) (l : List String) → is_in x l ≡ true → length (remove x l) + 1 ≡ length l
unfolding remove is_in
length-remove x [] h = absurd (cc)
length-remove x (y ∷ l) h = ground (arith, length-remove x l)

is_in-remove :
    (x z : String) (l : List String)
    → str_eq x z ≡ false
    → is_in z l ≡ true
    → is_in z (remove x l) ≡ true
unfolding remove is_in
is_in-remove x z [] d h = h
is_in-remove x z (y ∷ l) d h =
    ground (arith, is_in-remove x z l d, eq_iff y x, eq_iff y z, eq_iff x z)

-- As many names as the fuel, all taken, need a list as long.
all_taken :
    (name : String) (fuel i : ℕ) (l : List String)
    → ((j : ℕ) → i ≤ j → j < i + fuel → is_in (numbered name j) l ≡ true)
    → fuel ≤ length l
all_taken name zero i l h = omega arith
all_taken name (suc fuel) i l h =
    let x = numbered name i in
    let here = h i (omega arith) (omega arith) in
    let rest =
      all_taken name fuel (i + 1) (remove x l) (λ j p q.
        is_in-remove x (numbered name j) l (apart j p) (h j (omega arith) (omega arith))) in
    omega (arith, rest, length-remove x l here)
  where
    apart : (j : ℕ) → i + 1 ≤ j → str_eq (numbered name i) (numbered name j) ≡ false
    apart j p = elim (Bool-cases (str_eq (numbered name i) (numbered name j))) [
      | inl e ↦
          let same : i ≡ j =
            numbered_inj name i j ((eq_iff (numbered name i) (numbered name j)).0 e) in
          absurd (omega (arith, same))
      | inr e ↦ e
    ]

-- Either the search finds a free number, or every number it has tried is taken.
first_free_lem :
    (fuel i : ℕ) (name : String) (l : List String)
    → (is_in (numbered name (first_free fuel i name l)) l ≡ false)
      ⊎ ((j : ℕ) → i ≤ j → j < i + fuel → is_in (numbered name j) l ≡ true)
unfolding first_free
first_free_lem zero i name l = inr (λ j p q. absurd (omega arith))
first_free_lem (suc fuel) i name l = elim (Bool-cases (is_in (numbered name i) l)) [
  | inr e ↦ inl (rw e e)
  | inl e ↦ rw e (elim (first_free_lem fuel (i + 1) name l) [
    | inl f ↦ inl f
    | inr t ↦ inr (λ j p q. elim (Bool-cases (i == j)) [
      | inl same ↦ subst (λ x. is_in (numbered name x) l ≡ true) ((==_iff i j).0 same) e
      | inr differs ↦ t j (ground arith) (omega arith)
    ])
  ])
]

-- A name that `dedupe_variable_name` returns was not taken, and is from then on: the loop ends.
pub dedupe_variable_name_fresh :
    (name : String) (taken : List String)
    → (is_in (dedupe_variable_name name taken).0 taken ≡ false)
      × ((dedupe_variable_name name taken).1 ≡ (dedupe_variable_name name taken).0 ∷ taken)
unfolding dedupe_variable_name
dedupe_variable_name_fresh name taken = elim (Bool-cases (is_in name taken)) [
  | inr e ↦ rw e (e, refl)
  | inl e ↦ rw e (elim (first_free_lem (length taken + 1) 2 name taken) [
    | inl f ↦ (f, refl)
    | inr t ↦ absurd (omega (arith, all_taken name (length taken + 1) 2 taken t))
  ])
]
