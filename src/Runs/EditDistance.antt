-- ===== src/Runs/EditDistance.antt =====
-- backend/app/services/consumer_finder.py: the test for two texts that differ by one edit. A text
-- is the list of its character codes; the loop's two indices are the suffixes they leave.
pub mod Edits
use auto_correlation.Prelude.{
  ℕ, ◌+◌, Bool, true, false, not, ◌&&◌, ◌||◌, List, [], ◌∷◌, length, ltb, ◌==◌, if◌then◌else◌,
}

abbrev pub Text : Type 0
Text = List ℕ

unfoldable pub text_eq : Text → Text → Bool
text_eq [] [] = true
text_eq [] (y ∷ b) = false
text_eq (x ∷ a) [] = false
text_eq (x ∷ a) (y ∷ b) = (x == y) && text_eq a b

-- The loop; `same_length` is `la == lb`.
unfoldable pub scan : Bool → Bool → Text → Text → Bool
scan same_length edited a [] = true
scan same_length edited [] (y ∷ b) = true
scan same_length edited (x ∷ a) (y ∷ b) =
    let next = scan same_length edited a b in
    let substituted = scan same_length true a b in
    let inserted = scan same_length true (x ∷ a) b in
    if x == y then next else if edited then false else if same_length then substituted else inserted

unfoldable pub within_one_edit : Text → Text → Bool
unfolding text_eq scan
within_one_edit a b =
    let la = length a in
    let lb = length b in
    if text_eq a b
    then true
    else if ltb (la + 1) lb || ltb (lb + 1) la
    then false
    else if ltb lb la
    then scan (lb == la) false b a
    else scan (la == lb) false a b
