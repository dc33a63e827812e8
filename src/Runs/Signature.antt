-- ===== src/Runs/Signature.antt =====
-- backend/app/services/run_aligner.py: the signature of a request. Unicode's lower case and its
-- decimal digits (`\d`) are parameters.
use Prim.Native.Char.{Char, code as char_code}
use Prim.Native.String.{[] as empty, ◌∷◌ as ◌∷ₛ◌, ◌++◌ as ◌++ₛ◌, count}
use auto_correlation.Prelude.{
  ℕ, suc, String, Bool, Option, true, ◌&&◌, ◌||◌, List, [], ◌∷◌, leb, ◌==◌, if◌then◌else◌,
}

pub record NormalizedResponse : Type 0 where
  pub present : Bool
  pub code : ℕ

-- The fields of `NormalizedExecution`, and of its request and response, that the alignment and the
-- correlation read.
pub record NormalizedExecution : Type 0 where
  pub id : String
  pub original_index : ℕ
  pub item_name : String
  pub method : String
  pub host : String
  pub path_segments : List String
  pub response : Option NormalizedResponse

all_chars : (Char → Bool) → String → Bool
all_chars p empty = true
all_chars p (c ∷ₛ s) = p c && all_chars p s

count_chars : (Char → Bool) → String → ℕ
count_chars p empty = 0
count_chars p (c ∷ₛ s) = let rest = count_chars p s in if p c then suc rest else rest

abbrev between : ℕ → ℕ → Char → Bool
between low high c = leb low (char_code c) && leb (char_code c) high

is_ascii_digit : Char → Bool
is_ascii_digit = between 48 57

is_hex : Char → Bool
unfolding is_ascii_digit
is_hex c = is_ascii_digit c || (between 65 70 c || between 97 102 c)

-- `[A-Za-z0-9_-]`
is_word : Char → Bool
unfolding is_ascii_digit
is_word c =
    is_ascii_digit c
    || (between 65 90 c || (between 97 122 c || (char_code c == 95 || char_code c == 45)))

-- `$` matches before a final newline too.
without_newline : String → String
without_newline empty = empty
without_newline (c ∷ₛ empty) = if char_code c == 10 then empty else c ∷ₛ empty
without_newline (c ∷ₛ (d ∷ₛ s)) = c ∷ₛ without_newline (d ∷ₛ s)

uuid_from : ℕ → String → Bool
unfolding is_hex
uuid_from i empty = i == 36
uuid_from i (c ∷ₛ s) =
    let rest = uuid_from (suc i) s in
    (if i == 8 || (i == 13 || (i == 18 || i == 23)) then char_code c == 45 else is_hex c) && rest

-- The four patterns.
is_uuid : String → Bool
unfolding without_newline uuid_from
is_uuid s = uuid_from 0 (without_newline s)

is_long_hex : String → Bool
unfolding without_newline all_chars is_hex
is_long_hex s = let t = without_newline s in leb 16 (count t) && all_chars is_hex t

is_long_token : String → Bool
unfolding without_newline all_chars is_word
is_long_token s = let t = without_newline s in leb 20 (count t) && all_chars is_word t

module _ (is_decimal : Char → Bool) where
  is_number : String → Bool
  unfolding without_newline all_chars
  is_number s = let t = without_newline s in leb 1 (count t) && all_chars is_decimal t

  unfoldable pub normalize_segment : String → String
  unfolding is_uuid is_long_hex is_long_token is_number all_chars count_chars
  normalize_segment seg =
      if is_uuid seg || (is_long_hex seg || is_long_token seg)
      then "{dyn}"
      else if is_number seg
      then "{id}"
      else if leb 6 (count seg) && (all_chars is_word seg && leb 3 (count_chars is_ascii_digit seg))
      then "{dyn}"
      else seg

  -- `"/".join(...)`
  unfoldable pub path_shape : List String → String
  unfolding normalize_segment
  path_shape [] = ""
  path_shape (s ∷ []) = normalize_segment s
  path_shape (s ∷ (t ∷ r)) = normalize_segment s ++ₛ ("/" ∷ₛ path_shape (t ∷ r))

  module _ (lower : String → String) where
    unfoldable pub signature : NormalizedExecution → String
    unfolding path_shape
    signature e =
        e.method
        ++ₛ ("|"
            ∷ₛ (lower e.host ++ₛ ("|" ∷ₛ (path_shape e.path_segments ++ₛ ("|" ∷ₛ e.item_name)))))
