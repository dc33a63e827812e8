-- ===== src/Correlation/Naming/Decimal.antt =====
-- `str` of a natural number: its decimal digits.
use Prim.Native.Char.{Char, code}
use Prim.Native.String.{[] as empty, ◌∷◌ as ◌∷ₛ◌, ◌++◌ as ◌++ₛ◌}
use text.Mathlib.TextLemmas.{nil-append, cons-append}
use auto_correlation.Prelude.{
  ℕ, zero, suc, ◌+◌, ◌-◌, ◌*◌, ◌/◌, ◌%◌, ◌<◌, ◌≤◌, String, ◌≡◌, refl, ltb, if◌then◌else◌, arith, ap,
  sym, ◌∙◌, Bool-cases, inl, inr, ltb→lt,
}

nth : ℕ → String → Char
nth n empty = "0"
nth zero (c ∷ₛ s) = c
nth (suc n) (c ∷ₛ s) = nth n s

abbrev digit : ℕ → Char
digit n = nth n "0123456789"

-- The fuel is the number, which has no more digits than that.
decimal_within : ℕ → ℕ → String
unfolding nth
decimal_within zero n = digit n ∷ₛ empty
decimal_within (suc fuel) n =
    let front = decimal_within fuel (n / 10) in
    if ltb n 10 then digit n ∷ₛ empty else front ++ₛ (digit (n % 10) ∷ₛ empty)

unfoldable pub decimal : ℕ → String
unfolding decimal_within
decimal n = decimal_within n n

-- The number that digits stand for.
read_from : ℕ → String → ℕ
read_from acc empty = acc
read_from acc (c ∷ₛ s) = read_from (acc * 10 + (code c - 48)) s

read_from-append :
    (acc : ℕ) (s : String) (c : Char)
    → read_from acc (s ++ₛ (c ∷ₛ empty)) ≡ read_from acc s * 10 + (code c - 48)
unfolding read_from
read_from-append acc empty c = rw (nil-append (c ∷ₛ empty)) refl
read_from-append acc (d ∷ₛ s) c =
    rw (cons-append d s (c ∷ₛ empty)) (read_from-append (acc * 10 + (code d - 48)) s c)

digit_lem : (n : ℕ) → n < 10 → code (digit n) - 48 ≡ n
unfolding nth
digit_lem zero h = refl
digit_lem (suc zero) h = refl
digit_lem (suc (suc zero)) h = refl
digit_lem (suc (suc (suc zero))) h = refl
digit_lem (suc (suc (suc (suc zero)))) h = refl
digit_lem (suc (suc (suc (suc (suc zero))))) h = refl
digit_lem (suc (suc (suc (suc (suc (suc zero)))))) h = refl
digit_lem (suc (suc (suc (suc (suc (suc (suc zero))))))) h = refl
digit_lem (suc (suc (suc (suc (suc (suc (suc (suc zero)))))))) h = refl
digit_lem (suc (suc (suc (suc (suc (suc (suc (suc (suc zero))))))))) h = refl
digit_lem (suc (suc (suc (suc (suc (suc (suc (suc (suc (suc n)))))))))) h = absurd (omega arith)

decimal_within_lem : (fuel n : ℕ) → n ≤ fuel → read_from 0 (decimal_within fuel n) ≡ n
unfolding decimal_within read_from
decimal_within_lem zero n h = (let z : n ≡ 0 = omega arith in rw z refl)
decimal_within_lem (suc fuel) n h = elim (Bool-cases (ltb n 10)) [
  | inl e ↦ rw e (omega (arith, digit_lem n (ltb→lt n 10 e)))
  | inr e ↦
      rw (e, read_from-append 0 (decimal_within fuel (n / 10)) (digit (n % 10)))
        (rw (decimal_within_lem fuel (n / 10) (omega arith), digit_lem (n % 10) (omega arith))
          (omega arith))
]

pub decimal_inj : (m n : ℕ) → decimal m ≡ decimal n → m ≡ n
unfolding decimal
decimal_inj m n e =
    sym (decimal_within_lem m m (omega arith))
    ∙ ap (read_from 0) e
    ∙ decimal_within_lem n n (omega arith)
