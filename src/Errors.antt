-- ===== src/Errors.antt =====
-- backend/app/core/errors.py: the application error and its constructors, and results of code
-- that may raise.
use auto_correlation.Prelude.{ℕ, String, Option, some, List, []}

-- An f-string is its template and what is put into it.
pub data Message : Type 0 where
  plain : String → Message
  filled : String → List String → List ℕ → Message

-- The headers of the response are left out.
pub record ProblemException : Type 0 where
  pub status : ℕ
  pub code : String
  pub title : String
  pub detail : Option Message
  pub errors : List (String × Message)

-- An exception is an application error or any other one, whose text is never read.
pub data Exception : Type 0 where
  problem : ProblemException → Exception
  other : Exception

pub data Result {ℓ} (A : Type ℓ) : Type ℓ where
  ok : A → Result A
  err : Exception → Result A

unfoldable pub validation_error : Message → List (String × Message) → ProblemException
validation_error detail errors = record {
  status = 422;
  code = "validation_error";
  title = "Validation failed";
  detail = some detail;
  errors = errors;
}

unfoldable pub rate_limited : Message → ProblemException
rate_limited detail = record {
  status = 429;
  code = "rate_limited";
  title = "Too many requests";
  detail = some detail;
  errors = [];
}

-- `m.map f` on results.
abbrev pub map_result {ℓ κ} : {A : Type ℓ} {B : Type κ} → (A → B) → Result A → Result B
map_result f (ok a) = ok (f a)
map_result f (err e) = err e

infixl 10 ◌>>=◌ ◌>>◌
abbrev pub ◌>>=◌ {ℓ κ} : {A : Type ℓ} {B : Type κ} → Result A → (A → Result B) → Result B
ok a >>= f = f a
err e >>= f = err e

abbrev pub ◌>>◌ {ℓ} : {B : Type ℓ} → Result (Unit {0}) → Result B → Result B
m >> n = m >>= λ _. n

abbrev pub raise {ℓ} : {A : Type ℓ} → ProblemException → Result A
raise p = err (problem p)
