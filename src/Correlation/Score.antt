-- ===== src/Correlation/Score.antt =====
-- backend/app/services/correlation_engine.py: the score of a candidate, from 40 in steps of 5. Points
-- won and lost are kept apart, since the difference may go below 0. The entropy of a text, a float, is
-- a parameter: whether it reaches the hint, and how it prints.
use Prim.Native.String.{count}
use auto_correlation.Prelude.{
  ℕ, ◌+◌, ◌-◌, ◌*◌, ◌≤◌, min, String, ◌≡◌, Bool, true, false, not, ◌&&◌, Option, none, some, List,
  [], ◌∷◌, ◌++◌, ltb, leb, if◌then◌else◌, arith, refl, ◌⊎◌, inl, inr, Bool-cases, subst,
}
use auto_correlation.Errors.{Message, plain, filled}
use auto_correlation.Correlation.Model.{Evidence, Confidence, high, medium, low, rejected}

-- `utils/masking.mask_value` and the entropy.
pub record Texts : Type 0 where
  pub mask_value : String → String
  pub is_token_like : String → Bool
  pub entropy_text : String → String

-- What a candidate is scored on, the keyword arguments of `_score`.
pub record Scored : Type 0 where
  pub two_run : Bool
  pub value : String
  pub structured : Bool
  pub consumer_count : ℕ
  pub text_extraction : Bool
  pub schema_changed : Bool
  pub producer_usable : Bool
  pub value_b : Option String

pub record Tally : Type 0 where
  pub factors : List Message
  pub penalties : List Message
  pub won : ℕ
  pub lost : ℕ

abbrev gain : ℕ → Message → Tally → Tally
gain n m t = record t { won = t.won + n; factors = t.factors ++ m ∷ [] }

abbrev lose : ℕ → Message → Tally → Tally
lose n m t = record t { lost = t.lost + n; penalties = t.penalties ++ m ∷ [] }

abbrev when : Bool → (Tally → Tally) → Tally → Tally
when b f t = if b then f t else t

runs_part : Bool → Tally → Tally
runs_part true t = gain 15 (plain "Consumer location identical in both runs.") (
    gain 10 (plain "Source path stable across both runs.")
      (gain 40 (plain "Producer→consumer match proven in both runs.") t))
runs_part false t =
    lose 30 (plain "Only one run available (dynamism unproven).") (record t { won = t.won + 15 })

structured_part : Bool → Tally → Tally
structured_part b t = when b (gain 10 (plain "Structured (JSON/XML) extractor available.")) t

value_part : Texts → String → Tally → Tally
value_part x value t =
    if leb 12 (count value) && x.is_token_like value
    then (gain 10
        (filled "Token-like value (len={1}, entropy={0})." (x.entropy_text value ∷ [])
          (count value ∷ []))
        t)
    else if ltb (count value) 6
    then lose 20 (plain "Value is short/common.") t
    else t

reuse_part : ℕ → Tally → Tally
reuse_part consumer_count t =
    if ltb 1 consumer_count
    then (gain (min 15 (5 * (consumer_count - 1)))
        (filled "Reused by {} downstream requests." [] (consumer_count ∷ [])) t)
    else t

penalty_part : Scored → Tally → Tally
penalty_part s t =
    when (not s.producer_usable)
      (lose 25 (plain "Source response is a non-success/error response."))
      (when s.schema_changed (lose 15 (plain "Some consumer locations changed between runs."))
        (when s.text_extraction (lose 15 (plain "Regex/text extraction required.")) t))

abbrev start : Tally
start = record { factors = []; penalties = []; won = 0; lost = 0 }

total : Texts → Scored → Tally
unfolding runs_part structured_part value_part reuse_part penalty_part
total x s = penalty_part s (
    reuse_part s.consumer_count
      (value_part x s.value (structured_part s.structured (runs_part s.two_run start))))

abbrev masked : Texts → Option String → Option String
masked x none = none
masked x (some v) = some (x.mask_value v)

unfoldable pub score : Texts → Scored → Evidence
unfolding total
score x s =
    let t = total x s in
    record {
      factors = t.factors;
      penalties = t.penalties;
      score = t.won - t.lost;
      baseline_value_masked = x.mask_value s.value;
      comparison_value_masked = masked x s.value_b;
    }

unfoldable pub classify : ℕ → Confidence
classify n =
    if leb 70 n then high else if leb 45 n then medium else if ltb 0 n then low else rejected

won_value :
    (x : Texts) (v : String) (t : Tally)
    → ((value_part x v t).won ≤ t.won + 10)
      × ((value_part x v t).lost ≤ t.lost + 20)
      × (t.lost ≤ (value_part x v t).lost)
unfolding value_part
won_value x v t = ground arith

won_reuse :
    (n : ℕ) (t : Tally) → ((reuse_part n t).won ≤ t.won + 15) × ((reuse_part n t).lost ≡ t.lost)
unfolding reuse_part
won_reuse n t = ground arith

won_penalty :
    (s : Scored) (t : Tally)
    → ((penalty_part s t).won ≡ t.won)
      × (t.lost ≤ (penalty_part s t).lost)
      × (s.producer_usable ≡ false → 25 ≤ (penalty_part s t).lost)
unfolding penalty_part
won_penalty s t = ground arith

won_runs :
    (b : Bool)
    → ((runs_part b start).won ≤ 65)
      × (b ≡ false → ((runs_part b start).won ≤ 15) × (30 ≤ (runs_part b start).lost))
unfolding runs_part
won_runs true = (omega arith, λ e. absurd (cc))
won_runs false = (omega arith, λ e. (omega arith, omega arith))

won_structured :
    (b : Bool) (t : Tally)
    → ((structured_part b t).won ≤ t.won + 10) × ((structured_part b t).lost ≡ t.lost)
unfolding structured_part
won_structured b t = ground arith

won_total :
    (x : Texts) (s : Scored)
    → ((total x s).won ≤ 100)
      × (s.two_run ≡ false → ((total x s).won ≤ 50) × (30 ≤ (total x s).lost))
      × (s.producer_usable ≡ false → 25 ≤ (total x s).lost)
unfolding total
won_total x s =
    let t₁ = runs_part s.two_run start in
    let t₂ = structured_part s.structured t₁ in
    let t₃ = value_part x s.value t₂ in
    let t₄ = reuse_part s.consumer_count t₃ in
    let (a, single) = won_runs s.two_run in
    let b = won_structured s.structured t₁ in
    let c = won_value x s.value t₂ in
    let d = won_reuse s.consumer_count t₃ in
    let (e, f, bad) = won_penalty s t₄ in
    (
      omega (arith, a, b, c, d, e),
      λ h. let g = single h in (omega (arith, g, b, c, d, e), omega (arith, g, b, c, d, f)),
      bad,
    )

-- The most that a candidate can score.
abbrev pub most : Bool → Bool → ℕ
most two_run producer_usable = if two_run then if producer_usable then 100 else 75 else 20

le-most :
    (b u : Bool) (n : ℕ) → n ≤ 100 → (b ≡ false → n ≤ 20) → (u ≡ false → n ≤ 75) → n ≤ most b u
le-most true true n all single bad = all
le-most true false n all single bad = bad refl
le-most false u n all single bad = single refl

difference-le : (x : Texts) (s : Scored) → (score x s).score ≤ (total x s).won - (total x s).lost
unfolding score
difference-le x s = omega arith

-- A score is at most 100 for two runs, 75 where the producer's response is an error, and 20 for a
-- single run.
pub score-le : (x : Texts) (s : Scored) → (score x s).score ≤ most s.two_run s.producer_usable
score-le x s =
    let (bound, single, bad) = won_total x s in
    let d = difference-le x s in
    le-most s.two_run s.producer_usable (score x s).score (omega (arith, bound, d))
      (λ e. omega (arith, single e, d)) (λ e. omega (arith, bound, bad e, d))

-- A candidate of a single run is never of high or medium confidence.
pub classify-single :
    (x : Texts) (s : Scored)
    → s.two_run ≡ false
    → (classify (score x s).score ≡ low) ⊎ (classify (score x s).score ≡ rejected)
unfolding classify
classify-single x s h =
    let bound : (score x s).score ≤ 20 =
      subst (λ b. (score x s).score ≤ most b s.producer_usable) h (score-le x s) in
    elim (Bool-cases (ltb 0 (score x s).score)) [
      | inl e ↦ inl (ground (arith, e, bound))
      | inr e ↦ inr (ground (arith, e, bound))
    ]
