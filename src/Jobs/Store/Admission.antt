-- ===== src/Jobs/Store/Admission.antt =====
-- `create_if_allowed` on each of its branches.
use auto_correlation.Prelude.{
  ℕ, ◌≤◌, ◌<◌, String, ◌≡◌, ◌⊎◌, inl, inr, refl, Bool, true, false, Option, none, some, List, [],
  ◌∷◌, select, All, Member, ltb, leb, Bool-cases, truthy, subst, ◌∙◌, arith, str_eq, eq_refl,
}
use auto_correlation.Prelude.Dict.{lookup, values, lookup-put}
use auto_correlation.Prelude.Dict.Counts.{tally-put}
use auto_correlation.Errors.{Result, ok, raise}
use auto_correlation.Jobs.Model.{ExecutionJob}
use auto_correlation.Jobs.Store.{
  JobStore, counts, too_many_active_jobs, cleanup, is_repeat, later, latest_of, latest,
  find_by_idempotency_key_locked, count_active_locked, admit, repeat_or_admit, create_if_allowed,
}

-- The latest of a list is one of it, and none was created after it.
abbrev pub IsLatest : ExecutionJob → List ExecutionJob → Type 0
IsLatest j l = Member j l × All (λ i. i.created_at ≤ j.created_at) l

later_either : (a b : ExecutionJob) → (later a b ≡ a) ⊎ (later a b ≡ b)
later_either a b = elim (Bool-cases (ltb a.created_at b.created_at)) [
  | inl e ↦ inr (rw e)
  | inr e ↦ inl (rw e)
]

later_max :
    (a b : ExecutionJob)
    → (a.created_at ≤ (later a b).created_at) × (b.created_at ≤ (later a b).created_at)
later_max a b = (ground arith, ground arith)

All-le_trans :
    (m n : ℕ) (l : List ExecutionJob)
    → m ≤ n
    → All (λ i. i.created_at ≤ m) l
    → All (λ i. i.created_at ≤ n) l
All-le_trans m n [] h a = tt
All-le_trans m n (x ∷ l) h a = (omega arith, All-le_trans m n l h a.1)

latest_of_max :
    (a : ExecutionJob) (l : List ExecutionJob)
    → ((latest_of a l ≡ a) ⊎ Member (latest_of a l) l)
      × (a.created_at ≤ (latest_of a l).created_at)
      × All (λ i. i.created_at ≤ (latest_of a l).created_at) l
unfolding latest_of
latest_of_max a [] = (inl refl, omega arith, tt)
latest_of_max a (b ∷ r) =
    let (m, p, q) = latest_of_max (later a b) r in
    let (below_a, below_b) = later_max a b in
    (place (later_either a b) m, omega arith, (omega arith, q))
  where
    place :
        {c : ExecutionJob}
        → (later a b ≡ a) ⊎ (later a b ≡ b)
        → (c ≡ later a b) ⊎ Member c r
        → (c ≡ a) ⊎ ((c ≡ b) ⊎ Member c r)
    place e (inr m) = inr (inr m)
    place (inl e) (inl c) = inl (c ∙ e)
    place (inr e) (inl c) = inr (inl (c ∙ e))

latest-IsLatest : (l : List ExecutionJob) (j : ExecutionJob) → latest l ≡ some j → IsLatest j l
unfolding latest
latest-IsLatest [] j e = absurd (cc)
latest-IsLatest (a ∷ r) j e =
    let (m, p, q) = latest_of_max a r in
    let found : latest_of a r ≡ j = ground arith in
    subst (λ x. IsLatest x (a ∷ r)) found (m, (p, q))

-- What a selected job passed, and that it stands in the list.
Member-keep :
    (p : ExecutionJob → Bool) (j x : ExecutionJob) (l : List ExecutionJob)
    → (Member j (select p l) → Member j l × (p j ≡ true))
    → p x ≡ true
    → Member j (x ∷ select p l)
    → Member j (x ∷ l) × (p j ≡ true)
Member-keep p j x l ih e (inl q) = (inl q, rw q e)
Member-keep p j x l ih e (inr n) = let (n', h) = ih n in (inr n', h)

Member-select :
    (p : ExecutionJob → Bool) (j : ExecutionJob) (l : List ExecutionJob)
    → Member j (select p l)
    → Member j l × (p j ≡ true)
Member-select p j [] m = absurd m
Member-select p j (x ∷ l) m = elim (Bool-cases (p x)) [
  | inl e ↦ Member-keep p j x l (Member-select p j l) e (rw e at m)
  | inr e ↦ let (n, h) = Member-select p j l (rw e at m) in (inr n, h)
]

All-select :
    (P : ExecutionJob → Type 0) (p : ExecutionJob → Bool) (l : List ExecutionJob)
    → All P (select p l)
    → All (λ i. p i ≡ true → P i) l
All-select P p [] a = tt
All-select P p (x ∷ l) a = elim (Bool-cases (p x)) [
  | inl e ↦ let b : P x × All P (select p l) = rw e at a in ((λ h. b.0), All-select P p l b.1)
  | inr e ↦ ((λ h. absurd (cc)), All-select P p l (rw e at a))
]

none_selected :
    (p : ExecutionJob → Bool) (l : List ExecutionJob)
    → latest (select p l) ≡ none
    → All (λ i. p i ≡ false) l
unfolding latest
none_selected p [] e = tt
none_selected p (x ∷ l) e = elim (Bool-cases (p x)) [
  | inl q ↦ absurd (ground arith)
  | inr q ↦ (q, none_selected p l (rw q at e))
]

module _ (now : ℕ) (job : ExecutionJob) (window max_active : ℕ) (s : JobStore) where
  -- The jobs after the sweep.
  abbrev pub swept : List ExecutionJob
  swept = values (cleanup now s).jobs

  abbrev pub repeats : ExecutionJob → Bool
  repeats = is_repeat now job.owner_key job.idempotency_key window

  -- No job in the window has the owner and the key, if there is a key.
  abbrev pub NoRepeat : Type 0
  NoRepeat = truthy job.idempotency_key ≡ true → All (λ i. repeats i ≡ false) swept

  pub record Repeated (r : Result (ExecutionJob × Bool) × JobStore) : Type 0 where
    pub existing : ExecutionJob
    pub answer : r ≡ (ok (existing, false), cleanup now s)
    pub keyed : truthy job.idempotency_key ≡ true
    pub stored : Member existing swept
    pub matches : repeats existing ≡ true
    pub newest : All (λ i. repeats i ≡ true → i.created_at ≤ existing.created_at) swept

  pub record Refused (r : Result (ExecutionJob × Bool) × JobStore) : Type 0 where
    pub answer : r ≡ (raise (too_many_active_jobs max_active), cleanup now s)
    pub no_repeat : NoRepeat
    pub full : max_active ≤ count_active_locked job.owner_key (cleanup now s)

  pub record Admitted (r : Result (ExecutionJob × Bool) × JobStore) : Type 0 where
    pub answer : r.0 ≡ ok (job, true)
    pub stored : lookup job.id r.1.jobs ≡ some job
    pub others :
        (k : String) → str_eq job.id k ≡ false → lookup k r.1.jobs ≡ lookup k (cleanup now s).jobs
    pub no_repeat : NoRepeat
    pub room : count_active_locked job.owner_key (cleanup now s) < max_active
    pub within : count_active_locked job.owner_key r.1 ≤ max_active

  admit_cases :
      NoRepeat
      → Refused (admit job max_active (cleanup now s))
        ⊎ Admitted (admit job max_active (cleanup now s))
  unfolding admit
  admit_cases fresh =
      let t = cleanup now s in
      elim (Bool-cases (leb max_active (count_active_locked job.owner_key t))) [
        | inl e ↦ inl (record { answer = rw e; no_repeat = fresh; full = ground arith })
        | inr e ↦ inr (
            rw e (record {
              answer = refl;
              stored = rw (lookup-put job.id job.id job t.jobs, eq_refl) refl;
              others = λ k ne. rw (lookup-put job.id k job t.jobs, ne) refl;
              no_repeat = fresh;
              room = ground arith;
              within =
                  unfold count_active_locked in
                  ground (arith, tally-put (counts job.owner_key) job.id job t.jobs);
            }))
      ]

  by_search :
      (o : Option ExecutionJob)
      → ((j : ExecutionJob) → o ≡ some j → Repeated (ok (j, false), cleanup now s))
      → (o ≡ none → NoRepeat)
      → let r = repeat_or_admit o job max_active (cleanup now s) in
        Repeated r ⊎ (Refused r ⊎ Admitted r)
  unfolding repeat_or_admit
  by_search (some j) found missed = inl (found j refl)
  by_search none found missed = inr (admit_cases (missed refl))

  search : Option ExecutionJob
  search =
      find_by_idempotency_key_locked now job.owner_key job.idempotency_key window (cleanup now s)

  search_found :
      (j : ExecutionJob)
      → truthy job.idempotency_key ≡ true
      → search ≡ some j
      → Repeated (ok (j, false), cleanup now s)
  unfolding search find_by_idempotency_key_locked
  search_found j key e =
      let (m, all) = latest-IsLatest (select repeats swept) j e in
      let (m', passes) = Member-select repeats j swept m in
      record {
        existing = j;
        answer = refl;
        keyed = key;
        stored = m';
        matches = passes;
        newest = All-select (λ i. i.created_at ≤ j.created_at) repeats swept all;
      }

  -- A submission has one of three outcomes. A repeat of an idempotency key within the window
  -- returns the newest such job of the owner and inserts nothing. Without a repeat, an owner at
  -- the cap is refused with the 429 problem and nothing is inserted; below the cap the job is
  -- inserted, no other job is touched, and the owner's active jobs stay within the cap.
  pub create_if_allowed_cases :
      let r = create_if_allowed now job window max_active s in Repeated r ⊎ (Refused r ⊎ Admitted r)
  unfolding create_if_allowed search
  create_if_allowed_cases = elim (Bool-cases (truthy job.idempotency_key)) [
    | inl key ↦ rw key (
        by_search search (λ j e. search_found j key e)
          (λ e _. unfold find_by_idempotency_key_locked in none_selected repeats swept e))
    | inr key ↦ rw key (by_search none (λ j e. absurd (cc)) (λ _ h. absurd (cc)))
  ]
