-- ===== src/Jobs/Submission/Resolved.antt =====
-- A job that is created has a value for every variable that its collection refers to.
use text.Mathlib.Text.{starts_with}
use auto_correlation.Prelude.{
  ℕ, String, ◌≡◌, ◌⊎◌, inl, inr, refl, Bool, true, Option, none, some, List, [], ◌∷◌, All, leb,
  Bool-cases,
}
use auto_correlation.Prelude.Dict.{Dict}
use auto_correlation.Errors.{Exception, Result, ok, err}
use auto_correlation.Jobs.Model.{ExecutionJob, Document}
use auto_correlation.Jobs.World.{World}
use auto_correlation.Jobs.Submission.{
  ParsedCollection, ParsedEnvironment, Readers, SubmissionSettings, Submission, read_environment,
  known_values, missing, insert_job, check_variables, folder_checked, parsed, counted, searched,
  create_job, with_environment, with_collection, prepare_run_material,
}
use auto_correlation.Postman.Resolver.{VariableReference, is_in, has_key, merged_values}
use auto_correlation.Postman.Resolver.Ladder.{HasSource, unresolved_names-nil, sourced_cases}

module _ (readers : Readers) (settings : SubmissionSettings) (args : Submission) where
  -- A reference that the run can resolve: Postman's own variable, one that a script sets, or one
  -- with a value among those given to the run.
  abbrev pub CanResolve : Document → Dict String → VariableReference → Type 0
  CanResolve contents values v =
      (starts_with v.name "$" ≡ true)
      ⊎ ((is_in v.name (readers.script_set_variable_names contents) ≡ true)
          ⊎ (has_key v.name values ≡ true))

  -- What the checks before the insertion have read.
  abbrev Passed : Type 0
  Passed =
      (c : ParsedCollection) × (e : Option ParsedEnvironment) × (readers.parse_collection
          args.collection_raw args.collection_filename
        ≡ ok c)
      × (read_environment readers settings args args.environment_raw ≡ ok e)
      × (missing readers settings args c.document e ≡ [])

  abbrev IsNew : Result (ExecutionJob × Bool) × World → Type 0
  IsNew r = (j : ExecutionJob) × (r.0 ≡ ok (j, true))

  new-insert_job :
      (id : String) (c : ParsedCollection) (l : List String) (w : World)
      → IsNew (insert_job readers settings args id c l w)
      → l ≡ []
  unfolding insert_job
  new-insert_job id c [] w n = refl
  new-insert_job id c (x ∷ r) w (j, e) = absurd (cc)

  new-check_variables :
      (id : String) (c : ParsedCollection) (o : Result (Option ParsedEnvironment)) (w : World)
      → IsNew (check_variables readers settings args id c o w)
      → (e : Option ParsedEnvironment) × (o ≡ ok e)
        × (missing readers settings args c.document e ≡ [])
  unfolding check_variables
  new-check_variables id c (err x) w (j, e) = absurd (cc)
  new-check_variables id c (ok o) w n = (o, refl, new-insert_job id c _ w n)

  new-folder_checked :
      (id : String) (c : ParsedCollection) (f : Result (Unit {0})) (w : World)
      → IsNew (folder_checked readers settings args id c f w)
      → (e : Option ParsedEnvironment) × (read_environment readers settings args
            args.environment_raw
          ≡ ok e)
        × (missing readers settings args c.document e ≡ [])
  unfolding folder_checked
  new-folder_checked id c (err x) w (j, e) = absurd (cc)
  new-folder_checked id c (ok u) w n = new-check_variables id c _ w n

  new-parsed :
      (id : String) (p : Result ParsedCollection) (w : World)
      → readers.parse_collection args.collection_raw args.collection_filename ≡ p
      → IsNew (parsed readers settings args id p w)
      → Passed
  unfolding parsed
  new-parsed id (err x) w q (j, e) = absurd (cc)
  new-parsed id (ok c) w q n =
      let (e, read, none_missing) = new-folder_checked id c _ w n in (c, e, q, read, none_missing)

  err-IsNew : (x : Exception) (w : World) → ¬ IsNew (err x, w)
  err-IsNew x w (j, e) = cc

  new-counted : (id : String) (r : ℕ × World) → IsNew (counted readers settings args id r) → Passed
  unfolding counted
  new-counted id (active, w) n =
      elim (Bool-cases (leb settings.max_concurrent_jobs_per_owner active)) [
        | inl q ↦ absurd (err-IsNew _ w (rw q at n))
        | inr q ↦ new-parsed id _ w refl (rw q at n)
      ]

  new-searched :
      (id : String) (r : Option ExecutionJob × World)
      → IsNew (searched readers settings args id r)
      → Passed
  unfolding searched
  new-searched id (some existing, w) (j, e) = absurd (cc)
  new-searched id (none, w) n = new-counted id _ n

  material_of :
      (c : ParsedCollection) (e : Option ParsedEnvironment)
      → readers.parse_collection args.collection_raw args.collection_filename ≡ ok c
      → read_environment readers settings args args.environment_raw ≡ ok e
      → (environment : Option Document) × (prepare_run_material readers settings args
          ≡ ok (
            c.document,
            environment,
            merged_values (known_values readers settings args c.document e),
          ))
  unfolding prepare_run_material with_collection with_environment
  material_of c e p q = rw (p, q) (_, refl)

  can_resolve :
      (c : ParsedCollection) (e : Option ParsedEnvironment) (l : List VariableReference)
      → let known = known_values readers settings args c.document e in
        All (λ (v : VariableReference). HasSource readers.is_sensitive_key known v.name) l
        → All (CanResolve c.document (merged_values known)) l
  can_resolve c e [] h = tt
  can_resolve c e (v ∷ l) h = (
    sourced_cases (known_values readers settings args c.document e) v.name h.0,
    can_resolve c e l h.1,
  )

  -- When `create_job` inserts a new job, `prepare_run_material` on the same arguments succeeds, and
  -- every variable that the collection refers to is Postman's own, set by one of the collection's
  -- scripts, or has a value in the merged values that the run is given.
  pub create_job-CanResolve :
      (id : String) (w : World) (j : ExecutionJob)
      → (create_job readers settings args id w).0 ≡ ok (j, true)
      → (contents : Document) × (environment : Option Document) × (values : Dict String)
        × (prepare_run_material readers settings args ≡ ok (contents, environment, values))
        × All (CanResolve contents values) (readers.extract_variable_references contents)
  unfolding create_job
  create_job-CanResolve id w j n =
      let (c, e, read, read_env, none_missing) = new-searched id _ (j, n) in
      let known = known_values readers settings args c.document e in
      let (environment, prepared) = material_of c e read read_env in
      let references = readers.extract_variable_references c.document in
      (
        c.document,
        environment,
        merged_values known,
        prepared,
        can_resolve c e references
            (unresolved_names-nil readers.is_sensitive_key known references none_missing),
      )
