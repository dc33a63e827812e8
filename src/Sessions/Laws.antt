-- ===== src/Sessions/Laws.antt =====
-- An analysis is there until it expires.
use auto_correlation.Prelude.{
  ℕ, String, ◌≡◌, inl, inr, refl, Bool, true, false, Option, none, some, ltb, if◌then◌else◌,
  Bool-cases, str_eq,
}
use auto_correlation.Prelude.Dict.{
  Dict, lookup, put, HasUniqueKeys, survivor, lookup-put, lookup-pop_where,
}
use auto_correlation.Prelude.Dict.Counts.{put-HasUniqueKeys}
use auto_correlation.Sessions.{Analysis, has_expired, create, cleanup, found, get}

module _ {R : Type 0} where
  found_lem :
      (now : ℕ) (id : String) (o : Option (Analysis R)) (d : Dict (Analysis R))
      → (found now id (survivor (has_expired now) o) d).0 ≡ survivor (has_expired now) o
  unfolding found
  found_lem now id none d = refl
  found_lem now id (some a) d = elim (Bool-cases (ltb a.expires_at now)) [
    | inl e ↦ rw e refl
    | inr e ↦ rw (e, e) refl
  ]

  get_lem :
      (now : ℕ) (id : String) (d : Dict (Analysis R))
      → HasUniqueKeys d
      → (get now id d).0 ≡ survivor (has_expired now) (lookup id d)
  unfolding get cleanup
  get_lem now id d u =
      rw (lookup-pop_where (has_expired now) id d u) (found_lem now id (lookup id d) _)

  -- After an analysis is created it is found under its id until it expires and no longer, and
  -- every other id finds what it found before.
  pub get-create :
      (a : Analysis R) (now : ℕ) (id : String) (d : Dict (Analysis R))
      → HasUniqueKeys d
      → (get now id (create a d)).0 ≡ (
          if str_eq a.id id
          then (if ltb a.expires_at now then none else some a)
          else (get now id d).0)
  unfolding create
  get-create a now id d u =
      rw
        (
          get_lem now id (put a.id a d) (put-HasUniqueKeys a.id a d u),
          lookup-put a.id id a d,
          get_lem now id d u,
        )
        (by_id (str_eq a.id id))
    where
      by_id :
          (b : Bool)
          → survivor (has_expired now) (if b then some a else lookup id d) ≡ (
              if b
              then (if ltb a.expires_at now then none else some a)
              else survivor (has_expired now) (lookup id d))
      by_id true = refl
      by_id false = refl
