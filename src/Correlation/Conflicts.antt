-- ===== src/Correlation/Conflicts.antt =====
-- backend/app/services/correlation_engine.py, `_dedupe_and_flag_conflicts`: candidates of one producer
-- and name are merged, echoes of an earlier producer are dropped, conflicts get a warning, and the best
-- score comes first.
pub mod Kept
pub mod Flags
use auto_correlation.Prelude.{
  ℕ, String, Bool, true, false, not, ◌&&◌, ◌||◌, List, [], ◌∷◌, ◌++◌, ltb, leb, if◌then◌else◌,
  str_eq, select, map,
}
use auto_correlation.Correlation.Naming.{is_in}
use auto_correlation.Correlation.Model.{ValueOccurrence, CorrelationCandidate, Place, place_eq}

abbrev pub place_of : ValueOccurrence → Place
place_of o = record {
  execution_id = o.execution_id;
  location_type = o.location_type;
  canonical_path = o.canonical_path;
}

unfoldable pub uses_place : Place → List ValueOccurrence → Bool
uses_place k [] = false
uses_place k (o ∷ r) = place_eq (place_of o) k || uses_place k r

abbrev pub same_producer : CorrelationCandidate → CorrelationCandidate → Bool
same_producer a b =
    str_eq a.producer.execution_id b.producer.execution_id
    && str_eq a.producer.canonical_path b.producer.canonical_path

-- The key of `merged`.
abbrev pub same_key : CorrelationCandidate → CorrelationCandidate → Bool
same_key a b = same_producer a b && str_eq a.variable_name b.variable_name

-- `seen` is not updated: it is of the consumers before.
unfoldable pub merged : CorrelationCandidate → CorrelationCandidate → CorrelationCandidate
unfolding uses_place
merged existing c = record existing {
  consumers =
      existing.consumers
      ++ select (λ con. not (uses_place (place_of con) existing.consumers)) c.consumers;
}

unfoldable pub merge_in :
    CorrelationCandidate → List CorrelationCandidate → List CorrelationCandidate
unfolding merged
merge_in c [] = c ∷ []
merge_in c (d ∷ r) = let rest = merge_in c r in if same_key d c then merged d c ∷ r else d ∷ rest

unfoldable pub merge_from :
    List CorrelationCandidate → List CorrelationCandidate → List CorrelationCandidate
unfolding merge_in
merge_from acc [] = acc
merge_from acc (c ∷ r) = merge_from (merge_in c acc) r

-- `later_consumers <= consumer_keys(earlier)`
unfoldable pub all_used : List ValueOccurrence → List ValueOccurrence → Bool
unfolding uses_place
all_used [] l = true
all_used (o ∷ r) l = uses_place (place_of o) l && all_used r l

unfoldable pub any_in : String → List ValueOccurrence → Bool
any_in id [] = false
any_in id (o ∷ r) = str_eq o.execution_id id || any_in id r

-- The later candidate's value came back from a request that the earlier one supplied.
unfoldable pub is_echo : CorrelationCandidate → CorrelationCandidate → Bool
unfolding any_in all_used
is_echo later earlier =
    not (str_eq earlier.id later.id)
    && (ltb earlier.producer.execution_index later.producer.execution_index
        && (str_eq earlier.producer.raw_value later.producer.raw_value
            && (any_in later.producer.execution_id earlier.consumers
                && all_used later.consumers earlier.consumers)))

unfoldable pub any_echo : CorrelationCandidate → List CorrelationCandidate → Bool
unfolding is_echo
any_echo later [] = false
any_echo later (e ∷ r) = is_echo later e || any_echo later r

-- The ids of `redundant`, and what is left.
unfoldable pub redundant : List CorrelationCandidate → List CorrelationCandidate → List String
unfolding any_echo
redundant all [] = []
redundant all (c ∷ r) = let rest = redundant all r in if any_echo c all then c.id ∷ rest else rest

unfoldable pub without_echoes : List CorrelationCandidate → List CorrelationCandidate
unfolding redundant is_in
without_echoes l = select (λ c. not (is_in c.id (redundant l l))) l

-- `by_consumer[place]` has another producer than the candidate's.
unfoldable pub has_rival : Place → CorrelationCandidate → List CorrelationCandidate → Bool
unfolding uses_place
has_rival k c [] = false
has_rival k c (d ∷ r) = (uses_place k d.consumers && not (same_producer d c)) || has_rival k c r

unfoldable pub in_conflict :
    CorrelationCandidate → List ValueOccurrence → List CorrelationCandidate → Bool
unfolding has_rival
in_conflict c [] all = false
in_conflict c (o ∷ r) all = has_rival (place_of o) c all || in_conflict c r all

abbrev pub conflict_warning : String
conflict_warning = "Conflict: multiple producers could supply a shared consumer; review required."

unfoldable pub flagged : List CorrelationCandidate → CorrelationCandidate → CorrelationCandidate
unfolding in_conflict is_in
flagged all c = record c {
  warnings =
      if in_conflict c c.consumers all && not (is_in conflict_warning c.warnings)
      then c.warnings ++ conflict_warning ∷ []
      else c.warnings;
}

-- A stable sort, the highest score first.
unfoldable pub insert_by_score :
    CorrelationCandidate → List CorrelationCandidate → List CorrelationCandidate
insert_by_score c [] = c ∷ []
insert_by_score c (d ∷ r) =
    let rest = insert_by_score c r in
    if ltb c.evidence.score d.evidence.score then d ∷ rest else c ∷ d ∷ r

unfoldable pub by_score : List CorrelationCandidate → List CorrelationCandidate
unfolding insert_by_score
by_score [] = []
by_score (c ∷ r) = insert_by_score c (by_score r)

unfoldable pub dedupe_and_flag_conflicts : List CorrelationCandidate → List CorrelationCandidate
unfolding merge_from without_echoes flagged by_score
dedupe_and_flag_conflicts candidates =
    let result = without_echoes (merge_from [] candidates) in by_score (map (flagged result) result)
