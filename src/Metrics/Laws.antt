-- ===== src/Metrics/Laws.antt =====
-- A resource is counted once, however often it is processed.
use tektoncd_pruner.Prelude.{
  ℕ, String, true, false, Bool, List, [], ◌∷◌, if◌then◌else◌, ◌≡◌, refl, arith, ◌==◌, eq_iff, ◌+◌,
  any, ℤ, pos, ◌+ℤ◌,
}
use tektoncd_pruner.Go.Dict.{find, find-replace, entries}
use tektoncd_pruner.Metrics.{
  Measurement, add, record_seconds, Recorder, new_recorder, is_seen, metric_resources_processed,
  record_resource_processed,
}

-- The value of the counter of processed resources: the sum of what was added to it.
unfoldable pub processed_count : List Measurement → ℤ
processed_count [] = pos 0
processed_count (add name n labels ∷ ms) =
    let rest = processed_count ms in if name == metric_resources_processed then rest +ℤ n else rest
processed_count (record_seconds name d labels ∷ ms) = processed_count ms

pub is_seen-record_resource_processed :
    (uid other kind ns status : String) (r : Recorder)
    → is_seen (record_resource_processed uid kind ns status r) other
      ≡ (if uid == other then true else is_seen r other)
unfolding record_resource_processed
is_seen-record_resource_processed uid other kind ns status r =
    ground (arith, find-replace uid other true (entries r.seen_resources), eq_iff uid other)

-- A call of `RecordResourceProcessed`, by its arguments.
pub record Processed : Type 0 where
  pub uid : String
  pub resource_type : String
  pub namespace : String
  pub status : String

-- The recorder after the calls, the latest first.
pub after_calls : List Processed → Recorder
after_calls [] = new_recorder
after_calls (c ∷ cs) =
    record_resource_processed c.uid c.resource_type c.namespace c.status (after_calls cs)

-- How many different UIDs there are.
unfoldable pub distinct_uids : List String → ℕ
distinct_uids [] = 0
distinct_uids (uid ∷ uids) =
    let rest = distinct_uids uids in if any (λ other. other == uid) uids then rest else rest + 1

abbrev pub uids_of : List Processed → List String
uids_of [] = []
uids_of (c ∷ cs) = c.uid ∷ uids_of cs

is_seen-after_calls :
    (cs : List Processed) (uid : String)
    → is_seen (after_calls cs) uid ≡ any (λ other. other == uid) (uids_of cs)
unfolding after_calls find
is_seen-after_calls [] uid = refl
is_seen-after_calls (c ∷ cs) uid =
    rw is_seen-record_resource_processed (rw (is_seen-after_calls cs uid))

pub processed_count-record_resource_processed :
    (uid kind ns status : String) (r : Recorder)
    → processed_count (record_resource_processed uid kind ns status r).measurements ≡ (
        if is_seen r uid
        then processed_count r.measurements
        else processed_count r.measurements +ℤ pos 1)
unfolding record_resource_processed processed_count
processed_count-record_resource_processed uid kind ns status r = ground arith

pub one_more_if :
    (seen : Bool) (n : ℕ)
    → (if seen then pos n else pos n +ℤ pos 1) ≡ pos (if seen then n else n + 1)
unfolding ◌+ℤ◌
one_more_if true n = refl
one_more_if false n = ground arith

-- However often `RecordResourceProcessed` is called, the counter of processed resources is the number
-- of UIDs.
pub processed_count-after_calls :
    (cs : List Processed)
    → processed_count (after_calls cs).measurements ≡ pos (distinct_uids (uids_of cs))
unfolding after_calls distinct_uids
processed_count-after_calls [] = unfold processed_count in refl
processed_count-after_calls (c ∷ cs) = rw processed_count-record_resource_processed (
    rw (is_seen-after_calls cs c.uid, processed_count-after_calls cs)
      (one_more_if (any (λ other. other == c.uid) (uids_of cs)) (distinct_uids (uids_of cs))))
