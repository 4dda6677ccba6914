-- ===== src/History/Limit.antt =====
-- The interface that the limiter works through, and the choice of the limit and of the runs that
-- `doResourceCleanup` makes, apart from its calls of the client.
use tektoncd_pruner.Prelude.{
  String, ◌<>◌, ℕ, ◌-◌, ◌^◌, ℤ, pos, negsuc, pos_part, eqb_ℤ, ltb_ℤ, ltb, Bool, false, not, ◌&&◌,
  ◌||◌, Option, none, some, List, [], ◌∷◌, ◌==◌, if◌then◌else◌, length, drop, keep,
}
use tektoncd_pruner.Go.Dict.{Dict, entries, len, at, find}
use tektoncd_pruner.Go.Exec.{Exec, Result, ok, err, errorf}
use tektoncd_pruner.Go.Decimal.{atoi, itoa}
use tektoncd_pruner.Go.Time.{before, after}
use tektoncd_pruner.Go.Sort.{sort_stable_func}
use tektoncd_pruner.Kube.Object.{Object, ObjectMeta, meta}
use tektoncd_pruner.Kube.Api.{Patch}
use tektoncd_pruner.Config.Spec.{
  EnforcedConfigLevel, level_resource, SelectorSpec, identified_by_name, identified_by_annotation,
  identified_by_label,
}
use tektoncd_pruner.Config.Select.{Found}

-- `HistoryLimiterResourceFuncs`, over the state `W`
pub record HistoryLimiterResourceFuncs (W : Type 0) : Type 0 where
  pub type : String
  pub get : String → String → Exec W Object
  pub update : Object → Exec W (Unit {0})
  pub patch : String → String → Patch → Exec W (Unit {0})
  pub delete : String → String → Exec W (Unit {0})
  pub list : String → String → Exec W (List Object)
  pub get_failed_history_limit_count : String → String → SelectorSpec → W → Found
  pub get_success_history_limit_count : String → String → SelectorSpec → W → Found
  pub is_successful : Object → Bool
  pub is_failed : Object → Bool
  pub is_completed : Object → Bool
  pub get_default_label_key : String
  pub get_enforced_config_level : String → String → SelectorSpec → W → EnforcedConfigLevel

pub record HistoryLimiter (W : Type 0) : Type 0 where
  pub resource_fn : HistoryLimiterResourceFuncs W

-- `NewHistoryLimiter`
unfoldable pub new_history_limiter :
    {W : Type 0} → Option (HistoryLimiterResourceFuncs W) → Result (HistoryLimiter W)
new_history_limiter none = err (errorf "resourceFunc interface can not be nil")
new_history_limiter (some f) = ok (record { resource_fn = f })

abbrev pub max_int32 : ℤ
max_int32 = pos (2 ^ 31 - 1)

abbrev pub is_int : Option ℤ → ℤ → Bool
is_int none n = false
is_int (some c) n = eqb_ℤ n c

-- the bounds check of the annotation's value, and its comparison with the configured one
unfoldable pub limit_of_annotation : Found → Result ℤ → Result Found
unfolding itoa
limit_of_annotation configured (err e) = err e
limit_of_annotation configured (ok n) =
    if ltb_ℤ n (pos 0) || ltb_ℤ max_int32 n
    then err (errorf ("history limit value " <> (itoa n <> " is out of bounds for type int32")))
    else if is_int configured.0 n
    then ok (some n, identified_by_annotation)
    else ok configured

-- the limit and what it was identified by
unfoldable pub choose_limit : EnforcedConfigLevel → Dict String → String → Found → Result Found
unfolding limit_of_annotation find atoi
choose_limit level annotations limit_annotation configured =
    if level == level_resource
      && (ltb 0 (len annotations) && not (at annotations limit_annotation == ""))
    then limit_of_annotation configured (atoi (at annotations limit_annotation))
    else ok configured

-- `historyLimit == nil || *historyLimit < 0`
abbrev pub effective_limit : Option ℤ → Option ℕ
effective_limit none = none
effective_limit (some n) = if ltb_ℤ n (pos 0) then none else some (pos_part n)

-- the loop that joins `key=value` by commas
unfoldable pub join_entries : List (String × String) → String → String
join_entries [] acc = acc
join_entries ((k, v) ∷ rest) acc =
    join_entries rest ((if acc == "" then acc else acc <> ",") <> (k <> ("=" <> v)))

-- the label selector that the runs are listed by
unfoldable pub list_selector : EnforcedConfigLevel → String → String → String → ObjectMeta → String
unfolding join_entries
list_selector level identified_by label_key resource_name m =
    if level == level_resource
    then (if identified_by == identified_by_name
        then label_key <> ("=" <> resource_name)
        else if identified_by == identified_by_annotation
        then join_entries (entries m.annotations) ""
        else if identified_by == identified_by_label
        then join_entries (entries m.labels) ""
        else "")
    else ""

-- the comparison of the sort: newest first
abbrev pub newest_first : Object → Object → ℤ
newest_first a b =
    if before (meta a).creation_timestamp (meta b).creation_timestamp
    then pos 1
    else if after (meta a).creation_timestamp (meta b).creation_timestamp
    then negsuc 0
    else pos 0

abbrev pub sort_newest : List Object → List Object
sort_newest = sort_stable_func newest_first

-- The runs to delete, of those that were listed: none if the limit exceeds their number.
unfoldable pub select_for_deletion : (Object → Bool) → ℕ → List Object → List Object
unfolding sort_stable_func
select_for_deletion passes limit resources =
    let filtered = keep passes resources in
    if ltb (length filtered) limit then [] else drop limit (sort_newest filtered)
