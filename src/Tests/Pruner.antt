-- ===== src/Tests/Pruner.antt =====
-- Concrete inputs for the theorems on the garbage collection.
use mathlib.Core.List.{Permᴰ}
use tektoncd_pruner.Prelude.{
  String, ◌+◌, ◌<◌, pos, negsuc, false, Option, some, List, [], ◌∷◌, ◌≡◌, ◌⊎◌, refl, arith, ◌==◌,
}
use tektoncd_pruner.Go.Dict.{at, find}
use tektoncd_pruner.Go.Exec.{Exec, ok}
use tektoncd_pruner.Kube.Object.{Object, ObjectMeta, meta, other_object}
use tektoncd_pruner.Kube.Api.{Patch, Platform}
use tektoncd_pruner.Config.Spec.{annotation_processed}
use tektoncd_pruner.World.{World}
use tektoncd_pruner.Ttl.Annotation.{TtlHandler}
use tektoncd_pruner.Ttl.Event.{process_ttl_event}
use tektoncd_pruner.Runs.PipelineRuns.{pr_ttl_funcs}
use tektoncd_pruner.Pruner.Collect.{recheck, collect_run}
use tektoncd_pruner.Pruner.Rechecked.{unmarked_run_waits}
use tektoncd_pruner.Pruner.Pool.{
  Pool, started, Step, receive, complete, Reach, start, later, collect_all,
}
use tektoncd_pruner.Pruner.Pool.Laws.{
  Ended, remaining_steps, each_namespace_collected, steps_of, steps_are_bounded,
  workers_make_progress, no_worker_no_progress,
}
use tektoncd_pruner.Tests.Fixture.{platform, meta_of, noon}
use tektoncd_pruner.Tests.Store.{single_limiter, one_run}

-- The collection that only notes the namespace.
abbrev note : String → List String → List String
note ns seen = ns ∷ seen

abbrev two_namespaces : List String
two_namespaces = "a" ∷ "b" ∷ []

abbrev first_pool : Pool (List String)
first_pool = started two_namespaces (pos 2) []

abbrev one_sent : Pool (List String)
one_sent = record first_pool { pending = "b" ∷ []; idle = 1; busy = "a" ∷ [] }

abbrev both_sent : Pool (List String)
both_sent = record first_pool { pending = []; idle = 0; busy = "b" ∷ "a" ∷ [] }

-- The worker that started first ends first.
abbrev one_done : Pool (List String)
one_done = record both_sent { idle = 1; busy = "b" ∷ []; finished = "a" ∷ []; world = "a" ∷ [] }

abbrev all_done : Pool (List String)
all_done = record both_sent {
  idle = 2;
  busy = [];
  finished = "b" ∷ "a" ∷ [];
  world = "b" ∷ "a" ∷ [];
}

first_sent : Step note first_pool one_sent
first_sent = receive refl refl

both_reached : Reach note two_namespaces (pos 2) [] both_sent
both_reached = later (later start first_sent) (receive refl refl)

all_reached : Reach note two_namespaces (pos 2) [] all_done
all_reached = later (later both_reached (complete ("b" ∷ []) [] refl)) (complete [] [] refl)

each_namespace_collected_example :
    Permᴰ ("b" ∷ "a" ∷ []) two_namespaces × (all_done.world ≡ collect_all note ("b" ∷ "a" ∷ []) [])
each_namespace_collected_example =
    each_namespace_collected note two_namespaces (pos 2) [] all_reached (refl, refl)

steps_are_bounded_example :
    steps_of note two_namespaces (pos 2) [] both_reached + remaining_steps both_sent ≡ 4
steps_are_bounded_example = steps_are_bounded note two_namespaces (pos 2) [] both_reached

workers_make_progress_example :
    Ended both_sent
    ⊎ ((t : Pool (List String)) × Step note both_sent t
        × (remaining_steps t < remaining_steps both_sent))
workers_make_progress_example =
    workers_make_progress note two_namespaces (pos 2) [] (omega arith) both_reached

abbrev no_workers : Pool (List String)
no_workers = started two_namespaces (negsuc 0) []

no_worker_no_progress_example : (no_workers ≡ no_workers) × ¬ (Step note no_workers one_sent)
no_worker_no_progress_example =
    no_worker_no_progress note two_namespaces (negsuc 0) [] (omega arith) one_sent start

abbrev at_noon : Platform (Option ObjectMeta)
at_noon = platform

abbrev marked_run : Object
marked_run =
    other_object
      (record (meta_of "a" 1) { annotations = some ((annotation_processed, "11:00") ∷ []) })

abbrev handler : TtlHandler (World (Option ObjectMeta))
handler = record { clock = λ w. (noon, w); resource_fn = pr_ttl_funcs platform }

abbrev accept : String → String → Patch → Exec (World (Option ObjectMeta)) (Unit {0})
accept namespace name patch w = (ok tt, w)

marked : (at (meta marked_run).annotations annotation_processed == "") ≡ false
unfolding find
marked = refl

rechecked :
    recheck platform accept marked_run
      (at_noon.parse_rfc3339 (at (meta marked_run).annotations annotation_processed))
      (at_noon.parse_rfc3339 "12:00")
      one_run
    ≡ (ok tt, one_run)
unfolding recheck find
rechecked = refl

unmarked_run_waits_example :
    collect_run platform single_limiter handler accept "12:00" marked_run one_run
    ≡ (process_ttl_event platform handler marked_run one_run).1
unmarked_run_waits_example =
    unmarked_run_waits platform single_limiter handler accept "12:00" marked_run one_run one_run
      marked rechecked
