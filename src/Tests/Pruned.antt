-- ===== src/Tests/Pruned.antt =====
-- A garbage collection of two namespaces, from the ConfigMap to the end of its workers.
use mathlib.Core.List.{Memᴰ}
use tektoncd_pruner.Prelude.{
  String, ◌≤◌, pos, Bool, true, false, not, List, [], ◌∷◌, ◌≡◌, ◌≢◌, refl, ap, sym, ◌∙◌, subst,
  arith, keep, length, ◌==◌, Bool-cases, eq_iff, inl, inr, All, All-keep, All-map, keep_comm,
}
use tektoncd_pruner.Go.Exec.{Result, ok, err}
use tektoncd_pruner.Go.Dict.{find}
use tektoncd_pruner.Kube.Object.{PipelineRun}
use tektoncd_pruner.World.{World}
use tektoncd_pruner.Runs.Enforced.{success, has_run_key}
use tektoncd_pruner.Pruner.Namespaces.{CoreClient, Collection, prepare_collection}
use tektoncd_pruner.Pruner.Collect.{collect_namespace}
use tektoncd_pruner.Pruner.Pool.{Reach, receive, complete, start, later}
use tektoncd_pruner.Safety.View.{Invariant, Spares-refl}
use tektoncd_pruner.Safety.OnCluster.{cluster-IsQuiet}
use tektoncd_pruner.Safety.Reconcilers.{IsCluster}
use tektoncd_pruner.Safety.Isolation.{isolation}
use tektoncd_pruner.Safety.Enforced.{runs_of}
use tektoncd_pruner.Safety.Pruned.{IsListed, configured_collection_enforces_limit}
use tektoncd_pruner.Tests.Fixture.{store}
use tektoncd_pruner.Tests.Cluster.{all_of, of_namespace}
use tektoncd_pruner.Tests.Reconciled.{
  full_platform, full_laws, full_cluster, find_run, limits_to_one, one_is_set,
}
use tektoncd_pruner.Tests.Collected.{ended, ended_builds, ended-IsNew, deletions_succeed}

abbrev keeps_ended : Invariant (List PipelineRun)
keeps_ended = isolation "ns" (IsListed all_of of_namespace ended)

is_other : (namespace : String) → namespace ≢ "ns" → (namespace == "ns") ≡ false
is_other namespace other = elim (Bool-cases (namespace == "ns")) [
  | inl same ↦ absurd (other (ground (arith, same, eq_iff namespace "ns")))
  | inr away ↦ away
]

not_in_ns : (namespace own : String) → namespace ≢ "ns" → (own == namespace) ≡ true → own ≢ "ns"
not_in_ns namespace own other here same =
    absurd (other (ground (arith, here, same, eq_iff own namespace, eq_iff own "ns")))

keep_head :
    {a x : PipelineRun} (xs : List PipelineRun) (q : PipelineRun → Bool)
    → a ≡ x
    → q x ≡ true
    → Memᴰ a (keep q (x ∷ xs))
keep_head xs q e h = rw h (Memᴰ.head e)

keep_tail :
    {a : PipelineRun} (x : PipelineRun) (xs : List PipelineRun) (q : PipelineRun → Bool)
    → Memᴰ a (keep q xs)
    → Memᴰ a (keep q (x ∷ xs))
keep_tail x xs q m = elim (Bool-cases (q x)) [
  | inl kept ↦ rw kept (Memᴰ.tail m)
  | inr dropped ↦ rw dropped m
]

keep-Memᴰ :
    {a : PipelineRun} {l : List PipelineRun} (q : PipelineRun → Bool)
    → q a ≡ true
    → Memᴰ a l
    → Memᴰ a (keep q l)
keep-Memᴰ {a} q h (Memᴰ.head {xs = xs} e) = keep_head xs q e (ap q (sym e) ∙ h)
keep-Memᴰ {a} q h (Memᴰ.tail {x = x} {xs = xs} m) = keep_tail x xs q (keep-Memᴰ q h m)

key_elsewhere :
    (namespace name : String) (pr : PipelineRun)
    → namespace ≢ "ns"
    → has_run_key namespace name pr ≡ true
    → pr.metadata.namespace ≢ "ns"
key_elsewhere namespace name pr other here =
    not_in_ns namespace pr.metadata.namespace other (ground (arith, here))

abbrev value_or {ℓ} : {A : Type ℓ} → A → Result A → A
value_or d (ok a) = a
value_or d (err e) = d

found_head :
    (namespace name : String) (pr : PipelineRun) (s : List PipelineRun)
    → has_run_key namespace name pr ≡ true
    → find_run namespace name (pr ∷ s) ≡ ok pr
found_head namespace name pr s here = rw here refl

found_tail :
    (namespace name : String) (pr : PipelineRun) (s : List PipelineRun)
    → has_run_key namespace name pr ≡ false
    → find_run namespace name (pr ∷ s) ≡ find_run namespace name s
found_tail namespace name pr s away = rw away refl

found_inside :
    (namespace name : String) (s : List PipelineRun) {r : PipelineRun}
    → namespace ≢ "ns"
    → find_run namespace name s ≡ ok r
    → r.metadata.namespace ≢ "ns"
found_inside namespace name [] other h = absurd (ground (arith, h))
found_inside namespace name (pr ∷ s) {r} other h =
    elim (Bool-cases (has_run_key namespace name pr)) [
      | inl here ↦
          subst (λ r. r.metadata.namespace ≢ "ns")
            (ap (value_or pr) (sym (found_head namespace name pr s here) ∙ h))
            (key_elsewhere namespace name pr other here)
      | inr away ↦
          found_inside namespace name s other (sym (found_tail namespace name pr s away) ∙ h)
    ]

ended_stays :
    (namespace name : String) (s : List PipelineRun)
    → namespace ≢ "ns"
    → IsListed all_of of_namespace ended s
    → IsListed all_of of_namespace ended (keep (λ pr. not (has_run_key namespace name pr)) s)
ended_stays namespace name s other h =
    let others : PipelineRun → Bool = λ pr. not (has_run_key namespace name pr) in
    subst (Memᴰ ended) (keep_comm others (of_namespace "ns" "") s) (
      keep-Memᴰ others
        (ground (arith, is_other namespace other, eq_iff "ns" namespace, eq_iff namespace "ns")) h)

listed_inside :
    (namespace : String) (s : List PipelineRun)
    → namespace ≢ "ns"
    → All (λ pr. pr.metadata.namespace ≢ "ns") (keep (of_namespace namespace "") s)
listed_inside namespace s other =
    All-map _ _ (λ pr. not_in_ns namespace pr.metadata.namespace other) _
      (All-keep (of_namespace namespace "") s)

others_cluster : IsCluster keeps_ended full_platform
others_cluster = record {
  quiet = cluster-IsQuiet _ _ _ _ (λ s h. h);
  pipeline_runs = record {
    getting = λ namespace name w. Spares-refl _ w;
    got = λ namespace name w allowed here h completed. allowed;
    listing = λ namespace selector w. Spares-refl _ w;
    listed = λ namespace selector w allowed here h.
        subst (All _) (ap (λ q. value_or [] q.0) h)
          (All-map _ _ (λ r other completed. other) _ (listed_inside namespace w.cluster allowed));
    inside = λ namespace selector s allowed h.
        subst (All _) (ap (λ q. value_or [] q.0) h) (listed_inside namespace s allowed);
    read_inside =
        λ namespace name s allowed h. found_inside namespace name s allowed (ap (λ q. q.0) h);
    patching = λ namespace name patch allowed w. Spares-refl _ w;
    deleting =
        λ namespace name other w. record { stays = ended_stays namespace name w.cluster other };
  };
  task_runs = record {
    getting = λ namespace name w. Spares-refl _ w;
    got = λ namespace name w allowed here h completed. allowed;
    listing = λ namespace selector w. Spares-refl _ w;
    listed = λ namespace selector w allowed here h. subst (All _) (ap (λ q. value_or [] q.0) h) tt;
    inside = λ namespace selector s allowed h. subst (All _) (ap (λ q. value_or [] q.0) h) tt;
    read_inside = λ namespace name s allowed h. absurd (ground (arith, ap (λ q. q.0) h));
    patching = λ namespace name patch allowed w. Spares-refl _ w;
    deleting = λ namespace name other w. Spares-refl _ w;
  };
}

abbrev two_namespaces : CoreClient (List PipelineRun)
two_namespaces = record limits_to_one {
  list_namespaces = λ s. (ok ("kube-system" ∷ "other" ∷ "ns" ∷ []), s);
}

abbrev before : World (List PipelineRun)
before = record ended_builds { store = store }

abbrev planned : Collection
planned = record { update_time = "12:00"; namespaces = "other" ∷ "ns" ∷ []; workers = pos 5 }

abbrev loaded_world : World (List PipelineRun)
loaded_world = (prepare_collection full_platform two_namespaces before).1

is_prepared : prepare_collection full_platform two_namespaces before ≡ (ok planned, loaded_world)
unfolding prepare_collection
is_prepared = refl

abbrev collect_one : String → World (List PipelineRun) → World (List PipelineRun)
collect_one = collect_namespace full_platform "12:00"

abbrev collected : World (List PipelineRun)
collected = collect_one "other" (collect_one "ns" loaded_world)

-- The namespace that was sent last is done first.
all_collected : Reach collect_one ("other" ∷ "ns" ∷ []) (pos 5) loaded_world (record {
  pending = [];
  idle = 5;
  busy = [];
  finished = "other" ∷ "ns" ∷ [];
  world = collected;
})
all_collected =
    later
      (later (later (later start (receive refl refl)) (receive refl refl))
        (complete [] ("other" ∷ []) refl))
      (complete [] [] refl)

ended_is_listed : IsListed all_of of_namespace ended loaded_world.cluster
unfolding prepare_collection
ended_is_listed = Memᴰ.tail (Memᴰ.head refl)

configured_collection_enforces_limit_example :
    length (runs_of full_platform all_of of_namespace full_laws success "ns" collected.cluster) ≤ 1
unfolding find
configured_collection_enforces_limit_example =
    configured_collection_enforces_limit full_platform all_of of_namespace full_laws
      deletions_succeed success ended 1 full_cluster others_cluster two_namespaces before refl
      one_is_set refl refl refl is_prepared (Memᴰ.tail (Memᴰ.head refl)) ended_is_listed refl
      ended-IsNew all_collected (refl, refl)
