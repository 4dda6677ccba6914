-- ===== src/Safety/Pruned.antt =====
-- The history limit of the configuration, through a whole garbage collection: from the ConfigMap to
-- the end of the workers.
use mathlib.Core.List.{◌++◌, Memᴰ}
use tektoncd_pruner.Prelude.{
  String, ℕ, ◌≤◌, ℤ, pos, Bool, true, none, some, List, [], ◌∷◌, ◌≡◌, ◌≢◌, ◌⊎◌, refl, ap, ◌∙◌, sym,
  subst, arith, keep, length, is_some, ◌==◌, Bool-cases, eq_iff, inl, inr, All, All-perm,
}
use tektoncd_pruner.Go.Dict.{Dict, get}
use tektoncd_pruner.Go.Exec.{ok}
use tektoncd_pruner.Kube.Object.{PipelineRun}
use tektoncd_pruner.Kube.Api.{Platform}
use tektoncd_pruner.Config.Spec.{GlobalConfig, level_global}
use tektoncd_pruner.Config.Field.{field_with_fallback}
use tektoncd_pruner.World.{World}
use tektoncd_pruner.History.Enforcement.{Gone}
use tektoncd_pruner.Pruner.Namespaces.{CoreClient, Collection, prepare_collection}
use tektoncd_pruner.Pruner.Collect.{collect_namespace}
use tektoncd_pruner.Pruner.Pool.{Pool, Reach, collect_all}
use tektoncd_pruner.Pruner.Pool.Laws.{Ended, each_namespace_collected}
use tektoncd_pruner.Runs.PipelineRuns.{pr_delete}
use tektoncd_pruner.Runs.States.{pr_limiter}
use tektoncd_pruner.Runs.Enforced.{Outcome, limit_field, IsPipelineServer}
use tektoncd_pruner.Safety.View.{Invariant}
use tektoncd_pruner.Safety.Reconcilers.{IsCluster}
use tektoncd_pruner.Safety.Collections.{collect_namespace-Spares}
use tektoncd_pruner.Safety.Settings.{settings, settings-IsCluster}
use tektoncd_pruner.Safety.Enforced.{runs_of, within_limit, IsNew, IsLimited, IsLimited-of_store}
use tektoncd_pruner.Safety.Isolation.{isolation}
use tektoncd_pruner.Safety.Collected.{collection_enforces_limit}
use tektoncd_pruner.Safety.Configured.{Sets, loaded_config, loaded-IsLimited}

same_or_other : (a b : String) → (a ≡ b) ⊎ (a ≢ b)
same_or_other a b = elim (Bool-cases (a == b)) [
  | inl same ↦ inl (ground (arith, same, eq_iff a b))
  | inr other ↦ inr (λ same. ground (arith, same, other, eq_iff a b))
]

split_at :
    {A : Type 0} {a : A} {l : List A}
    → Memᴰ a l
    → (front : List A) × (back : List A) × (l ≡ front ++ a ∷ back)
split_at (Memᴰ.head {xs = xs} e) = ([], xs, ap (λ x. x ∷ xs) (sym e))
split_at (Memᴰ.tail {x = x} h) =
    let (front, back, e) = split_at h in (x ∷ front, back, ap (◌∷◌ x) e)

not_all_other :
    {name : String} {names : List String} → Memᴰ name names → All (λ x. x ≢ name) names → ⊥
not_all_other (Memᴰ.head e) h = h.0 (sym e)
not_all_other (Memᴰ.tail m) h = not_all_other m h.1

-- The run is among those that a garbage collection of its namespace lists.
abbrev pub IsListed :
    {S : Type 0}
    → (S → List PipelineRun)
    → (String → String → PipelineRun → Bool)
    → PipelineRun
    → S
    → Type 0
IsListed prs selects pr s = Memᴰ pr (keep (selects pr.metadata.namespace "") (prs s))

module _ {S : Type 0} (p : Platform S) (prs : S → List PipelineRun)
    (selects : String → String → PipelineRun → Bool) (laws : IsPipelineServer p prs selects)
    (succeeds : (namespace name : String) (w : World S)
      → Gone p (pr_limiter p) (pr_delete p namespace name w).0)
    (outcome : Outcome) (pr : PipelineRun) (n : ℕ) where
  module _ (cluster : IsCluster (within_limit p prs selects laws outcome pr.metadata.namespace n) p)
      (others : IsCluster (isolation pr.metadata.namespace (IsListed prs selects pr)) p) where
    abbrev inv : Invariant S
    inv = within_limit p prs selects laws outcome pr.metadata.namespace n

    record IsReady (w : World S) : Type 0 where
      listed : IsListed prs selects pr w.cluster
      limited : IsLimited p prs selects laws outcome pr n w

    collect_namespace-IsReady :
        (update_time other : String) (w : World S)
        → other ≢ pr.metadata.namespace
        → IsReady w
        → IsReady (collect_namespace p update_time other w)
    collect_namespace-IsReady update_time other w away h = record {
      listed =
          (collect_namespace-Spares (isolation pr.metadata.namespace (IsListed prs selects pr)) p
              others update_time other w away).stays
            h.listed;
      limited =
          IsLimited-of_store p prs selects laws outcome pr n
            ((collect_namespace-Spares (settings p w.store) p (settings-IsCluster p w.store)
                update_time other w tt).stays
              refl)
            h.limited;
    }

    module _ (update_time : String) (w : World S) (ended : is_some pr.status.completion_time ≡ true)
        (new : IsNew p prs selects laws outcome pr) where
      own_enforces :
          (v : World S)
          → IsReady v
          → inv.holds (collect_namespace p update_time pr.metadata.namespace v)
      own_enforces v h =
          let (front, back, e) = split_at h.listed in
          collection_enforces_limit p prs selects laws succeeds outcome pr n cluster update_time v
            front back e ended new h.limited.wide h.limited.limited

      stays_within :
          (name : String) (v : World S)
          → inv.holds v
          → inv.holds (collect_namespace p update_time name v)
      stays_within name v = (collect_namespace-Spares inv p cluster update_time name v tt).stays

      -- The namespace was collected, and the limit holds, or it has yet to be.
      enforced_or_waiting :
          (names : List String)
          → IsReady w
          → inv.holds (collect_all (collect_namespace p update_time) names w)
            ⊎ (All (λ name. name ≢ pr.metadata.namespace) names
                × IsReady (collect_all (collect_namespace p update_time) names w))
      enforced_or_waiting [] h = inr (tt, h)
      enforced_or_waiting (name ∷ names) h =
          let v : World S = collect_all (collect_namespace p update_time) names w in
          elim (enforced_or_waiting names h) [
            | inl within ↦ inl (stays_within name v within)
            | inr (away, ready) ↦ elim (same_or_other name pr.metadata.namespace) [
              | inl own ↦ inl (
                  subst (λ x. inv.holds (collect_namespace p update_time x v)) (sym own)
                    (own_enforces v ready))
              | inr other ↦
                  inr ((other, away), collect_namespace-IsReady update_time name v other ready)
            ]
          ]

      enforced_at_end :
          {names : List String} {workers : ℤ} {s : Pool (World S)}
          → IsReady w
          → Memᴰ pr.metadata.namespace names
          → Reach (collect_namespace p update_time) names workers w s
          → Ended s
          → inv.holds s.world
      enforced_at_end {names} {workers} {s} h selected r done =
          let (shared, effect) =
            each_namespace_collected (collect_namespace p update_time) names workers w r done in
          subst inv.holds (sym effect) (elim (enforced_or_waiting s.finished h) [
            | inl within ↦ within
            | inr (away, ready) ↦ absurd (not_all_other selected (All-perm _ shared away))
          ])

    -- With an API server that keeps to `IsPipelineServer`, whose deletions succeed or find no run,
    -- whose calls all keep the number of the completed runs of an outcome, success or failure, in a
    -- namespace at `n` or less where it is so, and whose calls for the other namespaces leave a run of
    -- this one listed as it is: where a garbage collection has read a ConfigMap that enforces the level
    -- "global" at its root, limits the runs of the outcome there to `n` and does not list the
    -- namespace, and selects the namespace, in which a new run of that outcome with a time of
    -- completion is listed then, at most `n` of them are in the namespace when its workers have ended,
    -- whatever the order in which these end.
    pub configured_collection_enforces_limit :
        (core : CoreClient S) {config_map : Dict String} {g : GlobalConfig} (u : World S)
        {c : Collection} {w : World S} {s : Pool (World S)}
        → (core.get_config_map u.cluster).0 ≡ ok config_map
        → Sets core.unmarshal config_map g
        → get g.namespaces pr.metadata.namespace ≡ none
        → g.config.enforced_config_level ≡ some level_global
        → field_with_fallback g.config (limit_field outcome) ≡ some (pos n)
        → prepare_collection p core u ≡ (ok c, w)
        → Memᴰ pr.metadata.namespace c.namespaces
        → IsListed prs selects pr w.cluster
        → is_some pr.status.completion_time ≡ true
        → IsNew p prs selects laws outcome pr
        → Reach (collect_namespace p c.update_time) c.namespaces c.workers w s
        → Ended s
        → length (runs_of p prs selects laws outcome pr.metadata.namespace s.world.cluster) ≤ n
    configured_collection_enforces_limit core {g = g} u {c} {w} found sets unlisted root limited
          prepared selected listed ended new r done =
        enforced_at_end c.update_time w ended new
          (record {
            listed = listed;
            limited =
                loaded-IsLimited p prs selects laws core outcome pr n g w
                  (ap (λ q. q.1.store.global_config) (sym prepared)
                    ∙ loaded_config p core u found sets)
                  unlisted root limited;
          })
          selected r done
