-- ===== src/Runs/Expired.antt =====
-- A PipelineRun whose TTL is over, and its removal by the TTL handler.
use tektoncd_pruner.Prelude.{
  keep_unless, String, ℕ, ◌≤ℤ◌, Bool, List, [], ◌≡◌, refl, ap, sym, ◌∙◌, subst, arith, keep,
}
use tektoncd_pruner.Go.Exec.{Result, ok, err}
use tektoncd_pruner.Go.Time.{Time, Duration}
use tektoncd_pruner.Kube.Object.{Object, ObjectMeta, PipelineRun, pipeline_run}
use tektoncd_pruner.Kube.Api.{Platform}
use tektoncd_pruner.Metrics.{Recorder, Timer}
use tektoncd_pruner.World.{World, read_clock, call}
use tektoncd_pruner.History.Cleanup.{resource_age}
use tektoncd_pruner.History.Enforcement.{Gone}
use tektoncd_pruner.Ttl.Event.{remove_resource, delete_expired, after_ttl_delete}
use tektoncd_pruner.Ttl.Removal.{HasTtl, expire_time, expired_run_is_deleted}
use tektoncd_pruner.Runs.PipelineRuns.{pr_get, pr_delete, pr_ttl_funcs}
use tektoncd_pruner.Runs.States.{pr_limiter, pr_handler}
use tektoncd_pruner.Runs.Reconcile.{stop_timer, finish, after_ttl}
use tektoncd_pruner.Runs.Enforced.{IsPipelineServer, has_run_key}

module _ {S : Type 0} (p : Platform S) (prs : S → List PipelineRun)
    (selects : String → String → PipelineRun → Bool) (laws : IsPipelineServer p prs selects)
    (namespace name : String) where
  -- No error was returned, and there is no such run.
  unfoldable pub IsRemoved : Result (Unit {0}) × World S → Type 0
  IsRemoved (r, w) = (r ≡ ok tt) × (keep (has_run_key namespace name) (prs w.cluster) ≡ [])

  after_ttl_delete-IsRemoved :
      (age : Duration) (r : Result (Unit {0})) (w : World S)
      → Gone p (pr_limiter p) r
      → keep (has_run_key namespace name) (prs w.cluster) ≡ []
      → IsRemoved (after_ttl_delete p (pr_handler p) namespace age (r, w))
  unfolding after_ttl_delete IsRemoved
  after_ttl_delete-IsRemoved age (ok _) w gone none_left = (refl, none_left)
  after_ttl_delete-IsRemoved age (err e) w gone none_left = rw gone (refl, none_left)

  pr_delete-removes :
      (w : World S)
      → Gone p (pr_limiter p) (pr_delete p namespace name w).0
      → keep (has_run_key namespace name) (prs (pr_delete p namespace name w).1.cluster) ≡ []
  unfolding pr_delete
  pr_delete-removes w gone =
      ap (keep (has_run_key namespace name)) (laws.delete namespace name w.cluster gone)
      ∙ keep_unless (has_run_key namespace name) (prs w.cluster)

  pub stop_timer-IsRemoved :
      (f : Timer → Time → Recorder → Recorder) (t : Timer) (q : Result (Unit {0}) × World S)
      → IsRemoved q
      → IsRemoved (q.0, stop_timer p f t q.1)
  unfolding stop_timer read_clock IsRemoved
  stop_timer-IsRemoved f t (r, w) (done, none_left) =
      (done, ap (keep (has_run_key namespace name)) (laws.clock w.cluster) ∙ none_left)

  pub after_ttl-IsRemoved :
      (type : String) (m : ObjectMeta) (t : Timer) (q : Result (Unit {0}) × World S)
      → IsRemoved q
      → IsRemoved (after_ttl p type m t q)
  unfolding after_ttl finish stop_timer read_clock IsRemoved
  after_ttl-IsRemoved type m t (ok _, w) (done, none_left) =
      (refl, ap (keep (has_run_key namespace name)) (laws.clock w.cluster) ∙ none_left)
  after_ttl-IsRemoved type m t (err e, w) (done, none_left) = absurd (ground (arith, done))

-- A predicate of clusters in which the TTL of a run is over and stays so, and the run is stored with it.
module _ {S : Type 0} (p : Platform S) (due : S → Type 0) where
  pub record IsExpired (pr : PipelineRun) (finish : Time) (n : ℕ) : Type 0 where
    pub later : (s : S) → due s → due (p.now s).1
    pub over : (s : S) → due s → expire_time finish n ≤ℤ (p.now s).0
    pub stored :
        (s : S)
        → due s
        → (fresh : PipelineRun) × (s' : S) × (p.pipeline_runs.get pr.metadata.namespace
              pr.metadata.name s
            ≡ (ok fresh, s'))
          × HasTtl (pr_ttl_funcs p) (pipeline_run fresh) finish n
          × due s'

module _ {S : Type 0} (p : Platform S) (prs : S → List PipelineRun)
    (selects : String → String → PipelineRun → Bool) (laws : IsPipelineServer p prs selects)
    (succeeds : (namespace name : String) (w : World S)
      → Gone p (pr_limiter p) (pr_delete p namespace name w).0)
    (due : S → Type 0) (pr : PipelineRun) (finish : Time) (n : ℕ)
    (expired : IsExpired p due pr finish n) where
  abbrev o : Object
  o = pipeline_run pr

  abbrev Removed : Result (Unit {0}) × World S → Type 0
  Removed = IsRemoved p prs selects laws pr.metadata.namespace pr.metadata.name

  delete_expired-IsRemoved : (w : World S) → Removed (delete_expired p (pr_handler p) o w)
  unfolding delete_expired
  delete_expired-IsRemoved w =
      let m : ObjectMeta = pr.metadata in
      let v : World S = (resource_age p m w).1 in
      after_ttl_delete-IsRemoved p prs selects laws m.namespace m.name (resource_age p m w).0
        (pr_delete p m.namespace m.name v).0 (pr_delete p m.namespace m.name v).1
        (succeeds m.namespace m.name v)
        (pr_delete-removes p prs selects laws m.namespace m.name v (succeeds m.namespace m.name v))

  pr_get_of :
      (namespace name : String) (w : World S) {fresh : PipelineRun} {s : S}
      → p.pipeline_runs.get namespace name w.cluster ≡ (ok fresh, s)
      → pr_get p namespace name w ≡ (ok (pipeline_run fresh), record w { cluster = s })
  unfolding pr_get call
  pr_get_of namespace name w h = rw h refl

  pub remove_resource-IsRemoved :
      (w : World S)
      → due w.cluster
      → HasTtl (pr_ttl_funcs p) o finish n
      → Removed (remove_resource p (pr_handler p) o w)
  unfolding read_clock
  remove_resource-IsRemoved w here h =
      let there : due (p.now w.cluster).1 = expired.later w.cluster here in
      let (fresh, s, read, same, still) = expired.stored (p.now w.cluster).1 there in
      subst Removed
        (sym (
          expired_run_is_deleted p (pr_handler p) o finish n h w (expired.over w.cluster here)
            (pipeline_run fresh) (record w { cluster = s })
            (pr_get_of pr.metadata.namespace pr.metadata.name (read_clock p w).1 read) finish n same
            (expired.over s still)))
        (delete_expired-IsRemoved _)
