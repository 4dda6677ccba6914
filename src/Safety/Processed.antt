-- ===== src/Safety/Processed.antt =====
-- What reconciliations tell the counter of processed resources.
use tektoncd_pruner.Prelude.{
  String, ℤ, pos, ◌+ℤ◌, Bool, true, List, [], ◌∷◌, ◌≡◌, refl, ap, sym, ◌∙◌, subst, Bool-cases, inl,
  inr, some, arith, ◌==◌, any, if◌then◌else◌,
}
use tektoncd_pruner.Go.Dict.{Dict, find}
use tektoncd_pruner.Go.Exec.{Exec, Result, ok, err, Error}
use tektoncd_pruner.Go.Time.{Time}
use tektoncd_pruner.Kube.Object.{ObjectMeta, Object, PipelineRun, pipeline_run, meta}
use tektoncd_pruner.Kube.Api.{Platform}
use tektoncd_pruner.Metrics.Names.{resource_type_pipeline_run, status_success, status_error}
use tektoncd_pruner.Metrics.{
  Labels, Recorder, Timer, new_recorder, record_resource_deleted, record_resource_error,
  record_history_processing_duration, record_ttl_processing_duration, record_reconciliation_event,
  record_resource_processed, record_reconciliation_duration, is_seen, classify_error,
  resource_attributes, operation_attributes,
}
use tektoncd_pruner.Metrics.Laws.{
  processed_count, distinct_uids, one_more_if, is_seen-record_resource_processed,
  processed_count-record_resource_processed,
}
use tektoncd_pruner.World.{World, read_clock}
use tektoncd_pruner.History.Limit.{HistoryLimiter}
use tektoncd_pruner.History.Event.{process_event}
use tektoncd_pruner.Ttl.Annotation.{TtlHandler}
use tektoncd_pruner.Ttl.Event.{process_ttl_event}
use tektoncd_pruner.Runs.Reconcile.{
  finish, start_timer, stop_timer, timed, reconcile_run, reconcile_pipeline_run, failed, after_ttl,
  after_history,
}
use tektoncd_pruner.Runs.States.{pr_limiter, pr_handler}
use tektoncd_pruner.Runs.Order.{history_stage, ttl_stage, reconcile_run_step}
use tektoncd_pruner.Safety.View.{
  Invariant, Sparing, HandlerMeasure, tells_deletion, tells_error, tells_history_time,
  tells_ttl_time,
}
use tektoncd_pruner.Safety.OfProcess.{of_process, process-IsCluster}
use tektoncd_pruner.Safety.Reconcilers.{IsCluster, timed-Spares, pr_history-Spares, pr_ttl-Spares}

-- The counter of processed resources, and the UIDs that were seen.
abbrev pub Tally : Type 0
Tally = ℤ × Dict Bool

unfoldable pub tally : Recorder → Tally
tally r = (processed_count r.measurements, r.seen_resources)

handlers_keep_tally :
    (f : Recorder → Recorder) → HandlerMeasure f → (r : Recorder) → tally (f r) ≡ tally r
unfolding tally processed_count record_resource_deleted record_resource_error
    record_history_processing_duration record_ttl_processing_duration
handlers_keep_tally f (tells_deletion type namespace operation age) r = refl
handlers_keep_tally f (tells_error type namespace error_type reason) r = refl
handlers_keep_tally f (tells_history_time t now) r = refl
handlers_keep_tally f (tells_ttl_time t now) r = refl

-- The tally of a recorder after one more resource was processed.
abbrev Tallied : String → Tally → Tally → Type 0
Tallied uid before after =
    (r : Recorder) × (type : String) × (namespace : String) × (status : String) × (tally r ≡ before)
    × (tally (record_resource_processed uid type namespace status r) ≡ after)

-- What a recorder has seen are the UIDs, and the counter is their number.
record Matches (us : List String) (r : Recorder) : Type 0 where
  seen : (uid : String) → is_seen r uid ≡ any (λ u. u == uid) us
  number : processed_count r.measurements ≡ pos (distinct_uids us)

Matches-of_tally :
    (us : List String) (r after : Recorder)
    → tally after ≡ tally r
    → Matches us r
    → Matches us after
unfolding tally
Matches-of_tally us r after same h = record {
  seen =
      λ uid. ap (λ c. is_seen (record new_recorder { seen_resources = c.1 }) uid) same ∙ h.seen uid;
  number = ap (λ c. c.0) same ∙ h.number;
}

Matches-record_resource_processed :
    (us : List String) (uid type namespace status : String) (r : Recorder)
    → Matches us r
    → Matches (uid ∷ us) (record_resource_processed uid type namespace status r)
unfolding distinct_uids
Matches-record_resource_processed us uid type namespace status r h = record {
  seen = λ other.
      is_seen-record_resource_processed uid other type namespace status r
      ∙ ap (λ b. if uid == other then true else b) (h.seen other)
      ∙ ground arith;
  number =
      processed_count-record_resource_processed uid type namespace status r
      ∙ ap
          (λ b.
            if b then processed_count r.measurements else processed_count r.measurements +ℤ pos 1)
          (h.seen uid)
      ∙ ap (λ n. if any (λ u. u == uid) us then n else n +ℤ pos 1) h.number
      ∙ one_more_if (any (λ u. u == uid) us) (distinct_uids us);
}

next-Matches :
    (us : List String) (uid : String) (before after : Recorder)
    → Tallied uid (tally before) (tally after)
    → Matches us before
    → Matches (uid ∷ us) after
next-Matches us uid before after (r, type, namespace, status, same, told) h =
    Matches-of_tally (uid ∷ us) (record_resource_processed uid type namespace status r) after
      (sym told)
      (Matches-record_resource_processed us uid type namespace status r
        (Matches-of_tally us before r same h))

none-Matches : Matches [] new_recorder
unfolding find processed_count distinct_uids
none-Matches = record { seen = λ uid. refl; number = refl }

module _ {S : Type 0} (p : Platform S) where
  abbrev tally_of : World S → Tally
  tally_of w = tally w.recorder

  finish-Tallied :
      (type : String) (m : ObjectMeta) (t : Timer) (status : String) (w : World S)
      → Tallied m.uid (tally_of w) (tally_of (finish p type m t status w))
  unfolding finish stop_timer record_reconciliation_duration record_reconciliation_event
      processed_count read_clock tally
  finish-Tallied type m t status w = (
    record_reconciliation_event type m.namespace status w.recorder,
    type,
    m.namespace,
    status,
    refl,
    refl,
  )

  failed-Tallied :
      (type : String) (m : ObjectMeta) (t : Timer) (reason : String) (e : Error) (w : World S)
      → Tallied m.uid
          (tally_of w)
          (tally_of (finish p type m t status_error (failed p type m reason e w)))
  unfolding failed
  failed-Tallied type m t reason e w =
      subst
        (λ before.
          Tallied m.uid before
            (tally_of (finish p type m t status_error (failed p type m reason e w))))
        (handlers_keep_tally _
          (tells_error type m.namespace (classify_error p.errors (some e)) reason) w.recorder)
        (finish-Tallied type m t status_error (failed p type m reason e w))

  after_ttl-Tallied :
      (type : String) (m : ObjectMeta) (t : Timer) (q : Result (Unit {0}) × World S)
      → Tallied m.uid (tally_of q.1) (tally_of (after_ttl p type m t q).1)
  unfolding after_ttl
  after_ttl-Tallied type m t (ok _, w) = finish-Tallied type m t status_success w
  after_ttl-Tallied type m t (err e, w) = elim (Bool-cases (p.errors.is_requeue_key e)) [
    | inl requeued ↦ rw requeued (finish-Tallied type m t status_success w)
    | inr broken ↦ rw broken (failed-Tallied type m t "ttl_processing_failed" e w)
  ]

  after_history-Tallied :
      (type : String) (m : ObjectMeta) (t : Timer) (ttl : Exec (World S) (Unit {0}))
      (q : Result (Unit {0}) × World S)
      → ((w : World S) → tally_of (ttl w).1 ≡ tally_of w)
      → Tallied m.uid (tally_of q.1) (tally_of (after_history p type m t ttl q).1)
  unfolding after_history
  after_history-Tallied type m t ttl (ok _, w) h =
      subst (λ before. Tallied m.uid before (tally_of (after_ttl p type m t (ttl w)).1)) (h w)
        (after_ttl-Tallied type m t (ttl w))
  after_history-Tallied type m t ttl (err e, w) h =
      failed-Tallied type m t "history_processing_failed" e w

  abbrev counted : Tally → Invariant S
  counted c = of_process (λ store r. tally r ≡ c)

  counted-IsCluster : (c : Tally) → IsCluster (counted c) p
  counted-IsCluster c =
      process-IsCluster (λ store r. tally r ≡ c) p
        (λ f told store r h. handlers_keep_tally f told r ∙ h)

  -- A call that processes no resource.
  abbrev Uncounted : Exec (World S) (Unit {0}) → Type 0
  Uncounted m = (c : Tally) → Sparing (counted c) m

  tally_stays :
      (m : Exec (World S) (Unit {0})) → Uncounted m → (w : World S) → tally_of (m w).1 ≡ tally_of w
  tally_stays m h w = (h (tally_of w) w).stays refl

  timed-Uncounted :
      (f : Timer → Time → Recorder → Recorder) (labels : Labels) (m : Exec (World S) (Unit {0}))
      → ((t : Timer) (now : Time) → HandlerMeasure (f t now))
      → Uncounted m
      → Uncounted (timed p f labels m)
  timed-Uncounted f labels m told h c =
      timed-Spares (counted c) p (counted-IsCluster c) f labels m told (h c)

  module _ (hl : HistoryLimiter (World S)) (th : TtlHandler (World S)) where
    run-Tallied :
        (type : String) (o : Object) (w : World S)
        → Uncounted (process_event p hl o)
        → Uncounted (process_ttl_event p th o)
        → Tallied (meta o).uid (tally_of w) (tally_of (reconcile_run p hl th type o w).1)
    unfolding start_timer read_clock
    run-Tallied type o w history ttl =
        let m : ObjectMeta = meta o in
        let (t, v) = start_timer p (resource_attributes type m.namespace) w in
        let q = history_stage p hl th type o v in
        subst (λ r. Tallied m.uid (tally_of w) (tally_of r.1))
          (sym (reconcile_run_step p hl th th type o w))
          (subst
            (λ before.
              Tallied m.uid before
                (tally_of (after_history p type m t (ttl_stage p hl th th type o) q).1))
            (tally_stays (history_stage p hl th type o)
              (timed-Uncounted record_history_processing_duration
                (operation_attributes type m.namespace "history") (process_event p hl o)
                tells_history_time history)
              v)
            (after_history-Tallied type m t (ttl_stage p hl th th type o) q (
              tally_stays (ttl_stage p hl th th type o) (
                timed-Uncounted record_ttl_processing_duration
                  (operation_attributes type m.namespace "ttl") (process_ttl_event p th o)
                  tells_ttl_time ttl))))

  reconcile-Tallied :
      (pr : PipelineRun) (w : World S)
      → Tallied pr.metadata.uid
          (tally_of w)
          (tally_of (reconcile_pipeline_run p (pr_limiter p) (pr_handler p) pr w).1)
  unfolding reconcile_pipeline_run
  reconcile-Tallied pr w =
      run-Tallied (pr_limiter p) (pr_handler p) resource_type_pipeline_run (pipeline_run pr) w
        (λ c. pr_history-Spares (counted c) p (counted-IsCluster c) (pipeline_run pr) tt)
        (λ c. pr_ttl-Spares (counted c) p (counted-IsCluster c) (pipeline_run pr) tt)

  -- The state after the reconciliations, the latest of the list first.
  abbrev pub reconciliations : List PipelineRun → World S → World S
  reconciliations [] w = w
  reconciliations (pr ∷ prs) w =
      (reconcile_pipeline_run p (pr_limiter p) (pr_handler p) pr (reconciliations prs w)).1

  abbrev pub uids : List PipelineRun → List String
  uids [] = []
  uids (pr ∷ prs) = pr.metadata.uid ∷ uids prs

  reconciliations-Matches :
      (prs : List PipelineRun) (w : World S)
      → w.recorder ≡ new_recorder
      → Matches (uids prs) (reconciliations prs w).recorder
  reconciliations-Matches [] w fresh = subst (Matches []) (sym fresh) none-Matches
  reconciliations-Matches (pr ∷ prs) w fresh =
      next-Matches (uids prs) pr.metadata.uid _ _ (reconcile-Tallied pr (reconciliations prs w))
        (reconciliations-Matches prs w fresh)

  -- However often PipelineRuns are reconciliations, from a recorder that has recorded nothing on, and
  -- whatever these reconciliations return: the sum of what was added to the counter of processed
  -- resources is the number of the UIDs of these runs.
  pub each_resource_is_counted_once :
      (prs : List PipelineRun) (w : World S)
      → w.recorder ≡ new_recorder
      → processed_count (reconciliations prs w).recorder.measurements
        ≡ pos (distinct_uids (uids prs))
  each_resource_is_counted_once prs w fresh = (reconciliations-Matches prs w fresh).number
