-- ===== src/Safety/Deletions.antt =====
-- What the cleanups of history_limiter.go do to an invariant of the cluster.
use mathlib.Core.List.Permᴰ
use tektoncd_pruner.Prelude.{
  String, ℕ, Bool, true, Bool-cases, Option, none, some, List, [], ◌∷◌, ◌≡◌, inl, inr, All, All-map,
  All-of_append_right, All-perm, keep,
}
use tektoncd_pruner.Go.Exec.{Exec, Result, ok, err}
use tektoncd_pruner.Go.Time.{Duration, is_zero}
use tektoncd_pruner.Kube.Object.{Object, ObjectMeta, meta}
use tektoncd_pruner.Kube.Api.{Platform}
use tektoncd_pruner.Metrics.{classify_error}
use tektoncd_pruner.Metrics.Names.{operation_history}
use tektoncd_pruner.World.{World, read_clock}
use tektoncd_pruner.History.Limit.{HistoryLimiter, select_for_deletion}
use tektoncd_pruner.History.Cleanup.{
  metric_type, resource_age, after_delete, delete_selected, prune_to,
}
use tektoncd_pruner.History.Selection.{kept, kept-select-perm}
use tektoncd_pruner.Safety.View.{
  Invariant, Spares, Spares-refl, Spares-trans, Spares-while, IsSafeObject, IsRunKeeper,
  IsRunLister, IsQuiet, Sparing, if_result-Spares, measured-Spares, tells_deletion, tells_error,
  read_clock-Spares, continue-Spares,
}

-- What holds of the listed runs holds of the selected ones, and these pass the test.
All-selected :
    (P : Object → Type 0) (passes : Object → Bool) (limit : ℕ) (resources : List Object)
    → All P (keep passes resources)
    → All P (select_for_deletion passes limit resources)
All-selected P passes limit resources h =
    All-of_append_right P (kept passes limit resources) (select_for_deletion passes limit resources)
      (All-perm P (Permᴰ.symm (kept-select-perm passes limit resources)) h)

All-passing :
    (P : Object → Type 0) (passes : Object → Bool) (resources : List Object)
    → All (λ o. passes o ≡ true → P o) resources
    → All P (keep passes resources)
All-passing P passes [] h = tt
All-passing P passes (o ∷ os) h = elim (Bool-cases (passes o)) [
  | inl passed ↦ rw passed (h.0 passed, All-passing P passes os h.1)
  | inr refused ↦ rw refused (All-passing P passes os h.1)
]

module _ {S : Type 0} (inv : Invariant S) (p : Platform S) (quiet : IsQuiet inv p) where
  pub resource_age-Spares : (m : ObjectMeta) (w : World S) → Spares inv w (resource_age p m w).1
  unfolding resource_age read_clock
  resource_age-Spares m w = elim (Bool-cases (is_zero m.creation_timestamp)) [
    | inl unknown ↦ rw unknown (Spares-refl inv w)
    | inr known ↦ rw known (read_clock-Spares inv p quiet w)
  ]

module _ {S : Type 0} (inv : Invariant S) (p : Platform S) (quiet : IsQuiet inv p)
    (hl : HistoryLimiter (World S)) (kind : String) where
  open hl use {resource_fn}

  module _
      (laws : IsRunKeeper inv kind resource_fn.is_completed resource_fn.get resource_fn.patch
        resource_fn.delete)
      (lister : IsRunLister inv kind resource_fn.is_completed resource_fn.list) where
    after_delete-Spares :
        (type namespace : String) (age : Duration) (rest : Exec (World S) (Unit {0})) (s : World S)
        (r : Result (Unit {0})) (w : World S)
        → Spares inv s w
        → Sparing inv rest
        → Spares inv s (after_delete p type namespace age rest (r, w)).1
    unfolding after_delete
    after_delete-Spares type namespace age rest s (ok _) w h k =
        Spares-trans inv
          (measured-Spares inv quiet
            (tells_deletion (metric_type type) namespace operation_history age) h)
          (k _)
    after_delete-Spares type namespace age rest s (err e) w h k =
        if_result-Spares inv (p.errors.is_not_found e) _ _ (Spares-trans inv h (k w)) (
          measured-Spares inv quiet
            (tells_error (metric_type type) namespace (classify_error p.errors (some e))
              "history_deletion_failed")
            h)

    delete_selected-Spares :
        (ds : List Object) (w : World S)
        → All (IsSafeObject inv kind) ds
        → Spares inv w (delete_selected p hl ds w).1
    unfolding delete_selected
    delete_selected-Spares [] w h = Spares-refl inv w
    delete_selected-Spares (d ∷ ds) w h =
        let m = meta d in
        let v : World S = (resource_age p m w).1 in
        let (r, u) = resource_fn.delete m.namespace m.name v in
        after_delete-Spares resource_fn.type m.namespace (resource_age p m w).0
          (delete_selected p hl ds) w r u
          (Spares-trans inv (resource_age-Spares inv p quiet m w)
            (laws.deleting m.namespace m.name h.0 v))
          (λ x. delete_selected-Spares ds x h.1)

    -- A test that only completed runs pass.
    abbrev pub OnlyCompleted : (Object → Bool) → Type 0
    OnlyCompleted passes = (o : Object) → passes o ≡ true → resource_fn.is_completed o ≡ true

    -- The selected runs are others, if the listed ones that are completed are.
    selected-IsSafe :
        (passes : Object → Bool) (limit : ℕ) (os : List Object)
        → OnlyCompleted passes
        → All (λ o. resource_fn.is_completed o ≡ true → IsSafeObject inv kind o) os
        → All (IsSafeObject inv kind) (select_for_deletion passes limit os)
    selected-IsSafe passes limit os only h = All-selected (IsSafeObject inv kind) passes limit os (
        All-passing (IsSafeObject inv kind) passes os (
          All-map (λ o. resource_fn.is_completed o ≡ true → IsSafeObject inv kind o)
            (λ o. passes o ≡ true → IsSafeObject inv kind o) (λ o f passed. f (only o passed)) os
            h))

    -- A cleanup to a limit, whatever it returns, spares the inv.
    pub prune_to-Spares :
        (namespace selector : String) (passes : Object → Bool) (limit : Option ℕ) (w : World S)
        → OnlyCompleted passes
        → inv.allows namespace
        → Spares inv w (prune_to p hl namespace selector passes limit w).1
    unfolding prune_to
    prune_to-Spares namespace selector passes none w only allowed = Spares-refl inv w
    prune_to-Spares namespace selector passes (some limit) w only allowed =
        let q = resource_fn.list namespace selector w in
        Spares-while inv w _ (λ alive.
          continue-Spares inv
            (λ resources. delete_selected p hl (select_for_deletion passes limit resources)) q
            (lister.listing namespace selector w)
            (λ os e. delete_selected-Spares (select_for_deletion passes limit os) q.1 (
              selected-IsSafe passes limit os only
                (lister.listed namespace selector w allowed alive e))))
