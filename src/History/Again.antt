-- ===== src/History/Again.antt =====
-- A cleanup of history_limiter.go that stops at an error, and a cleanup after another.
use tektoncd_pruner.Prelude.{
  String, ℕ, suc, ◌≤◌, Bool, not, Bool-cases, some, List, [], ◌∷◌, ◌≡◌, ◌⊎◌, refl, ap, sym, ◌∙◌,
  subst, arith, inl, inr, length, take, keep, keep_all, keep-keep, drop_of_length-le, length-perm,
}
use tektoncd_pruner.Go.Exec.{Exec, Result, ok, err}
use tektoncd_pruner.Go.Sort.Laws.{sort-perm}
use tektoncd_pruner.Go.Time.{Duration}
use tektoncd_pruner.Kube.Object.{Object, ObjectMeta, meta}
use tektoncd_pruner.Kube.Api.{Platform}
use tektoncd_pruner.World.{World}
use tektoncd_pruner.History.Limit.{HistoryLimiter, newest_first, sort_newest, select_for_deletion}
use tektoncd_pruner.History.Cleanup.{resource_age, after_delete, delete_selected, prune_to}
use tektoncd_pruner.History.Selection.{select-eq-drop}
use tektoncd_pruner.History.Enforcement.{
  Gone, IsRunServer, has_key, same_key, is_none_of, delete_selected_step, objects-resource_age,
  selection, prune_to_step, listed, at_most_limit_remain,
}

few_none_selected :
    (passes : Object → Bool) (limit : ℕ) (resources : List Object)
    → length (keep passes resources) ≤ limit
    → select_for_deletion passes limit resources ≡ []
few_none_selected passes limit resources h =
    select-eq-drop passes limit resources
    ∙ drop_of_length-le limit (sort_newest (keep passes resources))
        (omega (arith, h, length-perm (sort-perm newest_first (keep passes resources))))

module _ {S : Type 0} (p : Platform S) (hl : HistoryLimiter (World S)) (objects : S → List Object)
    (selects : String → String → Object → Bool) (laws : IsRunServer p hl objects selects) where
  delete_none : (v : World S) → delete_selected p hl [] v ≡ (ok tt, v)
  unfolding delete_selected
  delete_none v = refl

  module _ (namespace selector : String) (passes : Object → Bool) (limit : ℕ) (w : World S) where
    -- With an API server that keeps to `IsRunServer`, a cleanup right after one that returned no
    -- error deletes nothing, makes no other change, and returns no error.
    pub cleanup_is_idempotent :
        {w' : World S}
        → prune_to p hl namespace selector passes (some limit) w ≡ (ok tt, w')
        → prune_to p hl namespace selector passes (some limit) w' ≡ (ok tt, w')
    cleanup_is_idempotent {w'} h =
        prune_to_step p hl objects selects laws namespace selector passes limit w'
        ∙ ap (λ ds. delete_selected p hl ds w')
            (few_none_selected passes limit
              (listed p hl objects selects laws namespace selector passes w'.cluster)
              (at_most_limit_remain p hl objects selects laws namespace selector passes limit w h))
        ∙ delete_none w'

  -- A deletion that returns an error either took effect or did not.
  abbrev pub MayFail : Type 0
  MayFail =
      (namespace name : String) (w : World S)
      → (objects (hl.resource_fn.delete namespace name w).1.cluster ≡ objects w.cluster)
        ⊎ (objects (hl.resource_fn.delete namespace name w).1.cluster
            ≡ keep (λ o. not (has_key namespace name o)) (objects w.cluster))

  -- A first part of the list is gone, and nothing else.
  abbrev pub FrontGone : List Object → List Object → List Object → Type 0
  FrontGone ds before after = (k : ℕ) × (after ≡ keep (is_none_of (take k ds)) before)

  module _ (may_fail : MayFail) where
    front_cons :
        (d : Object) (ds before middle after : List Object)
        → middle ≡ keep (λ o. not (same_key o d)) before
        → FrontGone ds middle after
        → FrontGone (d ∷ ds) before after
    front_cons d ds before middle after e (k, f) = (
      suc k,
      f
          ∙ ap (keep (is_none_of (take k ds))) e
          ∙ keep-keep (is_none_of (take k ds)) (λ o. not (same_key o d))
              (is_none_of (d ∷ take k ds)) before (λ o. ground arith),
    )

    no_front : (ds xs : List Object) → FrontGone ds xs xs
    no_front ds xs = (0, sym (keep_all (is_none_of []) xs (λ o. refl)))

    after_delete_front :
        (d : Object) (ds before : List Object) (type namespace : String) (age : Duration)
        (rest : Exec (World S) (Unit {0})) (r : Result (Unit {0})) (u : World S)
        → (Gone p hl r → objects u.cluster ≡ keep (λ o. not (same_key o d)) before)
        → (objects u.cluster ≡ before) ⊎ (objects u.cluster ≡ keep (λ o. not (same_key o d)) before)
        → ((v : World S) → FrontGone ds (objects v.cluster) (objects (rest v).1.cluster))
        → FrontGone
            (d ∷ ds)
            before
            (objects (after_delete p type namespace age rest (r, u)).1.cluster)
    unfolding after_delete
    after_delete_front d ds before type namespace age rest (ok _) u gone outcome further =
        front_cons d ds before (objects u.cluster) _ (gone tt) (further _)
    after_delete_front d ds before type namespace age rest (err e) u gone outcome further =
        elim (Bool-cases (p.errors.is_not_found e)) [
          | inl absent ↦
              rw absent (front_cons d ds before (objects u.cluster) _ (gone absent) (further u))
          | inr other ↦ rw other (elim outcome [
            | inl kept ↦ subst (FrontGone (d ∷ ds) before) (sym kept) (no_front (d ∷ ds) before)
            | inr removed ↦
                front_cons d ds before (objects u.cluster) (objects u.cluster) removed
                  (no_front ds (objects u.cluster))
          ])
        ]

    delete_selected_front :
        (ds : List Object) (w : World S)
        → FrontGone ds (objects w.cluster) (objects (delete_selected p hl ds w).1.cluster)
    delete_selected_front [] w = rw (delete_none w) (no_front [] (objects w.cluster))
    delete_selected_front (d ∷ ds) w =
        let m : ObjectMeta = meta d in
        let w₁ : World S = (resource_age p m w).1 in
        let aged : objects w₁.cluster ≡ objects w.cluster =
          objects-resource_age p hl objects selects laws m w in
        let q = hl.resource_fn.delete m.namespace m.name w₁ in
        rw (delete_selected_step p hl d ds w) (
          after_delete_front d ds (objects w.cluster) hl.resource_fn.type m.namespace
            (resource_age p m w).0 (delete_selected p hl ds) q.0 q.1
            (λ gone.
              laws.delete m.namespace m.name w₁ gone ∙ ap (keep (λ o. not (same_key o d))) aged)
            (subst
              (λ xs.
                (objects q.1.cluster ≡ xs)
                ⊎ (objects q.1.cluster ≡ keep (λ o. not (same_key o d)) xs))
              aged (may_fail m.namespace m.name w₁))
            (delete_selected_front ds))

    -- With an API server that keeps to `IsRunServer` and to `MayFail`: whatever a cleanup returns, an
    -- error of a deletion included, it has deleted the runs of a first part of the selection and no
    -- others.
    pub failed_cleanup_deletes_front :
        (namespace selector : String) (passes : Object → Bool) (limit : ℕ) (w : World S)
        → FrontGone
            (selection p hl objects selects laws namespace selector passes limit w.cluster)
            (objects w.cluster)
            (objects (prune_to p hl namespace selector passes (some limit) w).1.cluster)
    failed_cleanup_deletes_front namespace selector passes limit w =
        rw (prune_to_step p hl objects selects laws namespace selector passes limit w) (
          delete_selected_front
            (selection p hl objects selects laws namespace selector passes limit w.cluster) w)
