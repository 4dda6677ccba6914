-- ===== src/History/Bounds.antt =====
-- `doResourceCleanup` of history_limiter.go enforces the configured limit.
use tektoncd_pruner.Prelude.{
  String, ℕ, ◌≤◌, ℤ, pos, Bool, false, some, List, [], ◌∷◌, ◌≡◌, refl, ap, sym, ◌∙◌, subst, arith,
  length, keep, ◌==◌,
}
use tektoncd_pruner.Go.Exec.{Exec, Result, ok, err}
use tektoncd_pruner.Kube.Object.{Object, ObjectMeta, meta}
use tektoncd_pruner.Kube.Api.{Platform}
use tektoncd_pruner.Config.Spec.{SelectorSpec, EnforcedConfigLevel, level_resource}
use tektoncd_pruner.Config.Select.{Found}
use tektoncd_pruner.Config.Helper.{
  get_resource_name_label_key, get_resource_name, get_resource_selectors,
}
use tektoncd_pruner.World.{World}
use tektoncd_pruner.History.Limit.{HistoryLimiter, choose_limit, effective_limit, list_selector}
use tektoncd_pruner.History.Cleanup.{
  after_delete, delete_selected, prune_to, limit_found, do_resource_cleanup,
}
use tektoncd_pruner.History.Selection.{annotation_keeps_limit}
use tektoncd_pruner.History.Enforcement.{
  Gone, IsRunServer, at_most_limit_remain, delete_selected_step,
}

list_selector_wide :
    (level identified_by label_key name : String) (m : ObjectMeta)
    → (level == level_resource) ≡ false
    → list_selector level identified_by label_key name m ≡ ""
unfolding list_selector
list_selector_wide level identified_by label_key name m h = ground arith

effective_limit_pos : (n : ℕ) → effective_limit (some (pos n)) ≡ some n
effective_limit_pos n = ground arith

module _ {S : Type 0} (p : Platform S) (hl : HistoryLimiter (World S)) where
  -- The name and the level that the handlers look a run up by.
  abbrev pub name_for : Object → String
  name_for resource =
      get_resource_name (meta resource)
        (get_resource_name_label_key (meta resource) hl.resource_fn.get_default_label_key)

  abbrev pub level_for : Object → World S → EnforcedConfigLevel
  level_for resource w =
      hl.resource_fn.get_enforced_config_level (meta resource).namespace (name_for resource)
        (get_resource_selectors (meta resource)) w

  abbrev pub configured_for :
      Object → (String → String → SelectorSpec → World S → Found) → World S → Found
  configured_for resource get_limit w =
      get_limit (meta resource).namespace (name_for resource)
        (get_resource_selectors (meta resource)) w

  pub do_resource_cleanup_step :
      (resource : Object) (limit_annotation : String)
      (get_limit : String → String → SelectorSpec → World S → Found) (passes : Object → Bool)
      (w : World S)
      → do_resource_cleanup p hl resource limit_annotation get_limit passes w
        ≡ limit_found p hl resource
            (level_for resource w)
            passes
            (choose_limit
              (level_for resource w)
              (meta resource).annotations
              limit_annotation
              (configured_for resource get_limit w))
            w
  unfolding do_resource_cleanup
  do_resource_cleanup_step resource limit_annotation get_limit passes w = refl

  module _ (objects : S → List Object) (selects : String → String → Object → Bool)
      (laws : IsRunServer p hl objects selects) (resource : Object) (passes : Object → Bool)
      (w : World S) where
    -- The runs of the wanted outcome that a label selector selects in the run's namespace.
    abbrev pub remaining : String → World S → List Object
    remaining selector v =
        keep passes (keep (selects (meta resource).namespace selector) (objects v.cluster))

    -- The label selector of the listing, for what the limit was identified by.
    abbrev pub selector_for : EnforcedConfigLevel → String → String
    selector_for level by =
        let m : ObjectMeta = meta resource in
        let label_key = get_resource_name_label_key m hl.resource_fn.get_default_label_key in
        list_selector level by label_key (get_resource_name m label_key) m

    limit_found_bound :
        (level : EnforcedConfigLevel) (r : Result Found) (n : ℕ) {w' : World S}
        → ((found : Found) → r ≡ ok found → found.0 ≡ some (pos n))
        → limit_found p hl resource level passes r w ≡ (ok tt, w')
        → (by : String) × (r ≡ ok (some (pos n), by))
          × (length (remaining (selector_for level by) w') ≤ n)
    limit_found_bound level (err e) n limited h = absurd (ground arith)
    limit_found_bound level (ok (limit, by)) n {w' = w'} limited h = (
      by,
      ap (λ l. ok (l, by)) (limited (limit, by) refl),
      at_most_limit_remain p hl objects selects laws (meta resource).namespace
          (selector_for level by) passes n w
          (subst
            (λ l.
              prune_to p hl (meta resource).namespace (selector_for level by) passes l w
              ≡ (ok tt, w'))
            (ap effective_limit (limited (limit, by) refl) ∙ effective_limit_pos n) h),
    )

    -- With an API server that keeps to `IsRunServer`: where the configured limit is `n`, a cleanup
    -- that returns no error has chosen the limit `n`, and leaves at most `n` runs of the wanted
    -- outcome, of those that the label selector for what this limit was identified by selects.
    pub cleanup_enforces_limit :
        (limit_annotation : String) (get_limit : String → String → SelectorSpec → World S → Found)
        (n : ℕ) {w' : World S}
        → (configured_for resource get_limit w).0 ≡ some (pos n)
        → do_resource_cleanup p hl resource limit_annotation get_limit passes w ≡ (ok tt, w')
        → (by : String) × (choose_limit
              (level_for resource w)
              (meta resource).annotations
              limit_annotation
              (configured_for resource get_limit w)
            ≡ ok (some (pos n), by))
          × (length (remaining (selector_for (level_for resource w) by) w') ≤ n)
    cleanup_enforces_limit limit_annotation get_limit n configured h =
        limit_found_bound (level_for resource w)
          (choose_limit (level_for resource w) (meta resource).annotations limit_annotation
            (configured_for resource get_limit w))
          n
          (λ found e.
            annotation_keeps_limit (level_for resource w) (meta resource).annotations
              limit_annotation (configured_for resource get_limit w) e
            ∙ configured)
          (sym (do_resource_cleanup_step resource limit_annotation get_limit passes w) ∙ h)

    -- With an API server that keeps to `IsRunServer`: where the configured limit is `n` and the level
    -- is not "resource", a cleanup that returns no error leaves at most `n` runs of the wanted
    -- outcome in the namespace, of those that the empty label selector selects.
    pub cleanup_enforces_namespace_limit :
        (limit_annotation : String) (get_limit : String → String → SelectorSpec → World S → Found)
        (n : ℕ) {w' : World S}
        → (level_for resource w == level_resource) ≡ false
        → (configured_for resource get_limit w).0 ≡ some (pos n)
        → do_resource_cleanup p hl resource limit_annotation get_limit passes w ≡ (ok tt, w')
        → length (remaining "" w') ≤ n
    cleanup_enforces_namespace_limit limit_annotation get_limit n {w' = w'} wide configured h =
        let m : ObjectMeta = meta resource in
        let label_key = get_resource_name_label_key m hl.resource_fn.get_default_label_key in
        let (by, chosen, bound) =
          cleanup_enforces_limit limit_annotation get_limit n configured h in
        subst (λ l. length (remaining l w') ≤ n)
          (list_selector_wide (level_for resource w) by label_key (get_resource_name m label_key) m
            wide)
          bound

  module _
      (succeeds : (namespace name : String) (w : World S)
        → Gone p hl (hl.resource_fn.delete namespace name w).0) where
    after_delete_succeeds :
        (type namespace : String) (age : ℤ) (rest : Exec (World S) (Unit {0}))
        (r : Result (Unit {0})) (w : World S)
        → ((v : World S) → (rest v).0 ≡ ok tt)
        → Gone p hl r
        → (after_delete p type namespace age rest (r, w)).0 ≡ ok tt
    unfolding after_delete
    after_delete_succeeds type namespace age rest (ok _) w done gone = done _
    after_delete_succeeds type namespace age rest (err e) w done gone = rw gone (done w)

    -- Where every deletion succeeds or finds no run, the loop over the selection returns no error.
    pub delete_selected_succeeds :
        (ds : List Object) (w : World S) → (delete_selected p hl ds w).0 ≡ ok tt
    delete_selected_succeeds [] w = unfold delete_selected in refl
    delete_selected_succeeds (res ∷ rest) w =
        ap (λ q. q.0) (delete_selected_step p hl res rest w)
        ∙ after_delete_succeeds hl.resource_fn.type (meta res).namespace _
            (delete_selected p hl rest) _ _ (delete_selected_succeeds rest) (succeeds _ _ _)
