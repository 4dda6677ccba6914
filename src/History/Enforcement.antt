-- ===== src/History/Enforcement.antt =====
-- What a cleanup of history_limiter.go leaves in the cluster.
use text.Mathlib.TextPositions.{eq_refl}
use tektoncd_pruner.Prelude.{
  String, ℕ, ◌≤◌, Bool, true, false, not, ◌&&◌, Bool-cases, some, List, [], ◌∷◌, ◌≡◌, refl, ap, sym,
  ◌∙◌, subst, arith, inl, inr, length, keep, any, All, All-map, ◌==◌, keep_all, keep-keep,
  keep_comm, keep_none, length-keep-append, length-keep-le, length-keep-perm, any_self,
}
use tektoncd_pruner.Go.Exec.{Exec, Result, ok, err}
use tektoncd_pruner.Go.Time.{Duration}
use tektoncd_pruner.Kube.Object.{Object, ObjectMeta, meta}
use tektoncd_pruner.Kube.Api.{Platform}
use tektoncd_pruner.World.{World}
use tektoncd_pruner.History.Limit.{HistoryLimiter, select_for_deletion}
use tektoncd_pruner.History.Cleanup.{resource_age, after_delete, delete_selected, prune_to}
use tektoncd_pruner.History.Selection.{kept, newest_are_kept}

abbrev pub has_key : String → String → Object → Bool
has_key namespace name o = (meta o).namespace == namespace && (meta o).name == name

abbrev pub same_key : Object → Object → Bool
same_key o d = has_key (meta d).namespace (meta d).name o

-- The object is none of the list's, by namespace and name.
abbrev pub is_none_of : List Object → Object → Bool
is_none_of ds o = not (any (same_key o) ds)

same_key_refl : (o : Object) → same_key o o ≡ true
same_key_refl o = ground (arith, eq_refl (meta o).namespace, eq_refl (meta o).name)

-- No run of a list is none of the list's.
pub no_own : (ds : List Object) → All (λ d. is_none_of ds d ≡ false) ds
no_own ds =
    All-map (λ d. any (same_key d) ds ≡ true) (λ d. is_none_of ds d ≡ false) (λ d e. rw e) ds
      (any_self same_key same_key_refl ds)

module _ {S : Type 0} (p : Platform S) (hl : HistoryLimiter (World S)) where
  -- A deletion that leaves no such run: it returned no error, or that there is none.
  abbrev pub Gone : Result (Unit {0}) → Type 0
  Gone (ok _) = Unit
  Gone (err e) = p.errors.is_not_found e ≡ true

  -- What the API server promises, of the runs of one kind. The server decides which runs a label
  -- selector selects.
  pub record IsRunServer (objects : S → List Object) (selects : String → String → Object → Bool)
      : Type 0 where
    pub clock : (s : S) → objects (p.now s).1 ≡ objects s
    pub list :
        (namespace selector : String) (w : World S)
        → hl.resource_fn.list namespace selector w
          ≡ (ok (keep (selects namespace selector) (objects w.cluster)), w)
    pub delete :
        (namespace name : String) (w : World S)
        → Gone (hl.resource_fn.delete namespace name w).0
        → objects (hl.resource_fn.delete namespace name w).1.cluster
          ≡ keep (λ o. not (has_key namespace name o)) (objects w.cluster)

  after_delete_ok :
      (type namespace : String) (age : Duration) (rest : Exec (World S) (Unit {0}))
      (r : Result (Unit {0})) (w : World S) {w' : World S}
      → after_delete p type namespace age rest (r, w) ≡ (ok tt, w')
      → Gone r × ((v : World S) × (v.cluster ≡ w.cluster) × (rest v ≡ (ok tt, w')))
  unfolding after_delete
  after_delete_ok type namespace age rest (ok _) w h = (tt, (_, refl, h))
  after_delete_ok type namespace age rest (err e) w h =
      elim (Bool-cases (p.errors.is_not_found e)) [
        | inl absent ↦ (absent, (w, refl, ground arith))
        | inr other ↦ absurd (ground arith)
      ]

  pub delete_selected_step :
      (res : Object) (rest : List Object) (w : World S)
      → delete_selected p hl (res ∷ rest) w
        ≡ after_delete p hl.resource_fn.type
            (meta res).namespace
            (resource_age p (meta res) w).0
            (delete_selected p hl rest)
            (hl.resource_fn.delete
              (meta res).namespace
              (meta res).name
              (resource_age p (meta res) w).1)
  unfolding delete_selected
  delete_selected_step res rest w = refl

  delete_selected_nil :
      (w : World S) {w' : World S} → delete_selected p hl [] w ≡ (ok tt, w') → w ≡ w'
  unfolding delete_selected
  delete_selected_nil w h = ap (λ q. q.1) h

  module _ (objects : S → List Object) (selects : String → String → Object → Bool)
      (laws : IsRunServer objects selects) where
    pub objects-resource_age :
        (m : ObjectMeta) (w : World S) → objects (resource_age p m w).1.cluster ≡ objects w.cluster
    unfolding resource_age
    objects-resource_age m w = ground (arith, laws.clock w.cluster)

    -- A completed loop of deletions removes the runs of its list and no others.
    pub objects-delete_selected :
        (ds : List Object) (w : World S) {w' : World S}
        → delete_selected p hl ds w ≡ (ok tt, w')
        → objects w'.cluster ≡ keep (is_none_of ds) (objects w.cluster)
    objects-delete_selected [] w h =
        ap (λ v. objects v.cluster) (sym (delete_selected_nil w h))
        ∙ sym (keep_all (is_none_of []) (objects w.cluster) (λ o. refl))
    objects-delete_selected (res ∷ rest) w h =
        let m : ObjectMeta = meta res in
        let w₁ : World S = (resource_age p m w).1 in
        let (gone, (v, e, next)) =
          after_delete_ok hl.resource_fn.type m.namespace (resource_age p m w).0
            (delete_selected p hl rest) (hl.resource_fn.delete m.namespace m.name w₁).0
            (hl.resource_fn.delete m.namespace m.name w₁).1
            (sym (delete_selected_step res rest w) ∙ h) in
        objects-delete_selected rest v next
        ∙ ap (keep (is_none_of rest)) (
            ap objects e
            ∙ laws.delete m.namespace m.name w₁ gone
            ∙ ap (keep (λ o. not (has_key m.namespace m.name o))) (objects-resource_age m w))
        ∙ keep-keep (is_none_of rest) (λ o. not (has_key m.namespace m.name o))
            (is_none_of (res ∷ rest)) (objects w.cluster) (λ o. ground arith)

    module _ (namespace selector : String) (passes : Object → Bool) where
      -- The runs of the wanted outcome that the server lists.
      abbrev pub listed : S → List Object
      listed s = keep (selects namespace selector) (objects s)

      abbrev pub selection : ℕ → S → List Object
      selection limit s = select_for_deletion passes limit (listed s)

      pub prune_to_step :
          (limit : ℕ) (w : World S)
          → prune_to p hl namespace selector passes (some limit) w
            ≡ delete_selected p hl (selection limit w.cluster) w
      unfolding prune_to
      prune_to_step limit w = rw (laws.list namespace selector w)

      -- With an API server that keeps to `IsRunServer`, a cleanup that returns no error has deleted
      -- the selected runs, by namespace and name, and no others.
      pub prune_to_exact :
          (limit : ℕ) (w : World S) {w' : World S}
          → prune_to p hl namespace selector passes (some limit) w ≡ (ok tt, w')
          → objects w'.cluster ≡ keep (is_none_of (selection limit w.cluster)) (objects w.cluster)
      prune_to_exact limit w h =
          objects-delete_selected (selection limit w.cluster) w (sym (prune_to_step limit w) ∙ h)

      survivors_bound :
          (limit : ℕ) (xs : List Object)
          → length (keep (is_none_of (select_for_deletion passes limit xs)) (keep passes xs))
            ≤ limit
      survivors_bound limit xs =
          let ds : List Object = select_for_deletion passes limit xs in
          let (split, count, _) = newest_are_kept passes limit xs in
          omega (
            arith,
            length-keep-perm (is_none_of ds) split,
            length-keep-append (is_none_of ds) (kept passes limit xs) ds,
            ap length (keep_none (is_none_of ds) ds (no_own ds)),
            length-keep-le (is_none_of ds) (kept passes limit xs),
            count,
          )

      pub keep_through :
          (q : Object → Bool) (xs : List Object)
          → keep passes (keep (selects namespace selector) (keep q xs))
            ≡ keep q (keep passes (keep (selects namespace selector) xs))
      keep_through q xs =
          ap (keep passes) (keep_comm (selects namespace selector) q xs)
          ∙ keep_comm passes q (keep (selects namespace selector) xs)

      -- After a cleanup that returns no error at most `limit` runs of the wanted outcome are left,
      -- of those that the label selector selects.
      pub at_most_limit_remain :
          (limit : ℕ) (w : World S) {w' : World S}
          → prune_to p hl namespace selector passes (some limit) w ≡ (ok tt, w')
          → length (keep passes (listed w'.cluster)) ≤ limit
      at_most_limit_remain limit w {w'} h =
          subst (λ l. length (keep passes (keep (selects namespace selector) l)) ≤ limit)
            (sym (prune_to_exact limit w h))
            (subst (λ l. length l ≤ limit)
              (sym (keep_through (is_none_of (selection limit w.cluster)) (objects w.cluster)))
              (survivors_bound limit (listed w.cluster)))
