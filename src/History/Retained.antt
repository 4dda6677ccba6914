-- ===== src/History/Retained.antt =====
-- What a cleanup of history_limiter.go leaves, against the rule that the newest runs are retained.
use mathlib.Core.List.{Permᴰ}
use mathlib.Core.List.Permᴰ
use tektoncd_pruner.Prelude.{
  String, ℕ, Bool, true, false, not, some, List, [], ◌∷◌, ◌++◌, ◌≡◌, refl, ap, sym, ◌∙◌, subst,
  arith, keep, All, All-map, All-perm, length, length-perm, min, ◌==◌, eq_iff, keep-append,
  keep_every, any_none, keep-perm, AllApart, AllApart-keep, AllApart-perm, AllApart-split,
  keep_none, Bool-cases, inl, inr,
}
use tektoncd_pruner.Go.Exec.{ok}
use tektoncd_pruner.Kube.Object.{Object, meta}
use tektoncd_pruner.Kube.Api.{Platform}
use tektoncd_pruner.World.{World}
use tektoncd_pruner.History.Limit.{HistoryLimiter, select_for_deletion}
use tektoncd_pruner.History.Cleanup.{prune_to}
use tektoncd_pruner.History.Selection.{kept, kept-select-perm, newest_are_kept, AsNew}
use tektoncd_pruner.History.Enforcement.{
  same_key, is_none_of, IsRunServer, prune_to_exact, keep_through, no_own,
}

eq_sym : (s t : String) → (s == t) ≡ (t == s)
eq_sym s t = elim (Bool-cases (s == t)) [
  | inl e ↦ subst (λ u. (s == u) ≡ (u == s)) ((eq_iff s t).0 e) refl
  | inr e ↦ elim (Bool-cases (t == s)) [
    | inl f ↦ subst (λ u. (u == t) ≡ (t == u)) ((eq_iff t s).0 f) refl
    | inr f ↦ e ∙ sym f
  ]
]

same_key_sym : (x y : Object) → same_key x y ≡ same_key y x
same_key_sym x y =
    ground (arith, eq_sym (meta x).namespace (meta y).namespace, eq_sym (meta x).name (meta y).name)

-- A list splits in two parts with no key in common: the test against the second one keeps the first.
keep_first :
    (front ds : List Object)
    → AllApart same_key (front ++ ds)
    → keep (is_none_of ds) (front ++ ds) ≡ front
keep_first front ds apart =
    keep-append (is_none_of ds) front ds
    ∙ ap (λ l. l ++ keep (is_none_of ds) ds)
        (keep_every (is_none_of ds) front (
          All-map (λ x. All (λ y. same_key x y ≡ false) ds) (λ x. is_none_of ds x ≡ true)
            (λ x h. ap not (any_none (same_key x) ds h)) front
            (AllApart-split same_key front ds apart)))
    ∙ ap (λ l. front ++ l) (keep_none (is_none_of ds) ds (no_own ds))
    ∙ append-nil front
  where
    append-nil : (l : List Object) → l ++ [] ≡ l
    append-nil [] = refl
    append-nil (x ∷ l) = ap (◌∷◌ x) (append-nil l)

-- `after` are newest runs of `before`, as many as the limit allows: what is gone was created no later
-- than any of these, and nothing else is gone.
pub record IsRetained (limit : ℕ) (before after : List Object) : Type 0 where
  pub gone : List Object
  pub split : Permᴰ (after ++ gone) before
  pub many : length after ≡ min limit (length before)
  pub newest : All (λ k. All (AsNew k) gone) after

kept-IsRetained :
    (passes : Object → Bool) (limit : ℕ) (listed after : List Object)
    → Permᴰ after (kept passes limit listed)
    → IsRetained limit (keep passes listed) after
kept-IsRetained passes limit listed after same =
    let (split, many, newest) = newest_are_kept passes limit listed in
    let ds : List Object = select_for_deletion passes limit listed in
    record {
      gone = ds;
      split = Permᴰ.trans (Permᴰ.append_right ds same) split;
      many = length-perm same ∙ many;
      newest = All-perm (λ k. All (AsNew k) ds) (Permᴰ.symm same) newest;
    }

module _ {S : Type 0} (p : Platform S) (hl : HistoryLimiter (World S)) (objects : S → List Object)
    (selects : String → String → Object → Bool) (laws : IsRunServer p hl objects selects)
    (namespace selector : String) (passes : Object → Bool) where
  kept_remain :
      (limit : ℕ) (w : World S) {w' : World S}
      → AllApart same_key (objects w.cluster)
      → prune_to p hl namespace selector passes (some limit) w ≡ (ok tt, w')
      → Permᴰ
          (keep passes (keep (selects namespace selector) (objects w'.cluster)))
          (kept passes limit (keep (selects namespace selector) (objects w.cluster)))
  kept_remain limit w {w'} apart h =
      let before : List Object = keep (selects namespace selector) (objects w.cluster) in
      let ds : List Object = select_for_deletion passes limit before in
      let split = kept-select-perm passes limit before in
      subst
        (λ l. Permᴰ (keep passes (keep (selects namespace selector) l)) (kept passes limit before))
        (sym (prune_to_exact p hl objects selects laws namespace selector passes limit w h))
        (subst (λ l. Permᴰ l (kept passes limit before))
          (sym (
            keep_through p hl objects selects laws namespace selector passes (is_none_of ds)
              (objects w.cluster)))
          (subst (Permᴰ (keep (is_none_of ds) (keep passes before)))
            (keep_first (kept passes limit before) ds (
              AllApart-perm same_key same_key_sym (Permᴰ.symm split) (
                AllApart-keep same_key passes before
                  (AllApart-keep same_key (selects namespace selector) (objects w.cluster) apart))))
            (keep-perm (is_none_of ds) (Permᴰ.symm split))))

  -- With an API server that keeps to `IsRunServer`: where no two runs of the cluster have the same
  -- namespace and name, a cleanup that returns no error leaves, of the runs of the wanted outcome that
  -- the label selector selects, as many as the limit allows, no more and no fewer, and none of those
  -- that are gone was created later than one that is left.
  pub exactly_newest_remain :
      (limit : ℕ) (w : World S) {w' : World S}
      → AllApart same_key (objects w.cluster)
      → prune_to p hl namespace selector passes (some limit) w ≡ (ok tt, w')
      → IsRetained limit
          (keep passes (keep (selects namespace selector) (objects w.cluster)))
          (keep passes (keep (selects namespace selector) (objects w'.cluster)))
  exactly_newest_remain limit w apart h =
      kept-IsRetained passes limit (keep (selects namespace selector) (objects w.cluster)) _
        (kept_remain limit w apart h)
