-- ===== src/History/Selection.antt =====
-- Which runs `doResourceCleanup` of history_limiter.go selects, and by which limit.
use mathlib.Core.List.{Permᴰ}
use tektoncd_pruner.Prelude.{
  String, ℕ, zero, suc, ◌≤◌, ℤ, ◌≤ℤ◌, pos, ltb, ltb_ℤ, eqb_ℤ→eq, Bool, true, false, Bool-cases,
  Option, none, some, List, [], ◌∷◌, ◌++◌, ◌≡◌, ap, sym, ◌∙◌, subst, arith, inl, inr, length, take,
  drop, keep, take-append-drop, length-take, drop_of_length-le, length-perm, min, All,
  All-of_append_right,
}
use tektoncd_pruner.Go.Dict.{Dict, at}
use tektoncd_pruner.Go.Decimal.{atoi}
use tektoncd_pruner.Go.Exec.{Result, ok, err}
use tektoncd_pruner.Go.Sort.Laws.{Ascends, sort-perm, sort-Ascends}
use tektoncd_pruner.Kube.Object.{Object, meta}
use tektoncd_pruner.Config.Select.{Found}
use tektoncd_pruner.History.Limit.{
  newest_first, sort_newest, select_for_deletion, choose_limit, limit_of_annotation, is_int,
}

-- `a` was created when `b` was, or later.
abbrev pub AsNew : Object → Object → Type 0
AsNew a b = (meta b).creation_timestamp ≤ℤ (meta a).creation_timestamp

AsNew-trans : (x y z : Object) → AsNew x y → AsNew y z → AsNew x z
AsNew-trans x y z h k = omega arith

newest_first_less : (x y : Object) → ltb_ℤ (newest_first y x) (pos 0) ≡ true → AsNew y x
newest_first_less x y h = ground arith

newest_first_other : (x y : Object) → ltb_ℤ (newest_first y x) (pos 0) ≡ false → AsNew x y
newest_first_other x y h = ground arith

sort_newest-Ascends : (xs : List Object) → Ascends AsNew (sort_newest xs)
sort_newest-Ascends =
    sort-Ascends newest_first AsNew AsNew-trans newest_first_less newest_first_other

-- What stands in front is related to all that stands behind.
Ascends-split {ℓ κ} :
    {A : Type ℓ} (Le : A → A → Type κ) (n : ℕ) (xs : List A)
    → Ascends Le xs
    → All (λ x. All (Le x) (drop n xs)) (take n xs)
Ascends-split Le zero xs h = tt
Ascends-split Le (suc n) [] h = tt
Ascends-split Le (suc n) (x ∷ xs) h = (
  All-of_append_right (Le x) (take n xs) (drop n xs)
      (subst (All (Le x)) (sym (take-append-drop n xs)) h.0),
  Ascends-split Le n xs h.1,
)

module _ (passes : Object → Bool) (limit : ℕ) (resources : List Object) where
  -- The runs that a limit leaves, of those that were listed.
  abbrev pub kept : List Object
  kept = take limit (sort_newest (keep passes resources))

  pub select-eq-drop :
      select_for_deletion passes limit resources ≡ drop limit (sort_newest (keep passes resources))
  unfolding select_for_deletion
  select-eq-drop = elim (Bool-cases (ltb (length (keep passes resources)) limit)) [
    | inl few ↦ rw few (
        sym (
          drop_of_length-le limit (sort_newest (keep passes resources)) (
            omega
              (arith, ltb_le few, length-perm (sort-perm newest_first (keep passes resources))))))
    | inr enough ↦ rw enough
  ]
    where
      ltb_le :
          ltb (length (keep passes resources)) limit ≡ true → length (keep passes resources) ≤ limit
      ltb_le h = ground arith

  pub kept-select-perm :
      Permᴰ (kept ++ select_for_deletion passes limit resources) (keep passes resources)
  kept-select-perm =
      rw select-eq-drop (rw take-append-drop (sort-perm newest_first (keep passes resources)))

  -- The runs of the wanted outcome are split in two: those kept, as many as the limit allows, and
  -- those selected for deletion, none of which is newer than one that is kept.
  pub newest_are_kept :
      Permᴰ (kept ++ select_for_deletion passes limit resources) (keep passes resources)
      × (length kept ≡ min limit (length (keep passes resources)))
      × All (λ k. All (AsNew k) (select_for_deletion passes limit resources)) kept
  newest_are_kept = (
    kept-select-perm,
    length-take limit (sort_newest (keep passes resources))
        ∙ ap (min limit) (length-perm (sort-perm newest_first (keep passes resources))),
    rw select-eq-drop (
        Ascends-split AsNew limit (sort_newest (keep passes resources))
          (sort_newest-Ascends (keep passes resources))),
  )

is_int-eq : (o : Option ℤ) (n : ℤ) → is_int o n ≡ true → some n ≡ o
is_int-eq none n h = cc
is_int-eq (some c) n h = ap some (eqb_ℤ→eq n c h)

limit_of_annotation_same :
    (configured : Found) (r : Result ℤ) {found : Found}
    → limit_of_annotation configured r ≡ ok found
    → found.0 ≡ configured.0
unfolding limit_of_annotation
limit_of_annotation_same configured (err e) h = cc
limit_of_annotation_same configured (ok n) h = ground (arith, is_int-eq configured.0 n)

-- The limit annotation of a run never changes the limit: where the choice succeeds, the limit is the
-- configured one.
pub annotation_keeps_limit :
    (level : String) (annotations : Dict String) (limit_annotation : String) (configured : Found)
    {found : Found}
    → choose_limit level annotations limit_annotation configured ≡ ok found
    → found.0 ≡ configured.0
unfolding choose_limit
annotation_keeps_limit level annotations limit_annotation configured h =
    ground (arith, limit_of_annotation_same configured (atoi (at annotations limit_annotation)))
