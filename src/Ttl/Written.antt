-- ===== src/Ttl/Written.antt =====
-- What `updateAnnotationTTLSeconds` of ttl_handler.go leaves in the annotations of a run, once the
-- API server has applied the merge patch.
use text.Mathlib.TextPositions.{eq_refl}
use tektoncd_pruner.Prelude.{
  String, ℕ, ◌*◌, ◌<◌, ◌^◌, ℤ, pos, true, false, Bool-cases, Option, Option-cases, none, some, List,
  [], ◌≡◌, refl, ap, ◌∙◌, arith, inl, inr, ◌==◌, eq_iff,
}
use tektoncd_pruner.Go.Dict.{Dict, get, put, find, replace, without, find-replace, find-without}
use tektoncd_pruner.Go.Exec.{ok}
use tektoncd_pruner.Go.Decimal.{itoa}
use tektoncd_pruner.Go.Time.{second}
use tektoncd_pruner.Kube.Object.{Object, ObjectMeta, meta}
use tektoncd_pruner.Kube.Api.{Platform}
use tektoncd_pruner.Config.Spec.{annotation_ttl}
use tektoncd_pruner.World.{World}
use tektoncd_pruner.Ttl.Annotation.{
  TtlResourceFuncs, configured_ttl, needs_ttl_update, patched_annotations, is_outdated,
  update_annotation_ttl_seconds, made,
}
use tektoncd_pruner.Ttl.Expiry.{get_ttl_seconds}
use tektoncd_pruner.Ttl.Value.{seconds_exact, get_ttl_seconds_of_text}

-- A JSON merge patch of annotations: a key of the patch gets its value, the others stay.
pub record IsMergePatch (merge : Dict String → Dict String → Dict String) : Type 0 where
  pub given : (a d : Dict String) (k v : String) → get d k ≡ some v → get (merge a d) k ≡ some v
  pub others : (a d : Dict String) (k : String) → get d k ≡ none → get (merge a d) k ≡ get a k

find_written :
    (n : ℤ) (l : List (String × String))
    → find annotation_ttl (replace annotation_ttl (itoa n) l) ≡ some (itoa n)
find_written n l = find-replace annotation_ttl annotation_ttl (itoa n) l

module _ (merge : Dict String → Dict String → Dict String) (laws : IsMergePatch merge) where
  -- The annotations after the patch; the same where there is none.
  abbrev pub stored : Option ℤ → Dict String → Dict String
  stored ttl a = elim (patched_annotations ttl (made a)) [ none ↦ a | some d ↦ merge a d ]

  abbrev pub with_stored : Option ℤ → ObjectMeta → ObjectMeta
  with_stored ttl m = record m { annotations = stored ttl m.annotations }

  stored_ttl : (n : ℤ) (a : Dict String) → get (stored (some n) a) annotation_ttl ≡ some (itoa n)
  unfolding patched_annotations
  stored_ttl n none =
      laws.given none (put (some []) annotation_ttl (itoa n)) annotation_ttl (itoa n)
        (find_written n [])
  stored_ttl n (some l) = elim (Option-cases (find annotation_ttl l)) [
    | inl absent ↦ rw absent (
        laws.given (some l) (put (some l) annotation_ttl (itoa n)) annotation_ttl (itoa n)
          (find_written n l))
    | inr (current, found) ↦ elim (Bool-cases (current == itoa n)) [
      | inl same ↦ rw found (rw same (found ∙ ap some ((eq_iff current (itoa n)).0 same)))
      | inr differs ↦ rw found (
          rw differs (
            laws.given (some l) (put (some l) annotation_ttl (itoa n)) annotation_ttl (itoa n)
              (find_written n l)))
    ]
  ]

  -- With no configured TTL, the patch removes nothing.
  stored-none : (a : Dict String) → get (stored none a) annotation_ttl ≡ get a annotation_ttl
  unfolding patched_annotations
  stored-none none = laws.others none (some []) annotation_ttl (unfold find in refl)
  stored-none (some l) =
      laws.others (some l) (some (without annotation_ttl l)) annotation_ttl
        (find-without annotation_ttl annotation_ttl l)

  -- Where the configured TTL is `n` seconds, below 2 ^ 31, `getTTLSeconds` reads `n` seconds from
  -- the annotations that the update leaves once the patch is merged, whatever they held before.
  pub written_ttl_is_read :
      (n : ℕ) (m : ObjectMeta)
      → n < 2 ^ 31
      → get_ttl_seconds (with_stored (some (pos n)) m) ≡ ok (some (pos (n * second)))
  written_ttl_is_read n m h =
      get_ttl_seconds_of_text (with_stored (some (pos n)) m) n (omega arith)
        (stored_ttl (pos n) m.annotations)
      ∙ ap (λ d. ok (some d)) (seconds_exact n (omega arith))

  is_outdated-none : (o : Option String) → is_outdated o none ≡ true
  is_outdated-none none = refl
  is_outdated-none (some current) = refl

  module _ {S : Type 0} (p : Platform S) (f : TtlResourceFuncs (World S)) where
    update_skipped :
        (resource : Object) (w : World S)
        → needs_ttl_update f (meta resource) w ≡ false
        → update_annotation_ttl_seconds p f resource w ≡ (ok tt, w)
    unfolding update_annotation_ttl_seconds
    update_skipped resource w h = rw h refl

    settled :
        (n : ℤ) (m : ObjectMeta) (w : World S)
        → configured_ttl f m w ≡ some n
        → get m.annotations annotation_ttl ≡ some (itoa n)
        → needs_ttl_update f m w ≡ false
    unfolding needs_ttl_update
    settled n m w configured found =
        ap (λ o. is_outdated o (configured_ttl f m w)) found
        ∙ ap (is_outdated (some (itoa n))) configured
        ∙ rw (eq_refl (itoa n)) refl

    -- Once the configured TTL has been stored, the update makes no further call, as long as the same
    -- TTL is configured for the run that carries the annotation.
    pub update-settles :
        (n : ℤ) (a : Dict String) (resource : Object) (w : World S)
        → (meta resource).annotations ≡ stored (some n) a
        → configured_ttl f (meta resource) w ≡ some n
        → update_annotation_ttl_seconds p f resource w ≡ (ok tt, w)
    update-settles n a resource w now configured = update_skipped resource w (
        settled n (meta resource) w configured
          (ap (λ d. get d annotation_ttl) now ∙ stored_ttl n a))

    -- Where no TTL is configured any more, the update, once its patch is merged, leaves the
    -- annotation of an earlier TTL as it was, and every later event still wants an update.
    pub stale_ttl_survives :
        (a : Dict String) (m : ObjectMeta) (w : World S)
        → m.annotations ≡ stored none a
        → configured_ttl f m w ≡ none
        → (get m.annotations annotation_ttl ≡ get a annotation_ttl)
          × (needs_ttl_update f m w ≡ true)
    unfolding needs_ttl_update
    stale_ttl_survives a m w now configured = (
      ap (λ d. get d annotation_ttl) now ∙ stored-none a,
      ap (is_outdated (get m.annotations annotation_ttl)) configured
          ∙ is_outdated-none (get m.annotations annotation_ttl),
    )
