-- ===== src/Ttl/Annotation.antt =====
-- The interface that the TTL handler works through, `needsTTLUpdate` and
-- `updateAnnotationTTLSeconds`.
use tektoncd_pruner.Prelude.{
  String, ℤ, Bool, true, false, not, Option, none, some, [], ◌==◌, if◌then◌else◌,
}
use tektoncd_pruner.Go.Dict.{Dict, get, put, remove, find, replace, without}
use tektoncd_pruner.Go.Exec.{Exec, Result, ok, err, Error, errorf, wrap, handle}
use tektoncd_pruner.Go.Decimal.{itoa}
use tektoncd_pruner.Go.Time.{Time}
use tektoncd_pruner.Kube.Object.{Object, ObjectMeta, meta}
use tektoncd_pruner.Kube.Api.{Platform, Patch, merge_annotations}
use tektoncd_pruner.Config.Spec.{EnforcedConfigLevel, SelectorSpec, annotation_ttl}
use tektoncd_pruner.Config.Select.{Found}
use tektoncd_pruner.Config.Helper.{
  get_resource_name_label_key, get_resource_name, get_resource_selectors,
}
use tektoncd_pruner.World.{World, read_clock}

-- `TTLResourceFuncs`, over the state `W`
pub record TtlResourceFuncs (W : Type 0) : Type 0 where
  pub type : String
  pub get : String → String → Exec W Object
  pub delete : String → String → Exec W (Unit {0})
  pub patch : String → String → Patch → Exec W (Unit {0})
  pub update : Object → Exec W (Unit {0})
  pub is_completed : Object → Bool
  pub get_completion_time : Object → Result Time
  pub ignore : Object → Bool
  pub get_ttl_seconds_after_finished : String → String → SelectorSpec → W → Found
  pub get_default_label_key : String
  pub get_enforced_config_level : String → String → SelectorSpec → W → EnforcedConfigLevel

pub record TtlHandler (W : Type 0) : Type 0 where
  pub clock : W → Time × W
  pub resource_fn : TtlResourceFuncs W

-- `NewTTLHandler`: the real clock stands in for a missing one
unfoldable pub new_ttl_handler :
    {S : Type 0}
    → Platform S
    → Option (World S → Time × World S)
    → Option (TtlResourceFuncs (World S))
    → Result (TtlHandler (World S))
unfolding read_clock
new_ttl_handler p clock none = err (errorf "resourceFunc interface can not be nil")
new_ttl_handler p (some clock) (some f) = ok (record { clock = clock; resource_fn = f })
new_ttl_handler p none (some f) = ok (record { clock = read_clock p; resource_fn = f })

abbrev pub name_of : {W : Type 0} → TtlResourceFuncs W → ObjectMeta → String
name_of f m = get_resource_name m (get_resource_name_label_key m f.get_default_label_key)

-- the lookup of the TTL, which `needsTTLUpdate` and `updateAnnotationTTLSeconds` each make
unfoldable pub configured_ttl : {W : Type 0} → TtlResourceFuncs W → ObjectMeta → W → Option ℤ
unfolding get_resource_name_label_key get_resource_name get_resource_selectors
configured_ttl f m w =
    (f.get_ttl_seconds_after_finished m.namespace (name_of f m) (get_resource_selectors m) w).0

abbrev pub differs_from_config : String → Option ℤ → Bool
differs_from_config current none = true
differs_from_config current (some ttl) = not (current == itoa ttl)

-- the comparison of the annotation, which may be missing, with the configured TTL
abbrev pub is_outdated : Option String → Option ℤ → Bool
is_outdated none ttl = true
is_outdated (some current) ttl = differs_from_config current ttl

-- `needsTTLUpdate`
unfoldable pub needs_ttl_update : {W : Type 0} → TtlResourceFuncs W → ObjectMeta → W → Bool
unfolding find itoa configured_ttl
needs_ttl_update f m w = is_outdated (get m.annotations annotation_ttl) (configured_ttl f m w)

-- a map of annotations, made if it is nil
abbrev pub made : Dict String → Dict String
made none = some []
made (some l) = some l

abbrev keeps_ttl : Option String → String → Bool
keeps_ttl none new = false
keeps_ttl (some current) new = current == new

-- The annotations that the patch carries; `none` where the function returns with no patch.
unfoldable pub patched_annotations : Option ℤ → Dict String → Option (Dict String)
unfolding find replace without itoa
patched_annotations none annotations = some (remove annotations annotation_ttl)
patched_annotations (some ttl) annotations =
    if keeps_ttl (get annotations annotation_ttl) (itoa ttl)
    then none
    else some (put annotations annotation_ttl (itoa ttl))

module _ {S : Type 0} (p : Platform S) (f : TtlResourceFuncs (World S)) where
  pub patch_failed : Error → Error
  patch_failed = wrap "failed to patch resource with TTL annotation"

  -- the rest of `updateAnnotationTTLSeconds`, with the latest version of the run
  unfoldable pub patch_ttl : Option ℤ → Object → Exec (World S) (Unit {0})
  unfolding patched_annotations patch_failed
  patch_ttl ttl latest w =
      let m = meta latest in
      elim (patched_annotations ttl (made m.annotations)) [
        | none ↦ (ok tt, w)
        | some annotations ↦
            handle (λ e w. (err (patch_failed e), w)) (λ _ w. (ok tt, w))
              (f.patch m.namespace m.name (merge_annotations annotations) w)
      ]

  unfoldable pub get_failed : String → Error → Exec (World S) (Unit {0})
  get_failed message e w = if p.errors.is_not_found e then (ok tt, w) else (err (wrap message e), w)

  -- `updateAnnotationTTLSeconds`
  unfoldable pub update_annotation_ttl_seconds : Object → Exec (World S) (Unit {0})
  unfolding needs_ttl_update configured_ttl patch_ttl get_failed
  update_annotation_ttl_seconds resource w =
      let m = meta resource in
      if not (needs_ttl_update f m w)
      then (ok tt, w)
      else handle (get_failed "failed to get resource") (patch_ttl (configured_ttl f m w))
          (f.get m.namespace m.name w)
