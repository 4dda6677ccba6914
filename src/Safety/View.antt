-- ===== src/Safety/View.antt =====
-- An invariant of the cluster and of the process, and what the calls of the client do to it. Between
-- and during these calls others may change the cluster.
use tektoncd_pruner.Prelude.{String, Bool, true, false, List, ◌≡◌, refl, All, if◌then◌else◌}
use tektoncd_pruner.Go.Exec.{Exec, Result, ok, err, Error, continue, handle}
use tektoncd_pruner.Kube.Object.{Object, meta}
use tektoncd_pruner.Kube.Api.{Platform, Patch}
use tektoncd_pruner.World.{World, read_clock, measure}
use tektoncd_pruner.Go.Time.{Time, Duration}
use tektoncd_pruner.Metrics.{
  Recorder, Timer, record_resource_deleted, record_resource_error,
  record_history_processing_duration, record_ttl_processing_duration,
}

-- What is to hold at any time of the cluster, the configuration and the recorder, the runs, by kind,
-- namespace and name, that may be deleted meanwhile, and the namespaces whose runs are dealt with.
pub record Invariant (S : Type 0) : Type 1 where
  pub holds : World S → Type 0
  pub safe : String → String → String → Type 0
  pub allows : String → Type 0

-- What the handlers tell the recorder: deletions, errors and how long they took.
pub data HandlerMeasure : (Recorder → Recorder) → Type 0 where
  tells_deletion :
      (type namespace operation : String) (age : Duration)
      → HandlerMeasure (record_resource_deleted type namespace operation age)
  tells_error :
      (type namespace error_type reason : String)
      → HandlerMeasure (record_resource_error type namespace error_type reason)
  tells_history_time :
      (t : Timer) (now : Time) → HandlerMeasure (record_history_processing_duration t now)
  tells_ttl_time : (t : Timer) (now : Time) → HandlerMeasure (record_ttl_processing_duration t now)

module _ {S : Type 0} (inv : Invariant S) where
  -- If the invariant holds in the first state, it holds in the second.
  pub record Spares (w v : World S) : Type 0 where
    pub stays : inv.holds w → inv.holds v

  pub Spares-refl : (w : World S) → Spares w w
  Spares-refl w = record { stays = λ h. h }

  pub Spares-trans : {s t u : World S} → Spares s t → Spares t u → Spares s u
  Spares-trans h k = record { stays = λ alive. k.stays (h.stays alive) }

  -- That the invariant holds may be assumed.
  pub Spares-while : (s t : World S) → (inv.holds s → Spares s t) → Spares s t
  Spares-while s t h = record { stays = λ alive. (h alive).stays alive }

  pub if-Spares :
      (b : Bool) {s : World S} (v u : World S)
      → Spares s v
      → Spares s u
      → Spares s (if b then v else u)
  if-Spares true v u h k = h
  if-Spares false v u h k = k

  pub if_result-Spares {ℓ} :
      {A : Type ℓ} (b : Bool) {s : World S} (q r : Result A × World S)
      → Spares s q.1
      → Spares s r.1
      → Spares s (if b then q else r).1
  if_result-Spares true q r h k = h
  if_result-Spares false q r h k = k

  -- A call that keeps the invariant, whatever it returns.
  abbrev pub Sparing {ℓ} : {A : Type ℓ} → Exec (World S) A → Type 0
  Sparing m = (w : World S) → Spares w (m w).1

  abbrev pub IsSafeObject : String → Object → Type 0
  IsSafeObject kind o = inv.safe kind (meta o).namespace (meta o).name

  -- What the API server promises of the calls that the handlers of one kind of run make: they keep the
  -- invariant, a patch in a namespace that is dealt with and a deletion of a safe run, and a run that is
  -- read is in its namespace, and safe where it is completed.
  pub record IsRunKeeper (kind : String) (is_completed : Object → Bool)
      (get : String → String → Exec (World S) Object)
      (patch : String → String → Patch → Exec (World S) (Unit {0}))
      (delete : String → String → Exec (World S) (Unit {0})) : Type 0 where
    pub getting : (namespace name : String) → Sparing (get namespace name)
    pub got :
        (namespace name : String) (w : World S) {o : Object} {w' : World S}
        → inv.allows namespace
        → inv.holds w
        → get namespace name w ≡ (ok o, w')
        → is_completed o ≡ true
        → inv.safe kind namespace name
    pub read_inside :
        (namespace name : String) (w : World S) {o : Object} {w' : World S}
        → inv.allows namespace
        → get namespace name w ≡ (ok o, w')
        → inv.allows (meta o).namespace
    pub patching :
        (namespace name : String) (patch_data : Patch)
        → inv.allows namespace
        → Sparing (patch namespace name patch_data)
    pub deleting :
        (namespace name : String) → inv.safe kind namespace name → Sparing (delete namespace name)

  -- What it promises of the listing of one kind of run.
  pub record IsRunLister (kind : String) (is_completed : Object → Bool)
      (list : String → String → Exec (World S) (List Object)) : Type 0 where
    pub listing : (namespace selector : String) → Sparing (list namespace selector)
    pub listed :
        (namespace selector : String) (w : World S) {os : List Object} {w' : World S}
        → inv.allows namespace
        → inv.holds w
        → list namespace selector w ≡ (ok os, w')
        → All (λ o. is_completed o ≡ true → IsSafeObject kind o) os

  -- Neither a reading of the clock nor what the handlers tell the recorder breaks the invariant.
  pub record IsQuiet (p : Platform S) : Type 0 where
    pub clock : (w : World S) → Spares w (record w { cluster = (p.now w.cluster).1 })
    pub measured :
        {f : Recorder → Recorder} → HandlerMeasure f → (w : World S) → Spares w (measure f w)

  pub measured-Spares :
      {p : Platform S} {f : Recorder → Recorder} {s w : World S}
      → IsQuiet p
      → HandlerMeasure f
      → Spares s w
      → Spares s (measure f w)
  measured-Spares {w = w} quiet told h = Spares-trans h (quiet.measured told w)

  pub read_clock-Spares : (p : Platform S) → IsQuiet p → (w : World S) → Spares w (read_clock p w).1
  unfolding read_clock
  read_clock-Spares p h w = h.clock w

  module _ {ℓ κ} {A : Type ℓ} {B : Type κ} {s : World S} where
    -- What follows a call, whatever the call returned.
    pub continue-Spares :
        (f : A → Exec (World S) B) (q : Result A × World S)
        → Spares s q.1
        → ((a : A) → q ≡ (ok a, q.1) → Spares q.1 (f a q.1).1)
        → Spares s (continue f q).1
    continue-Spares f (ok a, v) h k = Spares-trans h (k a refl)
    continue-Spares f (err e, v) h k = h

    pub handle-Spares :
        (on_error : Error → Exec (World S) B) (on_value : A → Exec (World S) B)
        (q : Result A × World S)
        → Spares s q.1
        → ((e : Error) → Spares q.1 (on_error e q.1).1)
        → ((a : A) → q ≡ (ok a, q.1) → Spares q.1 (on_value a q.1).1)
        → Spares s (handle on_error on_value q).1
    handle-Spares on_error on_value (ok a, v) h k l = Spares-trans h (l a refl)
    handle-Spares on_error on_value (err e, v) h k l = Spares-trans h (k e)
