-- ===== src/Pruner/Trigger.antt =====
-- `NewController` of tektonpruner/controller.go: each change of the ConfigMap starts a goroutine
-- that calls `safeRunGarbageCollector`, whose mutex is a local variable; and `Reconcile` of
-- tektonpruner/reconciler.go.
use mathlib.Core.List.{◌++◌}
use tektoncd_pruner.Prelude.{
  String, ℕ, zero, suc, Bool, true, false, List, [], ◌∷◌, ◌≡◌, refl, subst, All, All-append, arith,
  All-of_append_left, All-of_append_right,
}
use tektoncd_pruner.Go.Exec.{Exec, ok}

-- `Reconcile`, which only logs
unfoldable pub reconcile_key {ℓ} : {W : Type ℓ} → String → Exec W (Unit {0})
reconcile_key key w = (ok tt, w)

pub data Phase : Type 0 where
  waiting collecting ended : Phase

-- A call of `safeRunGarbageCollector` and its mutex.
pub record Call : Type 0 where
  pub locked : Bool
  pub phase : Phase

abbrev pub fresh_call : Call
fresh_call = record { locked = false; phase = waiting }

abbrev pub collecting_call : Call
collecting_call = record { locked = true; phase = collecting }

abbrev pub ended_call : Call
ended_call = record { locked = false; phase = ended }

pub data Fires (calls : List Call) : List Call → Type 0 where
  -- the callback of `cmw.Watch`
  change : Fires calls (fresh_call ∷ calls)
  -- `gcMutex.Lock()` returns, and `runGarbageCollector` starts
  lock :
      (front : List Call) (c : Call) (back : List Call)
      → calls ≡ front ++ c ∷ back
      → c.phase ≡ waiting
      → c.locked ≡ false
      → Fires calls (front ++ collecting_call ∷ back)
  -- `runGarbageCollector` returns, and so does the deferred `gcMutex.Unlock()`
  unlock :
      (front : List Call) (c : Call) (back : List Call)
      → calls ≡ front ++ c ∷ back
      → c.phase ≡ collecting
      → Fires calls (front ++ ended_call ∷ back)

pub data Fired : List Call → Type 0 where
  quiet : Fired []
  fire : {calls calls' : List Call} → Fired calls → Fires calls calls' → Fired calls'

-- The mutex of a call that waits is free.
abbrev FreeIfWaiting : Call → Type 0
FreeIfWaiting c = c.phase ≡ waiting → c.locked ≡ false

All-split :
    (front : List Call) (c : Call) (back : List Call)
    → All FreeIfWaiting (front ++ c ∷ back)
    → All FreeIfWaiting front × FreeIfWaiting c × All FreeIfWaiting back
All-split front c back h =
    let behind = All-of_append_right FreeIfWaiting front (c ∷ back) h in
    (All-of_append_left FreeIfWaiting front (c ∷ back) h, behind.0, behind.1)

replaced :
    (front : List Call) (c : Call) (back : List Call) {calls : List Call} (d : Call)
    → calls ≡ front ++ c ∷ back
    → FreeIfWaiting d
    → All FreeIfWaiting calls
    → All FreeIfWaiting (front ++ d ∷ back)
replaced front c back d e free h =
    let (before, _, behind) = All-split front c back (subst (All FreeIfWaiting) e h) in
    All-append FreeIfWaiting front (d ∷ back) before (free, behind)

Fired-FreeIfWaiting : {calls : List Call} → Fired calls → All FreeIfWaiting calls
Fired-FreeIfWaiting quiet = tt
Fired-FreeIfWaiting (fire r change) = ((λ e. refl), Fired-FreeIfWaiting r)
Fired-FreeIfWaiting (fire r (lock front c back e waits free)) =
    replaced front c back collecting_call e (λ h. absurd (ground arith)) (Fired-FreeIfWaiting r)
Fired-FreeIfWaiting (fire r (unlock front c back e collects)) =
    replaced front c back ended_call e (λ h. refl) (Fired-FreeIfWaiting r)

-- Whatever the other calls are doing, a call that waits can start its collection.
pub waiting_call_can_start :
    (front : List Call) (c : Call) (back : List Call)
    → Fired (front ++ c ∷ back)
    → c.phase ≡ waiting
    → Fired (front ++ collecting_call ∷ back)
waiting_call_can_start front c back r waits =
    let (_, free, _) = All-split front c back (Fired-FreeIfWaiting r) in
    fire r (lock front c back refl waits (free waits))

abbrev pub copies : ℕ → Call → List Call
copies zero c = []
copies (suc n) c = c ∷ copies n c

-- Any number of collections can run at the same time: the mutex excludes none of them.
collections_overlap : (n : ℕ) → Fired (copies n collecting_call)
collections_overlap zero = quiet
collections_overlap (suc n) =
    waiting_call_can_start [] fresh_call (copies n collecting_call)
      (fire (collections_overlap n) change) refl
