-- ===== src/Ttl/Requeued.antt =====
-- A run that is processed before its TTL is over and again when the requeue request comes due.
use tektoncd_pruner.Prelude.{
  keep_unless, ℕ, pos, ◌+ℤ◌, ◌-ℤ◌, ◌<ℤ◌, ◌≤ℤ◌, ◌≡◌, ap, sym, ◌∙◌, subst, arith, refl, String, true,
  not, List, [], keep,
}
use tektoncd_pruner.Go.Exec.{Result, ok, err, wrap, requeue_after}
use tektoncd_pruner.Go.Time.{Time, Duration, sub}
use tektoncd_pruner.Kube.Object.{Object, ObjectMeta, meta}
use tektoncd_pruner.Kube.Api.{Platform}
use tektoncd_pruner.World.{World}
use tektoncd_pruner.Ttl.Annotation.{TtlHandler}
use tektoncd_pruner.Ttl.Event.{remove_resource, delete_expired, after_ttl_delete}
use tektoncd_pruner.History.Cleanup.{resource_age}
use tektoncd_pruner.History.Enforcement.{has_key}
use tektoncd_pruner.Ttl.Value.{NoOverflow}
use tektoncd_pruner.Ttl.Removal.{HasTtl, expire_time, early_run_is_requeued, expired_run_is_deleted}

-- The time that is left of a TTL that began is no longer than the TTL, and so is not saturated.
time_left_reaches :
    (finish now later : Time) (n : ℕ)
    → NoOverflow n
    → finish ≤ℤ now
    → now +ℤ sub (expire_time finish n) now ≤ℤ later
    → expire_time finish n ≤ℤ later
unfolding sub ◌-ℤ◌ ◌+ℤ◌
time_left_reaches finish now later n fits begun due = ground (arith, fits, begun, due)

module _ {S : Type 0} (p : Platform S) (th : TtlHandler (World S)) (objects : S → List Object) where
  -- A deletion that returned no error, or that there is no such run.
  abbrev pub Succeeds : Result (Unit {0}) → Type 0
  Succeeds (ok _) = Unit
  Succeeds (err e) = p.errors.is_not_found e ≡ true

  -- What the API server promises of the deletions of the TTL handler: each of them succeeds or finds
  -- no run, and takes the runs of its namespace and name away.
  pub record IsRemover : Type 0 where
    pub succeeds :
        (namespace name : String) (w : World S)
        → Succeeds (th.resource_fn.delete namespace name w).0
    pub removes :
        (namespace name : String) (w : World S)
        → objects (th.resource_fn.delete namespace name w).1.cluster
          ≡ keep (λ o. not (has_key namespace name o)) (objects w.cluster)

  -- No error was returned, and no run of the namespace and name is left.
  abbrev pub LeavesNone : String → String → Result (Unit {0}) × World S → Type 0
  LeavesNone namespace name q =
      (q.0 ≡ ok tt) × (keep (has_key namespace name) (objects q.1.cluster) ≡ [])

  after_ttl_delete-LeavesNone :
      (namespace name : String) (age : Duration) (r : Result (Unit {0})) (w : World S)
      → Succeeds r
      → keep (has_key namespace name) (objects w.cluster) ≡ []
      → LeavesNone namespace name (after_ttl_delete p th namespace age (r, w))
  unfolding after_ttl_delete
  after_ttl_delete-LeavesNone namespace name age (ok _) w done none_left = (refl, none_left)
  after_ttl_delete-LeavesNone namespace name age (err e) w done none_left =
      rw done (refl, none_left)

  delete_expired-LeavesNone :
      (o : Object) (w : World S)
      → IsRemover
      → LeavesNone (meta o).namespace (meta o).name (delete_expired p th o w)
  unfolding delete_expired
  delete_expired-LeavesNone o w laws =
      let m : ObjectMeta = meta o in
      let v : World S = (resource_age p m w).1 in
      let q = th.resource_fn.delete m.namespace m.name v in
      after_ttl_delete-LeavesNone m.namespace m.name (resource_age p m w).0 q.0 q.1
        (laws.succeeds m.namespace m.name v)
        (ap (keep (has_key m.namespace m.name)) (laws.removes m.namespace m.name v)
          ∙ keep_unless (has_key m.namespace m.name) (objects v.cluster))

-- The delay that a requeue request asks for.
abbrev delay_of : Result (Unit {0}) → Duration
delay_of (err (wrap message (requeue_after d))) = d
delay_of _ = pos 0

module _ {S : Type 0} (p : Platform S) (th : TtlHandler (World S)) (o : Object) (finish : Time)
    (n : ℕ) (h : HasTtl th.resource_fn o finish n) (w : World S) (begun : finish ≤ℤ (th.clock w).0)
    (early : (th.clock w).0 <ℤ expire_time finish n) where
  delay_is_time_left :
      {d : Duration} {w' : World S}
      → remove_resource p th o w ≡ (err (wrap "failed to process TTL" (requeue_after d)), w')
      → d ≡ sub (expire_time finish n) (th.clock w).0
  delay_is_time_left asked =
      ap (λ q. delay_of q.0) (sym asked ∙ early_run_is_requeued p th o finish n h w early)

  -- With an API server that keeps to `IsRemover`: a live, completed run is processed between its
  -- completion and the end of its TTL, of at most 9223372036 seconds, and again when the time that
  -- this requeued it for has passed: if it is then read with the same time of completion and TTL, and
  -- the clock has not gone back since, no error is returned and no run of its namespace and name is
  -- left. One request is enough.
  pub requeued_run_is_deleted :
      (objects : S → List Object) {d : Duration} {w' : World S} (u : World S) {fresh : Object}
      {v : World S}
      → IsRemover p th objects
      → remove_resource p th o w ≡ (err (wrap "failed to process TTL" (requeue_after d)), w')
      → (th.clock w).0 +ℤ d ≤ℤ (th.clock u).0
      → th.resource_fn.get (meta o).namespace (meta o).name (th.clock u).1 ≡ (ok fresh, v)
      → HasTtl th.resource_fn fresh finish n
      → (th.clock u).0 ≤ℤ (th.clock v).0
      → LeavesNone p th objects (meta o).namespace (meta o).name (remove_resource p th o u)
  requeued_run_is_deleted objects {d} u {fresh} {v} laws asked waited read same forward =
      let due : expire_time finish n ≤ℤ (th.clock u).0 =
        time_left_reaches finish (th.clock w).0 (th.clock u).0 n h.fits begun
          (subst (λ x. (th.clock w).0 +ℤ x ≤ℤ (th.clock u).0) (delay_is_time_left asked) waited) in
      subst (LeavesNone p th objects (meta o).namespace (meta o).name)
        (sym (
          expired_run_is_deleted p th o finish n h u due fresh v read finish n same
            (omega (arith, due, forward))))
        (delete_expired-LeavesNone p th objects o (th.clock v).1 laws)
