-- ===== src/Ttl/Removal.antt =====
-- When `processTTL` and `removeResource` of ttl_handler.go take a run to be expired.
use tektoncd_pruner.Prelude.{
  String, ℕ, ◌*◌, ◌<◌, ◌^◌, pos, ◌+ℤ◌, ◌<ℤ◌, ◌≤ℤ◌, leb_ℤ, true, false, Option, some, ◌≡◌, refl, ap,
  ◌∙◌, arith, ◌==◌, if◌then◌else◌, is_some, not, ◌&&◌,
}
use tektoncd_pruner.Go.Dict.{get}
use tektoncd_pruner.Go.Exec.{Exec, Result, ok, err, Error, wrap, requeue_after}
use tektoncd_pruner.Go.Decimal.{itoa}
use tektoncd_pruner.Go.Time.{Time, Duration, second, sub}
use tektoncd_pruner.Kube.Object.{Object, meta}
use tektoncd_pruner.Kube.Api.{Platform}
use tektoncd_pruner.Config.Spec.{annotation_ttl}
use tektoncd_pruner.World.{World}
use tektoncd_pruner.Ttl.Annotation.{TtlResourceFuncs, TtlHandler}
use tektoncd_pruner.Ttl.Expiry.{
  get_ttl_seconds, needs_cleanup, get_finish_and_expire_time, time_left, expiry_at, process_ttl,
}
use tektoncd_pruner.Ttl.Event.{if_expired, check_fresh, remove_resource, delete_expired}
use tektoncd_pruner.Ttl.Value.{
  NoOverflow, get_ttl_seconds_of_text, at_of_get, itoa_nonempty, itoa_not_never, leb-sub,
  seconds_exact,
}

-- A run that is not being deleted, was completed at `finish` and carries a TTL of `n` seconds.
pub record HasTtl {W : Type 0} (f : TtlResourceFuncs W) (o : Object) (finish : Time) (n : ℕ)
    : Type 0 where
  pub live : is_some (meta o).deletion_timestamp ≡ false
  pub completed : f.is_completed o ≡ true
  pub finished : f.get_completion_time o ≡ ok finish
  pub annotated : get (meta o).annotations annotation_ttl ≡ some (itoa (pos n))
  pub fits : NoOverflow n

abbrev pub expire_time : Time → ℕ → Time
expire_time finish n = finish +ℤ pos (n * second)

-- What `processTTL` returns at the time `now` for a run that expires at `expire`.
abbrev pub verdict : Time → Time → Result (Option Time)
verdict expire now =
    if leb_ℤ expire now then ok (some expire) else err (requeue_after (sub expire now))

pub needs_cleanup_of_text :
    {W : Type 0} (f : TtlResourceFuncs W) (o : Object) (n : ℕ)
    → f.is_completed o ≡ true
    → get (meta o).annotations annotation_ttl ≡ some (itoa (pos n))
    → n < 2 ^ 63
    → needs_cleanup f o ≡ true
unfolding needs_cleanup
needs_cleanup_of_text f o n completed annotated h = rw completed (
    ap (λ t. not (t == "") && not (t == "-1"))
      (at_of_get (meta o).annotations annotation_ttl annotated)
    ∙ ground (arith, itoa_nonempty n h, itoa_not_never n h))

-- `processTTL` for a live run that wants a cleanup, was completed at `finish` and has the TTL `d`.
module _ {W : Type 0} (th : TtlHandler W) (o : Object) (finish : Time) (d : Duration)
    (live : is_some (meta o).deletion_timestamp ≡ false)
    (needed : needs_cleanup th.resource_fn o ≡ true)
    (finished : th.resource_fn.get_completion_time o ≡ ok finish)
    (parsed : get_ttl_seconds (meta o) ≡ ok (some d)) where
  finish_and_expire : get_finish_and_expire_time th.resource_fn o ≡ ok (finish, finish +ℤ d)
  unfolding get_finish_and_expire_time
  finish_and_expire = rw needed (rw finished (rw parsed refl))

  expiry_at_of : (now : Time) → expiry_at th.resource_fn o now ≡ verdict (finish +ℤ d) now
  unfolding expiry_at time_left
  expiry_at_of now = rw finish_and_expire (ground (arith, leb-sub (finish +ℤ d) now))

  process_ttl_step :
      (w : W) → process_ttl th o w ≡ (expiry_at th.resource_fn o (th.clock w).0, (th.clock w).1)
  unfolding process_ttl
  process_ttl_step w = rw live (rw needed refl)

  pub process_ttl_of :
      (w : W) → process_ttl th o w ≡ (verdict (finish +ℤ d) (th.clock w).0, (th.clock w).1)
  process_ttl_of w =
      process_ttl_step w ∙ ap (λ r. (r, (th.clock w).1)) (expiry_at_of (th.clock w).0)

module _ {W : Type 0} (th : TtlHandler W) (o : Object) (finish : Time) (n : ℕ)
    (h : HasTtl th.resource_fn o finish n) where
  -- For a live, completed run with a TTL of `n` seconds, at most 9223372036, `processTTL` reads the
  -- clock once: it returns the time of expiry, `n` seconds after the completion, if that time has
  -- come, and else a request to be called again after exactly the time that is left.
  pub process_ttl_exact :
      (w : W) → process_ttl th o w ≡ (verdict (expire_time finish n) (th.clock w).0, (th.clock w).1)
  process_ttl_exact w =
      process_ttl_of th o finish (pos (n * second)) h.live
        (needs_cleanup_of_text th.resource_fn o n h.completed h.annotated below) h.finished
        (get_ttl_seconds_of_text (meta o) n below h.annotated
          ∙ ap (λ d. ok (some d)) (seconds_exact n h.fits))
        w
    where
      below : n < 2 ^ 63
      below = let fits : NoOverflow n = h.fits in omega arith

verdict_early :
    (expire now : Time) → now <ℤ expire → verdict expire now ≡ err (requeue_after (sub expire now))
verdict_early expire now h = ground arith

pub verdict_due : (expire now : Time) → expire ≤ℤ now → verdict expire now ≡ ok (some expire)
verdict_due expire now h = ground arith

module _ {S : Type 0} (p : Platform S) (th : TtlHandler (World S)) where
  if_expired_err :
      (message : String) (next : Exec (World S) (Unit {0})) (e : Error) (w : World S)
      → if_expired p th message next (err e, w) ≡ (err (wrap message e), w)
  unfolding if_expired
  if_expired_err message next e w = refl

  if_expired_due :
      (message : String) (next : Exec (World S) (Unit {0})) (t : Time) (w : World S)
      → if_expired p th message next (ok (some t), w) ≡ next w
  unfolding if_expired
  if_expired_due message next t w = refl

  check_fresh_step :
      (o fresh : Object) (w v : World S)
      → th.resource_fn.get (meta o).namespace (meta o).name w ≡ (ok fresh, v)
      → check_fresh p th o w
        ≡ if_expired p th "failed to process TTL for fresh resource"
            (delete_expired p th o)
            (process_ttl th fresh v)
  unfolding check_fresh
  check_fresh_step o fresh w v read = rw read refl

module _ {S : Type 0} (p : Platform S) (th : TtlHandler (World S)) (o : Object) (finish : Time)
    (n : ℕ) (h : HasTtl th.resource_fn o finish n) where
  remove_resource_step :
      (w : World S)
      → remove_resource p th o w
        ≡ if_expired p th "failed to process TTL"
            (check_fresh p th o)
            (verdict (expire_time finish n) (th.clock w).0, (th.clock w).1)
  unfolding remove_resource
  remove_resource_step w =
      ap (if_expired p th "failed to process TTL" (check_fresh p th o))
        (process_ttl_exact th o finish n h w)

  -- Before its TTL of at most 9223372036 seconds is over, a live, completed run is not deleted, nor
  -- even read again: the handler returns the request to be called after the time that is left.
  pub early_run_is_requeued :
      (w : World S)
      → (th.clock w).0 <ℤ expire_time finish n
      → remove_resource p th o w ≡ (
        err (
            wrap "failed to process TTL"
              (requeue_after (sub (expire_time finish n) (th.clock w).0))),
        (th.clock w).1,
      )
  early_run_is_requeued w early =
      remove_resource_step w
      ∙ ap (λ r. if_expired p th "failed to process TTL" (check_fresh p th o) (r, (th.clock w).1))
          (verdict_early (expire_time finish n) (th.clock w).0 early)
      ∙ if_expired_err p th "failed to process TTL" (check_fresh p th o)
          (requeue_after (sub (expire_time finish n) (th.clock w).0)) (th.clock w).1

  module _ (w : World S) (due : expire_time finish n ≤ℤ (th.clock w).0) (fresh : Object)
      (v : World S)
      (read : th.resource_fn.get (meta o).namespace (meta o).name (th.clock w).1 ≡ (ok fresh, v))
      (finish' : Time) (n' : ℕ) (h' : HasTtl th.resource_fn fresh finish' n') where
    removal_after_read :
        remove_resource p th o w
        ≡ if_expired p th "failed to process TTL for fresh resource"
            (delete_expired p th o)
            (verdict (expire_time finish' n') (th.clock v).0, (th.clock v).1)
    removal_after_read =
        remove_resource_step w
        ∙ ap (λ r. if_expired p th "failed to process TTL" (check_fresh p th o) (r, (th.clock w).1))
            (verdict_due (expire_time finish n) (th.clock w).0 due)
        ∙ if_expired_due p th "failed to process TTL" (check_fresh p th o) (expire_time finish n)
            (th.clock w).1
        ∙ check_fresh_step p th o fresh (th.clock w).1 v read
        ∙ ap (if_expired p th "failed to process TTL for fresh resource" (delete_expired p th o))
            (process_ttl_exact th fresh finish' n' h' v)

    -- A live, completed run whose TTL is over, both as the event carried it and as it is read
    -- again, is deleted.
    pub expired_run_is_deleted :
        expire_time finish' n' ≤ℤ (th.clock v).0
        → remove_resource p th o w ≡ delete_expired p th o (th.clock v).1
    expired_run_is_deleted still_due =
        removal_after_read
        ∙ ap
            (λ r.
              if_expired p th "failed to process TTL for fresh resource" (delete_expired p th o)
                (r, (th.clock v).1))
            (verdict_due (expire_time finish' n') (th.clock v).0 still_due)
        ∙ if_expired_due p th "failed to process TTL for fresh resource" (delete_expired p th o)
            (expire_time finish' n') (th.clock v).1

    -- A live, completed run whose TTL was over at the event, but was made longer since, is not
    -- deleted: the TTL that is read again decides, and the handler asks to be called again after
    -- the time it leaves.
    pub fresh_ttl_is_respected :
        (th.clock v).0 <ℤ expire_time finish' n'
        → remove_resource p th o w ≡ (
          err (
              wrap "failed to process TTL for fresh resource"
                (requeue_after (sub (expire_time finish' n') (th.clock v).0))),
          (th.clock v).1,
        )
    fresh_ttl_is_respected early =
        removal_after_read
        ∙ ap
            (λ r.
              if_expired p th "failed to process TTL for fresh resource" (delete_expired p th o)
                (r, (th.clock v).1))
            (verdict_early (expire_time finish' n') (th.clock v).0 early)
        ∙ if_expired_err p th "failed to process TTL for fresh resource" (delete_expired p th o)
            (requeue_after (sub (expire_time finish' n') (th.clock v).0)) (th.clock v).1
