-- ===== src/Ttl/Expiry.antt =====
-- Whether and when the TTL of a run is over: `needsCleanup`, `getTTLSeconds`,
-- `getFinishAndExpireTime`, `timeLeft` and `processTTL`.
use tektoncd_pruner.Prelude.{
  String, ◌<>◌, pos, negsuc, ◌+ℤ◌, ltb_ℤ, leb_ℤ, Bool, false, not, ◌&&◌, ◌||◌, Option, none, some,
  ◌==◌, if◌then◌else◌, is_some,
}
use tektoncd_pruner.Go.Dict.{at, find}
use tektoncd_pruner.Go.Exec.{
  Exec, Result, ok, err, Error, errorf, wrap, map_error, requeue_after, nil_dereference,
}
use tektoncd_pruner.Go.Decimal.{atoi, itoa}
use tektoncd_pruner.Go.Time.{Time, Duration, seconds, sub}
use tektoncd_pruner.Kube.Object.{Object, ObjectMeta, meta}
use tektoncd_pruner.Config.Spec.{annotation_ttl}
use tektoncd_pruner.Ttl.Annotation.{TtlResourceFuncs, TtlHandler}

-- `NoTTL`
abbrev pub no_ttl : String
no_ttl = "-1"

abbrev pub then_ok {ℓ κ} : {A : Type ℓ} {B : Type κ} → Result A → (A → Result B) → Result B
then_ok (ok a) f = f a
then_ok (err e) f = err e

-- the duration that the text of the annotation stands for
unfoldable pub parse_ttl : String → Result (Option Duration)
unfolding atoi itoa seconds
parse_ttl text =
    if text == ""
    then ok none
    else then_ok (map_error (wrap "invalid TTL value") (atoi text)) (λ ttl.
      if ltb_ℤ ttl (negsuc 0)
      then err (errorf ("TTL value " <> (itoa ttl <> " must be >= -1")))
      else ok (some (seconds ttl)))

-- `getTTLSeconds`; a nil pointer is `none`. The text of the error leaves out the quoted value.
unfoldable pub get_ttl_seconds : ObjectMeta → Result (Option Duration)
unfolding find parse_ttl
get_ttl_seconds m = parse_ttl (at m.annotations annotation_ttl)

-- `enqueueAfter`, the call of `controller.NewRequeueAfter`
abbrev pub enqueue_after : Duration → Error
enqueue_after after = requeue_after after

module _ {W : Type 0} (f : TtlResourceFuncs W) where
  -- `needsCleanup`
  unfoldable pub needs_cleanup : Object → Bool
  unfolding find
  needs_cleanup resource =
      if not (f.is_completed resource)
      then false
      else (let ttl_value = at (meta resource).annotations annotation_ttl in
          not (ttl_value == "") && not (ttl_value == no_ttl))

  abbrev pub expires_after : Time → Option Duration → Result (Time × Time)
  expires_after finish none = err nil_dereference
  expires_after finish (some ttl) = ok (finish, finish +ℤ ttl)

  -- `getFinishAndExpireTime`
  unfoldable pub get_finish_and_expire_time : Object → Result (Time × Time)
  unfolding needs_cleanup get_ttl_seconds ◌+ℤ◌
  get_finish_and_expire_time resource =
      if not (needs_cleanup resource)
      then err (
          errorf (
            "resource '"
            <> ((meta resource).namespace
                <> ("/" <> ((meta resource).name <> "' should not be cleaned up")))))
      else then_ok (f.get_completion_time resource)
          (λ finish. then_ok (get_ttl_seconds (meta resource)) (expires_after finish))

  -- `timeLeft`: the remaining time and the time of expiry
  unfoldable pub time_left : Object → Time → Result (Duration × Time)
  unfolding get_finish_and_expire_time sub
  time_left resource since =
      then_ok (get_finish_and_expire_time resource)
        (λ (finish, expire). ok (sub expire since, expire))

  -- the outcome of `processTTL` at the time `now`: a remaining time is returned as a requeue request
  unfoldable pub expiry_at : Object → Time → Result (Option Time)
  unfolding time_left
  expiry_at resource now = then_ok (time_left resource now) (λ (remaining, expire).
      if leb_ℤ remaining (pos 0) then ok (some expire) else err (enqueue_after remaining))

module _ {W : Type 0} (th : TtlHandler W) where
  -- `processTTL`
  unfoldable pub process_ttl : Object → Exec W (Option Time)
  unfolding needs_cleanup expiry_at
  process_ttl resource w =
      if is_some (meta resource).deletion_timestamp || not (needs_cleanup th.resource_fn resource)
      then (ok none, w)
      else (let (now, w') = th.clock w in (expiry_at th.resource_fn resource now, w'))
