-- ===== src/Ttl/Limits.antt =====
-- The ends of the TTL arithmetic of ttl_handler.go: the pointer that `getFinishAndExpireTime`
-- dereferences, and values that `getTTLSeconds` multiplies out of the range of an `int64`.
use tektoncd_pruner.Prelude.{
  String, ℕ, ◌*◌, ◌-◌, ◌≤◌, ◌^◌, pos, negsuc, ◌+ℤ◌, ◌<ℤ◌, ◌≤ℤ◌, +ℤ_parts, true, false, Bool-cases,
  Option, none, some, ◌≡◌, ◌≢◌, refl, ap, ◌∙◌, arith, inl, inr, ◌==◌, is_some, not, ◌||◌,
}
use tektoncd_pruner.Go.Dict.{at, get}
use tektoncd_pruner.Go.Exec.{Result, ok, err, nil_dereference}
use tektoncd_pruner.Go.Decimal.{itoa, atoi_error}
use tektoncd_pruner.Go.Time.{Time, Duration, second, seconds, wrap64}
use tektoncd_pruner.Kube.Object.{Object, ObjectMeta, meta}
use tektoncd_pruner.Config.Spec.{annotation_ttl}
use tektoncd_pruner.Ttl.Annotation.{TtlResourceFuncs, TtlHandler}
use tektoncd_pruner.Ttl.Expiry.{
  then_ok, expires_after, parse_ttl, get_ttl_seconds, needs_cleanup, get_finish_and_expire_time,
  time_left, expiry_at, process_ttl,
}
use tektoncd_pruner.Ttl.Value.{get_ttl_seconds_of_text}
use tektoncd_pruner.Ttl.Removal.{needs_cleanup_of_text, process_ttl_of, verdict_due}

-- Only the wrong pointers end the process; every other error is returned.
abbrev pub NotNil {ℓ} : {A : Type ℓ} → Result A → Type ℓ
NotNil r = r ≢ err nil_dereference

parse_ttl-NotNil : (s : String) → NotNil (parse_ttl s)
unfolding parse_ttl
parse_ttl-NotNil s h = ground (arith, atoi_error s)

parse_ttl-some : (s : String) → (s == "") ≡ false → parse_ttl s ≢ ok none
unfolding parse_ttl
parse_ttl-some s nonempty h = ground arith

get_ttl_seconds-NotNil : (m : ObjectMeta) → NotNil (get_ttl_seconds m)
unfolding get_ttl_seconds
get_ttl_seconds-NotNil m = parse_ttl-NotNil (at m.annotations annotation_ttl)

needs_cleanup_text :
    {W : Type 0} (f : TtlResourceFuncs W) (o : Object)
    → needs_cleanup f o ≡ true
    → get_ttl_seconds (meta o) ≢ ok none
unfolding needs_cleanup get_ttl_seconds
needs_cleanup_text f o h = parse_ttl-some (at (meta o).annotations annotation_ttl) (ground arith)

then_ok-NotNil :
    {A B : Type 0} (r : Result A) (g : A → Result B)
    → NotNil r
    → ((a : A) → NotNil (g a))
    → NotNil (then_ok r g)
then_ok-NotNil (ok a) g h k = k a
then_ok-NotNil (err e) g h k = λ x. h (ground (arith, x))

module _ {W : Type 0} (th : TtlHandler W) (o : Object)
    (dated : NotNil (th.resource_fn.get_completion_time o)) where
  expires-NotNil :
      (finish : Time) (r : Result (Option Duration))
      → NotNil r
      → r ≢ ok none
      → NotNil (then_ok r (expires_after th.resource_fn finish))
  expires-NotNil finish (ok none) h k = λ _. k refl
  expires-NotNil finish (ok (some ttl)) h k = λ x. absurd (ground (arith, x))
  expires-NotNil finish (err e) h k = λ x. h (ground (arith, x))

  finish_and_expire-NotNil :
      needs_cleanup th.resource_fn o ≡ true → NotNil (get_finish_and_expire_time th.resource_fn o)
  unfolding get_finish_and_expire_time
  finish_and_expire-NotNil needed = rw needed (
      then_ok-NotNil (th.resource_fn.get_completion_time o)
        (λ finish. then_ok (get_ttl_seconds (meta o)) (expires_after th.resource_fn finish)) dated
        (λ finish.
          expires-NotNil finish (get_ttl_seconds (meta o)) (get_ttl_seconds-NotNil (meta o))
            (needs_cleanup_text th.resource_fn o needed)))

  expiry_at-NotNil :
      (now : Time) → needs_cleanup th.resource_fn o ≡ true → NotNil (expiry_at th.resource_fn o now)
  unfolding expiry_at time_left
  expiry_at-NotNil now needed =
      then_ok-NotNil _ _
        (then_ok-NotNil _ _ (finish_and_expire-NotNil needed) (λ _ x. absurd (ground (arith, x))))
        (λ _ x. absurd (ground (arith, x)))

  -- Where `GetCompletionTime` does not end the process, `processTTL` does not either: it
  -- dereferences the TTL only of a run whose annotation has one.
  pub process_ttl-NotNil : (w : W) → NotNil (process_ttl th o w).0
  unfolding process_ttl
  process_ttl-NotNil w =
      elim (Bool-cases
        (is_some (meta o).deletion_timestamp || not (needs_cleanup th.resource_fn o))) [
          | inl idle ↦ rw idle (λ x. absurd (ground (arith, x)))
          | inr busy ↦ rw busy (expiry_at-NotNil (th.clock w).0 (ground arith))
        ]

-- The values that `getTTLSeconds` multiplies to a negative duration.
abbrev pub Wraps : ℕ → Type 0
Wraps n = (9223372037 ≤ n) × (n ≤ 18446744073)

seconds_wrapped : (n : ℕ) → Wraps n → seconds (pos n) ≡ negsuc (2 ^ 64 - 1 - n * second)
unfolding seconds wrap64
seconds_wrapped n h = ground arith

-- A TTL of 9223372037 to 18446744073 seconds, some three to six centuries, ends before the run is
-- completed: `processTTL` returns a time of expiry earlier than the completion, at once.
pub huge_ttl_expires_at_once :
    {W : Type 0} (th : TtlHandler W) (o : Object) (finish : Time) (n : ℕ) (w : W)
    → is_some (meta o).deletion_timestamp ≡ false
    → th.resource_fn.is_completed o ≡ true
    → th.resource_fn.get_completion_time o ≡ ok finish
    → get (meta o).annotations annotation_ttl ≡ some (itoa (pos n))
    → Wraps n
    → finish ≤ℤ (th.clock w).0
    → (t : Time) × (t <ℤ finish) × (process_ttl th o w ≡ (ok (some t), (th.clock w).1))
huge_ttl_expires_at_once th o finish n w live completed finished annotated wraps past =
    let d : Duration = negsuc (2 ^ 64 - 1 - n * second) in
    (
      finish +ℤ d,
      omega (arith, +ℤ_parts finish d),
      process_ttl_of th o finish d live
            (needs_cleanup_of_text th.resource_fn o n completed annotated (omega arith)) finished
            (get_ttl_seconds_of_text (meta o) n (omega arith) annotated
              ∙ ap (λ d. ok (some d)) (seconds_wrapped n wraps))
            w
          ∙ ap (λ r. (r, (th.clock w).1))
              (verdict_due (finish +ℤ d) (th.clock w).0 (omega (arith, +ℤ_parts finish d))),
    )
