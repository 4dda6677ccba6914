-- ===== src/Go/Time.antt =====
-- `time.Time` and `time.Duration`: nanoseconds as integers, since Go's zero time and as an `int64`.
use tektoncd_pruner.Prelude.{
  ℕ, ◌-◌, ◌*◌, ◌^◌, ◌%◌, ◌<◌, ◌≤◌, ℤ, pos, negsuc, pos_part, neg_part, ltb, ltb_ℤ, eqb_ℤ, ◌-ℤ◌,
  sub_ℕ, if◌then◌else◌, Bool,
}

abbrev pub Time : Type 0
Time = ℤ

abbrev pub Duration : Type 0
Duration = ℤ

-- `t.IsZero()`
abbrev pub is_zero : Time → Bool
is_zero t = eqb_ℤ t (pos 0)

-- `t.Before(u)` and `t.After(u)`
abbrev pub before : Time → Time → Bool
before t u = ltb_ℤ t u

abbrev pub after : Time → Time → Bool
after t u = ltb_ℤ u t

abbrev pub int64_half : ℕ
int64_half = 2 ^ 63

abbrev pub max_int64 : ℤ
max_int64 = pos (2 ^ 63 - 1)

abbrev pub min_int64 : ℤ
min_int64 = negsuc (2 ^ 63 - 1)

-- The `int64` with the residue `r` modulo 2 ^ 64.
abbrev pub signed64 : ℕ → ℤ
signed64 r = if ltb r int64_half then pos r else negsuc (2 ^ 64 - 1 - r)

-- An integer reduced to an `int64`, the way a product of two of them wraps around.
unfoldable pub wrap64 : ℤ → ℤ
wrap64 (pos n) = signed64 (n % 2 ^ 64)
wrap64 (negsuc n) = signed64 (2 ^ 64 - 1 - n % 2 ^ 64)

-- `time.Second`, in nanoseconds
abbrev pub second : ℕ
second = 1_000_000_000

abbrev pub times_second : ℤ → ℤ
times_second a = sub_ℕ (pos_part a * second) (neg_part a * second)

-- `time.Duration(n) * time.Second`
unfoldable pub seconds : ℤ → Duration
unfolding wrap64
seconds n = wrap64 (times_second n)

-- `t.Sub(u)`: the difference, saturated at the ends of `int64`
unfoldable pub sub : Time → Time → Duration
unfolding ◌-ℤ◌
sub t u =
    let d = t -ℤ u in
    if ltb_ℤ max_int64 d then max_int64 else if ltb_ℤ d min_int64 then min_int64 else d

-- The values of Go's `int32` and of its 64-bit `int`.
abbrev pub IsInt32 : ℤ → Type 0
IsInt32 z = (pos_part z < 2 ^ 31) × (neg_part z ≤ 2 ^ 31)

abbrev pub IsInt64 : ℤ → Type 0
IsInt64 z = (pos_part z < 2 ^ 63) × (neg_part z ≤ 2 ^ 63)
