-- ===== src/Ttl/Value.antt =====
-- The value of the TTL annotation in ttl_handler.go, as a text and as a duration.
use text.Mathlib.TextEquality.{eq_iff}
use tektoncd_pruner.Prelude.{
  String, ℕ, ◌*◌, ◌<◌, ◌≤◌, ◌^◌, pos, negsuc, leb_ℤ, ◌-ℤ◌, -ℤ_parts, false, Bool-cases, none, some,
  ◌≡◌, refl, ap, sym, ◌∙◌, arith, inl, inr, ◌==◌, ◌≢◌,
}
use tektoncd_pruner.Go.Dict.{Dict, at, get}
use tektoncd_pruner.Go.Exec.{ok, err}
use tektoncd_pruner.Go.Decimal.{atoi, itoa, not_a_number}
use tektoncd_pruner.Go.Decimal.RoundTrip.{atoi-itoa}
use tektoncd_pruner.Go.Time.{Time, seconds, sub, second, wrap64}
use tektoncd_pruner.Kube.Object.{ObjectMeta}
use tektoncd_pruner.Config.Spec.{annotation_ttl}
use tektoncd_pruner.Ttl.Expiry.{parse_ttl, get_ttl_seconds}

-- The values of an `int` that the code can multiply by a second with no overflow.
abbrev pub NoOverflow : ℕ → Type 0
NoOverflow n = n ≤ 9223372036

pub seconds_exact : (n : ℕ) → NoOverflow n → seconds (pos n) ≡ pos (n * second)
unfolding seconds wrap64
seconds_exact n h = ground arith

pub leb-sub : (t u : Time) → leb_ℤ (sub t u) (pos 0) ≡ leb_ℤ t u
unfolding sub ◌-ℤ◌
leb-sub t u = ground (arith, -ℤ_parts t u)

atoi_empty : atoi "" ≡ err not_a_number
unfolding atoi
atoi_empty = refl

atoi_never : atoi "-1" ≡ ok (negsuc 0)
unfolding atoi
atoi_never = refl

itoa_other :
    (n : ℕ) (text : String) → n < 2 ^ 63 → atoi text ≢ ok (pos n) → (itoa (pos n) == text) ≡ false
itoa_other n text h other = elim (Bool-cases (itoa (pos n) == text)) [
  | inl e ↦
      let same : itoa (pos n) ≡ text = (eq_iff (itoa (pos n)) text).0 e in
      absurd (other (ap atoi (sym same) ∙ atoi-itoa (pos n) (h, omega arith)))
  | inr e ↦ e
]

pub itoa_nonempty : (n : ℕ) → n < 2 ^ 63 → (itoa (pos n) == "") ≡ false
itoa_nonempty n h = itoa_other n "" h (λ e. absurd (ground (arith, atoi_empty)))

pub itoa_not_never : (n : ℕ) → n < 2 ^ 63 → (itoa (pos n) == "-1") ≡ false
itoa_not_never n h = itoa_other n "-1" h (λ e. absurd (ground (arith, atoi_never)))

parse_ttl-itoa : (n : ℕ) → n < 2 ^ 63 → parse_ttl (itoa (pos n)) ≡ ok (some (seconds (pos n)))
unfolding parse_ttl
parse_ttl-itoa n h = rw (itoa_nonempty n h) (rw (atoi-itoa (pos n) (h, omega arith)) (ground arith))

pub at_of_get : (d : Dict String) (k : String) {v : String} → get d k ≡ some v → at d k ≡ v
at_of_get d k e = ap (λ o. elim o [ none ↦ "" | some v ↦ v ]) e

-- `getTTLSeconds` reads the decimal text of `n`.
pub get_ttl_seconds_of_text :
    (m : ObjectMeta) (n : ℕ)
    → n < 2 ^ 63
    → get m.annotations annotation_ttl ≡ some (itoa (pos n))
    → get_ttl_seconds m ≡ ok (some (seconds (pos n)))
unfolding get_ttl_seconds
get_ttl_seconds_of_text m n h e =
    ap parse_ttl (at_of_get m.annotations annotation_ttl e) ∙ parse_ttl-itoa n h
