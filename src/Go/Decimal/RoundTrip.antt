-- ===== src/Go/Decimal/RoundTrip.antt =====
-- A number of Go's `int` is read back from its decimal print.
use Prim.Native.Char.{Char, code}
use Prim.Native.String as Str
use Prim.Native.String.{String}
use tektoncd_pruner.Prelude.{
  ℕ, zero, suc, ◌+◌, ◌*◌, ◌/◌, ◌%◌, ◌^◌, ◌<◌, ℤ, pos, negsuc, some, ltb, ◌≡◌, refl, ap, sym, ◌∙◌,
  arith, Bool-cases, inl, inr,
}
use tektoncd_pruner.Go.Exec.{ok}
use tektoncd_pruner.Go.Time.{IsInt64}
use tektoncd_pruner.Go.Decimal.{digit, emit, itoa, scan, magnitude, positive, negative, atoi}

code-digit : (d : ℕ) → d < 10 → code (digit d) ≡ 48 + d
unfolding digit
code-digit zero h = refl
code-digit (suc zero) h = refl
code-digit (suc (suc zero)) h = refl
code-digit (suc (suc (suc zero))) h = refl
code-digit (suc (suc (suc (suc zero)))) h = refl
code-digit (suc (suc (suc (suc (suc zero))))) h = refl
code-digit (suc (suc (suc (suc (suc (suc zero)))))) h = refl
code-digit (suc (suc (suc (suc (suc (suc (suc zero))))))) h = refl
code-digit (suc (suc (suc (suc (suc (suc (suc (suc zero)))))))) h = refl
code-digit (suc (suc (suc (suc (suc (suc (suc (suc (suc zero))))))))) h = refl
code-digit (suc (suc (suc (suc (suc (suc (suc (suc (suc (suc n)))))))))) h = absurd (omega arith)

scan-digit :
    (d : ℕ) (s : String) (n : ℕ) → d < 10 → scan (Str.◌∷◌ (digit d) s) n ≡ scan s (n * 10 + d)
unfolding scan
scan-digit d s n h = rw (code-digit d h) (ground arith)

-- Reading the emitted digits is reading what stands behind them, from `n`.
scan-emit : (f n : ℕ) (out : String) → n < f → scan (emit f n out) 0 ≡ scan out n
unfolding emit
scan-emit zero n out h = absurd (omega arith)
scan-emit (suc f) n out h = elim (Bool-cases (ltb n 10)) [
  | inl small ↦ rw small (rw (scan-digit n out 0 (ground arith)) (ground arith))
  | inr large ↦ rw large (
      rw (scan-emit f (n / 10) (Str.◌∷◌ (digit (n % 10)) out) (ground arith))
        (rw (scan-digit (n % 10) out (n / 10) (omega arith)) (ground arith)))
]

-- The first emitted character is a digit.
emit_head :
    (f n : ℕ) (out : String)
    → n < f
    → (d : ℕ) × (d < 10) × ((s : String) × (emit f n out ≡ Str.◌∷◌ (digit d) s))
unfolding emit
emit_head zero n out h = absurd (omega arith)
emit_head (suc f) n out h = elim (Bool-cases (ltb n 10)) [
  | inl small ↦ (n, ground arith, (out, rw small refl))
  | inr large ↦
      let (d, small, (s, e)) = emit_head f (n / 10) (Str.◌∷◌ (digit (n % 10)) out) (ground arith) in
      (d, small, (s, rw large e))
]

magnitude_cons : (c : Char) (s : String) → magnitude (Str.◌∷◌ c s) ≡ scan (Str.◌∷◌ c s) 0
unfolding magnitude
magnitude_cons c s = refl

scan_nil : (n : ℕ) → scan Str.[] n ≡ some n
unfolding scan
scan_nil n = refl

magnitude-emit : (f n : ℕ) → n < f → magnitude (emit f n Str.[]) ≡ some n
magnitude-emit f n h =
    let (d, small, (s, e)) = emit_head f n Str.[] h in
    ap magnitude e
    ∙ magnitude_cons (digit d) s
    ∙ ap (λ t. scan t 0) (sym e)
    ∙ scan-emit f n Str.[] h
    ∙ scan_nil n

atoi-digit :
    (d : ℕ) (s : String)
    → d < 10
    → atoi (Str.◌∷◌ (digit d) s) ≡ positive (magnitude (Str.◌∷◌ (digit d) s))
unfolding atoi
atoi-digit d s small = rw (code-digit d small) (ground arith)

atoi-emit : (f n : ℕ) → n < f → atoi (emit f n Str.[]) ≡ positive (some n)
atoi-emit f n h =
    let (d, small, (s, e)) = emit_head f n Str.[] h in
    ap atoi e
    ∙ atoi-digit d s small
    ∙ ap (λ t. positive (magnitude t)) (sym e)
    ∙ ap positive (magnitude-emit f n h)

atoi_minus : (s : String) → atoi (Str.◌∷◌ "-" s) ≡ negative (magnitude s)
unfolding atoi
atoi_minus s = refl

positive_fits : (n : ℕ) → n < 2 ^ 63 → positive (some n) ≡ ok (pos n)
unfolding positive
positive_fits n h = ground arith

negative_fits : (n : ℕ) → n < 2 ^ 63 → negative (some (suc n)) ≡ ok (negsuc n)
unfolding negative
negative_fits n h = ground arith

-- `Atoi` reads back every `int` that `Itoa` prints.
pub atoi-itoa : (z : ℤ) → IsInt64 z → atoi (itoa z) ≡ ok z
unfolding itoa
atoi-itoa (pos n) h = atoi-emit (suc n) n (omega arith) ∙ positive_fits n h.0
atoi-itoa (negsuc n) h =
    atoi_minus (emit (suc (suc n)) (suc n) Str.[])
    ∙ ap negative (magnitude-emit (suc (suc n)) (suc n) (omega arith))
    ∙ negative_fits n (omega arith)
