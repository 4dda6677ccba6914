-- ===== src/Go/Decimal.antt =====
-- `strconv.Atoi` and `strconv.Itoa`. The text of the error that `Atoi` returns is not modelled.
pub mod RoundTrip
use Prim.Native.Char.{Char, code}
use Prim.Native.String as Str
use Prim.Native.String.{String}
use tektoncd_pruner.Prelude.{
  ℕ, zero, suc, ◌+◌, ◌-◌, ◌*◌, ◌/◌, ◌%◌, ◌^◌, ℤ, pos, negsuc, Option, none, some, if◌then◌else◌,
  ltb, leb, Bool, ◌&&◌, ◌≡◌, refl, sym, arith,
}
use tektoncd_pruner.Go.Exec.{Result, ok, err, Error, errorf}

digit : ℕ → Char
digit zero = "0"
digit (suc zero) = "1"
digit (suc (suc zero)) = "2"
digit (suc (suc (suc zero))) = "3"
digit (suc (suc (suc (suc zero)))) = "4"
digit (suc (suc (suc (suc (suc zero))))) = "5"
digit (suc (suc (suc (suc (suc (suc zero)))))) = "6"
digit (suc (suc (suc (suc (suc (suc (suc zero))))))) = "7"
digit (suc (suc (suc (suc (suc (suc (suc (suc zero)))))))) = "8"
digit (suc (suc (suc (suc (suc (suc (suc (suc (suc n))))))))) = "9"

-- The digits of `n` in front of `out`. A fuel above `n` is enough: each round divides by ten.
emit : ℕ → ℕ → String → String
emit zero n out = out
emit (suc f) n out =
    let rest = emit f (n / 10) (Str.◌∷◌ (digit (n % 10)) out) in
    if ltb n 10 then Str.◌∷◌ (digit n) out else rest

unfoldable pub itoa : ℤ → String
unfolding emit digit
itoa (pos n) = emit (suc n) n Str.[]
itoa (negsuc n) = Str.◌∷◌ "-" (emit (suc (suc n)) (suc n) Str.[])

scan : String → ℕ → Option ℕ
scan Str.[] n = some n
scan (Str.◌∷◌ c s) n =
    if leb 48 (code c) && leb (code c) 57 then scan s (n * 10 + (code c - 48)) else none

magnitude : String → Option ℕ
magnitude Str.[] = none
magnitude (Str.◌∷◌ c s) = scan (Str.◌∷◌ c s) 0

pub not_a_number : Error
not_a_number = errorf "strconv.Atoi"

positive : Option ℕ → Result ℤ
positive none = err not_a_number
positive (some n) = if ltb n (2 ^ 63) then ok (pos n) else err not_a_number

negative : Option ℕ → Result ℤ
negative none = err not_a_number
negative (some zero) = ok (pos 0)
negative (some (suc n)) = if ltb n (2 ^ 63) then ok (negsuc n) else err not_a_number

abbrev is_code : ℕ → Char → Bool
is_code n c = leb (code c) n && leb n (code c)

unfoldable pub atoi : String → Result ℤ
unfolding scan magnitude positive negative
atoi Str.[] = err not_a_number
atoi (Str.◌∷◌ c s) =
    if is_code 45 c
    then negative (magnitude s)
    else if is_code 43 c
    then positive (magnitude s)
    else positive (magnitude (Str.◌∷◌ c s))

atoi_tests :
    (atoi "300" ≡ ok (pos 300))
    × (atoi "-01" ≡ ok (negsuc 0))
    × (atoi "3s" ≡ err not_a_number)
    × (atoi "9223372036854775808" ≡ err not_a_number)
    × (atoi "-9223372036854775808" ≡ ok (negsuc (2 ^ 63 - 1)))
unfolding atoi
atoi_tests = (refl, refl, refl, refl, refl)

itoa_tests : (itoa (pos 2147483647) ≡ "2147483647") × (itoa (negsuc 0) ≡ "-1")
unfolding itoa
itoa_tests = (refl, refl)

positive_error : (o : Option ℕ) {e : Error} → positive o ≡ err e → e ≡ not_a_number
unfolding positive
positive_error none h = cc
positive_error (some n) h = ground arith

negative_error : (o : Option ℕ) {e : Error} → negative o ≡ err e → e ≡ not_a_number
unfolding negative
negative_error none h = cc
negative_error (some zero) h = absurd (ground arith)
negative_error (some (suc n)) h = ground arith

atoi_cons :
    (c : Char) (s : String)
    → atoi (Str.◌∷◌ c s) ≡ (
        if is_code 45 c
        then negative (magnitude s)
        else if is_code 43 c
        then positive (magnitude s)
        else positive (magnitude (Str.◌∷◌ c s)))
unfolding atoi
atoi_cons c s = refl

-- `Atoi` has one error.
pub atoi_error : (s : String) {e : Error} → atoi s ≡ err e → e ≡ not_a_number
atoi_error Str.[] h = sym (ground (arith, atoi_nil))
  where
    atoi_nil : atoi Str.[] ≡ err not_a_number
    atoi_nil = unfold atoi in refl
atoi_error (Str.◌∷◌ c s) {e = e} h = ground (
  arith,
  atoi_cons c s,
  negative_error (magnitude s) {e = e},
  positive_error (magnitude s) {e = e},
  positive_error (magnitude (Str.◌∷◌ c s)) {e = e},
)
