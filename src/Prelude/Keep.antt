-- ===== src/Prelude/Keep.antt =====
-- Laws of `keep` and `any`.
use mathlib.Core.List.{Permᴰ}
use mathlib.Core.Path.{◌≡◌, refl, ap, ◌∙◌}
use mathlib.Core.Bool.{not, Bool, true, false}
use mathlib.Core.List.{List, [], ◌∷◌, ◌++◌}
use Prim.Native.Nat.{◌+◌, ◌≤◌, suc}
use native.Mathlib.Omega.{arith}
use tektoncd_pruner.Prelude.Tests.{if◌then◌else◌}
use tektoncd_pruner.Prelude.Lists.{keep, any, length, All, All-map}

module _ {ℓ} {A : Type ℓ} where
  pub keep_all : (p : A → Bool) (xs : List A) → ((x : A) → p x ≡ true) → keep p xs ≡ xs
  keep_all p [] h = refl
  keep_all p (x ∷ xs) h = ground (arith, h x, keep_all p xs h)

  -- Two filters are one, by the test of both.
  pub keep-keep :
      (p q r : A → Bool) (xs : List A)
      → ((x : A) → r x ≡ (if q x then p x else false))
      → keep p (keep q xs) ≡ keep r xs
  keep-keep p q r [] h = refl
  keep-keep p q r (x ∷ xs) h = ground (arith, h x, keep-keep p q r xs h)

  pub keep_comm : (p q : A → Bool) (xs : List A) → keep p (keep q xs) ≡ keep q (keep p xs)
  keep_comm p q [] = refl
  keep_comm p q (x ∷ xs) = ground (arith, keep_comm p q xs)

  pub keep_none : (p : A → Bool) (xs : List A) → All (λ x. p x ≡ false) xs → keep p xs ≡ []
  keep_none p [] h = refl
  keep_none p (x ∷ xs) h = ground (arith, h.0, keep_none p xs h.1)

  pub keep_unless : (q : A → Bool) (xs : List A) → keep q (keep (λ x. not (q x)) xs) ≡ []
  keep_unless q [] = refl
  keep_unless q (x ∷ xs) = ground (arith, keep_unless q xs)

  pub length-keep-append :
      (p : A → Bool) (xs ys : List A)
      → length (keep p (xs ++ ys)) ≡ length (keep p xs) + length (keep p ys)
  length-keep-append p [] ys = omega arith
  length-keep-append p (x ∷ xs) ys = ground (arith, length-keep-append p xs ys)

  pub length-keep-le : (p : A → Bool) (xs : List A) → length (keep p xs) ≤ length xs
  length-keep-le p [] = omega arith
  length-keep-le p (x ∷ xs) = ground (arith, length-keep-le p xs)

  pub length-keep-perm :
      (p : A → Bool) {xs ys : List A} → Permᴰ xs ys → length (keep p xs) ≡ length (keep p ys)
  length-keep-perm p Permᴰ.nil = refl
  length-keep-perm p (Permᴰ.cons {a = a} {b = b} {l₁ = l} {l₂ = m} e q) =
      ground (arith, ap p e, length-keep-perm p q)
  length-keep-perm p (Permᴰ.swap {a = a} {b = b} {a' = c} {b' = d} {l = l} e f) =
      ground (arith, ap p e, ap p f)
  length-keep-perm p (Permᴰ.trans q r) = length-keep-perm p q ∙ length-keep-perm p r

  -- A test that every element passes with itself.
  pub any_self :
      (same : A → A → Bool)
      → ((x : A) → same x x ≡ true)
      → (xs : List A) → All (λ x. any (same x) xs ≡ true) xs
  any_self same h [] = tt
  any_self same h (y ∷ ys) = (
    ground (arith, h y),
    All-map (λ x. any (same x) ys ≡ true) (λ x. any (same x) (y ∷ ys) ≡ true) (λ x e. ground arith)
        ys (any_self same h ys),
  )

pub length-perm {ℓ} : {A : Type ℓ} {xs ys : List A} → Permᴰ xs ys → length xs ≡ length ys
length-perm Permᴰ.nil = refl
length-perm (Permᴰ.cons e p) = ap suc (length-perm p)
length-perm (Permᴰ.swap e d) = refl
length-perm (Permᴰ.trans p q) = length-perm p ∙ length-perm q
