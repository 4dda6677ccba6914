-- ===== src/Prelude/Apart.antt =====
-- Lists whose elements a test tells apart, and what a permutation keeps of them.
use mathlib.Core.List.{Permᴰ, List, [], ◌∷◌, ◌++◌}
use mathlib.Core.List.Permᴰ
use mathlib.Core.Path.{◌≡◌, refl, ap, sym, subst, ◌∙◌}
use mathlib.Core.Bool.{Bool, true, false}
use native.Mathlib.Omega.{arith}
use mathlib.Core.Logic.{inl, inr}
use tektoncd_pruner.Prelude.Tests.{if◌then◌else◌, Bool-cases}
use tektoncd_pruner.Prelude.Lists.{keep, any, All, All-of_append_right}

-- The test holds of no two elements at different places.
abbrev pub AllApart {ℓ} : {A : Type ℓ} → (A → A → Bool) → List A → Type ℓ
AllApart r [] = Unit
AllApart r (x ∷ xs) = All (λ y. r x y ≡ false) xs × AllApart r xs

module _ {ℓ} {A : Type ℓ} where
  pub keep-append : (p : A → Bool) (xs ys : List A) → keep p (xs ++ ys) ≡ keep p xs ++ keep p ys
  keep-append p [] ys = refl
  keep-append p (x ∷ xs) ys = elim (Bool-cases (p x)) [
    | inl here ↦ rw here (ap (◌∷◌ x) (keep-append p xs ys))
    | inr away ↦ rw away (keep-append p xs ys)
  ]

  pub keep_every : (p : A → Bool) (xs : List A) → All (λ x. p x ≡ true) xs → keep p xs ≡ xs
  keep_every p [] h = refl
  keep_every p (x ∷ xs) h = rw h.0 (ap (◌∷◌ x) (keep_every p xs h.1))

  pub any_none : (p : A → Bool) (xs : List A) → All (λ x. p x ≡ false) xs → any p xs ≡ false
  any_none p [] h = refl
  any_none p (x ∷ xs) h = rw h.0 (any_none p xs h.1)

  put_if :
      (b c : Bool) {x y : A} {xs ys : List A}
      → b ≡ c
      → x ≡ y
      → Permᴰ xs ys
      → Permᴰ (if b then x ∷ xs else xs) (if c then y ∷ ys else ys)
  put_if true true h e q = Permᴰ.cons e q
  put_if true false h e q = absurd (ground (arith, h))
  put_if false true h e q = absurd (ground (arith, h))
  put_if false false h e q = q

  swap_if :
      (b c : Bool) (x y : A) (xs : List A)
      → Permᴰ
          (if b then x ∷ (if c then y ∷ xs else xs) else (if c then y ∷ xs else xs))
          (if c then y ∷ (if b then x ∷ xs else xs) else (if b then x ∷ xs else xs))
  swap_if true true x y xs = Permᴰ.swap refl refl
  swap_if true false x y xs = Permᴰ.refl (x ∷ xs)
  swap_if false true x y xs = Permᴰ.refl (y ∷ xs)
  swap_if false false x y xs = Permᴰ.refl xs

  pub keep-perm : (p : A → Bool) {xs ys : List A} → Permᴰ xs ys → Permᴰ (keep p xs) (keep p ys)
  keep-perm p Permᴰ.nil = Permᴰ.nil
  keep-perm p (Permᴰ.cons {a = a} {b = b} e q) = put_if (p a) (p b) (ap p e) e (keep-perm p q)
  keep-perm p (Permᴰ.swap {a = a} {b = b} {a' = c} {b' = d} {l = l} e f) =
      Permᴰ.trans (swap_if (p a) (p b) a b (keep p l))
        (put_if (p b) (p c) (ap p f) f (put_if (p a) (p d) (ap p e) e (Permᴰ.refl (keep p l))))
  keep-perm p (Permᴰ.trans q r) = Permᴰ.trans (keep-perm p q) (keep-perm p r)

  pub All-perm {κ} : (P : A → Type κ) {xs ys : List A} → Permᴰ xs ys → All P xs → All P ys
  All-perm P Permᴰ.nil h = h
  All-perm P (Permᴰ.cons e q) h = (subst P e h.0, All-perm P q h.1)
  All-perm P (Permᴰ.swap e f) h = (subst P f h.1.0, (subst P e h.0, h.1.1))
  All-perm P (Permᴰ.trans q r) h = All-perm P r (All-perm P q h)

  All-of_keep {κ} : (P : A → Type κ) (p : A → Bool) (xs : List A) → All P xs → All P (keep p xs)
  All-of_keep P p [] h = h
  All-of_keep P p (x ∷ xs) h = elim (Bool-cases (p x)) [
    | inl here ↦ rw here (h.0, All-of_keep P p xs h.1)
    | inr away ↦ rw away (All-of_keep P p xs h.1)
  ]

  pub AllApart-keep :
      (r : A → A → Bool) (p : A → Bool) (xs : List A) → AllApart r xs → AllApart r (keep p xs)
  AllApart-keep r p [] h = h
  AllApart-keep r p (x ∷ xs) h = elim (Bool-cases (p x)) [
    | inl here ↦ rw here (All-of_keep (λ y. r x y ≡ false) p xs h.0, AllApart-keep r p xs h.1)
    | inr away ↦ rw away (AllApart-keep r p xs h.1)
  ]

  module _ (r : A → A → Bool) (r_sym : (x y : A) → r x y ≡ r y x) where
    pub AllApart-perm : {xs ys : List A} → Permᴰ xs ys → AllApart r xs → AllApart r ys
    AllApart-perm Permᴰ.nil h = h
    AllApart-perm (Permᴰ.cons {l₂ = m} e q) h = (
      subst (λ z. All (λ y. r z y ≡ false) m) e (All-perm (λ y. r _ y ≡ false) q h.0),
      AllApart-perm q h.1,
    )
    AllApart-perm (Permᴰ.swap {a = a} {b = b} {a' = c} {b' = d} {l = l} e f) h = (
      (
        ap (λ z. r z d) (sym f) ∙ ap (r b) (sym e) ∙ r_sym b a ∙ h.0.0,
        subst (λ z. All (λ y. r z y ≡ false) l) f h.1.0,
      ),
      (subst (λ z. All (λ y. r z y ≡ false) l) e h.0.1, h.1.1),
    )
    AllApart-perm (Permᴰ.trans q s) h = AllApart-perm s (AllApart-perm q h)

  pub AllApart-split :
      (r : A → A → Bool) (xs ys : List A)
      → AllApart r (xs ++ ys)
      → All (λ x. All (λ y. r x y ≡ false) ys) xs
  AllApart-split r [] ys h = tt
  AllApart-split r (x ∷ xs) ys h =
      (All-of_append_right (λ y. r x y ≡ false) xs ys h.0, AllApart-split r xs ys h.1)
