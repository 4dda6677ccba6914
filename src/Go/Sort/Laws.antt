-- ===== src/Go/Sort/Laws.antt =====
-- A sort permutes its list, and its result ascends in any order that the comparison decides.
use mathlib.Core.List.{Permᴰ}
use mathlib.Core.List
use tektoncd_pruner.Prelude.{
  ℤ, pos, List, [], ◌∷◌, ltb_ℤ, ◌≡◌, refl, true, false, Bool-cases, inl, inr, All, All-map,
}
use tektoncd_pruner.Go.Sort.{insert, sort_stable_func}

-- Each element is related to all that stand behind it.
abbrev pub Ascends {ℓ κ} : {A : Type ℓ} → (A → A → Type κ) → List A → Type κ
Ascends Le [] = Unit
Ascends Le (x ∷ xs) = All (Le x) xs × Ascends Le xs

module _ {ℓ} {A : Type ℓ} (cmp : A → A → ℤ) where
  insert-perm : (x : A) (xs : List A) → Permᴰ (insert cmp x xs) (x ∷ xs)
  unfolding insert
  insert-perm x [] = Permᴰ.cons refl Permᴰ.nil
  insert-perm x (y ∷ ys) = elim (Bool-cases (ltb_ℤ (cmp y x) (pos 0))) [
    | inl less ↦ rw less (Permᴰ.trans (Permᴰ.cons refl (insert-perm x ys)) (Permᴰ.swap refl refl))
    | inr other ↦ rw other (List.Permᴰ.refl (x ∷ y ∷ ys))
  ]

  pub sort-perm : (xs : List A) → Permᴰ (sort_stable_func cmp xs) xs
  unfolding sort_stable_func
  sort-perm [] = Permᴰ.nil
  sort-perm (x ∷ xs) =
      Permᴰ.trans (insert-perm x (sort_stable_func cmp xs)) (Permᴰ.cons refl (sort-perm xs))

  module _ {κ} (P : A → Type κ) where
    All-insert : (x : A) (xs : List A) → P x → All P xs → All P (insert cmp x xs)
    unfolding insert
    All-insert x [] p h = (p, tt)
    All-insert x (y ∷ ys) p h = elim (Bool-cases (ltb_ℤ (cmp y x) (pos 0))) [
      | inl less ↦ rw less (h.0, All-insert x ys p h.1)
      | inr other ↦ rw other (p, h)
    ]

    pub All-sort : (xs : List A) → All P xs → All P (sort_stable_func cmp xs)
    unfolding sort_stable_func
    All-sort [] h = tt
    All-sort (x ∷ xs) h = All-insert x (sort_stable_func cmp xs) h.0 (All-sort xs h.1)

  module _ {κ} (Le : A → A → Type κ) (trans : (x y z : A) → Le x y → Le y z → Le x z)
      (less : (x y : A) → ltb_ℤ (cmp y x) (pos 0) ≡ true → Le y x)
      (other : (x y : A) → ltb_ℤ (cmp y x) (pos 0) ≡ false → Le x y) where
    insert-Ascends : (x : A) (xs : List A) → Ascends Le xs → Ascends Le (insert cmp x xs)
    unfolding insert
    insert-Ascends x [] h = (tt, tt)
    insert-Ascends x (y ∷ ys) h = elim (Bool-cases (ltb_ℤ (cmp y x) (pos 0))) [
      | inl e ↦ rw e (All-insert (Le y) x ys (less x y e) h.0, insert-Ascends x ys h.1)
      | inr e ↦
          rw e ((other x y e, All-map (Le y) (Le x) (λ z l. trans x y z (other x y e) l) ys h.0), h)
    ]

    pub sort-Ascends : (xs : List A) → Ascends Le (sort_stable_func cmp xs)
    unfolding sort_stable_func
    sort-Ascends [] = tt
    sort-Ascends (x ∷ xs) = insert-Ascends x (sort_stable_func cmp xs) (sort-Ascends xs)
