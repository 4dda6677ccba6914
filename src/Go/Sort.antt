-- ===== src/Go/Sort.antt =====
-- `slices.SortStableFunc`. A stable sort has one result; it is computed by insertion from the right.
pub mod Laws
use tektoncd_pruner.Prelude.{ℤ, pos, List, [], ◌∷◌, if◌then◌else◌, ltb_ℤ, ◌≡◌, refl}

module _ {ℓ} {A : Type ℓ} (cmp : A → A → ℤ) where
  -- in front of the elements that `x` does not follow
  pub insert : A → List A → List A
  insert x [] = x ∷ []
  insert x (y ∷ ys) = if ltb_ℤ (cmp y x) (pos 0) then y ∷ insert x ys else x ∷ y ∷ ys

  unfoldable pub sort_stable_func : List A → List A
  unfolding insert
  sort_stable_func [] = []
  sort_stable_func (x ∷ xs) = insert x (sort_stable_func xs)
