-- ===== src/Go/Dict.antt =====
-- Go's `map[string]V`. A nil map reads as an empty one; only a comparison with nil tells them apart.
-- A map holds a key once, and a `for … range` visits the entries in an arbitrary order: the order
-- of the list stands for the order of one such visit.
use tektoncd_pruner.Prelude.{
  ℕ, String, ◌≡◌, refl, Option, none, some, List, [], ◌∷◌, arith, ◌==◌, eq_iff, if◌then◌else◌,
  length,
}

abbrev pub Dict {ℓ} : Type ℓ → Type ℓ
Dict V = Option (List (String × V))

module _ {ℓ} {V : Type ℓ} where
  unfoldable pub find : String → List (String × V) → Option V
  find k [] = none
  find k ((j, v) ∷ m) = if j == k then some v else find k m

  unfoldable pub replace : String → V → List (String × V) → List (String × V)
  replace k v [] = (k, v) ∷ []
  replace k v ((j, w) ∷ m) = if j == k then (k, v) ∷ m else (j, w) ∷ replace k v m

  unfoldable pub without : String → List (String × V) → List (String × V)
  without k [] = []
  without k ((j, w) ∷ m) = let rest = without k m in if j == k then rest else (j, w) ∷ rest

  abbrev pub entries : Dict V → List (String × V)
  entries none = []
  entries (some l) = l

  -- `len(m)`
  abbrev pub len : Dict V → ℕ
  len m = length (entries m)

  -- `v, found := m[k]`
  abbrev pub get : Dict V → String → Option V
  get m k = find k (entries m)

  -- `m[k] = v`, of a map that is not nil
  abbrev pub put : Dict V → String → V → Dict V
  put m k v = some (replace k v (entries m))

  -- `delete(m, k)`
  abbrev pub remove : Dict V → String → Dict V
  remove none k = none
  remove (some l) k = some (without k l)

  pub find-replace :
      (k j : String) (v : V) (l : List (String × V))
      → find j (replace k v l) ≡ (if k == j then some v else find j l)
  unfolding find replace
  find-replace k j v [] = refl
  find-replace k j v ((i, w) ∷ l) =
      ground (arith, eq_iff k j, eq_iff i k, eq_iff i j, find-replace k j v l)

  pub find-without :
      (k j : String) (l : List (String × V))
      → find j (without k l) ≡ (if k == j then none else find j l)
  unfolding find without
  find-without k j [] = ground arith
  find-without k j ((i, w) ∷ l) =
      ground (arith, eq_iff k j, eq_iff i k, eq_iff i j, find-without k j l)

-- `m[k]`, of a map to strings: the empty string where the key is missing.
abbrev pub at : Dict String → String → String
at m k = elim (get m k) [ none ↦ "" | some v ↦ v ]
