-- ===== src/Go/Text/Laws.antt =====
-- Splitting a text by a character that some of its parts lack.
use Prim.Native.Char.{Char, code}
use Prim.Native.String as Str
use Prim.Native.String.{String}
use text.Mathlib.TextLemmas.{nil-append, cons-append}
use tektoncd_pruner.Prelude.{
  ℕ, Bool, true, false, [], ◌∷◌, ◌≡◌, refl, ap, arith, ◌<>◌, ◌&&◌, Bool-cases, inl, inr,
  if◌then◌else◌,
}
use tektoncd_pruner.Go.Text.{split, same}

-- No character of the text has the code.
unfoldable pub lacks : ℕ → String → Bool
lacks sep Str.[] = true
lacks sep (Str.◌∷◌ c s) = let rest = lacks sep s in if same (code c) sep then false else rest

pub lacks-append : (sep : ℕ) (s t : String) → lacks sep (s <> t) ≡ (lacks sep s && lacks sep t)
unfolding lacks
lacks-append sep Str.[] t = ap (lacks sep) (nil-append t)
lacks-append sep (Str.◌∷◌ c s) t = rw (cons-append c s t) (ground (arith, lacks-append sep s t))

pub split_of_lacks : (sep : ℕ) (s : String) → lacks sep s ≡ true → split sep s ≡ s ∷ []
unfolding lacks split
split_of_lacks sep Str.[] h = refl
split_of_lacks sep (Str.◌∷◌ c s) h = elim (Bool-cases (same (code c) sep)) [
  | inl here ↦ absurd (ground (arith, here))
  | inr away ↦ rw away (rw (split_of_lacks sep s (ground (arith, away))) refl)
]

pub split-append :
    (sep : ℕ) (s : String) (c : Char) (t : String)
    → lacks sep s ≡ true
    → same (code c) sep ≡ true
    → split sep (s <> Str.◌∷◌ c t) ≡ s ∷ split sep t
unfolding lacks split
split-append sep Str.[] c t h e = rw (nil-append (Str.◌∷◌ c t)) (rw e refl)
split-append sep (Str.◌∷◌ d s) c t h e = elim (Bool-cases (same (code d) sep)) [
  | inl here ↦ absurd (ground (arith, here))
  | inr away ↦
      rw (cons-append d s (Str.◌∷◌ c t))
        (rw away (rw (split-append sep s c t (ground (arith, away)) e) refl))
]
