-- ===== src/Go/Text.antt =====
-- `strings.Split` by one character, and `strings.HasPrefix`.
pub mod Laws
use Prim.Native.Char.{Char, code}
use Prim.Native.String as Str
use Prim.Native.String.{String}
use tektoncd_pruner.Prelude.{ℕ, Bool, List, [], ◌∷◌, if◌then◌else◌, leb, ◌&&◌}
use text.Mathlib.Text.{starts_with}

-- `strings.HasPrefix(s, prefix)`
abbrev pub has_prefix : String → String → Bool
has_prefix s prefix = starts_with s prefix

abbrev pub same : ℕ → ℕ → Bool
same a b = leb a b && leb b a

-- puts a character in front of the first part
abbrev pub onto_first : Char → List String → List String
onto_first c [] = Str.◌∷◌ c Str.[] ∷ []
onto_first c (p ∷ ps) = Str.◌∷◌ c p ∷ ps

-- `strings.Split(s, sep)`, for a separator of one character, given by its code
unfoldable pub split : ℕ → String → List String
split sep Str.[] = "" ∷ []
split sep (Str.◌∷◌ c s) =
    let rest = split sep s in if same (code c) sep then "" ∷ rest else onto_first c rest
