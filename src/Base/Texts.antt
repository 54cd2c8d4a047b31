-- ===== src/Base/Texts.antt =====
-- What the source uses of Go's package strings.
use Prim.Native.Nat.{ℕ}
use Prim.Native.Char.{Char, code}
use Prim.Native.String.{String, ◌++◌}
use mathlib.Core.Bool.{Bool, true, false, ◌||◌}
use mathlib.Core.List.{List, [], ◌∷◌}
use sentra_lab.Base.Tests.{str_eq, ◌==◌, if◌then◌else◌}

-- The character goes in front of the first part.
abbrev pub onto_first : Char → List String → List String
onto_first c [] = (String.◌∷◌ c String.[]) ∷ []
onto_first c (p ∷ ps) = (String.◌∷◌ c p) ∷ ps

-- strings.Split(s, sep), for a separator of one ASCII character.
unfoldable pub split : ℕ → String → List String
split sep String.[] = "" ∷ []
split sep (String.◌∷◌ c s) =
    let rest = split sep s in if code c == sep then "" ∷ rest else onto_first c rest

-- strings.HasSuffix(s, suffix)
unfoldable pub has_suffix : String → String → Bool
has_suffix suffix String.[] = str_eq String.[] suffix
has_suffix suffix (String.◌∷◌ c s) =
    let rest = has_suffix suffix s in str_eq (String.◌∷◌ c s) suffix || rest

-- contains(slice, item)
unfoldable pub contains : List String → String → Bool
contains [] key = false
contains (s ∷ ss) key = let rest = contains ss key in if str_eq s key then true else rest

-- The lines of a text, each with its line feed.
unfoldable pub lines : List String → String
lines [] = ""
lines (s ∷ ss) = s ++ "\n" ++ lines ss
