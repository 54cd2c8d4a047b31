-- ===== src/Base/Maps.antt =====
-- Go's `map[string]V` as an association list. A write to a present key replaces its value in place.
-- Go leaves the order of a `range` over a map open: where a result depends on it, the order of the
-- list stands for the order of that run.
use Prim.Native.Nat.{◌+◌, ◌≤◌}
use Prim.Native.String.{String}
use mathlib.Core.Path.{◌≡◌, refl}
use mathlib.Core.Bool.{true}
use mathlib.Core.List.{List, [], ◌∷◌}
use mathlib.Core.Option.{Option, none, some}
use native.Mathlib.Omega.{arith}
use text.Mathlib.TextEquality.{eq_iff}
use text.Mathlib.TextPositions.{eq_refl}
use sentra_lab.Base.Tests.{str_eq, if◌then◌else◌}
use sentra_lab.Base.Lists.{length}

abbrev pub Dict {ℓ} : Type ℓ → Type ℓ
Dict V = List (String × V)

module _ {ℓ} {V : Type ℓ} where
  -- The value that reading m[key] finds.
  unfoldable pub lookup : String → Dict V → Option V
  lookup key [] = none
  lookup key (e ∷ m) = if str_eq e.0 key then some e.1 else lookup key m

  -- What the assignment m[key] = new makes of the map.
  unfoldable pub insert : String → V → Dict V → Dict V
  insert key new [] = (key, new) ∷ []
  insert key new (e ∷ m) =
      let later = insert key new m in if str_eq e.0 key then (key, new) ∷ m else e ∷ later

  -- What delete(m, key) makes of it.
  unfoldable pub erase : String → Dict V → Dict V
  erase key [] = []
  erase key (e ∷ m) = let later = erase key m in if str_eq e.0 key then later else e ∷ later

  pub lookup-insert :
      (at key : String) (new : V) (m : Dict V)
      → lookup key (insert at new m) ≡ (if str_eq at key then some new else lookup key m)
  unfolding insert lookup
  lookup-insert at key new [] = refl
  lookup-insert at key new (e ∷ m) =
      ground (arith, lookup-insert at key new m, eq_iff e.0 at, eq_iff e.0 key, eq_iff at key)

  pub lookup-erase :
      (at key : String) (m : Dict V)
      → lookup key (erase at m) ≡ (if str_eq at key then none else lookup key m)
  unfolding erase lookup
  lookup-erase at key [] = ground arith
  lookup-erase at key (e ∷ m) =
      ground (arith, lookup-erase at key m, eq_iff at key, eq_iff e.0 at, eq_iff e.0 key)

  pub length-insert :
      (k : String) (v : V) (m : Dict V)
      → length (insert k v m) ≡ (elim (lookup k m) [ none ↦ length m + 1 | some w ↦ length m ])
  unfolding lookup insert
  length-insert k v [] = refl
  length-insert k v ((i, w) ∷ m) = ground (arith, length-insert k v m)

  pub length-erase-le : (k : String) (m : Dict V) → length (erase k m) ≤ length m
  unfolding erase
  length-erase-le k [] = omega arith
  length-erase-le k ((i, w) ∷ m) = ground (arith, length-erase-le k m)

pub str_eq_refl : (s : String) → str_eq s s ≡ true
str_eq_refl s = eq_refl s

-- No key stands twice.
abbrev pub IsMap {ℓ} : {V : Type ℓ} → Dict V → Type ℓ
IsMap [] = Unit
IsMap ((k, v) ∷ m) = (lookup k m ≡ none) × IsMap m

module _ {ℓ} {V : Type ℓ} where
  pub insert-IsMap : (k : String) (v : V) (m : Dict V) → IsMap m → IsMap (insert k v m)
  unfolding insert lookup
  insert-IsMap k v [] h = (refl, tt)
  insert-IsMap k v ((i, w) ∷ m) (fresh, h) =
      ground (arith, eq_iff i k, eq_iff k i, insert-IsMap k v m h, lookup-insert k i v m, fresh)

  pub erase-IsMap : (k : String) (m : Dict V) → IsMap m → IsMap (erase k m)
  unfolding erase lookup
  erase-IsMap k [] h = tt
  erase-IsMap k ((i, w) ∷ m) (fresh, h) = ground (arith, erase-IsMap k m h, lookup-erase k i m)
