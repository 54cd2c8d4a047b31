-- ===== src/Base/Values.antt =====
-- Go's `interface{}` as the command line tool uses it, with a constructor for each dynamic type that
-- a type switch asks for, and `map[string]interface{}` as an association list of its own.
use Prim.Native.String.{String}
use mathlib.Core.Path.{◌≡◌, refl}
use mathlib.Core.Bool.{Bool}
use mathlib.Core.Option.{Option, none, some}
use native.Mathlib.Omega.{arith}
use text.Mathlib.TextEquality.{eq_iff}
use sentra_lab.Base.Tests.{str_eq, if◌then◌else◌}
use sentra_lab.Base.Int.{ℤ}

mutual
  pub data Value (F : Type 0) : Type 0 where
    str : String → Value F
    int : ℤ → Value F
    float : F → Value F
    bool : Bool → Value F
    items : Items F → Value F
    table : Table F → Value F
    nil : Value F

  pub data Items (F : Type 0) : Type 0 where
    last : Items F
    item : Value F → Items F → Items F

  pub data Table (F : Type 0) : Type 0 where
    empty : Table F
    entry : String → Value F → Table F → Table F

module _ {F : Type 0} where
  -- v, ok := t[key]
  unfoldable pub look : String → Table F → Option (Value F)
  look key empty = none
  look key (entry k v t) = if str_eq k key then some v else look key t

  -- t[key] = v
  unfoldable pub put : String → Value F → Table F → Table F
  put key v empty = entry key v empty
  put key v (entry k w t) =
      let rest = put key v t in if str_eq k key then entry key v t else entry k w rest

  pub look-put :
      (at key : String) (v : Value F) (t : Table F)
      → look key (put at v t) ≡ (if str_eq at key then some v else look key t)
  unfolding look put
  look-put at key v empty = refl
  look-put at key v (entry k w t) =
      ground (arith, look-put at key v t, eq_iff k at, eq_iff k key, eq_iff at key)

  -- v.(string), v.(int), v.(float64), v.(bool) and v.(map[string]interface{}) of an entry, which is
  -- the nil interface where the key is missing
  abbrev pub as_text : Option (Value F) → Option String
  as_text (some (str s)) = some s
  as_text _ = none

  abbrev pub as_int : Option (Value F) → Option ℤ
  as_int (some (int n)) = some n
  as_int _ = none

  abbrev pub as_float : Option (Value F) → Option F
  as_float (some (float x)) = some x
  as_float _ = none

  abbrev pub as_bool : Option (Value F) → Option Bool
  as_bool (some (bool b)) = some b
  as_bool _ = none

  abbrev pub as_table : Option (Value F) → Option (Table F)
  as_table (some (table t)) = some t
  as_table _ = none
