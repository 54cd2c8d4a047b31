-- ===== src/Store/Memory/Counters.antt =====
-- The hit and miss counters of memory.go, and the lookups of several keys.
use sentra_lab.Base.{
  ℕ, String, ◌≡◌, refl, ap, ◌∙◌, Bool, false, Option, none, some, List, [], ◌∷◌, ◌||◌, arith,
  eq_iff, if◌then◌else◌, lookup, lookup-insert, Dict, ok, str_eq, add64, length, ◌+◌, ◌%◌,
  int64_mod,
}
use sentra_lab.Store.{Time, Value, Item, MemoryStore}
use sentra_lab.Store.Memory.{live, get}
use sentra_lab.Store.Memory.View.{view, values}
use sentra_lab.Store.Multi.{get_each, get_multi, gathered, counted}

abbrev pub contains : String → List String → Bool
contains j [] = false
contains j (k ∷ ks) = str_eq k j || contains j ks

module _ {F : Type 0} where
  -- Each Get of an open store raises one counter by one: the hits if the key is readable, else the
  -- misses.
  pub get-counters :
      (now : Time) (k : String) (s : MemoryStore F)
      → s.closed ≡ false
      → let s' = (get now k s).1 in
        (s'.hit_count ≡ (elim (view now s k) [ none ↦ s.hit_count | some v ↦ add64 s.hit_count 1 ]))
        × (s'.miss_count
            ≡ (elim (view now s k) [ none ↦ add64 s.miss_count 1 | some v ↦ s.miss_count ]))
        × (s'.items ≡ s.items)
  unfolding get view
  get-counters now k s h = (ground arith, ground arith, ground arith)

  items-counted : (o : Option (Item F)) (s : MemoryStore F) → (counted o s).items ≡ s.items
  unfolding counted
  items-counted none s = refl
  items-counted (some i) s = refl

  -- Both counters together, as int64.
  abbrev pub queries : MemoryStore F → ℕ
  queries s = add64 s.hit_count s.miss_count

  queries-counted :
      (o : Option (Item F)) (s : MemoryStore F) → queries (counted o s) ≡ add64 (queries s) 1
  unfolding counted
  queries-counted none s = omega arith
  queries-counted (some i) s = omega arith

  pub items-get_each :
      (now : Time) (ks : List String) (acc : Dict (Value F)) (s : MemoryStore F)
      → (get_each now ks acc s).1.items ≡ s.items
  unfolding get_each
  items-get_each now [] acc s = refl
  items-get_each now (k ∷ ks) acc s =
      items-get_each now ks _ _ ∙ items-counted (live now (lookup k s.items)) s

  queries-get_each :
      (now : Time) (ks : List String) (acc : Dict (Value F)) (s : MemoryStore F)
      → queries (get_each now ks acc s).1 ≡ (queries s + length ks) % int64_mod
  unfolding get_each
  queries-get_each now [] acc s = omega arith
  queries-get_each now (k ∷ ks) acc s =
      let i = live now (lookup k s.items) in
      queries-get_each now ks (gathered k i acc) (counted i s) ∙ omega (arith, queries-counted i s)

  abbrev over : Option (Value F) → Option (Value F) → Option (Value F)
  over none d = d
  over (some v) d = some v

  lookup-gathered :
      (k j : String) (o : Option (Item F)) (acc : Dict (Value F))
      → lookup j (gathered k o acc)
        ≡ (if str_eq k j then over (values o) (lookup j acc) else lookup j acc)
  unfolding gathered
  lookup-gathered k j none acc = ground arith
  lookup-gathered k j (some i) acc = ground (arith, lookup-insert k j i.value acc)

  lookup-get_each :
      (now : Time) (ks : List String) (j : String) (acc : Dict (Value F)) (s : MemoryStore F)
      → lookup j (get_each now ks acc s).0 ≡ (
          if contains j ks
          then over (values (live now (lookup j s.items))) (lookup j acc)
          else lookup j acc)
  unfolding get_each
  lookup-get_each now [] j acc s = refl
  lookup-get_each now (k ∷ ks) j acc s =
      let i = live now (lookup k s.items) in
      ground (
        arith,
        lookup-get_each now ks j (gathered k i acc) (counted i s),
        lookup-gathered k j i acc,
        items-counted i s,
        eq_iff k j,
      )

  get_multi-open :
      (now : Time) (ks : List String) (s : MemoryStore F)
      → s.closed ≡ false
      → get_multi now ks s ≡ (ok (get_each now ks [] s).0, (get_each now ks [] s).1)
  unfolding get_multi
  get_multi-open now ks s h = ground arith

  -- GetMulti of an open store returns the readable values of just the keys asked for. It leaves the
  -- items as they are, and counts one query for each key, repeated keys included.
  pub get_multi-view :
      (now : Time) (ks : List String) (s : MemoryStore F)
      → s.closed ≡ false
      → (found : Dict (Value F)) × ((get_multi now ks s).0 ≡ ok found)
        × ((j : String) → lookup j found ≡ (if contains j ks then view now s j else none))
        × ((get_multi now ks s).1.items ≡ s.items)
        × (queries (get_multi now ks s).1 ≡ (queries s + length ks) % int64_mod)
  unfolding view lookup
  get_multi-view now ks s h =
      let r = get_each now ks [] s in
      let opened = get_multi-open now ks s h in
      (
        r.0,
        ap (λ x. x.0) opened,
        λ j. ground (arith, lookup-get_each now ks j [] s),
        ap (λ x. x.1.items) opened ∙ items-get_each now ks [] s,
        ap (λ x. queries x.1) opened ∙ queries-get_each now ks [] s,
      )
