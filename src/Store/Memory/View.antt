-- ===== src/Store/Memory/View.antt =====
-- What a client can read of the store of memory.go: the value under each key at each time.
use sentra_lab.Base.{
  ℕ, suc, ◌+◌, ◌<◌, String, ◌≡◌, refl, ap, ◌∙◌, true, false, Option, none, some, arith,
  if◌then◌else◌, ltb, leb, ◌==◌, lookup, lookup-insert, lookup-erase, Result, ok, err, ℤ, pos,
  str_eq, add64, neg64, str_eq_refl, int64_mod,
}
use sentra_lab.Store.{Time, Value, int64, Item, MemoryStore, is_expired}
use sentra_lab.Store.Errors.{StorageError}
use sentra_lab.Store.Memory.{
  live, expiry_of, put, get, set_value, delete, exists, increment, decrement, set_nx,
}

abbrev pub to_option : {A : Type 0} → Result StorageError A → Option A
to_option (ok a) = some a
to_option (err e) = none

abbrev pub values : {F : Type 0} → Option (Item F) → Option (Value F)
values none = none
values (some i) = some i.value

-- The value that a write with an expiry shows at a time.
abbrev pub shown : {F : Type 0} → Time → Time → Value F → Option (Value F)
shown t e v = if e == 0 then some v else if ltb e t then none else some v

module _ {F : Type 0} where
  unfoldable pub view : Time → MemoryStore F → String → Option (Value F)
  unfolding live is_expired
  view t s k = if s.closed then none else values (live t (lookup k s.items))

  pub get-view :
      (now : Time) (k : String) (s : MemoryStore F) → to_option (get now k s).0 ≡ view now s k
  unfolding get view
  get-view now k s = ground arith

  pub view-get :
      (t now : Time) (k j : String) (s : MemoryStore F) → view t (get now k s).1 j ≡ view t s j
  unfolding get view
  view-get t now k j s = ground arith

  pub view-put :
      (t e : Time) (k j : String) (v : Value F) (s : MemoryStore F)
      → s.closed ≡ false
      → view t (put k v e s) j ≡ (if str_eq k j then shown t e v else view t s j)
  unfolding put view
  view-put t e k j v s h =
      ground (arith, lookup-insert k j (record { value = v; expiry = e }) s.items)

  -- In an open store, a Set shows at its own key for as long as its expiry allows, at every later
  -- reading of the clock, and changes no other key.
  pub view-set_value :
      (t now : Time) (k j : String) (v : Value F) (ttl : ℤ) (s : MemoryStore F)
      → s.closed ≡ false
      → view t (set_value now k v ttl s).1 j
        ≡ (if str_eq k j then shown t (expiry_of now ttl) v else view t s j)
  unfolding set_value view
  view-set_value t now k j v ttl s h =
      ground (arith, lookup-insert k j (record { value = v; expiry = expiry_of now ttl }) s.items)

  -- With a positive time-to-live the value is there exactly up to the expiry.
  pub view-set_value_ttl :
      (t now n : ℕ) (k : String) (v : Value F) (s : MemoryStore F)
      → s.closed ≡ false
      → view t (set_value now k v (pos (suc n)) s).1 k
        ≡ (if leb t (now + suc n) then some v else none)
  unfolding expiry_of
  view-set_value_ttl t now n k v s h =
      rw (view-set_value t now k k v (pos (suc n)) s h, str_eq_refl k) (ground arith)

  pub view-delete :
      (t : Time) (k j : String) (s : MemoryStore F)
      → view t (delete k s).1 j ≡ (if str_eq k j then none else view t s j)
  unfolding delete view
  view-delete t k j s = ground (arith, lookup-erase k j s.items)

  pub exists-view :
      (now : Time) (k : String) (s : MemoryStore F)
      → s.closed ≡ false
      → (exists now k s).0 ≡ ok (elim (view now s k) [ none ↦ false | some v ↦ true ])
  unfolding exists view
  exists-view now k s h = ground arith

  -- SetNX wins exactly when nothing is readable under the key, and a loser changes nothing.
  pub set_nx-view :
      (now : Time) (k : String) (v : Value F) (ttl : ℤ) (s : MemoryStore F)
      → s.closed ≡ false
      → (view now s k ≡ none
          → ((set_nx now k v ttl s).0 ≡ ok true)
            × ((set_nx now k v ttl s).1 ≡ (set_value now k v ttl s).1))
        × ((w : Value F) → view now s k ≡ some w → set_nx now k v ttl s ≡ (ok false, s))
  unfolding set_nx set_value view
  set_nx-view now k v ttl s h = (λ e. (ground arith, ground arith), λ w e. ground arith)

  -- The value that an Increment leaves and returns.
  pub increment-missing :
      (t now : Time) (k j : String) (d : ℕ) (s : MemoryStore F)
      → s.closed ≡ false
      → view now s k ≡ none
      → ((increment now k d s).0 ≡ ok d)
        × (view t (increment now k d s).1 j ≡ (if str_eq k j then some (int64 d) else view t s j))
  unfolding increment view
  increment-missing t now k j d s h e = (
    ground arith,
    ground (arith, lookup-insert k j (record { value = int64 d; expiry = 0 }) s.items),
  )

  pub live-of-view :
      (now : Time) (k : String) (v : Value F) (s : MemoryStore F)
      → view now s k ≡ some v
      → (i : Item F) × (live now (lookup k s.items) ≡ some i)
        × (lookup k s.items ≡ some i)
        × (i.value ≡ v)
  unfolding view
  live-of-view now k v s h = split (lookup k s.items) refl
    where
      split :
          (o : Option (Item F))
          → lookup k s.items ≡ o
          → (i : Item F) × (live now (lookup k s.items) ≡ some i)
            × (lookup k s.items ≡ some i)
            × (i.value ≡ v)
      split none e = ground arith
      split (some i) e = (i, ground arith, e, ground arith)

  -- Incrementing an int64 that is there returns the sum, modulo 2^64. The key then shows the sum for
  -- as long as it would have shown the old value, and no other key changes.
  pub increment-present :
      (t now : Time) (k j : String) (n d : ℕ) (s : MemoryStore F)
      → s.closed ≡ false
      → view now s k ≡ some (int64 n)
      → ((increment now k d s).0 ≡ ok (add64 n d))
        × (view t (increment now k d s).1 j ≡ (
            if str_eq k j
            then (elim (view t s k) [ none ↦ none | some v ↦ some (int64 (add64 n d)) ])
            else view t s j))
  unfolding increment view
  increment-present t now k j n d s h e =
      let (i, alive, there, val) = live-of-view now k (int64 n) s e in
      (
        ground arith,
        ground (
          arith,
          lookup-insert k j (record { value = int64 (add64 n d); expiry = i.expiry }) s.items,
        ),
      )

  pub closed-increment :
      (now : Time) (k : String) (d : ℕ) (s : MemoryStore F)
      → s.closed ≡ false
      → (increment now k d s).1.closed ≡ false
  unfolding increment
  closed-increment now k d s h = ground arith

  -- A Decrement by the same amount takes an Increment back, also where the sum wrapped around.
  pub decrement-increment :
      (now : Time) (k : String) (n d : ℕ) (s : MemoryStore F)
      → s.closed ≡ false
      → n < int64_mod
      → view now s k ≡ some (int64 n)
      → (decrement now k d (increment now k d s).1).0 ≡ ok n
  unfolding decrement
  decrement-increment now k n d s h fits e =
      let after = increment-present now now k k n d s h e in
      let shows = after.1 in
      let undone =
        increment-present now now k k (add64 n d) (neg64 d) (increment now k d s).1
          (closed-increment now k d s h) (rw (str_eq_refl k, e) at shows) in
      undone.0 ∙ ap ok (omega arith)
