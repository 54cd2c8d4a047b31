-- ===== src/Store/Memory.antt =====
-- store/memory.go: the operations on one key, and those on the whole store. Each takes the time that
-- it reads from the clock, and returns the new state beside its result.
pub mod View
pub mod Counters
use sentra_lab.Base.{
  ℕ, zero, suc, ◌+◌, ◌-◌, String, Bool, true, false, Option, none, some, ◌∷◌, [], List,
  if◌then◌else◌, ◌==◌, ltb, Dict, lookup, insert, erase, Result, ok, err, ℤ, pos, negsuc, sub_ℕ,
  add64, neg64, length, ◌&&◌, not,
}
use sentra_lab.Store.{Time, Value, int64, Item, MemoryStore, is_expired}
use sentra_lab.Store.Errors.{StorageError, new_storage_error}

-- What a method gives back: its result, and the store after it.
abbrev pub Step : Type 0 → Type 0 → Type 0
Step F A = Result StorageError A × MemoryStore F

unfoldable pub fail : String → String → String → StorageError
unfolding new_storage_error
fail o k t = new_storage_error o k (some t)

-- The `expiry` that a time-to-live gives; 0 stands for the zero time.
unfoldable pub expiry_of : Time → ℤ → Time
expiry_of now (pos zero) = 0
expiry_of now (pos (suc n)) = now + suc n
expiry_of now (negsuc n) = 0

module _ {F : Type 0} where
  -- m.data[key] = &item{value, expiry}
  unfoldable pub put : String → Value F → Time → MemoryStore F → MemoryStore F
  put k v e s = record s { items = insert k (record { value = v; expiry = e }) s.items }

  unfoldable pub count_hit : MemoryStore F → MemoryStore F
  count_hit s = record s { hit_count = add64 s.hit_count 1 }

  unfoldable pub count_miss : MemoryStore F → MemoryStore F
  count_miss s = record s { miss_count = add64 s.miss_count 1 }

  -- The item under a key that is there and has not expired.
  unfoldable pub live : Time → Option (Item F) → Option (Item F)
  live now none = none
  live now (some i) = if is_expired now i then none else some i

  found : Time → String → Option (Item F) → MemoryStore F → Step F (Value F)
  unfolding fail count_hit count_miss
  found now k none s = (err (fail "Get" k "key not found"), count_miss s)
  found now k (some i) s =
      if is_expired now i
      then (err (fail "Get" k "key expired"), count_miss s)
      else (ok i.value, count_hit s)

  unfoldable pub get : Time → String → MemoryStore F → Step F (Value F)
  unfolding found fail
  get now k s =
      if s.closed
      then (err (fail "Get" k "storage is closed"), s)
      else found now k (lookup k s.items) s

  -- `Set`; the parameter named `set_value` because `set` is a list's.
  unfoldable pub set_value : Time → String → Value F → ℤ → MemoryStore F → Step F (Unit {0})
  unfolding fail put expiry_of
  set_value now k v ttl s =
      if s.closed
      then (err (fail "Set" k "storage is closed"), s)
      else (ok tt, put k v (expiry_of now ttl) s)

  unfoldable pub delete : String → MemoryStore F → Step F (Unit {0})
  unfolding fail
  delete k s =
      if s.closed
      then (err (fail "Delete" k "storage is closed"), s)
      else (ok tt, record s { items = erase k s.items })

  is_there : Option (Item F) → Bool
  is_there none = false
  is_there (some i) = true

  unfoldable pub exists : Time → String → MemoryStore F → Step F Bool
  unfolding fail live is_there
  exists now k s =
      if s.closed
      then (err (fail "Exists" k "storage is closed"), s)
      else (ok (is_there (live now (lookup k s.items))), s)

  -- item.value = newValue keeps the expiry of the item
  raised : String → ℕ → Option (Item F) → MemoryStore F → Step F ℕ
  unfolding fail put
  raised k delta none s = (ok delta, put k (int64 delta) 0 s)
  raised k delta (some i) s = elim i.value [
    | int64 n ↦ (ok (add64 n delta), put k (int64 (add64 n delta)) i.expiry s)
    | _ ↦ (err (fail "Increment" k "value is not int64"), s)
  ]

  unfoldable pub increment : Time → String → ℕ → MemoryStore F → Step F ℕ
  unfolding raised fail live
  increment now k delta s =
      if s.closed
      then (err (fail "Increment" k "storage is closed"), s)
      else raised k delta (live now (lookup k s.items)) s

  unfoldable pub decrement : Time → String → ℕ → MemoryStore F → Step F ℕ
  unfolding increment
  decrement now k delta s = increment now k (neg64 delta) s

  claimed : Time → String → Value F → ℤ → Option (Item F) → MemoryStore F → Step F Bool
  unfolding put expiry_of
  claimed now k v ttl (some i) s = (ok false, s)
  claimed now k v ttl none s = (ok true, put k v (expiry_of now ttl) s)

  unfoldable pub set_nx : Time → String → Value F → ℤ → MemoryStore F → Step F Bool
  unfolding claimed fail live
  set_nx now k v ttl s =
      if s.closed
      then (err (fail "SetNX" k "storage is closed"), s)
      else claimed now k v ttl (live now (lookup k s.items)) s

  renewed : Time → String → ℤ → Option (Item F) → MemoryStore F → Step F (Unit {0})
  unfolding fail put expiry_of
  renewed now k ttl none s = (err (fail "Expire" k "key not found"), s)
  renewed now k ttl (some i) s = (ok tt, put k i.value (expiry_of now ttl) s)

  unfoldable pub expire : Time → String → ℤ → MemoryStore F → Step F (Unit {0})
  unfolding renewed fail live
  expire now k t s =
      if s.closed
      then (err (fail "Expire" k "storage is closed"), s)
      else renewed now k t (live now (lookup k s.items)) s

  -- -2 s for a key that is not there, -1 s for one that never expires.
  remaining : Time → Option (Item F) → ℤ
  remaining now none = negsuc 1999999999
  remaining now (some i) =
      if i.expiry == 0
      then negsuc 999999999
      else if is_expired now i
      then negsuc 1999999999
      else sub_ℕ i.expiry now

  unfoldable pub ttl : Time → String → MemoryStore F → Step F ℤ
  unfolding remaining fail
  ttl now k s =
      if s.closed
      then (err (fail "TTL" k "storage is closed"), s)
      else (ok (remaining now (lookup k s.items)), s)

  unfoldable pub flush : MemoryStore F → Step F (Unit {0})
  unfolding fail
  flush s =
      if s.closed
      then (err (fail "Flush" "" "storage is closed"), s)
      else (ok tt, record s { items = []; hit_count = 0; miss_count = 0 })

  unfoldable pub close : MemoryStore F → Step F (Unit {0})
  close s = (ok tt, record s { items = []; closed = true })

  -- `Ping` wraps no storage error: `some` is its plain error's text.
  unfoldable pub ping : MemoryStore F → Option String
  ping s = if s.closed then some "storage is closed" else none

  -- The items that a sweep of `cleanupExpired` keeps.
  unfoldable pub sweep : Time → Dict (Item F) → Dict (Item F)
  sweep now [] = []
  sweep now ((k, i) ∷ m) =
      let rest = sweep now m in
      if not (i.expiry == 0) && ltb i.expiry now then rest else (k, i) ∷ rest

  -- One tick of `cleanupExpired`.
  unfoldable pub cleanup : Time → MemoryStore F → MemoryStore F
  unfolding sweep
  cleanup now s = if s.closed then s else record s { items = sweep now s.items }
