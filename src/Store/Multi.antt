-- ===== src/Store/Multi.antt =====
-- store/memory.go: the operations on several keys.
use sentra_lab.Base.{
  ℕ, String, Bool, true, false, Option, none, some, ◌∷◌, [], List, if◌then◌else◌, Dict, lookup,
  insert, erase, Result, ok, err, ℤ, length, ltb_ℤ, pos, sub_ℕ, add64, signed,
}
use sentra_lab.Base.Float64.{Float64}
use sentra_lab.Store.{Time, Value, Item, MemoryStore, is_expired}
use sentra_lab.Store.Errors.{StorageError, new_storage_error}
use sentra_lab.Store.Memory.{Step, fail, live, put, count_hit, count_miss, expiry_of}

-- One key of the loop, before those that follow it.
unfoldable pub pick :
    String → Option Bool → Result StorageError (List String) → Result StorageError (List String)
unfolding new_storage_error
pick k none rest = err (new_storage_error "Keys" "" (some "syntax error in pattern"))
pick k (some b) (err e) = err e
pick k (some true) (ok ks) = ok (k ∷ ks)
pick k (some false) (ok ks) = ok ks

module _ {F : Type 0} where
  unfoldable pub gathered : String → Option (Item F) → Dict (Value F) → Dict (Value F)
  gathered k none acc = acc
  gathered k (some i) acc = insert k i.value acc

  unfoldable pub counted : Option (Item F) → MemoryStore F → MemoryStore F
  unfolding count_hit count_miss
  counted none s = count_miss s
  counted (some i) s = count_hit s

  -- The loop of `GetMulti`, with the result map built so far.
  unfoldable pub get_each :
      Time → List String → Dict (Value F) → MemoryStore F → Dict (Value F) × MemoryStore F
  unfolding live
  get_each now [] acc s = (acc, s)
  get_each now (k ∷ ks) acc s =
      let i = live now (lookup k s.items) in get_each now ks (gathered k i acc) (counted i s)

  unfoldable pub get_multi : Time → List String → MemoryStore F → Step F (Dict (Value F))
  unfolding fail
  get_multi now ks s =
      if s.closed
      then (err (fail "GetMulti" "" "storage is closed"), s)
      else (let (found, s') = get_each now ks [] s in (ok found, s'))

  unfoldable pub put_each : Time → Dict (Value F) → MemoryStore F → MemoryStore F
  unfolding put
  put_each e [] s = s
  put_each e ((k, v) ∷ kvs) s = put_each e kvs (put k v e s)

  -- All the keys get the one expiry that is computed before the loop.
  unfoldable pub set_multi : Time → Dict (Value F) → ℤ → MemoryStore F → Step F (Unit {0})
  unfolding fail expiry_of
  set_multi now kvs ttl s =
      if s.closed
      then (err (fail "SetMulti" "" "storage is closed"), s)
      else (ok tt, put_each (expiry_of now ttl) kvs s)

  unfoldable pub erase_each : List String → Dict (Item F) → Dict (Item F)
  erase_each [] m = m
  erase_each (k ∷ ks) m = erase_each ks (erase k m)

  unfoldable pub delete_multi : List String → MemoryStore F → Step F (Unit {0})
  unfolding fail
  delete_multi ks s =
      if s.closed
      then (err (fail "DeleteMulti" "" "storage is closed"), s)
      else (ok tt, record s { items = erase_each ks s.items })

  module _ (matches : String → String → Option Bool) where
    -- The loop of `Keys`; `matches` is filepath.Match, with `none` for its ErrBadPattern.
    unfoldable pub keys_in : Time → String → Dict (Item F) → Result StorageError (List String)
    unfolding pick
    keys_in now pattern [] = ok []
    keys_in now pattern ((k, i) ∷ m) =
        let rest = keys_in now pattern m in
        if is_expired now i then rest else pick k (matches pattern k) rest

    unfoldable pub keys : Time → String → MemoryStore F → Step F (List String)
    unfolding fail
    keys now pattern s =
        if s.closed
        then (err (fail "Keys" "" "storage is closed"), s)
        else (keys_in now pattern s.items, s)

-- store/interface.go: `StorageStats`; the memory usage is always 0 here.
pub record StorageStats (F : Type 0) : Type 0 where
  pub total_keys : ℕ
  pub hits : ℕ
  pub misses : ℕ
  pub hit_rate : F
  pub uptime : ℤ

module _ {F : Type 0} ⦃fl : Float64 F⦄ where
  -- The rate is a percentage.
  unfoldable pub get_stats : Time → MemoryStore F → StorageStats F
  get_stats now s = record {
    total_keys = length s.items;
    hits = s.hit_count;
    misses = s.miss_count;
    hit_rate =
        if ltb_ℤ (pos 0) (signed (add64 s.hit_count s.miss_count))
        then fl.mul
            (fl.div (fl.of_int (signed s.hit_count))
              (fl.of_int (signed (add64 s.hit_count s.miss_count))))
            (fl.of_int (pos 100))
        else fl.of_int (pos 0);
    uptime = sub_ℕ now s.start_time;
  }
