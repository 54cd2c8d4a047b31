-- ===== src/Store/Machine/Sweeps.antt =====
-- The cleanup goroutine of memory.go: a tick removes only what no client can read any more.
use sentra_lab.Base.{
  some, ap, ◌∙◌, String, ◌≡◌, refl, ◌≤◌, Bool, true, not, ◌&&◌, ◌==◌, ltb, Option, none, List, [],
  ◌∷◌, arith, Dict, lookup, erase, IsMap, insert-IsMap, erase-IsMap, eq_iff,
}
use sentra_lab.Base.Float64.{Float64}
use sentra_lab.Store.{Time, Value, Item, MemoryStore, is_expired, new_memory_store}
use sentra_lab.Store.Memory.{
  get, set_value, delete, exists, increment, decrement, set_nx, expire, ttl, flush, close, cleanup,
  live, sweep, put,
}
use sentra_lab.Store.Memory.View.{view, to_option}
use sentra_lab.Store.Memory.Counters.{items-get_each}
use sentra_lab.Store.Multi.{
  get_multi, get_each, gathered, counted, keys_in, set_multi, put_each, delete_multi, erase_each,
  keys,
}
use sentra_lab.Store.Tokens.{
  get_tokens, set_tokens, get_last_refill, set_last_refill, decrement_tokens, increment_tokens,
}
use sentra_lab.Store.Machine.{Call, perform, run}

module _ {F : Type 0} where
  -- A sweep keeps a binding exactly if it has no expiry or its expiry is not past.
  lookup-sweep-none :
      (now : Time) (k : String) (m : Dict (Item F))
      → lookup k m ≡ none
      → lookup k (sweep now m) ≡ none
  unfolding sweep lookup
  lookup-sweep-none now k [] h = refl
  lookup-sweep-none now k ((j, i) ∷ m) h = ground (arith, lookup-sweep-none now k m)

  IsMap-sweep : (now : Time) (m : Dict (Item F)) → IsMap m → IsMap (sweep now m)
  unfolding sweep
  IsMap-sweep now [] h = tt
  IsMap-sweep now ((j, i) ∷ m) (fresh, h) =
      ground (arith, IsMap-sweep now m h, lookup-sweep-none now j m fresh)

  live-sweep :
      (now t : Time) (k : String) (m : Dict (Item F))
      → IsMap m
      → now ≤ t
      → live t (lookup k (sweep now m)) ≡ live t (lookup k m)
  unfolding sweep lookup live is_expired
  live-sweep now t k [] h l = refl
  live-sweep now t k ((j, i) ∷ m) (fresh, h) l =
      ground (arith, live-sweep now t k m h l, lookup-sweep-none now j m fresh, eq_iff j k)

  -- A tick of the cleanup goroutine changes no read at its time or later.
  pub view-cleanup :
      (now t : Time) (k : String) (s : MemoryStore F)
      → IsMap s.items
      → now ≤ t
      → view t (cleanup now s) k ≡ view t s k
  unfolding cleanup view
  view-cleanup now t k s h l = ground (arith, live-sweep now t k s.items h l)

  -- The sweep drops an item only once it has expired.
  swept_is_expired :
      (now t : Time) (i : Item F)
      → now ≤ t
      → (not (i.expiry == 0) && ltb i.expiry now) ≡ true
      → is_expired t i ≡ true
  unfolding is_expired
  swept_is_expired now t i l h = ground arith

  module _ (now t : Time) (later : now ≤ t) (s : MemoryStore F) (distinct : IsMap s.items) where
    -- Get gives the same value, and fails where it failed.
    get-cleanup : (k : String) → to_option (get t k (cleanup now s)).0 ≡ to_option (get t k s).0
    unfolding cleanup get live
    get-cleanup k = ground (arith, live-sweep now t k s.items distinct later)

    get_tokens-cleanup :
        (k : String) → to_option (get_tokens t k (cleanup now s)).0 ≡ to_option (get_tokens t k s).0
    unfolding cleanup get_tokens live
    get_tokens-cleanup k = ground (arith, live-sweep now t k s.items distinct later)

    get_last_refill-cleanup :
        (k : String)
        → to_option (get_last_refill t k (cleanup now s)).0 ≡ to_option (get_last_refill t k s).0
    unfolding cleanup get_last_refill live
    get_last_refill-cleanup k = ground (arith, live-sweep now t k s.items distinct later)

    exists-cleanup : (k : String) → (exists t k (cleanup now s)).0 ≡ (exists t k s).0
    unfolding cleanup exists
    exists-cleanup k = ground (arith, live-sweep now t k s.items distinct later)

    ttl-cleanup : (k : String) → (ttl t k (cleanup now s)).0 ≡ (ttl t k s).0
    unfolding cleanup ttl live is_expired
    ttl-cleanup k = ground (arith, live-sweep now t k s.items distinct later)

  -- The same items can be read at a time.
  abbrev ReadAlike : Time → MemoryStore F → MemoryStore F → Type 0
  ReadAlike t a b = (k : String) → live t (lookup k a.items) ≡ live t (lookup k b.items)

  counted-ReadAlike :
      (t : Time) (i : Option (Item F)) (a b : MemoryStore F)
      → ReadAlike t a b
      → ReadAlike t (counted i a) (counted i b)
  unfolding counted
  counted-ReadAlike t none a b h = h
  counted-ReadAlike t (some i) a b h = h

  get_each-ReadAlike :
      (t : Time) (ks : List String) (acc : Dict (Value F)) (a b : MemoryStore F)
      → ReadAlike t a b
      → (get_each t ks acc a).0 ≡ (get_each t ks acc b).0
  unfolding get_each
  get_each-ReadAlike t [] acc a b h = refl
  get_each-ReadAlike t (k ∷ ks) acc a b h =
      let i = live t (lookup k b.items) in
      ap (λ o. (get_each t ks (gathered k o acc) (counted o a)).0) (h k)
      ∙ get_each-ReadAlike t ks (gathered k i acc) (counted i a) (counted i b)
          (counted-ReadAlike t i a b h)

  keys_in-sweep :
      (matches : String → String → Option Bool) (now t : Time) (pattern : String)
      (m : Dict (Item F))
      → now ≤ t
      → keys_in matches t pattern (sweep now m) ≡ keys_in matches t pattern m
  unfolding keys_in sweep
  keys_in-sweep matches now t pattern [] l = refl
  keys_in-sweep matches now t pattern ((k, i) ∷ m) l =
      ground (arith, keys_in-sweep matches now t pattern m l, swept_is_expired now t i l)

  module _ (now t : Time) (later : now ≤ t) (s : MemoryStore F) (distinct : IsMap s.items) where
    get_multi-cleanup :
        (ks : List String) → (get_multi t ks (cleanup now s)).0 ≡ (get_multi t ks s).0
    unfolding cleanup get_multi
    get_multi-cleanup ks = ground (
      arith,
      get_each-ReadAlike t ks [] (record s { items = sweep now s.items }) s
          (λ k. live-sweep now t k s.items distinct later),
    )

    keys-cleanup :
        (matches : String → String → Option Bool) (pattern : String)
        → (keys matches t pattern (cleanup now s)).0 ≡ (keys matches t pattern s).0
    unfolding cleanup keys
    keys-cleanup matches pattern = ground (arith, keys_in-sweep matches now t pattern s.items later)

  put-IsMap :
      (k : String) (v : Value F) (e : Time) (s : MemoryStore F)
      → IsMap s.items
      → IsMap (put k v e s).items
  unfolding put
  put-IsMap k v e s h = insert-IsMap k _ s.items h

  put_each-IsMap :
      (e : Time) (kvs : Dict (Value F)) (s : MemoryStore F)
      → IsMap s.items
      → IsMap (put_each e kvs s).items
  unfolding put_each
  put_each-IsMap e [] s h = h
  put_each-IsMap e ((k, v) ∷ kvs) s h = put_each-IsMap e kvs (put k v e s) (put-IsMap k v e s h)

  erase_each-IsMap : (ks : List String) (m : Dict (Item F)) → IsMap m → IsMap (erase_each ks m)
  unfolding erase_each
  erase_each-IsMap [] m h = h
  erase_each-IsMap (k ∷ ks) m h = erase_each-IsMap ks (erase k m) (erase-IsMap k m h)

-- Every method that reads returns the same of both stores at a time; of a Get and of what reads by
-- it (GetTokens, GetLastRefill) the success and the value, and not the error's text.
pub record ReadsAlike {F : Type 0} (matches : String → String → Option Bool) (t : Time)
    (a b : MemoryStore F) : Type 0 where
  pub get_alike : (k : String) → to_option (get t k a).0 ≡ to_option (get t k b).0
  pub get_tokens_alike :
      (k : String) → to_option (get_tokens t k a).0 ≡ to_option (get_tokens t k b).0
  pub get_last_refill_alike :
      (k : String) → to_option (get_last_refill t k a).0 ≡ to_option (get_last_refill t k b).0
  pub exists_alike : (k : String) → (exists t k a).0 ≡ (exists t k b).0
  pub ttl_alike : (k : String) → (ttl t k a).0 ≡ (ttl t k b).0
  pub get_multi_alike : (ks : List String) → (get_multi t ks a).0 ≡ (get_multi t ks b).0
  pub keys_alike : (pattern : String) → (keys matches t pattern a).0 ≡ (keys matches t pattern b).0

module _ {F : Type 0} ⦃fl : Float64 F⦄ (matches : String → String → Option Bool) where
  perform-IsMap :
      (now : Time) (c : Call F) (s : MemoryStore F)
      → IsMap s.items
      → IsMap (perform matches now c s).1.items
  unfolding perform get set_value delete exists increment decrement set_nx expire ttl flush
      get_multi set_multi delete_multi keys get_tokens set_tokens get_last_refill set_last_refill
      decrement_tokens increment_tokens close cleanup
  perform-IsMap now (Call.get_multi_call ks) s h = ground (arith, items-get_each now ks [] s)
  perform-IsMap now (Call.set_multi_call kvs t) s h = grind (arith, put_each-IsMap)
  perform-IsMap now (Call.delete_multi_call ks) s h = grind (arith, erase_each-IsMap)
  perform-IsMap now Call.tick s h = grind (arith, IsMap-sweep)
  perform-IsMap now (Call.delete_call k) s h = grind (arith, erase-IsMap)
  perform-IsMap now (Call.set_call k v t) s h = grind (arith, insert-IsMap)
  perform-IsMap now _ s h = grind (arith, insert-IsMap)

  pub run-IsMap :
      (cs : List (Time × Call F)) (s : MemoryStore F)
      → IsMap s.items
      → IsMap (run matches cs s).items
  unfolding run
  run-IsMap [] s h = h
  run-IsMap ((now, c) ∷ cs) s h = run-IsMap cs (perform matches now c s).1 (perform-IsMap now c s h)

  -- Whatever calls a store has served since it was made, a tick of the cleanup goroutine changes
  -- nothing of what Exists, TTL, GetMulti and Keys return at the time of the tick or later, nor
  -- whether Get, GetTokens and GetLastRefill succeed then and with which value. (The text of the
  -- error of these three may change.)
  pub tick-ReadsAlike :
      (start : Time) (cs : List (Time × Call F)) (now t : Time)
      → now ≤ t
      → let s = run matches cs (new_memory_store start) in
        ReadsAlike matches t (perform matches now Call.tick s).1 s
  unfolding perform
  tick-ReadsAlike start cs now t later =
      let s = run matches cs (new_memory_store start) in
      let distinct = run-IsMap cs (new_memory_store start) (unfold new_memory_store in tt) in
      record {
        get_alike = get-cleanup now t later s distinct;
        get_tokens_alike = get_tokens-cleanup now t later s distinct;
        get_last_refill_alike = get_last_refill-cleanup now t later s distinct;
        exists_alike = exists-cleanup now t later s distinct;
        ttl_alike = ttl-cleanup now t later s distinct;
        get_multi_alike = get_multi-cleanup now t later s distinct;
        keys_alike = keys-cleanup now t later s distinct matches;
      }
