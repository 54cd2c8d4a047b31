-- ===== src/Store/Machine.antt =====
-- The in-memory store as a machine: the calls that clients make and the ticks of the cleanup
-- goroutine, each under the store's lock, in the order in which they take it.
pub mod Closed
pub mod Sweeps
use sentra_lab.Base.{ℕ, String, Bool, Option, none, some, List, [], ◌∷◌, Dict, Result, ok, err, ℤ}
use sentra_lab.Base.Float64.{Float64}
use sentra_lab.Store.{Time, Value, MemoryStore}
use sentra_lab.Store.Errors.{StorageError}
use sentra_lab.Store.Memory
use sentra_lab.Store.Memory.{
  Step, get, set_value, delete, exists, increment, decrement, set_nx, expire, ttl, flush, close,
  cleanup,
}
use sentra_lab.Store.Multi.{get_multi, set_multi, delete_multi, keys}
use sentra_lab.Store.Tokens.{
  get_tokens, set_tokens, get_last_refill, set_last_refill, decrement_tokens, increment_tokens,
}

-- One constructor for each method of the store that can change it or fail, and one for the ticker.
pub data Call (F : Type 0) : Type 0 where
  get_call delete_call exists_call ttl_call : String → Call F
  set_call set_nx_call : String → Value F → ℤ → Call F
  increment_call decrement_call : String → ℕ → Call F
  expire_call : String → ℤ → Call F
  get_multi_call delete_multi_call : List String → Call F
  set_multi_call : Dict (Value F) → ℤ → Call F
  keys_call : String → Call F
  get_tokens_call get_last_refill_call : String → Call F
  set_tokens_call : String → F → ℤ → Call F
  set_last_refill_call : String → Time → Call F
  decrement_tokens_call increment_tokens_call : String → F → Call F
  flush_call close_call tick : Call F

abbrev pub error_of : {A : Type 0} → Result StorageError A → Option StorageError
error_of (ok a) = none
error_of (err e) = some e

-- What a call leaves: its error, or none, and the store.
abbrev pub outcome : {F A : Type 0} → Step F A → Option StorageError × MemoryStore F
outcome (r, s) = (error_of r, s)

module _ {F : Type 0} ⦃fl : Float64 F⦄ (matches : String → String → Option Bool) where
  unfoldable pub perform : Time → Call F → MemoryStore F → Option StorageError × MemoryStore F
  perform now (get_call k) s = outcome (get now k s)
  perform now (delete_call k) s = outcome (delete k s)
  perform now (exists_call k) s = outcome (exists now k s)
  perform now (ttl_call k) s = outcome (ttl now k s)
  perform now (set_call k v t) s = outcome (set_value now k v t s)
  perform now (set_nx_call k v t) s = outcome (set_nx now k v t s)
  perform now (increment_call k d) s = outcome (increment now k d s)
  perform now (decrement_call k d) s = outcome (decrement now k d s)
  perform now (expire_call k t) s = outcome (expire now k t s)
  perform now (get_multi_call ks) s = outcome (get_multi now ks s)
  perform now (delete_multi_call ks) s = outcome (delete_multi ks s)
  perform now (set_multi_call kvs t) s = outcome (set_multi now kvs t s)
  perform now (keys_call p) s = outcome (keys matches now p s)
  perform now (get_tokens_call k) s = outcome (get_tokens now k s)
  perform now (get_last_refill_call k) s = outcome (get_last_refill now k s)
  perform now (set_tokens_call k x t) s = outcome (set_tokens now k x t s)
  perform now (set_last_refill_call k t) s = outcome (set_last_refill now k t s)
  perform now (decrement_tokens_call k x) s = outcome (decrement_tokens now k x s)
  perform now (increment_tokens_call k x) s = outcome (increment_tokens now k x s)
  perform now flush_call s = outcome (flush s)
  perform now close_call s = outcome (close s)
  perform now tick s = (none, cleanup now s)

  -- A run: each call with the time at which it reads the clock.
  unfoldable pub run : List (Time × Call F) → MemoryStore F → MemoryStore F
  unfolding perform
  run [] s = s
  run ((now, c) ∷ cs) s = run cs (perform now c s).1
