-- ===== src/Store/Tokens.antt =====
-- store/memory.go: the operations for rate limiters. A float64 among the values is a token count.
pub mod Spending
use sentra_lab.Base.{String, Option, none, some, if◌then◌else◌, lookup, Result, ok, err, ℤ, pos}
use sentra_lab.Base.Float64.{Float64}
use sentra_lab.Store.{Time, Value, int64, float64, timestamp, other, Item, MemoryStore}
use sentra_lab.Store.Errors.{StorageError}
use sentra_lab.Store.Memory.{Step, fail, live, put, get, set_value}

module _ {F : Type 0} where
  as_float64 : String → Result StorageError (Value F) → Result StorageError F
  unfolding fail
  as_float64 k (err e) = err e
  as_float64 k (ok (float64 x)) = ok x
  as_float64 k (ok (int64 n)) = err (fail "GetTokens" k "value is not float64")
  as_float64 k (ok (timestamp t)) = err (fail "GetTokens" k "value is not float64")
  as_float64 k (ok (other o)) = err (fail "GetTokens" k "value is not float64")

  unfoldable pub get_tokens : Time → String → MemoryStore F → Step F F
  unfolding as_float64 get
  get_tokens now k s = let (r, s') = get now k s in (as_float64 k r, s')

  unfoldable pub set_tokens : Time → String → F → ℤ → MemoryStore F → Step F (Unit {0})
  unfolding set_value
  set_tokens now k x ttl s = set_value now k (float64 x) ttl s

  as_timestamp : String → Result StorageError (Value F) → Result StorageError Time
  unfolding fail
  as_timestamp k (err e) = err e
  as_timestamp k (ok (timestamp t)) = ok t
  as_timestamp k (ok (int64 n)) = err (fail "GetLastRefill" k "value is not time.Time")
  as_timestamp k (ok (float64 x)) = err (fail "GetLastRefill" k "value is not time.Time")
  as_timestamp k (ok (other o)) = err (fail "GetLastRefill" k "value is not time.Time")

  unfoldable pub get_last_refill : Time → String → MemoryStore F → Step F Time
  unfolding as_timestamp get
  get_last_refill now k s = let (r, s') = get now k s in (as_timestamp k r, s')

  -- No time-to-live: a timestamp never expires.
  unfoldable pub set_last_refill : Time → String → Time → MemoryStore F → Step F (Unit {0})
  unfolding set_value
  set_last_refill now k t s = set_value now k (timestamp t) (pos 0) s

module _ {F : Type 0} ⦃fl : Float64 F⦄ where
  -- `current - tokens`, refused below zero; the write keeps the item's expiry.
  taken : String → Time → F → MemoryStore F → Step F F
  unfolding fail put
  taken k e left s =
      if fl.lt left (fl.of_int (pos 0))
      then (err (fail "DecrementTokens" k "insufficient tokens"), s)
      else (ok left, put k (float64 left) e s)

  spent : String → F → Option (Item F) → MemoryStore F → Step F F
  unfolding fail taken
  spent k x none s = (err (fail "DecrementTokens" k "key not found"), s)
  spent k x (some i) s = elim i.value [
    | float64 c ↦ taken k i.expiry (fl.sub c x) s
    | _ ↦ (err (fail "DecrementTokens" k "value is not float64"), s)
  ]

  unfoldable pub decrement_tokens : Time → String → F → MemoryStore F → Step F F
  unfolding fail spent live
  decrement_tokens now k x s =
      if s.closed
      then (err (fail "DecrementTokens" k "storage is closed"), s)
      else spent k x (live now (lookup k s.items)) s

  refilled : String → F → Option (Item F) → MemoryStore F → Step F F
  unfolding fail put
  refilled k x none s = (ok x, put k (float64 x) 0 s)
  refilled k x (some i) s = elim i.value [
    | float64 c ↦ (ok (fl.add c x), put k (float64 (fl.add c x)) i.expiry s)
    | _ ↦ (err (fail "IncrementTokens" k "value is not float64"), s)
  ]

  unfoldable pub increment_tokens : Time → String → F → MemoryStore F → Step F F
  unfolding fail refilled live
  increment_tokens now k x s =
      if s.closed
      then (err (fail "IncrementTokens" k "storage is closed"), s)
      else refilled k x (live now (lookup k s.items)) s
