-- ===== src/Tests/StoreTests.antt =====
-- The in-memory store at concrete inputs.
use sentra_lab.Base.{
  ℕ, String, ◌≡◌, refl, Bool, true, false, Option, some, List, [], ◌∷◌, arith, lookup, pos, str_eq,
}
use sentra_lab.Base.Float64.{whole_float64}
use sentra_lab.Store.{Time, int64, float64, other, MemoryStore, new_memory_store}
use sentra_lab.Store.Errors.{is_not_found}
use sentra_lab.Store.Memory.{get, set_value}
use sentra_lab.Store.Memory.View.{view, view-set_value_ttl}
use sentra_lab.Store.Machine.{Call, perform, run}
use sentra_lab.Store.Machine.Closed.{not_found-perform}
use sentra_lab.Store.Machine.Sweeps.{ReadsAlike, tick-ReadsAlike}

-- filepath.Match of a pattern without special characters.
abbrev literally : String → String → Option Bool
literally p k = some (str_eq p k)

abbrev empty_store : MemoryStore ℕ
empty_store = record { items = []; start_time = 1; hit_count = 0; miss_count = 0; closed = false }

-- The key "n" holds the largest int64 bit pattern.
abbrev counting_store : MemoryStore ℕ
counting_store = record {
  items = ("n", record { value = int64 18446744073709551615; expiry = 0 }) ∷ [];
  start_time = 1;
  hit_count = 0;
  miss_count = 0;
  closed = false;
}

abbrev closed_store : MemoryStore ℕ
closed_store = record { items = []; start_time = 1; hit_count = 2; miss_count = 0; closed = true }

counts_up : view 5 counting_store "n" ≡ some (int64 18446744073709551615)
unfolding view lookup
counts_up = refl

view-set_value_ttl_example :
    view 27 (set_value 7 "a" (other "x") (pos 20) empty_store).1 "a" ≡ some (other "x")
view-set_value_ttl_example = view-set_value_ttl 27 7 19 "a" (other "x") empty_store refl

abbrev late_calls : List (Time × Call ℕ)
late_calls = (6, Call.set_call "n" (int64 4) (pos 0)) ∷ (7, Call.tick) ∷ []

not_found-perform_example :
    is_not_found (perform literally 5 (Call.get_call "z") counting_store).0 ≡ false
not_found-perform_example = not_found-perform literally 5 (Call.get_call "z") counting_store

abbrev some_calls : List (Time × Call ℕ)
some_calls =
    (2, Call.set_call "a" (int64 4) (pos 5))
    ∷ (3, Call.set_call "b" (int64 6) (pos 0))
    ∷ (4, Call.increment_call "a" 1)
    ∷ []

-- At time 9 the key "a" has expired at 7, and the tick at 8 drops it.
tick-ReadsAlike_example :
    let s = run literally some_calls (new_memory_store 1) in
    ReadsAlike literally 9 (perform literally 8 Call.tick s).1 s
tick-ReadsAlike_example = tick-ReadsAlike literally 1 some_calls 8 9 (omega arith)

-- A missing key gives an error that does not pass for "not found".
missing_is_error :
    (perform literally 5 (Call.get_call "z") counting_store).0
    ≡ some (record { op = "Get"; key = "z"; cause = some "key not found" })
unfolding perform get lookup
missing_is_error = refl

-- The key "n" holds five tokens.
abbrev token_store : MemoryStore ℕ
token_store = record {
  items = ("n", record { value = float64 5; expiry = 8 }) ∷ [];
  start_time = 1;
  hit_count = 0;
  miss_count = 0;
  closed = false;
}

five_tokens : view 5 token_store "n" ≡ some (float64 5)
unfolding view lookup
five_tokens = refl
