-- ===== src/Store.antt =====
-- packages/mocks/openai/internal/store: the storage interface and its in-memory implementation.
-- `Item` and `MemoryStore` are the structs of memory.go; `Value` stands for `interface{}` with the
-- dynamic types that the code asks for, and `other` for all the rest.
pub mod Errors
pub mod Memory
pub mod Multi
pub mod Tokens
pub mod Machine
use sentra_lab.Base.{ℕ, String, Bool, false, ltb, if◌then◌else◌, ◌==◌, Dict, []}

-- Nanoseconds of the wall clock; 0 is the zero `time.Time`.
abbrev pub Time : Type 0
Time = ℕ

pub data Value (F : Type 0) : Type 0 where
  int64 : ℕ → Value F
  float64 : F → Value F
  timestamp : Time → Value F
  other : String → Value F

pub record Item (F : Type 0) : Type 0 where
  pub value : Value F
  pub expiry : Time

pub record MemoryStore (F : Type 0) : Type 0 where
  pub items : Dict (Item F)
  pub start_time : Time
  pub hit_count : ℕ
  pub miss_count : ℕ
  pub closed : Bool

unfoldable pub is_expired : {F : Type 0} → Time → Item F → Bool
is_expired now i = if i.expiry == 0 then false else ltb i.expiry now

unfoldable pub new_memory_store : {F : Type 0} → Time → MemoryStore F
new_memory_store now = record {
  items = [];
  start_time = now;
  hit_count = 0;
  miss_count = 0;
  closed = false;
}
