-- ===== src/Store/Tokens/Spending.antt =====
-- What DecrementTokens of memory.go takes, and what it leaves readable.
use sentra_lab.Base.{
  String, ◌≡◌, false, not, ◌&&◌, none, some, arith, if◌then◌else◌, lookup-insert, ok, err, str_eq,
  pos,
}
use sentra_lab.Base.Float64.{Float64}
use sentra_lab.Store.{Time, float64, MemoryStore}
use sentra_lab.Store.Memory.{fail}
use sentra_lab.Store.Memory.View.{view, live-of-view}
use sentra_lab.Store.Tokens.{decrement_tokens, spent, taken}

module _ {F : Type 0} ⦃fl : Float64 F⦄ where
  -- Taking tokens from a count that is there either returns what is left, which the key then shows
  -- for as long as it would have shown the old count, or fails since that would be below zero, and
  -- then nothing readable changes. No other key changes.
  pub decrement_tokens-present :
      (t now : Time) (k j : String) (c x : F) (s : MemoryStore F)
      → s.closed ≡ false
      → view now s k ≡ some (float64 c)
      → let short = fl.lt (fl.sub c x) (fl.of_int (pos 0)) in
        ((decrement_tokens now k x s).0 ≡ (
          if short then err (fail "DecrementTokens" k "insufficient tokens") else ok (fl.sub c x)))
        × (view t (decrement_tokens now k x s).1 j ≡ (
            if str_eq k j && not short
            then (elim (view t s k) [ none ↦ none | some v ↦ some (float64 (fl.sub c x)) ])
            else view t s j))
  unfolding decrement_tokens taken spent view
  decrement_tokens-present t now k j c x s h e =
      let (i, alive, there, val) = live-of-view now k (float64 c) s e in
      (
        ground arith,
        ground (
          arith,
          lookup-insert k j (record { value = float64 (fl.sub c x); expiry = i.expiry }) s.items,
        ),
      )
