-- ===== src/Ratelimit/Bucket/Bounds.antt =====
-- token_bucket.go: the bounds of one bucket, over all its methods, for arguments that are not negative.
use sentra_lab.Base.{
  ℕ, ◌+◌, ◌≤◌, ◌-◌, ◌≡◌, true, arith, ℤ, pos, sub_ℕ, List, [], ◌∷◌, Bool-cases, inl, inr,
}
use sentra_lab.Base.Float64.{Float64, IsFloat64, ◌≼◌, nought}
use sentra_lab.Store.{Time}
use sentra_lab.Ratelimit.Bucket.{
  TokenBucket, new_token_bucket, per_second, min, refill, covers, spend, allow, allow_with_info,
  get_state, reset, set_capacity, set_refill_rate, time_until_available, wait_for_tokens,
}

pub record IsSound {F : Type 0} ⦃fl : Float64 F⦄ (tb : TokenBucket F) : Type 0 where
  pub tokens_nonneg : nought ≼ tb.tokens
  pub tokens_le : tb.tokens ≼ fl.of_int tb.capacity
  pub rate_nonneg : nought ≼ tb.refill_rate
  pub rate_finite : fl.is_finite tb.refill_rate ≡ true

-- The methods, with their arguments; a count of tokens, a capacity or a rate is not negative.
pub data Call : Type 0 where
  allow_call allow_with_info_call time_until_call : ℕ → Call
  get_state_call reset_call : Call
  set_capacity_call set_refill_rate_call : ℕ → Call
  wait_for_call : ℕ → ℤ → Call

unfoldable pub perform : {F : Type 0} ⦃fl : Float64 F⦄ → Time → Call → TokenBucket F → TokenBucket F
perform now (Call.allow_call n) tb = (allow now (pos n) tb).1
perform now (Call.allow_with_info_call n) tb = (allow_with_info now (pos n) tb).1
perform now (Call.time_until_call n) tb = (time_until_available now (pos n) tb).1
perform now Call.get_state_call tb = (get_state now tb).1
perform now Call.reset_call tb = reset now tb
perform now (Call.set_capacity_call n) tb = set_capacity (pos n) tb
perform now (Call.set_refill_rate_call n) tb = set_refill_rate (pos n) tb
perform now (Call.wait_for_call n max_wait) tb = (wait_for_tokens now (pos n) max_wait tb).1

-- Each call reads the clock some nanoseconds after the last refill.
unfoldable pub run : {F : Type 0} ⦃fl : Float64 F⦄ → List (ℕ × Call) → TokenBucket F → TokenBucket F
run [] tb = tb
run ((later, c) ∷ cs) tb = run cs (perform (tb.last_refill + later) c tb)

module _ {F : Type 0} ⦃fl : Float64 F⦄ (laws : IsFloat64 F) where
  open laws use {
    le_trans, refl_of_le, le_of_lt, le_of_not_lt, of_int_mono, of_int_finite, finite_of_le,
    seconds_nonneg, add_nonneg, mul_nonneg, div_nonneg, sub_nonneg, sub_le,
  }

  of_int_nonneg : (n : ℕ) → nought ≼ fl.of_int (pos n)
  of_int_nonneg n = of_int_mono (pos 0) (pos n) (omega arith)

  per_second_nonneg :
      (n : ℕ)
      → (nought ≼ per_second {F = F} (pos n)) × (fl.is_finite (per_second {F = F} (pos n)) ≡ true)
  unfolding per_second
  per_second_nonneg n =
      div_nonneg (fl.of_int (pos n)) (fl.of_int (pos 60)) (of_int_nonneg n) (of_int_finite (pos n))
        (of_int_mono (pos 1) (pos 60) (omega arith))

  pub new_token_bucket-IsSound :
      (now : Time) (cap rate : ℕ) → IsSound (new_token_bucket {F = F} now (pos cap) (pos rate))
  unfolding new_token_bucket
  new_token_bucket-IsSound now cap rate = record {
    tokens_nonneg = of_int_nonneg cap;
    tokens_le = of_int_mono (pos cap) (pos cap) (omega arith);
    rate_nonneg = (per_second_nonneg rate).0;
    rate_finite = (per_second_nonneg rate).1;
  }

  min_bounds : (a b : F) → (nought ≼ a) → (nought ≼ b) → (nought ≼ min a b) × (min a b ≼ b)
  unfolding min
  min_bounds a b p q = elim (Bool-cases (fl.lt a b)) [
    | inl less ↦ rw less (p, le_of_lt a b less)
    | inr more ↦ rw more (q, (refl_of_le nought b q).1)
  ]

  elapsed-eq : (a b : ℕ) → b ≤ a → sub_ℕ a b ≡ pos (a - b)
  elapsed-eq a b h = ground arith

  -- The tokens that a refill adds before it caps them.
  earned_nonneg :
      (now : Time) (tb : TokenBucket F)
      → tb.last_refill ≤ now
      → IsSound tb
      → nought ≼ fl.add tb.tokens (fl.mul (fl.seconds (sub_ℕ now tb.last_refill)) tb.refill_rate)
  earned_nonneg now tb later h = rw (elapsed-eq now tb.last_refill later) (
      let s = seconds_nonneg (now - tb.last_refill) in
      add_nonneg _ _ h.tokens_nonneg (mul_nonneg _ _ s.0 s.1 h.rate_nonneg h.rate_finite))

  capacity_nonneg : (tb : TokenBucket F) → IsSound tb → nought ≼ fl.of_int tb.capacity
  capacity_nonneg tb h = le_trans nought tb.tokens _ h.tokens_nonneg h.tokens_le

  pub refill-IsSound :
      (now : Time) (tb : TokenBucket F)
      → tb.last_refill ≤ now
      → IsSound tb
      → IsSound (refill now tb)
  unfolding refill
  refill-IsSound now tb later h =
      let bounds = min_bounds _ _ (earned_nonneg now tb later h) (capacity_nonneg tb h) in
      record {
        tokens_nonneg = bounds.0;
        tokens_le = bounds.1;
        rate_nonneg = h.rate_nonneg;
        rate_finite = h.rate_finite;
      }

  pub tokens_finite : (tb : TokenBucket F) → IsSound tb → fl.is_finite tb.tokens ≡ true
  tokens_finite tb h = finite_of_le _ _ h.tokens_nonneg h.tokens_le (of_int_finite tb.capacity)

  pub spend-IsSound :
      (n : ℕ) (tb : TokenBucket F)
      → covers tb (pos n) ≡ true
      → IsSound tb
      → IsSound (spend (pos n) tb)
  unfolding spend covers
  spend-IsSound n tb enough h = record {
    tokens_nonneg = sub_nonneg tb.tokens (fl.of_int (pos n)) (tokens_finite tb h) enough;
    tokens_le =
        le_trans _ _ _ (sub_le tb.tokens (fl.of_int (pos n)) (tokens_finite tb h) (of_int_nonneg n))
          h.tokens_le;
    rate_nonneg = h.rate_nonneg;
    rate_finite = h.rate_finite;
  }

  reset-IsSound : (now : Time) (tb : TokenBucket F) → IsSound tb → IsSound (reset now tb)
  unfolding reset
  reset-IsSound now tb h = record {
    tokens_nonneg = capacity_nonneg tb h;
    tokens_le = (refl_of_le _ _ h.tokens_le).1;
    rate_nonneg = h.rate_nonneg;
    rate_finite = h.rate_finite;
  }

  set_capacity-IsSound :
      (n : ℕ) (tb : TokenBucket F) → IsSound tb → IsSound (set_capacity (pos n) tb)
  unfolding set_capacity
  set_capacity-IsSound n tb h =
      let cap = of_int_mono (pos n) (pos n) (omega arith) in
      let own = (refl_of_le _ _ h.tokens_nonneg).1 in
      elim (Bool-cases (fl.lt (fl.of_int (pos n)) tb.tokens)) [
        | inl over ↦ record {
          tokens_nonneg = rw over (of_int_nonneg n);
          tokens_le = rw over cap;
          rate_nonneg = h.rate_nonneg;
          rate_finite = h.rate_finite;
        }
        | inr within ↦ record {
          tokens_nonneg = rw within h.tokens_nonneg;
          tokens_le = rw within (le_of_not_lt _ _ cap own within);
          rate_nonneg = h.rate_nonneg;
          rate_finite = h.rate_finite;
        }
      ]

  set_refill_rate-IsSound :
      (n : ℕ) (tb : TokenBucket F) → IsSound tb → IsSound (set_refill_rate (pos n) tb)
  unfolding set_refill_rate
  set_refill_rate-IsSound n tb h = record {
    tokens_nonneg = h.tokens_nonneg;
    tokens_le = h.tokens_le;
    rate_nonneg = (per_second_nonneg n).0;
    rate_finite = (per_second_nonneg n).1;
  }

  pub allow-IsSound :
      (now : Time) (n : ℕ) (tb : TokenBucket F)
      → tb.last_refill ≤ now
      → IsSound tb
      → IsSound (allow now (pos n) tb).1
  unfolding allow
  allow-IsSound now n tb later h =
      let full = refill-IsSound now tb later h in
      elim (Bool-cases (covers (refill now tb) (pos n))) [
        | inl enough ↦ rw enough (spend-IsSound n (refill now tb) enough full)
        | inr short ↦ rw short full
      ]

  pub allow_with_info-IsSound :
      (now : Time) (n : ℕ) (tb : TokenBucket F)
      → tb.last_refill ≤ now
      → IsSound tb
      → IsSound (allow_with_info now (pos n) tb).1
  unfolding allow_with_info
  allow_with_info-IsSound now n tb later h =
      let full = refill-IsSound now tb later h in
      elim (Bool-cases (covers (refill now tb) (pos n))) [
        | inl enough ↦ rw enough (spend-IsSound n (refill now tb) enough full)
        | inr short ↦ rw short full
      ]

  pub perform-IsSound :
      (now : Time) (c : Call) (tb : TokenBucket F)
      → tb.last_refill ≤ now
      → IsSound tb
      → IsSound (perform now c tb)
  unfolding perform time_until_available get_state wait_for_tokens
  perform-IsSound now (Call.allow_call n) tb later h = allow-IsSound now n tb later h
  perform-IsSound now (Call.allow_with_info_call n) tb later h =
      allow_with_info-IsSound now n tb later h
  perform-IsSound now (Call.time_until_call n) tb later h = refill-IsSound now tb later h
  perform-IsSound now Call.get_state_call tb later h = refill-IsSound now tb later h
  perform-IsSound now Call.reset_call tb later h = reset-IsSound now tb h
  perform-IsSound now (Call.set_capacity_call n) tb later h = set_capacity-IsSound n tb h
  perform-IsSound now (Call.set_refill_rate_call n) tb later h = set_refill_rate-IsSound n tb h
  perform-IsSound now (Call.wait_for_call n max_wait) tb later h = refill-IsSound now tb later h

  run-IsSound : (cs : List (ℕ × Call)) (tb : TokenBucket F) → IsSound tb → IsSound (run cs tb)
  unfolding run
  run-IsSound [] tb h = h
  run-IsSound ((later, c) ∷ cs) tb h =
      run-IsSound cs (perform (tb.last_refill + later) c tb)
        (perform-IsSound (tb.last_refill + later) c tb (omega arith) h)

  -- From a new bucket whose capacity and rate are not negative, after any calls one after another
  -- whose counts of tokens, capacities and rates are not negative, at times that do not run
  -- backwards, the bucket holds between no tokens and its capacity, and its rate is neither negative
  -- nor infinite.
  pub run_bounds :
      (start : Time) (cap rate : ℕ) (cs : List (ℕ × Call))
      → IsSound (run cs (new_token_bucket {F = F} start (pos cap) (pos rate)))
  run_bounds start cap rate cs = run-IsSound cs _ (new_token_bucket-IsSound start cap rate)
