-- ===== src/Tests/RatelimitTests.antt =====
-- The rate limiter at concrete inputs, over whole numbers in place of float64.
use sentra_lab.Base.{
  ℕ, ◌<◌, ◌≡◌, refl, ◌↔◌, true, false, none, List, [], ◌∷◌, arith, ok, lookup, insert, pos, str_eq,
  length,
}
use sentra_lab.Base.Float64.{whole_float64, whole-IsFloat64}
use sentra_lab.Ratelimit.Bucket.{
  TokenBucket, new_token_bucket, refill, min, covers, spend, allow_with_info,
}
use sentra_lab.Ratelimit.Bucket.Bounds
use sentra_lab.Ratelimit.Bucket.Bounds.{IsSound, run_bounds, new_token_bucket-IsSound}
use sentra_lab.Ratelimit.Dual.{
  DualTokenBucket, LimitType, new_dual_token_bucket, dual_allow, determine_limiting_factor,
}
use sentra_lab.Ratelimit.Dual.Charges.{
  IsSoundPair, dual_allow-decides, dual_allow-request_limit, has_tokens,
}
use sentra_lab.Ratelimit.Tier.{get_tier, get_model_limit_or_default, validate_tier}
use sentra_lab.Ratelimit.Tier.Defaults.{new_tier_registry, free_tier, tier1, tier5}
use sentra_lab.Ratelimit.Tier.Validation.{AreValid, validate_tier_iff}
use sentra_lab.Ratelimit.Tier.Registry.{HasDefault, Change}
use sentra_lab.Ratelimit.Limiter
use sentra_lab.Ratelimit.Limiter.{
  Limiter, KeyLimiter, Readings, new_limiter, check_result, begin_check, count_result, disable,
}
use sentra_lab.Ratelimit.Limiter.Overlap.{Checks}
use sentra_lab.Ratelimit.Limiter.Keys.{key_at, other_keys}
use sentra_lab.Ratelimit.Limiter.Tiers.{set_tier-absent, set_tier-present}

abbrev second : ℕ
second = 1000000000

abbrev bucket_calls : List (ℕ × Bounds.Call)
bucket_calls =
    (0, Bounds.Call.allow_call 50)
    ∷ (second, Bounds.Call.allow_with_info_call 30)
    ∷ (0, Bounds.Call.set_capacity_call 10)
    ∷ (second, Bounds.Call.wait_for_call 90 (pos second))
    ∷ []

run_bounds_example :
    IsSound (Bounds.run bucket_calls (new_token_bucket {F = ℕ} 5 (pos 60) (pos 120)))
run_bounds_example = run_bounds whole-IsFloat64 5 60 120 bucket_calls

-- 60 of 60 tokens, and one more each second.
abbrev full_bucket : TokenBucket ℕ
full_bucket = record { capacity = pos 60; tokens = 60; refill_rate = 1; last_refill = 5 }

abbrev spent_bucket : TokenBucket ℕ
spent_bucket = record { capacity = pos 60; tokens = 0; refill_rate = 1; last_refill = 5 }

-- No request left, and tokens enough.
abbrev drained : DualTokenBucket ℕ
drained = record { request_bucket = spent_bucket; token_bucket = full_bucket }

dual_allow-decides_example :
    ((dual_allow 5 5 (pos 40) drained).0.allowed ≡ false)
    × ((dual_allow 5 5 (pos 40) drained).0.limiting_factor ≡ LimitType.request_limit)
unfolding covers refill min
dual_allow-decides_example = dual_allow-decides 5 5 (pos 40) drained

requests_run_out : (dual_allow 5 5 (pos 40) drained).0.limiting_factor ≡ LimitType.request_limit
unfolding dual_allow allow_with_info covers refill min determine_limiting_factor
requests_run_out = refl

tokens_suffice : has_tokens 5 (pos 40) drained ≡ true
unfolding covers refill min
tokens_suffice = refl

dual_allow-request_limit_example :
    ((dual_allow 5 5 (pos 40) drained).0.allowed ≡ false)
    × ((dual_allow 5 5 (pos 40) drained).1.token_bucket ≡ spend (pos 40) (refill 5 full_bucket))
dual_allow-request_limit_example =
    dual_allow-request_limit 5 5 (pos 40) drained requests_run_out tokens_suffice

new_pair-IsSoundPair : IsSoundPair (new_dual_token_bucket {F = ℕ} 5 (pos 60) (pos 120))
unfolding new_dual_token_bucket
new_pair-IsSoundPair = record {
  requests_sound = new_token_bucket-IsSound whole-IsFloat64 5 60 60;
  tokens_sound = new_token_bucket-IsSound whole-IsFloat64 5 120 120;
  rpm = 60;
  rpm_exact = omega arith;
  requests_capacity = refl;
}

validate_tier_iff_example :
    (validate_tier tier1 ≡ none)
    ↔ ((str_eq "tier1" "" ≡ false) × (0 < length tier1.model_limits) × AreValid tier1.model_limits)
validate_tier_iff_example = validate_tier_iff tier1

free_is_there : get_tier (new_tier_registry "tier1") "free" ≡ ok free_tier
unfolding get_tier new_tier_registry lookup insert
free_is_there = refl

starts_with_default : HasDefault (new_tier_registry "tier1")
unfolding new_tier_registry lookup insert
starts_with_default = (tier1, refl)

abbrev some_changes : List Change
some_changes =
    Change.delete_change "tier1"
    ∷ Change.set_default_change "tier5"
    ∷ Change.delete_change "tier1"
    ∷ Change.set_change (record tier5 { description = "renewed" })
    ∷ []

abbrev start : Limiter ℕ
start = record {
  registry = new_tier_registry "tier1";
  buckets = [];
  enabled = true;
  total_checks = 0;
  total_allowed = 0;
  total_denied = 0;
}

abbrev readings : Readings
readings = record { made = 5; requests = 6; tokens = 7 }

abbrev new_small : Limiter ℕ
new_small = new_limiter (new_tier_registry "tier1") true

-- Two checks overlap, the limiter goes off in between, and the first is allowed.
abbrev at_once : Checks ℕ
at_once = record {
  limiter = disable (count_result true (begin_check (begin_check new_small)));
  begun = 0;
  admitted = 0;
  bypassed = 1;
}

other_keys_example :
    (key_at (Limiter.allow readings "a" "gpt-4o" (pos 9) start).1 "b" ≡ none)
    × (key_at (Limiter.get_limit_info readings "a" "gpt-4o" start).1 "b" ≡ none)
    × (key_at (Limiter.set_tier "a" "tier2" start).1 "b" ≡ none)
    × (key_at (Limiter.reset "a" start) "b" ≡ none)
unfolding lookup
other_keys_example = other_keys readings "a" "b" "gpt-4o" "tier2" (pos 9) start refl

set_tier-absent_example :
    (Limiter.set_tier "a" "free" start ≡ (ok tt, start))
    × ((Limiter.allow readings "a" "gpt-4o" (pos 9) (Limiter.set_tier "a" "free" start).1).0.tier
        ≡ "tier1")
unfolding lookup new_tier_registry
set_tier-absent_example =
    set_tier-absent readings "a" "free" "gpt-4o" (pos 9) free_tier start free_is_there refl refl

abbrev known : KeyLimiter ℕ
known = record { api_key = "a"; tier = "tier1"; limiters = [] }

abbrev after_a : Limiter ℕ
after_a = record start { buckets = ("a", known) ∷ [] }

set_tier-present_example :
    let limits = get_model_limit_or_default (new_tier_registry "tier1") "free" "gpt-4o" in
    let fresh = new_dual_token_bucket {F = ℕ} 5 limits.rpm limits.tpm in
    (Limiter.allow readings "a" "gpt-4o" (pos 9) (Limiter.set_tier "a" "free" after_a).1).0
    ≡ check_result "a" "gpt-4o" "free" (dual_allow 6 7 (pos 9) fresh).0
unfolding lookup
set_tier-present_example =
    set_tier-present readings "a" "free" "gpt-4o" (pos 9) free_tier known after_a free_is_there refl
      refl
