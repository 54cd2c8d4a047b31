-- ===== src/Tests/LimiterTests.antt =====
-- The buckets of the limiter at concrete inputs, over whole numbers in place of float64.
use sentra_lab.Base.{
  ℕ, refl, true, List, [], ◌∷◌, arith, pos, lookup, insert, str_eq, Bool-cases, inl, inr,
}
use sentra_lab.Base.Float64.{whole_float64, whole-IsFloat64}
use sentra_lab.Store.{Time}
use sentra_lab.Ratelimit.Bucket.{new_token_bucket, refill, min, covers, spend, allow_with_info}
use sentra_lab.Ratelimit.Dual.{DualTokenBucket, new_dual_token_bucket, dual_allow, refund}
use sentra_lab.Ratelimit.Dual.Charges.{IsSoundPair}
use sentra_lab.Ratelimit.Tier.{
  get_model_limit, TierRegistry, get_model_limit_or_default, get_tier, conservative,
}
use sentra_lab.Ratelimit.Limiter.{
  Readings, new_limiter, allow, check, get_key_limiter, get_bucket, write_back, count_result,
}
use sentra_lab.Ratelimit.Limiter.Counts.{Call, perform}
use sentra_lab.Ratelimit.Limiter.Bounds.{IsSane}
use sentra_lab.Ratelimit.Limiter.Bounds.Calls.{run_timed, run_timed-IsSoundPair}

-- One tier, with one model.
abbrev small_registry : TierRegistry
small_registry = record {
  tiers =
      (
        "free",
        record {
          name = "free";
          description = "";
          model_limits =
              (
                "gpt-4",
                record {
                  model_id = "gpt-4";
                  rpm = pos 60;
                  tpm = pos 600;
                  rpd = pos 0;
                  tpd = pos 0;
                },
              )
              ∷ [];
        },
      )
      ∷ [];
  default_tier = "free";
}

small_registry-IsSane : IsSane small_registry
unfolding get_model_limit_or_default get_model_limit get_tier lookup conservative
small_registry-IsSane tier model = elim (Bool-cases (str_eq "gpt-4" model)) [
  | inl known ↦ (60, 600, omega arith, ground arith, ground arith)
  | inr unknown ↦ (60, 100000, omega arith, ground arith, ground arith)
]

abbrev at_five : Readings
at_five = record { made = 5; requests = 5; tokens = 5 }

-- The second check has its request refunded.
abbrev two_checks : List (Time × Call)
two_checks =
    (5, Call.allow_call at_five "a" "gpt-4" (pos 10))
    ∷ (6, Call.allow_call at_five "a" "gpt-4" (pos 5000))
    ∷ []

abbrev kept_bucket : DualTokenBucket ℕ
kept_bucket = record {
  request_bucket = record { capacity = pos 60; tokens = 59; refill_rate = 1; last_refill = 5 };
  token_bucket = record { capacity = pos 600; tokens = 590; refill_rate = 10; last_refill = 5 };
}

run_timed-IsSoundPair_example : IsSoundPair kept_bucket
unfolding run_timed perform allow check get_key_limiter get_bucket write_back count_result
    new_limiter lookup insert dual_allow new_dual_token_bucket new_token_bucket refill min covers
    spend allow_with_info refund get_model_limit get_model_limit_or_default get_tier
run_timed-IsSoundPair_example =
    run_timed-IsSoundPair whole-IsFloat64 5 small_registry true two_checks small_registry-IsSane
      ((omega arith, (10, refl)), ((omega arith, (5000, refl)), tt)) "a" "gpt-4"
      (record { api_key = "a"; tier = "free"; limiters = ("gpt-4", kept_bucket) ∷ [] }) kept_bucket
      refl refl
