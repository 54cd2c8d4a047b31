-- ===== src/Ratelimit/Dual.antt =====
-- ratelimit/token_bucket.go: the pair of a request bucket and a token bucket. Allow runs under the
-- pair's mutex, and each bucket reads the clock for itself.
pub mod Charges
use sentra_lab.Base.{ℕ, Bool, true, false, not, ◌&&◌, if◌then◌else◌, ℤ, pos, String}
use sentra_lab.Base.Float64.{Float64}
use sentra_lab.Store.{Time}
use sentra_lab.Ratelimit.Bucket
use sentra_lab.Ratelimit.Bucket.{
  TokenBucket, AllowResult, BucketState, new_token_bucket, allow_with_info, get_state, reset,
  set_capacity, set_refill_rate,
}

pub data LimitType : Type 0 where
  no_limit request_limit token_limit : LimitType

pub record DualTokenBucket (F : Type 0) : Type 0 where
  pub request_bucket : TokenBucket F
  pub token_bucket : TokenBucket F

pub record DualAllowResult : Type 0 where
  pub allowed : Bool
  pub requests_result : AllowResult
  pub tokens_result : AllowResult
  pub limiting_factor : LimitType

pub record DualBucketState (F : Type 0) : Type 0 where
  pub request_state : BucketState F
  pub token_state : BucketState F

unfoldable pub determine_limiting_factor : AllowResult → AllowResult → LimitType
determine_limiting_factor req tok =
    if req.allowed && tok.allowed
    then LimitType.no_limit
    else if not req.allowed
    then LimitType.request_limit
    else if not tok.allowed
    then LimitType.token_limit
    else LimitType.no_limit

module _ {F : Type 0} ⦃fl : Float64 F⦄ where
  unfoldable pub new_dual_token_bucket : Time → ℤ → ℤ → DualTokenBucket F
  unfolding new_token_bucket
  new_dual_token_bucket now rpm tpm = record {
    request_bucket = new_token_bucket now rpm rpm;
    token_bucket = new_token_bucket now tpm tpm;
  }

  -- requestBucket.tokens += 1
  unfoldable pub refund : TokenBucket F → TokenBucket F
  refund tb = record tb { tokens = fl.add tb.tokens (fl.of_int (pos 1)) }

  unfoldable pub dual_allow :
      Time → Time → ℤ → DualTokenBucket F → DualAllowResult × DualTokenBucket F
  unfolding refund
  dual_allow now_requests now_tokens n dtb =
      let (req, requests) = allow_with_info now_requests (pos 1) dtb.request_bucket in
      let (tok, tokens) = allow_with_info now_tokens n dtb.token_bucket in
      (
        record {
          allowed = req.allowed && tok.allowed;
          requests_result = req;
          tokens_result = tok;
          limiting_factor = determine_limiting_factor req tok;
        },
        record {
          request_bucket = if req.allowed && not tok.allowed then refund requests else requests;
          token_bucket = tokens;
        },
      )

  unfoldable pub dual_get_state :
      Time → Time → DualTokenBucket F → DualBucketState F × DualTokenBucket F
  dual_get_state now_requests now_tokens dtb =
      let (req, requests) = get_state now_requests dtb.request_bucket in
      let (tok, tokens) = get_state now_tokens dtb.token_bucket in
      (
        record { request_state = req; token_state = tok },
        record { request_bucket = requests; token_bucket = tokens },
      )

  unfoldable pub dual_reset : Time → Time → DualTokenBucket F → DualTokenBucket F
  dual_reset now_requests now_tokens dtb = record {
    request_bucket = reset now_requests dtb.request_bucket;
    token_bucket = reset now_tokens dtb.token_bucket;
  }

  unfoldable pub set_limits : ℤ → ℤ → DualTokenBucket F → DualTokenBucket F
  set_limits rpm tpm dtb = record {
    request_bucket = set_refill_rate rpm (set_capacity rpm dtb.request_bucket);
    token_bucket = set_refill_rate tpm (set_capacity tpm dtb.token_bucket);
  }
