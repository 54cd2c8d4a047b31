-- ===== src/Ratelimit/Limiter.antt =====
-- ratelimit/limiter.go: the limiter over all API keys. Each method is a function of the limiter, which
-- is what it does while no other call runs: Allow and GetLimitInfo hold no lock from their first step
-- to their last (Limiter/Overlap has the counters where checks overlap). The pointer to a key's
-- limiter is shared with the map, so what a call changes there is written back to the map. The calls
-- of the metrics package and the unused `storage` are left out.
pub mod Bounds
pub mod Counts
pub mod Keys
pub mod Overlap
pub mod Tiers
use sentra_lab.Base.{
  ℕ, String, Bool, true, false, Option, none, some, [], List, if◌then◌else◌, ℤ, pos, ltb_ℤ, add64,
  signed, length, ltb, Dict, lookup, insert, erase, Result, ok, err,
}
use sentra_lab.Base.Float64.{Float64}
use sentra_lab.Store.{Time}
use sentra_lab.Ratelimit.Bucket
use sentra_lab.Ratelimit.Dual.{
  DualTokenBucket, DualAllowResult, LimitType, new_dual_token_bucket, dual_allow, dual_get_state,
}
use sentra_lab.Ratelimit.Tier.{
  TierRegistry, TierError, ModelLimit, get_tier, get_default_tier, get_model_limit_or_default,
}

pub record KeyLimiter (F : Type 0) : Type 0 where
  pub api_key : String
  pub tier : String
  pub limiters : Dict (DualTokenBucket F)

pub record Limiter (F : Type 0) : Type 0 where
  pub registry : TierRegistry
  pub buckets : Dict (KeyLimiter F)
  pub enabled : Bool
  -- int64 counters
  pub total_checks : ℕ
  pub total_allowed : ℕ
  pub total_denied : ℕ

pub record LimitCheckResult : Type 0 where
  pub allowed : Bool
  pub requests_remaining : ℤ
  pub tokens_remaining : ℤ
  pub requests_reset_in : ℤ
  pub tokens_reset_in : ℤ
  pub limiting_factor : LimitType
  pub api_key : String
  pub model_id : String
  pub tier : String

pub record LimitInfo : Type 0 where
  pub api_key : String
  pub model_id : String
  pub tier : String
  pub request_limit : ℤ
  pub token_limit : ℤ
  pub requests_remaining : ℤ
  pub tokens_remaining : ℤ
  pub requests_fill_rate : ℤ
  pub tokens_fill_rate : ℤ

pub record LimiterStats (F : Type 0) : Type 0 where
  pub checks : ℕ
  pub allowed : ℕ
  pub denied : ℕ
  pub allow_rate : F
  pub tracked_keys : ℕ
  pub enabled : Bool

-- The times that one call reads: for a bucket that it makes, and for the two refills.
pub record Readings : Type 0 where
  pub made : Time
  pub requests : Time
  pub tokens : Time

unfoldable pub check_result : String → String → String → DualAllowResult → LimitCheckResult
check_result key model tier r = record {
  allowed = r.allowed;
  requests_remaining = r.requests_result.remaining;
  tokens_remaining = r.tokens_result.remaining;
  requests_reset_in = r.requests_result.reset_in;
  tokens_reset_in = r.tokens_result.reset_in;
  limiting_factor = r.limiting_factor;
  api_key = key;
  model_id = model;
  tier = tier;
}

-- The result of a disabled limiter; what it leaves out has its zero value.
unfoldable pub unlimited : LimitCheckResult
unlimited = record {
  allowed = true;
  requests_remaining = pos 0;
  tokens_remaining = pos 0;
  requests_reset_in = pos 0;
  tokens_reset_in = pos 0;
  limiting_factor = LimitType.no_limit;
  api_key = "";
  model_id = "";
  tier = "";
}

module _ {F : Type 0} where
  unfoldable pub new_limiter : TierRegistry → Bool → Limiter F
  new_limiter registry on = record {
    registry = registry;
    buckets = [];
    enabled = on;
    total_checks = 0;
    total_allowed = 0;
    total_denied = 0;
  }

  -- Every key has the default tier.
  unfoldable pub determine_tier : Limiter F → String → String
  unfolding get_default_tier
  determine_tier l key = get_default_tier l.registry

  unfoldable pub key_limiter_or : String → String → Option (KeyLimiter F) → KeyLimiter F
  key_limiter_or key tier none = record { api_key = key; tier = tier; limiters = [] }
  key_limiter_or key tier (some kl) = kl

  -- The limiter of the key, which the call leaves in the map.
  unfoldable pub get_key_limiter : String → Limiter F → KeyLimiter F × Limiter F
  unfolding determine_tier key_limiter_or
  get_key_limiter key l =
      let kl = key_limiter_or key (determine_tier l key) (lookup key l.buckets) in
      (kl, record l { buckets = insert key kl l.buckets })

  -- `SetTier`: no limiter is made for a key that has none.
  unfoldable pub retier : String → Option (KeyLimiter F) → Option (KeyLimiter F)
  retier tier none = none
  retier tier (some kl) = some (record kl { tier = tier; limiters = [] })

  unfoldable pub store_key : String → Option (KeyLimiter F) → Limiter F → Limiter F
  store_key key none l = l
  store_key key (some kl) l = record l { buckets = insert key kl l.buckets }

  unfoldable pub set_tier : String → String → Limiter F → Result TierError (Unit {0}) × Limiter F
  unfolding retier store_key
  set_tier key tier l = elim (get_tier l.registry tier) [
    | err e ↦ (err e, l)
    | ok t ↦ (ok tt, store_key key (retier tier (lookup key l.buckets)) l)
  ]

  unfoldable pub reset : String → Limiter F → Limiter F
  reset key l = record l { buckets = erase key l.buckets }

  unfoldable pub reset_all : Limiter F → Limiter F
  reset_all l = record l { buckets = []; total_checks = 0; total_allowed = 0; total_denied = 0 }

  -- The first step of Allow.
  unfoldable pub begin_check : Limiter F → Limiter F
  begin_check l = record l { total_checks = add64 l.total_checks 1 }

  -- The last step of Allow.
  unfoldable pub count_result : Bool → Limiter F → Limiter F
  count_result passed l = record l {
    total_allowed = if passed then add64 l.total_allowed 1 else l.total_allowed;
    total_denied = if passed then l.total_denied else add64 l.total_denied 1;
  }

  unfoldable pub enable : Limiter F → Limiter F
  enable l = record l { enabled = true }

  unfoldable pub disable : Limiter F → Limiter F
  disable l = record l { enabled = false }

  unfoldable pub is_enabled : Limiter F → Bool
  is_enabled l = l.enabled

module _ {F : Type 0} ⦃fl : Float64 F⦄ where
  unfoldable pub bucket_or : Time → ModelLimit → Option (DualTokenBucket F) → DualTokenBucket F
  bucket_or now limits none = new_dual_token_bucket now limits.rpm limits.tpm
  bucket_or now limits (some b) = b

  unfoldable pub get_bucket :
      Time → String → TierRegistry → KeyLimiter F → DualTokenBucket F × KeyLimiter F
  unfolding bucket_or
  get_bucket now model registry kl =
      let b =
        bucket_or now (get_model_limit_or_default registry kl.tier model)
          (lookup model kl.limiters) in
      (b, record kl { limiters = insert model b kl.limiters })

  -- The bucket as the check leaves it, behind the key's limiter in the map.
  unfoldable pub write_back :
      String → KeyLimiter F → String → DualTokenBucket F → Limiter F → Limiter F
  write_back key kl model b l = record l {
    buckets = insert key (record kl { limiters = insert model b kl.limiters }) l.buckets;
  }

  -- `Allow` past the test of `enabled`.
  unfoldable pub check : Readings → String → String → ℤ → Limiter F → LimitCheckResult × Limiter F
  check at key model n l =
      let (kl, l1) = get_key_limiter key l in
      let (bucket, kl') = get_bucket at.made model l1.registry kl in
      let (result, bucket') = dual_allow at.requests at.tokens n bucket in
      (
        check_result key model kl'.tier result,
        count_result result.allowed (write_back key kl' model bucket' l1),
      )

  -- No step of `Allow` fails, so its error is always nil and is left out.
  unfoldable pub allow : Readings → String → String → ℤ → Limiter F → LimitCheckResult × Limiter F
  unfolding unlimited begin_check
  allow at key model n l =
      let l1 = begin_check l in if l.enabled then check at key model n l1 else (unlimited, l1)

  unfoldable pub get_limit_info : Readings → String → String → Limiter F → LimitInfo × Limiter F
  get_limit_info at key model l =
      let (kl, l1) = get_key_limiter key l in
      let (bucket, kl') = get_bucket at.made model l1.registry kl in
      let (state, bucket') = dual_get_state at.requests at.tokens bucket in
      let limits = get_model_limit_or_default l1.registry kl'.tier model in
      (
        record {
          api_key = key;
          model_id = model;
          tier = kl'.tier;
          request_limit = limits.rpm;
          token_limit = limits.tpm;
          requests_remaining = state.request_state.available;
          tokens_remaining = state.token_state.available;
          requests_fill_rate = fl.to_int state.request_state.refill_per_min;
          tokens_fill_rate = fl.to_int state.token_state.refill_per_min;
        },
        write_back key kl' model bucket' l1,
      )

  unfoldable pub get_stats : Limiter F → LimiterStats F
  get_stats l = record {
    checks = l.total_checks;
    allowed = l.total_allowed;
    denied = l.total_denied;
    allow_rate =
        if ltb_ℤ (pos 0) (signed l.total_checks)
        then fl.mul
            (fl.div (fl.of_int (signed l.total_allowed)) (fl.of_int (signed l.total_checks)))
            (fl.of_int (pos 100))
        else fl.of_int (pos 0);
    tracked_keys = length l.buckets;
    enabled = l.enabled;
  }
