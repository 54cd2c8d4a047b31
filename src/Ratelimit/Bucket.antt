-- ===== src/Ratelimit/Bucket.antt =====
-- ratelimit/token_bucket.go: one bucket. Each method runs under the bucket's mutex and takes the time
-- that `refill` reads. An `int` is an integer of ℤ, a `time.Duration` one in nanoseconds.
pub mod Bounds
pub mod Agreement
use sentra_lab.Base.{
  ℕ, String, Bool, true, false, not, if◌then◌else◌, ℤ, pos, sub_ℕ, ltb_ℤ, Result, ok, err,
}
use sentra_lab.Base.Float64.{Float64}
use sentra_lab.Store.{Time}

pub record TokenBucket (F : Type 0) : Type 0 where
  pub capacity : ℤ
  pub tokens : F
  -- tokens per second
  pub refill_rate : F
  pub last_refill : Time

pub record AllowResult : Type 0 where
  pub allowed : Bool
  pub remaining : ℤ
  pub reset_in : ℤ
  pub capacity : ℤ

pub record BucketState (F : Type 0) : Type 0 where
  pub capacity : ℤ
  pub available : ℤ
  pub refill_rate : F
  pub refill_per_min : F
  pub last_refill : Time
  pub fill_percentage : F

module _ {F : Type 0} ⦃fl : Float64 F⦄ where
  -- Tokens per minute as tokens per second.
  unfoldable pub per_second : ℤ → F
  per_second rate = fl.div (fl.of_int rate) (fl.of_int (pos 60))

  unfoldable pub new_token_bucket : Time → ℤ → ℤ → TokenBucket F
  unfolding per_second
  new_token_bucket now cap rate = record {
    capacity = cap;
    tokens = fl.of_int cap;
    refill_rate = per_second rate;
    last_refill = now;
  }

  unfoldable pub min : F → F → F
  min a b = if fl.lt a b then a else b

  unfoldable pub refill : Time → TokenBucket F → TokenBucket F
  refill now tb =
      let elapsed = sub_ℕ now tb.last_refill in
      let tokens_to_add = fl.mul (fl.seconds elapsed) tb.refill_rate in
      record tb {
        tokens = min (fl.add tb.tokens tokens_to_add) (fl.of_int tb.capacity);
        last_refill = now;
      }

  -- tb.tokens >= float64(n)
  unfoldable pub covers : TokenBucket F → ℤ → Bool
  covers tb n = fl.le (fl.of_int n) tb.tokens

  -- tb.tokens -= float64(n)
  unfoldable pub spend : ℤ → TokenBucket F → TokenBucket F
  spend n tb = record tb { tokens = fl.sub tb.tokens (fl.of_int n) }

  -- The nanoseconds in which the bucket, as it stands, comes to hold n tokens.
  unfoldable pub wait_for : ℤ → TokenBucket F → ℤ
  wait_for n tb =
      let needed = fl.sub (fl.of_int n) tb.tokens in
      fl.to_int (fl.mul (fl.div needed tb.refill_rate) (fl.of_int (pos 1000000000)))

  unfoldable pub allow : Time → ℤ → TokenBucket F → Bool × TokenBucket F
  unfolding covers spend
  allow now n tb =
      let full = refill now tb in if covers full n then (true, spend n full) else (false, full)

  unfoldable pub allow_with_info : Time → ℤ → TokenBucket F → AllowResult × TokenBucket F
  unfolding covers spend wait_for
  allow_with_info now n tb =
      let full = refill now tb in
      let left = if covers full n then spend n full else full in
      (
        record {
          allowed = covers full n;
          remaining = fl.to_int left.tokens;
          reset_in = if covers full n then pos 0 else wait_for n full;
          capacity = left.capacity;
        },
        left,
      )

  unfoldable pub get_state : Time → TokenBucket F → BucketState F × TokenBucket F
  get_state now tb =
      let full = refill now tb in
      (
        record {
          capacity = full.capacity;
          available = fl.to_int full.tokens;
          refill_rate = full.refill_rate;
          refill_per_min = fl.mul full.refill_rate (fl.of_int (pos 60));
          last_refill = full.last_refill;
          fill_percentage =
              fl.mul (fl.div full.tokens (fl.of_int full.capacity)) (fl.of_int (pos 100));
        },
        full,
      )

  unfoldable pub reset : Time → TokenBucket F → TokenBucket F
  reset now tb = record tb { tokens = fl.of_int tb.capacity; last_refill = now }

  unfoldable pub set_capacity : ℤ → TokenBucket F → TokenBucket F
  set_capacity cap tb = record tb {
    capacity = cap;
    tokens = if fl.lt (fl.of_int cap) tb.tokens then fl.of_int cap else tb.tokens;
  }

  unfoldable pub set_refill_rate : ℤ → TokenBucket F → TokenBucket F
  unfolding per_second
  set_refill_rate rate tb = record tb { refill_rate = per_second rate }

  unfoldable pub time_until_available : Time → ℤ → TokenBucket F → ℤ × TokenBucket F
  unfolding covers wait_for
  time_until_available now n tb =
      let full = refill now tb in (if covers full n then pos 0 else wait_for n full, full)

  -- The result is how long the call sleeps.
  unfoldable pub wait_for_tokens : Time → ℤ → ℤ → TokenBucket F → Result String ℤ × TokenBucket F
  unfolding time_until_available
  wait_for_tokens now n max_wait tb =
      let (wait, tb') = time_until_available now n tb in
      (
        if ltb_ℤ max_wait wait
            then err "tokens will not be available within max wait time"
            else ok wait,
        tb',
      )
