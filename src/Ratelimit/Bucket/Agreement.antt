-- ===== src/Ratelimit/Bucket/Agreement.antt =====
-- The three ways to ask a bucket for tokens agree with one another.
use sentra_lab.Base.{◌≡◌, arith, if◌then◌else◌, ℤ}
use sentra_lab.Base.Float64.{Float64}
use sentra_lab.Store.{Time}
use sentra_lab.Ratelimit.Bucket.{TokenBucket, refill, allow, allow_with_info, time_until_available}

module _ {F : Type 0} ⦃fl : Float64 F⦄ (now : Time) (n : ℤ) (tb : TokenBucket F) where
  -- Allow and AllowWithInfo give the same answer and leave the same bucket. What AllowWithInfo adds
  -- is the whole tokens left, the capacity, and the wait that TimeUntilAvailable would report.
  pub allow_with_info-allow :
      ((allow_with_info now n tb).0.allowed ≡ (allow now n tb).0)
      × ((allow_with_info now n tb).1 ≡ (allow now n tb).1)
      × ((allow_with_info now n tb).0.remaining ≡ fl.to_int (allow now n tb).1.tokens)
      × ((allow_with_info now n tb).0.capacity ≡ tb.capacity)
      × ((allow_with_info now n tb).0.reset_in ≡ (time_until_available now n tb).0)
  unfolding allow_with_info allow time_until_available refill
  allow_with_info-allow = (ground arith, ground arith, ground arith, ground arith, ground arith)

  -- A bucket that does not cover a request keeps all its tokens, and one that does gives up exactly
  -- those asked for.
  pub allow-tokens : (allow now n tb).1.tokens ≡ (
      if (allow now n tb).0
      then fl.sub (refill now tb).tokens (fl.of_int n)
      else (refill now tb).tokens)
  unfolding allow
  allow-tokens = ground arith
