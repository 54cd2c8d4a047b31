-- ===== src/Ratelimit/Dual/Charges.antt =====
-- What a check of the pair of buckets charges to each of them.
use sentra_lab.Base.{
  ℕ, ◌≤◌, ◌≡◌, sym, ◌∙◌, Bool, true, false, ◌&&◌, arith, if◌then◌else◌, ℤ, pos, Bool-cases, inl,
  inr,
}
use sentra_lab.Base.Float64.{Float64, IsFloat64, ◌≼◌}
use mathlib.Core.Path.{subst}
use sentra_lab.Store.{Time}
use sentra_lab.Ratelimit.Bucket.{TokenBucket, refill, covers, spend, allow_with_info}
use sentra_lab.Ratelimit.Bucket.Bounds.{
  IsSound, refill-IsSound, spend-IsSound, tokens_finite, allow_with_info-IsSound,
}
use sentra_lab.Ratelimit.Dual.{
  LimitType, DualTokenBucket, refund, dual_allow, determine_limiting_factor,
}

abbrev pub factor : Bool → Bool → LimitType
factor true true = LimitType.no_limit
factor false _ = LimitType.request_limit
factor true false = LimitType.token_limit

module _ {F : Type 0} ⦃fl : Float64 F⦄ where
  abbrev pub has_request : Time → DualTokenBucket F → Bool
  has_request now dtb = covers (refill now dtb.request_bucket) (pos 1)

  abbrev pub has_tokens : Time → ℤ → DualTokenBucket F → Bool
  has_tokens now n dtb = covers (refill now dtb.token_bucket) n

  module _ (t u : Time) (n : ℤ) (dtb : DualTokenBucket F) where
    -- A check passes exactly if the refilled request bucket covers one request and the refilled token
    -- bucket covers the tokens; and the limiting factor it reports is none if it passes, the requests
    -- if they fall short, and else the tokens.
    pub dual_allow-decides :
        ((dual_allow t u n dtb).0.allowed ≡ (has_request t dtb && has_tokens u n dtb))
        × ((dual_allow t u n dtb).0.limiting_factor
            ≡ factor (has_request t dtb) (has_tokens u n dtb))
    unfolding dual_allow allow_with_info determine_limiting_factor covers
    dual_allow-decides = (ground arith, ground arith)

    -- What the check leaves of the request bucket: charged if it passes, charged and refunded if only
    -- the tokens fall short, and merely refilled if the requests do.
    pub dual_allow-requests : (dual_allow t u n dtb).1.request_bucket ≡ (
        if has_request t dtb
        then (if has_tokens u n dtb
            then spend (pos 1) (refill t dtb.request_bucket)
            else refund (spend (pos 1) (refill t dtb.request_bucket)))
        else refill t dtb.request_bucket)
    unfolding dual_allow allow_with_info
    dual_allow-requests = ground arith

    -- A check that fails for want of a request still charges the token bucket whenever that covers
    -- the tokens: nothing is refunded there.
    pub dual_allow-request_limit :
        (dual_allow t u n dtb).0.limiting_factor ≡ LimitType.request_limit
        → has_tokens u n dtb ≡ true
        → ((dual_allow t u n dtb).0.allowed ≡ false)
          × ((dual_allow t u n dtb).1.token_bucket ≡ spend n (refill u dtb.token_bucket))
    unfolding dual_allow allow_with_info determine_limiting_factor
    dual_allow-request_limit limited enough = (ground arith, ground arith)

capacity-dual_allow :
    {F : Type 0} ⦃fl : Float64 F⦄ (t u : Time) (n : ℤ) (dtb : DualTokenBucket F)
    → (dual_allow t u n dtb).1.request_bucket.capacity ≡ dtb.request_bucket.capacity
unfolding dual_allow allow_with_info refill
capacity-dual_allow t u n dtb = ground arith

-- Both buckets are sound, and the request bucket's capacity is a number that float64 has exactly.
pub record IsSoundPair {F : Type 0} ⦃fl : Float64 F⦄ (dtb : DualTokenBucket F) : Type 0 where
  pub requests_sound : IsSound dtb.request_bucket
  pub tokens_sound : IsSound dtb.token_bucket
  pub rpm : ℕ
  pub rpm_exact : rpm ≤ 9007199254740992
  pub requests_capacity : dtb.request_bucket.capacity ≡ pos rpm

module _ {F : Type 0} ⦃fl : Float64 F⦄ (laws : IsFloat64 F) where
  open laws use {sub_nonneg, add_nonneg, of_int_mono, sub_add_one_le, of_int_finite, finite_of_le}

  refund-IsSound :
      (tb : TokenBucket F) (rpm : ℕ)
      → rpm ≤ 9007199254740992
      → tb.capacity ≡ pos rpm
      → covers tb (pos 1) ≡ true
      → IsSound tb
      → IsSound (refund (spend (pos 1) tb))
  unfolding refund spend covers
  refund-IsSound tb rpm exact cap enough h = record {
    tokens_nonneg =
        add_nonneg _ _ (sub_nonneg tb.tokens (fl.of_int (pos 1)) (tokens_finite laws tb h) enough)
          (of_int_mono (pos 0) (pos 1) (omega arith));
    tokens_le =
        let held : tb.tokens ≼ fl.of_int (pos rpm) = rw cap at h.tokens_le in
        subst (λ c. fl.add (fl.sub tb.tokens (fl.of_int (pos 1))) (fl.of_int (pos 1)) ≼ fl.of_int c)
          (sym cap) (sub_add_one_le tb.tokens rpm exact enough held);
    rate_nonneg = h.rate_nonneg;
    rate_finite = h.rate_finite;
  }

  dual_allow-IsSound :
      (t u : Time) (n : ℤ) (dtb : DualTokenBucket F)
      → dtb.request_bucket.last_refill ≤ t
      → IsSoundPair dtb
      → IsSound (dual_allow t u n dtb).1.request_bucket
  dual_allow-IsSound t u n dtb later h =
      let full = refill-IsSound laws t dtb.request_bucket later h.requests_sound in
      rw (dual_allow-requests t u n dtb) (elim (Bool-cases (has_request t dtb)) [
        | inl enough ↦ rw enough (elim (Bool-cases (has_tokens u n dtb)) [
          | inl covered ↦ rw covered (spend-IsSound laws 1 _ enough full)
          | inr short ↦ rw short (
              refund-IsSound _ h.rpm h.rpm_exact (unfold refill in h.requests_capacity) enough full)
        ])
        | inr none_left ↦ rw none_left full
      ])

  -- A check for a number of tokens that is not negative keeps both buckets between no tokens and
  -- their capacity: the refund cannot overfill the request bucket.
  pub dual_allow-IsSoundPair :
      (t u : Time) (n : ℕ) (dtb : DualTokenBucket F)
      → dtb.request_bucket.last_refill ≤ t
      → dtb.token_bucket.last_refill ≤ u
      → IsSoundPair dtb
      → IsSoundPair (dual_allow t u (pos n) dtb).1
  dual_allow-IsSoundPair t u n dtb lt lu h = record {
    requests_sound = dual_allow-IsSound t u (pos n) dtb lt h;
    tokens_sound =
        unfold dual_allow in allow_with_info-IsSound laws u n dtb.token_bucket lu h.tokens_sound;
    rpm = h.rpm;
    rpm_exact = h.rpm_exact;
    requests_capacity = capacity-dual_allow t u (pos n) dtb ∙ h.requests_capacity;
  }
