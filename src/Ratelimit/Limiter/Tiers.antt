-- ===== src/Ratelimit/Limiter/Tiers.antt =====
-- The tier of an API key, and what SetTier does to it.
use sentra_lab.Base.{
  String, ◌≡◌, refl, ◌∙◌, ap, true, none, some, [], arith, str_eq_refl, ℤ, lookup, insert,
  lookup-insert, ok, err,
}
use sentra_lab.Base.Float64.{Float64}
use sentra_lab.Ratelimit.Dual.{dual_allow, new_dual_token_bucket}
use sentra_lab.Ratelimit.Tier.{Tier, TierError, get_model_limit_or_default, get_tier}
use sentra_lab.Ratelimit.Limiter.{
  Limiter, KeyLimiter, Readings, allow, check, check_result, set_tier, get_key_limiter,
  key_limiter_or, get_bucket, bucket_or,
}

module _ {F : Type 0} ⦃fl : Float64 F⦄ where
  -- SetTier of an unknown tier is an error and changes nothing.
  pub set_tier-unknown :
      (key tier : String) (e : TierError) (l : Limiter F)
      → get_tier l.registry tier ≡ err e
      → set_tier key tier l ≡ (err e, l)
  unfolding set_tier
  set_tier-unknown key tier e l h = ground arith

  tier-allow_absent :
      (at : Readings) (key model : String) (n : ℤ) (l : Limiter F)
      → l.enabled ≡ true
      → lookup key l.buckets ≡ none
      → (allow at key model n l).0.tier ≡ l.registry.default_tier
  unfolding allow check check_result get_key_limiter get_bucket
  tier-allow_absent at key model n l on absent = ground arith

  -- SetTier of a known tier for a key that the limiter has not seen yet reports success, but is lost:
  -- nothing changes, and the key's next check is made under the default tier.
  pub set_tier-absent :
      (at : Readings) (key tier model : String) (n : ℤ) (t : Tier) (l : Limiter F)
      → get_tier l.registry tier ≡ ok t
      → l.enabled ≡ true
      → lookup key l.buckets ≡ none
      → (set_tier key tier l ≡ (ok tt, l))
        × ((allow at key model n (set_tier key tier l).1).0.tier ≡ l.registry.default_tier)
  set_tier-absent at key tier model n t l known on absent =
      let same : set_tier key tier l ≡ (ok tt, l) = unfold set_tier in ground arith in
      (
        same,
        ap (λ x. (allow at key model n x.1).0.tier) same
            ∙ tier-allow_absent at key model n l on absent,
      )

  result-allow_known :
      (at : Readings) (key model : String) (n : ℤ) (kl : KeyLimiter F) (l : Limiter F)
      → l.enabled ≡ true
      → lookup key l.buckets ≡ some kl
      → let limits = get_model_limit_or_default l.registry kl.tier model in
        let bucket = bucket_or at.made limits (lookup model kl.limiters) in
        (allow at key model n l).0
        ≡ check_result key model kl.tier (dual_allow at.requests at.tokens n bucket).0
  unfolding allow check get_key_limiter get_bucket key_limiter_or
  result-allow_known at key model n kl l on known = rw on (rw (known, key_limiter_or) refl)

  set_tier-eq :
      (key tier : String) (t : Tier) (kl : KeyLimiter F) (l : Limiter F)
      → get_tier l.registry tier ≡ ok t
      → lookup key l.buckets ≡ some kl
      → (set_tier key tier l).1
        ≡ record l { buckets = insert key (record kl { tier = tier; limiters = [] }) l.buckets }
  unfolding set_tier
  set_tier-eq key tier t kl l known present = ground arith

  -- SetTier of a known tier for a key that the limiter has: the key's next check is made under that
  -- tier, against full buckets of that tier's limits, whatever was spent before.
  pub set_tier-present :
      (at : Readings) (key tier model : String) (n : ℤ) (t : Tier) (kl : KeyLimiter F)
      (l : Limiter F)
      → get_tier l.registry tier ≡ ok t
      → l.enabled ≡ true
      → lookup key l.buckets ≡ some kl
      → let limits = get_model_limit_or_default l.registry tier model in
        let fresh = new_dual_token_bucket {F = F} at.made limits.rpm limits.tpm in
        (allow at key model n (set_tier key tier l).1).0
        ≡ check_result key model tier (dual_allow at.requests at.tokens n fresh).0
  unfolding bucket_or lookup
  set_tier-present at key tier model n t kl l known on present =
      let cleared = record kl { tier = tier; limiters = [] } in
      ap (λ x. (allow at key model n x).0) (set_tier-eq key tier t kl l known present)
      ∙ result-allow_known at key model n cleared
          (record l { buckets = insert key cleared l.buckets }) on
          (lookup-insert key key cleared l.buckets ∙ rw (str_eq_refl key) refl)
