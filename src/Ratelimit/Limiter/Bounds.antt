-- ===== src/Ratelimit/Limiter/Bounds.antt =====
-- The buckets of the limiter stay within their bounds, whatever is called for whichever keys.
pub mod Calls
use mathlib.Core.Path.{subst}
use sentra_lab.Base.{
  ℕ, ◌+◌, ◌≤◌, String, ◌≡◌, refl, sym, ap, ◌∙◌, Bool, true, false, Option, none, some, List, [],
  ◌∷◌, arith, if◌then◌else◌, pos, Dict, lookup, insert, erase, lookup-insert, lookup-erase, str_eq,
  Bool-cases, inl, inr, ok, err, Result,
}
use sentra_lab.Base.Float64.{Float64, IsFloat64}
use sentra_lab.Store.{Time}
use sentra_lab.Ratelimit.Bucket.{TokenBucket, refill, allow_with_info, get_state, new_token_bucket}
use sentra_lab.Ratelimit.Bucket.Bounds.{IsSound, new_token_bucket-IsSound, refill-IsSound}
use sentra_lab.Ratelimit.Dual.{DualTokenBucket, dual_allow, dual_get_state, new_dual_token_bucket}
use sentra_lab.Ratelimit.Dual.Charges.{IsSoundPair, dual_allow-IsSoundPair}
use sentra_lab.Ratelimit.Tier.{TierRegistry, ModelLimit, get_model_limit_or_default, get_tier}
use sentra_lab.Ratelimit.Limiter.{
  Limiter, KeyLimiter, Readings, new_limiter, allow, check, get_limit_info, set_tier, reset,
  reset_all, enable, disable, count_result, write_back, get_key_limiter, get_bucket, bucket_or,
  key_limiter_or, retier, store_key,
}

-- Every value of the map has the property.
abbrev pub Holds {ℓ} : {V : Type ℓ} → (V → Type 0) → Dict V → Type ℓ
Holds {V = V} P m = (k : String) (v : V) → lookup k m ≡ some v → P v

module _ {ℓ} {V : Type ℓ} (P : V → Type 0) where
  pub Holds-insert : (k : String) (v : V) (m : Dict V) → P v → Holds P m → Holds P (insert k v m)
  Holds-insert k v m p h j w there = elim (Bool-cases (str_eq k j)) [
    | inl same ↦
        let found : some v ≡ some w = ground (arith, lookup-insert k j v m) in
        let own : v ≡ w = cc in subst P own p
    | inr apart ↦ h j w (ground (arith, lookup-insert k j v m))
  ]

  pub Holds-erase : (k : String) (m : Dict V) → Holds P m → Holds P (erase k m)
  Holds-erase k m h j w there = h j w (ground (arith, lookup-erase k j m))

module _ {F : Type 0} ⦃fl : Float64 F⦄ where
  -- A sound pair that was last refilled by that time.
  abbrev pub IsCurrent : Time → DualTokenBucket F → Type 0
  IsCurrent now b =
      IsSoundPair b × (b.request_bucket.last_refill ≤ now) × (b.token_bucket.last_refill ≤ now)

  abbrev pub KeyIsCurrent : Time → KeyLimiter F → Type 0
  KeyIsCurrent now kl = Holds (IsCurrent now) kl.limiters

  abbrev pub AllCurrent : Time → Limiter F → Type 0
  AllCurrent now l = Holds (KeyIsCurrent now) l.buckets

  pub AllCurrent-later :
      (now later : Time) (l : Limiter F) → now ≤ later → AllCurrent now l → AllCurrent later l
  AllCurrent-later now later l le h key kl there model b at =
      let (sound, a, c) = h key kl there model b at in (sound, omega arith, omega arith)

-- Limits that are not negative, with a number of requests that float64 has exactly.
abbrev pub IsSane : TierRegistry → Type 0
IsSane r =
    (tier model : String)
    → (rpm : ℕ) × (tpm : ℕ) × (rpm ≤ 9007199254740992)
      × ((get_model_limit_or_default r tier model).rpm ≡ pos rpm)
      × ((get_model_limit_or_default r tier model).tpm ≡ pos tpm)

module _ {F : Type 0} ⦃fl : Float64 F⦄ (laws : IsFloat64 F) where
  new_dual_token_bucket-IsCurrent :
      (now : Time) (rpm tpm : ℕ)
      → rpm ≤ 9007199254740992
      → IsCurrent {F = F} now (new_dual_token_bucket now (pos rpm) (pos tpm))
  unfolding new_dual_token_bucket new_token_bucket
  new_dual_token_bucket-IsCurrent now rpm tpm exact = (
    record {
      requests_sound = new_token_bucket-IsSound laws now rpm rpm;
      tokens_sound = new_token_bucket-IsSound laws now tpm tpm;
      rpm = rpm;
      rpm_exact = exact;
      requests_capacity = refl;
    },
    omega arith,
    omega arith,
  )

  pub bucket_or-IsCurrent :
      (now : Time) (limits : ModelLimit) (o : Option (DualTokenBucket F)) (rpm tpm : ℕ)
      → rpm ≤ 9007199254740992
      → limits.rpm ≡ pos rpm
      → limits.tpm ≡ pos tpm
      → ((b : DualTokenBucket F) → o ≡ some b → IsCurrent now b)
      → IsCurrent now (bucket_or now limits o)
  unfolding bucket_or
  bucket_or-IsCurrent now limits none rpm tpm exact r t h =
      rw (r, t) (new_dual_token_bucket-IsCurrent now rpm tpm exact)
  bucket_or-IsCurrent now limits (some b) rpm tpm exact r t h = h b refl

  pub dual_allow-IsCurrent :
      (t u last : Time) (n : ℕ) (b : DualTokenBucket F)
      → b.request_bucket.last_refill ≤ t
      → b.token_bucket.last_refill ≤ u
      → t ≤ last
      → u ≤ last
      → IsSoundPair b
      → IsCurrent last (dual_allow t u (pos n) b).1
  unfolding dual_allow allow_with_info refill
  dual_allow-IsCurrent t u last n b lt lu tl ul h =
      (dual_allow-IsSoundPair laws t u n b lt lu h, ground arith, ground arith)

  pub dual_get_state-IsCurrent :
      (t u last : Time) (b : DualTokenBucket F)
      → b.request_bucket.last_refill ≤ t
      → b.token_bucket.last_refill ≤ u
      → t ≤ last
      → u ≤ last
      → IsSoundPair b
      → IsCurrent last (dual_get_state t u b).1
  unfolding dual_get_state get_state
  dual_get_state-IsCurrent t u last b lt lu tl ul h = (
    record {
      requests_sound = refill-IsSound laws t b.request_bucket lt h.requests_sound;
      tokens_sound = refill-IsSound laws u b.token_bucket lu h.tokens_sound;
      rpm = h.rpm;
      rpm_exact = h.rpm_exact;
      requests_capacity = unfold refill in h.requests_capacity;
    },
    unfold refill in omega arith,
    unfold refill in omega arith,
  )
