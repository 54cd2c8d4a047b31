-- ===== src/Ratelimit/Limiter/Bounds/Calls.antt =====
-- The bounds of the limiter's buckets over sequences of calls.
use mathlib.Core.Path.{subst}
use sentra_lab.Base.{
  ℕ, ◌≤◌, String, ◌≡◌, refl, sym, Bool, Option, none, some, List, [], ◌∷◌, arith, pos, lookup,
  insert, Bool-cases, inl, inr, ok, err, Result, add64,
}
use sentra_lab.Base.Float64.{Float64, IsFloat64}
use sentra_lab.Store.{Time}
use sentra_lab.Ratelimit.Dual.{DualTokenBucket, dual_allow, dual_get_state}
use sentra_lab.Ratelimit.Dual.Charges.{IsSoundPair}
use sentra_lab.Ratelimit.Tier.{TierRegistry, TierError, get_model_limit_or_default, get_tier}
use sentra_lab.Ratelimit.Limiter.{
  Limiter, KeyLimiter, Readings, new_limiter, allow, check, get_limit_info, set_tier, reset,
  reset_all, enable, disable, count_result, write_back, get_key_limiter, get_bucket, key_limiter_or,
  retier, store_key, determine_tier,
}
use sentra_lab.Ratelimit.Limiter.Counts.{Call, perform}
use sentra_lab.Ratelimit.Limiter.Bounds.{
  Holds-insert, Holds-erase, IsCurrent, KeyIsCurrent, AllCurrent, AllCurrent-later, IsSane,
  bucket_or-IsCurrent, dual_allow-IsCurrent, dual_get_state-IsCurrent,
}

-- What a call reads of the clock lies between its start and its end, and the bucket that it may make
-- is made before it is refilled.
abbrev pub InOrder : Time → Time → Readings → Type 0
InOrder begin end at =
    (begin ≤ at.made)
    × (at.made ≤ at.requests)
    × (at.made ≤ at.tokens)
    × (at.requests ≤ end)
    × (at.tokens ≤ end)

-- A check is for a number of tokens that is not negative.
abbrev pub IsTimely : Time → Time → Call → Type 0
IsTimely begin end (Call.allow_call at key model n) = InOrder begin end at × ((m : ℕ) × (n ≡ pos m))
IsTimely begin end (Call.info_call at key model) = InOrder begin end at
IsTimely begin end c = begin ≤ end

-- The calls, each with the time of its end.
abbrev pub AllTimely : Time → List (Time × Call) → Type 0
AllTimely begin [] = Unit
AllTimely begin ((end, c) ∷ cs) = IsTimely begin end c × AllTimely end cs

unfoldable pub run_timed :
    {F : Type 0} ⦃fl : Float64 F⦄ → List (Time × Call) → Limiter F → Limiter F
run_timed [] l = l
run_timed ((end, c) ∷ cs) l = run_timed cs (perform c l)

-- The end of the last call.
abbrev pub last_end : Time → List (Time × Call) → Time
last_end begin [] = begin
last_end begin ((end, c) ∷ cs) = last_end end cs

module _ {F : Type 0} ⦃fl : Float64 F⦄ (laws : IsFloat64 F) where
  -- A limiter over sane limits, all of whose buckets are sound.
  abbrev pub IsBounded : Time → Limiter F → Type 0
  IsBounded now l = IsSane l.registry × AllCurrent now l

  key_limiter_or-IsCurrent :
      (now : Time) (key tier : String) (o : Option (KeyLimiter F))
      → ((kl : KeyLimiter F) → o ≡ some kl → KeyIsCurrent now kl)
      → KeyIsCurrent now (key_limiter_or key tier o)
  unfolding key_limiter_or lookup
  key_limiter_or-IsCurrent now key tier none h = λ model b at. absurd (cc)
  key_limiter_or-IsCurrent now key tier (some kl) h = h kl refl

  -- The bucket that a call finds or makes.
  found : Readings → String → String → Limiter F → DualTokenBucket F
  found at key model l =
      let (kl, l1) = get_key_limiter key l in (get_bucket at.made model l1.registry kl).0

  key_limiter-IsCurrent :
      (now : Time) (key : String) (l : Limiter F)
      → AllCurrent now l
      → KeyIsCurrent now (get_key_limiter key l).0
  unfolding get_key_limiter
  key_limiter-IsCurrent now key l h =
      key_limiter_or-IsCurrent now key (determine_tier l key) (lookup key l.buckets)
        (λ kl there. h key kl there)

  found-IsCurrent :
      (begin end : Time) (at : Readings) (key model : String) (l : Limiter F)
      → InOrder begin end at
      → IsBounded begin l
      → IsCurrent at.made (found at key model l)
  unfolding found get_key_limiter get_bucket
  found-IsCurrent begin end at key model l order (sane, h) =
      let kl = (get_key_limiter key l).0 in
      let (rpm, tpm, exact, requests, tokens) = sane kl.tier model in
      let fed = key_limiter-IsCurrent at.made key l (AllCurrent-later begin at.made l order.0 h) in
      bucket_or-IsCurrent laws at.made (get_model_limit_or_default l.registry kl.tier model)
        (lookup model kl.limiters) rpm tpm exact requests tokens (λ b there. fed model b there)

  write_back-AllCurrent :
      (now : Time) (at : Readings) (key model : String) (b : DualTokenBucket F) (l : Limiter F)
      → AllCurrent now l
      → IsCurrent now (found at key model l)
      → IsCurrent now b
      → let (kl, l1) = get_key_limiter key l in
        let kl' = (get_bucket at.made model l1.registry kl).1 in
        AllCurrent now (write_back key kl' model b l1)
  unfolding write_back get_key_limiter get_bucket found
  write_back-AllCurrent now at key model b l h before fresh =
      let (kl, l1) = get_key_limiter key l in
      let (old, kl') = get_bucket at.made model l1.registry kl in
      let fed = key_limiter-IsCurrent now key l h in
      Holds-insert (KeyIsCurrent now) key (record kl' { limiters = insert model b kl'.limiters })
        l1.buckets
        (Holds-insert (IsCurrent now) model b kl'.limiters fresh
          (Holds-insert (IsCurrent now) model old kl.limiters before fed))
        (Holds-insert (KeyIsCurrent now) key kl l.buckets fed h)

  later_bucket :
      (now later : Time) (b : DualTokenBucket F) → now ≤ later → IsCurrent now b → IsCurrent later b
  later_bucket now later b le (sound, r, t) = (sound, omega arith, omega arith)

  check-AllCurrent :
      (begin end : Time) (at : Readings) (key model : String) (n : ℕ) (l : Limiter F)
      → InOrder begin end at
      → IsBounded begin l
      → AllCurrent end (check at key model (pos n) l).1
  unfolding check count_result found
  check-AllCurrent begin end at key model n l order h =
      let b = found at key model l in
      let (sound, r, t) = found-IsCurrent begin end at key model l order h in
      write_back-AllCurrent end at key model (dual_allow at.requests at.tokens (pos n) b).1 l
        (AllCurrent-later begin end l (omega arith) h.1) (sound, omega arith, omega arith)
        (dual_allow-IsCurrent laws at.requests at.tokens end n b (omega arith) (omega arith)
          (omega arith) (omega arith) sound)

  info-AllCurrent :
      (begin end : Time) (at : Readings) (key model : String) (l : Limiter F)
      → InOrder begin end at
      → IsBounded begin l
      → AllCurrent end (get_limit_info at key model l).1
  unfolding get_limit_info found
  info-AllCurrent begin end at key model l order h =
      let b = found at key model l in
      let (sound, r, t) = found-IsCurrent begin end at key model l order h in
      write_back-AllCurrent end at key model (dual_get_state at.requests at.tokens b).1 l
        (AllCurrent-later begin end l (omega arith) h.1) (sound, omega arith, omega arith)
        (dual_get_state-IsCurrent laws at.requests at.tokens end b (omega arith) (omega arith)
          (omega arith) (omega arith) sound)

  allow-AllCurrent :
      (begin end : Time) (at : Readings) (key model : String) (n : ℕ) (l : Limiter F)
      → InOrder begin end at
      → IsBounded begin l
      → AllCurrent end (allow at key model (pos n) l).1
  unfolding allow check get_key_limiter write_back count_result
  allow-AllCurrent begin end at key model n l order h =
      let l1 = record l { total_checks = add64 l.total_checks 1 } in
      elim (Bool-cases l.enabled) [
        | inl on ↦ rw on (check-AllCurrent begin end at key model n l1 order h)
        | inr off ↦ rw off (AllCurrent-later begin end l1 (omega arith) h.1)
      ]

  store_key-AllCurrent :
      (now : Time) (key tier : String) (o : Option (KeyLimiter F)) (l : Limiter F)
      → AllCurrent now l
      → AllCurrent now (store_key key (retier tier o) l)
  unfolding store_key retier lookup
  store_key-AllCurrent now key tier none l h = h
  store_key-AllCurrent now key tier (some kl) l h =
      Holds-insert (KeyIsCurrent now) key (record kl { tier = tier; limiters = [] }) l.buckets
        (λ model b at. absurd (cc)) h

  set_tier-AllCurrent :
      (now : Time) (key tier : String) (l : Limiter F)
      → AllCurrent now l
      → AllCurrent now (set_tier key tier l).1
  unfolding set_tier
  set_tier-AllCurrent now key tier l h =
      elim (get_tier l.registry tier)
        as (λ r.
          AllCurrent now
            (elim r as (λ x. Result TierError (Unit {0}) × Limiter F) [
              | err e ↦ (err e, l)
              | ok t ↦ (ok tt, store_key key (retier tier (lookup key l.buckets)) l)
            ]).1) [
              | err e ↦ h
              | ok t ↦ store_key-AllCurrent now key tier (lookup key l.buckets) l h
            ]

  registry-store_key :
      (key : String) (o : Option (KeyLimiter F)) (l : Limiter F)
      → (store_key key o l).registry ≡ l.registry
  unfolding store_key
  registry-store_key key none l = refl
  registry-store_key key (some kl) l = refl

  registry-perform : (c : Call) (l : Limiter F) → (perform c l).registry ≡ l.registry
  unfolding perform allow check get_limit_info get_key_limiter write_back count_result set_tier
      reset reset_all enable disable
  registry-perform (Call.allow_call at key model n) l = ground arith
  registry-perform (Call.info_call at key model) l = refl
  registry-perform (Call.set_tier_call key tier) l =
      ground (arith, registry-store_key key (retier tier (lookup key l.buckets)) l)
  registry-perform (Call.reset_call key) l = refl
  registry-perform Call.reset_all_call l = refl
  registry-perform Call.enable_call l = refl
  registry-perform Call.disable_call l = refl

  perform-AllCurrent :
      (begin end : Time) (c : Call) (l : Limiter F)
      → IsTimely begin end c
      → IsBounded begin l
      → AllCurrent end (perform c l)
  unfolding perform reset reset_all enable disable lookup
  perform-AllCurrent begin end (Call.allow_call at key model n) l (order, (m, amount)) h =
      rw amount (allow-AllCurrent begin end at key model m l order h)
  perform-AllCurrent begin end (Call.info_call at key model) l order h =
      info-AllCurrent begin end at key model l order h
  perform-AllCurrent begin end (Call.set_tier_call key tier) l le h =
      set_tier-AllCurrent end key tier l (AllCurrent-later begin end l le h.1)
  perform-AllCurrent begin end (Call.reset_call key) l le h =
      Holds-erase (KeyIsCurrent end) key l.buckets (AllCurrent-later begin end l le h.1)
  perform-AllCurrent begin end Call.reset_all_call l le h = λ key kl there. absurd (cc)
  perform-AllCurrent begin end Call.enable_call l le h = AllCurrent-later begin end l le h.1
  perform-AllCurrent begin end Call.disable_call l le h = AllCurrent-later begin end l le h.1

  run_timed-AllCurrent :
      (begin : Time) (cs : List (Time × Call)) (l : Limiter F)
      → AllTimely begin cs
      → IsBounded begin l
      → AllCurrent (last_end begin cs) (run_timed cs l)
  unfolding run_timed
  run_timed-AllCurrent begin [] l timely h = h.1
  run_timed-AllCurrent begin ((end, c) ∷ cs) l (now, rest) h =
      run_timed-AllCurrent end cs (perform c l) rest
        (subst IsSane (sym (registry-perform c l)) h.0, perform-AllCurrent begin end c l now h)

  -- From a new limiter over limits that are not negative and that float64 has exactly, after any
  -- calls one after another, for any keys, models and tiers and for amounts that are not negative,
  -- every bucket that the limiter keeps holds between no tokens and its capacity.
  pub run_timed-IsSoundPair :
      (begin : Time) (registry : TierRegistry) (on : Bool) (cs : List (Time × Call))
      → IsSane registry
      → AllTimely begin cs
      → (key model : String) (kl : KeyLimiter F) (b : DualTokenBucket F)
      → lookup key (run_timed cs (new_limiter registry on)).buckets ≡ some kl
      → lookup model kl.limiters ≡ some b
      → IsSoundPair b
  unfolding new_limiter lookup
  run_timed-IsSoundPair begin registry on cs sane timely key model kl b there at =
      (run_timed-AllCurrent begin cs (new_limiter registry on) timely
        (sane, (λ k v no_key. absurd (cc))) key kl there model b at).0
