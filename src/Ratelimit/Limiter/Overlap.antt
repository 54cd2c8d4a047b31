-- ===== src/Ratelimit/Limiter/Overlap.antt =====
-- limiter.go: checks that overlap. Allow holds no lock across its steps, so other goroutines run
-- between its counting of the check, its reading of `enabled`, and its counting of the result.
use sentra_lab.Base.{
  Bool-cases, inl, inr, ℕ, suc, ◌+◌, ◌%◌, String, ◌≡◌, refl, sym, ◌∙◌, Bool, true, false, arith, ℤ,
  int64_mod, Dict,
}
use mathlib.Core.Path.{subst}
use sentra_lab.Base.Float64.{Float64}
use sentra_lab.Ratelimit.Limiter.{
  Limiter, KeyLimiter, Readings, begin_check, count_result, allow, check, reset_all, enable,
  disable, write_back, get_key_limiter,
}

-- The limiter, and how many checks stand where.
pub record Checks (F : Type 0) : Type 0 where
  pub limiter : Limiter F
  -- counted, before the test of `enabled`
  pub begun : ℕ
  -- past the test, before their result is counted
  pub admitted : ℕ
  -- let through while the limiter was off, since the last ResetAll
  pub bypassed : ℕ

-- One operation of a goroutine on what the counters depend on. What happens to the buckets is open:
-- `touch` is any change of them, by a check, GetLimitInfo, SetTier or Reset, and a check may have
-- either result. ResetAll is one step, taken only while no check is under way: the schedules are those
-- in which no check overlaps it (reset_all-between is one that is left out).
pub data CheckStep {F : Type 0} : Checks F → Checks F → Type 0 where
  begin :
      (c : Checks F)
      → CheckStep c (record c { limiter = begin_check c.limiter; begun = suc c.begun })
  bypass :
      (c : Checks F) (n : ℕ)
      → c.begun ≡ suc n
      → c.limiter.enabled ≡ false
      → CheckStep c (record c { begun = n; bypassed = suc c.bypassed })
  admit :
      (c : Checks F) (n : ℕ)
      → c.begun ≡ suc n
      → c.limiter.enabled ≡ true
      → CheckStep c (record c { begun = n; admitted = suc c.admitted })
  touch :
      (c : Checks F) (buckets : Dict (KeyLimiter F))
      → CheckStep c (record c { limiter = record c.limiter { buckets = buckets } })
  finish :
      (c : Checks F) (n : ℕ) (passed : Bool)
      → c.admitted ≡ suc n
      → CheckStep c (record c { limiter = count_result passed c.limiter; admitted = n })
  switch_on : (c : Checks F) → CheckStep c (record c { limiter = enable c.limiter })
  switch_off : (c : Checks F) → CheckStep c (record c { limiter = disable c.limiter })
  reset_alone :
      (c : Checks F)
      → c.begun ≡ 0
      → c.admitted ≡ 0
      → CheckStep c (record c { limiter = reset_all c.limiter; bypassed = 0 })

pub data CheckReach {F : Type 0} (c : Checks F) : Checks F → Type 0 where
  here : CheckReach c c
  step : {d e : Checks F} → CheckReach c d → CheckStep d e → CheckReach c e

unfoldable pub idle : {F : Type 0} → Limiter F → Checks F
idle l = record { limiter = l; begun = 0; admitted = 0; bypassed = 0 }

module _ {F : Type 0} where
  -- Every check that was counted is under way, or was let through, or has its result counted.
  abbrev Adds : Checks F → Type 0
  Adds c =
      (c.limiter.total_allowed + c.limiter.total_denied + c.bypassed + c.begun + c.admitted)
        % int64_mod
      ≡ c.limiter.total_checks

  -- A ResetAll between the two counts of a check leaves a result that belongs to no check.
  pub reset_all-between :
      (l : Limiter F) (passed : Bool)
      → let after = count_result passed (reset_all (begin_check l)) in
        (after.total_checks ≡ 0) × (after.total_allowed + after.total_denied ≡ 1)
  unfolding begin_check reset_all count_result
  reset_all-between l true = (refl, refl)
  reset_all-between l false = (refl, refl)

module _ {F : Type 0} ⦃fl : Float64 F⦄ where
  -- A check past the test of `enabled` changes the buckets and then counts its result.
  check-parts :
      (at : Readings) (key model : String) (n : ℤ) (l : Limiter F)
      → (passed : Bool) × (buckets : Dict (KeyLimiter F)) × ((check at key model n l).1
          ≡ count_result passed (record l { buckets = buckets }))
  unfolding check write_back get_key_limiter
  check-parts at key model n l = (_, _, refl)

  -- Where an Allow ends, if no other call runs in between.
  abbrev pub Alone : Limiter F → Limiter F → Type 0
  Alone l m =
      (k : ℕ) × CheckReach (idle l) (record { limiter = m; begun = 0; admitted = 0; bypassed = k })

  bypass-Alone : (l : Limiter F) → l.enabled ≡ false → Alone l (begin_check l)
  unfolding idle begin_check
  bypass-Alone l off = (1, step (step here (begin (idle l))) (bypass _ 0 refl off))

  check-Alone :
      (l : Limiter F) (passed : Bool) (buckets : Dict (KeyLimiter F))
      → l.enabled ≡ true
      → Alone l (count_result passed (record (begin_check l) { buckets = buckets }))
  unfolding idle begin_check
  check-Alone l passed buckets on = (
    0,
    step (step (step (step here (begin (idle l))) (admit _ 0 refl on)) (touch _ buckets))
        (finish _ 0 passed refl),
  )

  -- An Allow with no other call in between is such a schedule.
  pub allow-CheckReach :
      (at : Readings) (key model : String) (n : ℤ) (l : Limiter F)
      → Alone l (allow at key model n l).1
  unfolding allow
  allow-CheckReach at key model n l = elim (Bool-cases l.enabled) [
    | inl on ↦
        let (passed, buckets, e) = check-parts at key model n (begin_check l) in
        let whole : (allow at key model n l).1 ≡ (check at key model n (begin_check l)).1 =
          ground arith in
        subst (Alone l) (sym (whole ∙ e)) (check-Alone l passed buckets on)
    | inr off ↦
        let whole : (allow at key model n l).1 ≡ begin_check l = ground arith in
        subst (Alone l) (sym whole) (bypass-Alone l off)
  ]
