-- ===== src/Ratelimit/Limiter/Counts.antt =====
-- limiter.go: the counters of the limiter through calls one after another.
use sentra_lab.Base.{
  ℕ, ◌+◌, ◌%◌, String, ◌≡◌, refl, Bool, List, [], ◌∷◌, arith, if◌then◌else◌, ℤ, add64, int64_mod,
}
use sentra_lab.Base.Float64.{Float64}
use sentra_lab.Ratelimit.Tier.{TierRegistry}
use sentra_lab.Ratelimit.Limiter.{
  Limiter, Readings, new_limiter, allow, check, check_result, get_limit_info, set_tier, reset,
  reset_all, enable, disable, count_result, write_back, get_key_limiter,
}

-- The methods that change a limiter.
pub data Call : Type 0 where
  allow_call : Readings → String → String → ℤ → Call
  info_call : Readings → String → String → Call
  set_tier_call : String → String → Call
  reset_call : String → Call
  reset_all_call enable_call disable_call : Call

unfoldable pub perform : {F : Type 0} ⦃fl : Float64 F⦄ → Call → Limiter F → Limiter F
perform (Call.allow_call at key model n) l = (allow at key model n l).1
perform (Call.info_call at key model) l = (get_limit_info at key model l).1
perform (Call.set_tier_call key tier) l = (set_tier key tier l).1
perform (Call.reset_call key) l = reset key l
perform Call.reset_all_call l = reset_all l
perform Call.enable_call l = enable l
perform Call.disable_call l = disable l

unfoldable pub run : {F : Type 0} ⦃fl : Float64 F⦄ → List Call → Limiter F → Limiter F
run [] l = l
run (c ∷ cs) l = run cs (perform c l)

-- The checks made while the limiter was off, since the counters were last zeroed.
unfoldable pub bypassed : {F : Type 0} ⦃fl : Float64 F⦄ → List Call → Limiter F → ℕ → ℕ
bypassed [] l n = n
bypassed (Call.allow_call at key model t ∷ cs) l n =
    bypassed cs (perform (Call.allow_call at key model t) l) (if l.enabled then n else n + 1)
bypassed (Call.reset_all_call ∷ cs) l n = bypassed cs (perform Call.reset_all_call l) 0
bypassed (c ∷ cs) l n = bypassed cs (perform c l) n

module _ {F : Type 0} ⦃fl : Float64 F⦄ where
  check-counts :
      (at : Readings) (key model : String) (n : ℤ) (l : Limiter F)
      → ((check at key model n l).1.total_checks ≡ l.total_checks)
        × ((check at key model n l).1.enabled ≡ l.enabled)
        × ((check at key model n l).1.total_allowed ≡ (
            if (check at key model n l).0.allowed
            then add64 l.total_allowed 1
            else l.total_allowed))
        × ((check at key model n l).1.total_denied ≡ (
            if (check at key model n l).0.allowed then l.total_denied else add64 l.total_denied 1))
  unfolding check check_result count_result write_back get_key_limiter
  check-counts at key model n l = (refl, refl, refl, refl)

  -- The checks are the allowed ones, the denied ones and those made while the limiter was off.
  abbrev Balances : Limiter F → ℕ → Type 0
  Balances l n = (l.total_allowed + l.total_denied + n) % int64_mod ≡ l.total_checks

  allow-Balances :
      (at : Readings) (key model : String) (t : ℤ) (l : Limiter F) (n : ℕ)
      → Balances l n
      → Balances (allow at key model t l).1 (if l.enabled then n else n + 1)
  unfolding allow
  allow-Balances at key model t l n h =
      let on = record l { total_checks = add64 l.total_checks 1 } in
      ground (arith, check-counts at key model t on)

  set_tier-counts :
      (key tier : String) (l : Limiter F)
      → let l' = (set_tier key tier l).1 in
        (l'.total_checks ≡ l.total_checks)
        × (l'.total_allowed ≡ l.total_allowed)
        × (l'.total_denied ≡ l.total_denied)
        × (l'.enabled ≡ l.enabled)
  unfolding set_tier
  set_tier-counts key tier l = (ground arith, ground arith, ground arith, ground arith)

  run-Balances :
      (cs : List Call) (l : Limiter F) (n : ℕ)
      → Balances l n
      → Balances (run cs l) (bypassed cs l n)
  unfolding run bypassed perform get_limit_info write_back get_key_limiter reset reset_all enable
      disable
  run-Balances [] l n h = h
  run-Balances (Call.allow_call at key model t ∷ cs) l n h =
      run-Balances cs _ _ (allow-Balances at key model t l n h)
  run-Balances (Call.set_tier_call key tier ∷ cs) l n h =
      run-Balances cs _ n (omega (arith, set_tier-counts key tier l))
  run-Balances (Call.reset_all_call ∷ cs) l n h = run-Balances cs (reset_all l) 0 refl
  run-Balances (Call.info_call at key model ∷ cs) l n h = run-Balances cs _ n h
  run-Balances (Call.reset_call key ∷ cs) l n h = run-Balances cs _ n h
  run-Balances (Call.enable_call ∷ cs) l n h = run-Balances cs _ n h
  run-Balances (Call.disable_call ∷ cs) l n h = run-Balances cs _ n h

module _ (F : Type 0) ⦃fl : Float64 F⦄ where
  -- After any calls on a new limiter, one after another, the int64 counters add up: the checks are the allowed ones, the
  -- denied ones, and those made while the limiter was off, all since the last ResetAll.
  pub run_balances :
      (registry : TierRegistry) (on : Bool) (cs : List Call)
      → let l = run cs (new_limiter {F = F} registry on) in
        (l.total_allowed + l.total_denied + bypassed cs (new_limiter {F = F} registry on) 0)
          % int64_mod
        ≡ l.total_checks
  run_balances registry on cs =
      run-Balances cs (new_limiter registry on) 0 (unfold new_limiter in refl)
