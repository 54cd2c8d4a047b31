-- ===== src/Ratelimit/Limiter/Keys.antt =====
-- API keys do not share limits: what one key does leaves the buckets of the others alone.
use sentra_lab.Base.{
  String, ◌≡◌, refl, false, Option, none, some, arith, str_eq, ℤ, lookup, lookup-insert,
  lookup-erase, Bool-cases, inl, inr,
}
use sentra_lab.Base.Float64.{Float64}
use sentra_lab.Ratelimit.Limiter.{
  Limiter, KeyLimiter, Readings, allow, check, get_limit_info, set_tier, reset, count_result,
  write_back, get_key_limiter, retier, store_key,
}

module _ {F : Type 0} ⦃fl : Float64 F⦄ where
  -- The key's limiter as the map has it.
  abbrev pub key_at : Limiter F → String → Option (KeyLimiter F)
  key_at l key = lookup key l.buckets

  key_at-check :
      (at : Readings) (key j model : String) (n : ℤ) (l : Limiter F)
      → str_eq key j ≡ false
      → key_at (check at key model n l).1 j ≡ key_at l j
  unfolding check count_result write_back get_key_limiter
  key_at-check at key j model n l apart = rw (lookup-insert, lookup-insert, apart) refl

  key_at-store_key :
      (key j : String) (o : Option (KeyLimiter F)) (l : Limiter F)
      → str_eq key j ≡ false
      → key_at (store_key key o l) j ≡ key_at l j
  unfolding store_key
  key_at-store_key key j none l apart = refl
  key_at-store_key key j (some kl) l apart = rw (lookup-insert, apart) refl

  key_at-set_tier :
      (key j tier : String) (l : Limiter F)
      → str_eq key j ≡ false
      → key_at (set_tier key tier l).1 j ≡ key_at l j
  unfolding set_tier
  key_at-set_tier key j tier l apart =
      ground (arith, key_at-store_key key j (retier tier (lookup key l.buckets)) l apart)

  key_at-allow :
      (at : Readings) (key j model : String) (n : ℤ) (l : Limiter F)
      → str_eq key j ≡ false
      → key_at (allow at key model n l).1 j ≡ key_at l j
  unfolding allow
  key_at-allow at key j model n l apart = elim (Bool-cases l.enabled) [
    | inl on ↦ rw on (key_at-check at key j model n _ apart)
    | inr off ↦ rw off refl
  ]

  -- A check, a look at the limits, a change of tier or a reset for one key leaves the limiter of
  -- every other key as it is: its tier and all its buckets.
  pub other_keys :
      (at : Readings) (key j model tier : String) (n : ℤ) (l : Limiter F)
      → str_eq key j ≡ false
      → (key_at (allow at key model n l).1 j ≡ key_at l j)
        × (key_at (get_limit_info at key model l).1 j ≡ key_at l j)
        × (key_at (set_tier key tier l).1 j ≡ key_at l j)
        × (key_at (reset key l) j ≡ key_at l j)
  unfolding get_limit_info reset write_back get_key_limiter
  other_keys at key j model tier n l apart = (
    key_at-allow at key j model n l apart,
    rw (lookup-insert, lookup-insert, apart) refl,
    key_at-set_tier key j tier l apart,
    rw (lookup-erase, apart) refl,
  )
