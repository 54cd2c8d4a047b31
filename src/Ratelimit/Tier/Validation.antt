-- ===== src/Ratelimit/Tier/Validation.antt =====
-- What `Validate` of tier.go accepts.
use mathlib.Core.Path.{subst}
use mathlib.Core.Option.{some-injective}
use sentra_lab.Base.{
  String, ◌≡◌, refl, ◌↔◌, true, false, none, some, [], ◌∷◌, arith, Bool-cases, inl, inr, insert,
  str_eq, pos, ◌≤ℤ◌, Dict, lookup, length, All, ok, ◌<◌,
}
use sentra_lab.Ratelimit.Tier.{
  ModelLimit, Tier, validate_limit, validate_limits, validate_tier, get_tier,
}
use sentra_lab.Ratelimit.Tier.Defaults.{new_tier_registry}

-- The limit has a name, positive limits by the minute, and no negative ones by the day.
pub record IsValidLimit (m : ModelLimit) : Type 0 where
  pub has_id : str_eq m.model_id "" ≡ false
  pub rpm_pos : pos 1 ≤ℤ m.rpm
  pub tpm_pos : pos 1 ≤ℤ m.tpm
  pub rpd_nonneg : pos 0 ≤ℤ m.rpd
  pub tpd_nonneg : pos 0 ≤ℤ m.tpd

validate_limit_sound : (m : ModelLimit) → validate_limit m ≡ none → IsValidLimit m
unfolding validate_limit
validate_limit_sound m h = ground arith

validate_limit_complete : (m : ModelLimit) → IsValidLimit m → validate_limit m ≡ none
unfolding validate_limit
validate_limit_complete m h = ground arith

-- Every limit stands under its own name, and is valid.
abbrev pub AreValid : Dict ModelLimit → Type 0
AreValid = All (λ e. (str_eq e.1.model_id e.0 ≡ true) × IsValidLimit e.1)

validate_limits_sound : (m : Dict ModelLimit) → validate_limits m ≡ none → AreValid m
unfolding validate_limits
validate_limits_sound [] h = tt
validate_limits_sound ((id, l) ∷ m) h =
    let named : str_eq l.model_id id ≡ true = ground arith in
    let first : validate_limit l ≡ none = ground arith in
    let others : validate_limits m ≡ none = ground arith in
    ((named, validate_limit_sound l first), validate_limits_sound m others)

validate_limits_complete : (m : Dict ModelLimit) → AreValid m → validate_limits m ≡ none
unfolding validate_limits
validate_limits_complete [] h = refl
validate_limits_complete ((id, l) ∷ m) (v, vs) =
    ground (arith, validate_limit_complete l v.1, validate_limits_complete m vs)

-- `Validate` accepts a tier exactly if it has a name and a limit, every limit stands under its own
-- model ID, which is not empty, and every limit has positive requests and tokens by the minute and no
-- negative ones by the day.
pub validate_tier_iff :
    (t : Tier)
    → (validate_tier t ≡ none)
      ↔ ((str_eq t.name "" ≡ false) × (0 < length t.model_limits) × AreValid t.model_limits)
unfolding validate_tier
validate_tier_iff t = (
  λ h. (ground arith, ground arith, validate_limits_sound t.model_limits (ground arith)),
  λ v. ground (arith, validate_limits_complete t.model_limits v.2),
)

lookup-All :
    (P : Tier → Type 0) (name : String) (m : Dict Tier) (t : Tier)
    → All (λ e. P e.1) m
    → lookup name m ≡ some t
    → P t
unfolding lookup
lookup-All P name [] t h e = cc
lookup-All P name ((k, u) ∷ m) t (p, ps) e = elim (Bool-cases (str_eq k name)) [
  | inl here ↦ subst P (some-injective _ _ (rw here at e)) p
  | inr there ↦ lookup-All P name m t ps (rw there at e)
]

-- Every tier that a new registry hands out passes `Validate`, whatever its default tier.
pub validate_tier-default :
    (default name : String) (t : Tier)
    → get_tier (new_tier_registry default) name ≡ ok t
    → validate_tier t ≡ none
unfolding get_tier
validate_tier-default default name t h =
    lookup-All (λ u. validate_tier u ≡ none) name (new_tier_registry default).tiers t
      (unfold new_tier_registry validate_tier validate_limits validate_limit insert in
        (refl, (refl, (refl, (refl, (refl, (refl, tt)))))))
      (ground arith)
