-- ===== src/Ratelimit/Tier.antt =====
-- ratelimit/tier.go: rate limit tiers, their registry, and validation. An error is its text; the texts
-- that are formatted from names are modelled with those names in `TierError`.
pub mod Defaults
pub mod Registry
pub mod Validation
use sentra_lab.Base.{
  ℕ, suc, String, Bool, true, false, not, Option, none, some, List, [], ◌∷◌, map, if◌then◌else◌,
  str_eq, ℤ, pos, ◌-ℤ◌, leb_ℤ, ltb_ℤ, Dict, lookup, insert, erase, Result, ok, err, length, ◌==◌,
}

pub record ModelLimit : Type 0 where
  pub model_id : String
  pub rpm : ℤ
  pub tpm : ℤ
  pub rpd : ℤ
  pub tpd : ℤ

pub record Tier : Type 0 where
  pub name : String
  pub description : String
  pub model_limits : Dict ModelLimit

pub record TierRegistry : Type 0 where
  pub tiers : Dict Tier
  pub default_tier : String

pub data TierError : Type 0 where
  tier_not_found : String → TierError
  no_limits_defined : String → String → TierError
  cannot_delete_default : TierError
  tier_does_not_exist : String → TierError
  name_required : TierError
  no_model_limit : TierError
  id_mismatch : String → String → TierError
  -- a model, and what is wrong with its limit
  invalid_limit : String → TierError → TierError
  id_required rpm_not_positive tpm_not_positive rpd_negative tpd_negative : TierError

or_error : {A : Type 0} → TierError → Option A → Result TierError A
or_error e none = err e
or_error e (some a) = ok a

unfoldable pub get_tier : TierRegistry → String → Result TierError Tier
unfolding or_error
get_tier r name = or_error (tier_not_found name) (lookup name r.tiers)

-- The zero `Tier{}` that a failed GetTier leaves.
abbrev pub zero_tier : Tier
zero_tier = record { name = ""; description = ""; model_limits = [] }

tier_or : Tier → Result TierError Tier → Tier
tier_or d (ok t) = t
tier_or d (err e) = d

unfoldable pub get_tier_or_default : TierRegistry → String → Tier
unfolding tier_or
get_tier_or_default r name =
    tier_or (tier_or zero_tier (get_tier r r.default_tier)) (get_tier r name)

limit_in : String → String → Result TierError Tier → Result TierError ModelLimit
unfolding or_error
limit_in name model (err e) = err e
limit_in name model (ok t) = or_error (no_limits_defined model name) (lookup model t.model_limits)

unfoldable pub get_model_limit : TierRegistry → String → String → Result TierError ModelLimit
unfolding limit_in
get_model_limit r name model = limit_in name model (get_tier r name)

-- The conservative defaults.
unfoldable pub conservative : String → ModelLimit
conservative model = record {
  model_id = model;
  rpm = pos 60;
  tpm = pos 100000;
  rpd = pos 0;
  tpd = pos 0;
}

limit_or : ModelLimit → Result TierError ModelLimit → ModelLimit
limit_or d (ok l) = l
limit_or d (err e) = d

-- A limit of the tier, else one of the default tier, else the conservative defaults.
unfoldable pub get_model_limit_or_default : TierRegistry → String → String → ModelLimit
unfolding limit_or limit_in conservative
get_model_limit_or_default r name model =
    limit_or
      (limit_or (conservative model) (limit_in r.default_tier model (get_tier r r.default_tier)))
      (get_model_limit r name model)

unfoldable pub set_tier : Tier → TierRegistry → TierRegistry
set_tier t r = record r { tiers = insert t.name t r.tiers }

unfoldable pub delete_tier : String → TierRegistry → Result TierError (Unit {0}) × TierRegistry
delete_tier name r =
    if str_eq name r.default_tier
    then (err cannot_delete_default, r)
    else (ok tt, record r { tiers = erase name r.tiers })

unfoldable pub list_tiers : TierRegistry → List String
list_tiers r = map (λ e. e.0) r.tiers

unfoldable pub get_all_tiers : TierRegistry → Dict Tier
get_all_tiers r = r.tiers

chosen : String → Option Tier → TierRegistry → Result TierError (Unit {0}) × TierRegistry
chosen name none r = (err (tier_does_not_exist name), r)
chosen name (some t) r = (ok tt, record r { default_tier = name })

unfoldable pub set_default_tier : String → TierRegistry → Result TierError (Unit {0}) × TierRegistry
unfolding chosen
set_default_tier name r = chosen name (lookup name r.tiers) r

unfoldable pub get_default_tier : TierRegistry → String
get_default_tier r = r.default_tier

-- `Validate` of a limit; `none` is a nil error.
unfoldable pub validate_limit : ModelLimit → Option TierError
validate_limit m =
    if str_eq m.model_id ""
    then some id_required
    else if leb_ℤ m.rpm (pos 0)
    then some rpm_not_positive
    else if leb_ℤ m.tpm (pos 0)
    then some tpm_not_positive
    else if ltb_ℤ m.rpd (pos 0)
    then some rpd_negative
    else if ltb_ℤ m.tpd (pos 0)
    then some tpd_negative
    else none

check_entry : String → ModelLimit → Option TierError → Option TierError → Option TierError
check_entry id limit (some e) rest = some (invalid_limit id e)
check_entry id limit none rest = rest

-- The loop over the limits, in the order in which the map yields them.
unfoldable pub validate_limits : Dict ModelLimit → Option TierError
unfolding check_entry
validate_limits [] = none
validate_limits ((id, limit) ∷ m) =
    let rest = validate_limits m in
    if not (str_eq limit.model_id id)
    then some (id_mismatch limit.model_id id)
    else check_entry id limit (validate_limit limit) rest

unfoldable pub validate_tier : Tier → Option TierError
validate_tier t =
    if str_eq t.name ""
    then some name_required
    else if length t.model_limits == 0
    then some no_model_limit
    else validate_limits t.model_limits

pub record ModelComparison : Type 0 where
  pub model_id : String
  pub tier1_rpm : ℤ
  pub tier2_rpm : ℤ
  pub rpm_increase : ℤ
  pub tier1_tpm : ℤ
  pub tier2_tpm : ℤ
  pub tpm_increase : ℤ

pub record TierComparison : Type 0 where
  pub tier1 : String
  pub tier2 : String
  pub models : Dict ModelComparison

unfoldable pub compare_limits : String → ModelLimit → ModelLimit → ModelComparison
compare_limits id limit1 limit2 = record {
  model_id = id;
  tier1_rpm = limit1.rpm;
  tier2_rpm = limit2.rpm;
  rpm_increase = limit2.rpm -ℤ limit1.rpm;
  tier1_tpm = limit1.tpm;
  tier2_tpm = limit2.tpm;
  tpm_increase = limit2.tpm -ℤ limit1.tpm;
}

unfoldable pub compared :
    String → ModelLimit → Option ModelLimit → Dict ModelComparison → Dict ModelComparison
compared id limit1 none acc = acc
compared id limit1 (some limit2) acc = insert id (compare_limits id limit1 limit2) acc

-- The loop of `CompareTiers`, with the map built so far.
unfoldable pub compare_models :
    Dict ModelLimit → Dict ModelLimit → Dict ModelComparison → Dict ModelComparison
compare_models [] limits2 acc = acc
compare_models ((id, limit1) ∷ m) limits2 acc =
    compare_models m limits2 (compared id limit1 (lookup id limits2) acc)

unfoldable pub compare_tiers : Tier → Tier → TierComparison
compare_tiers t1 t2 = record {
  tier1 = t1.name;
  tier2 = t2.name;
  models = compare_models t1.model_limits t2.model_limits [];
}
