-- ===== src/Ratelimit/Tier/Defaults.antt =====
-- ratelimit/tier.go: the tiers that `loadDefaultTiers` installs.
use sentra_lab.Base.{String, ◌∷◌, [], ℤ, pos, insert}
use sentra_lab.Ratelimit.Tier.{ModelLimit, Tier, TierRegistry}

abbrev limit : String → ℤ → ℤ → ℤ → String × ModelLimit
limit id requests tokens daily =
    (id, record { model_id = id; rpm = requests; tpm = tokens; rpd = daily; tpd = pos 0 })

abbrev pub free_tier : Tier
free_tier = record {
  name = "free";
  description = "Free trial tier (3 months or $5 spend)";
  model_limits =
      limit "gpt-4o" (pos 3) (pos 40000) (pos 0)
      ∷ limit "gpt-4" (pos 3) (pos 40000) (pos 0)
      ∷ limit "gpt-3.5-turbo" (pos 3) (pos 40000) (pos 0)
      ∷ [];
}

abbrev pub tier1 : Tier
tier1 = record {
  name = "tier1";
  description = "Tier 1: Pay-as-you-go";
  model_limits =
      limit "gpt-4o" (pos 500) (pos 800000) (pos 10000)
      ∷ limit "gpt-4o-mini" (pos 30000) (pos 200000000) (pos 0)
      ∷ limit "gpt-4-turbo" (pos 500) (pos 300000) (pos 0)
      ∷ limit "gpt-4" (pos 500) (pos 300000) (pos 10000)
      ∷ limit "gpt-3.5-turbo" (pos 3500) (pos 200000) (pos 0)
      ∷ limit "text-embedding-3-small" (pos 3000) (pos 1000000) (pos 0)
      ∷ limit "text-embedding-3-large" (pos 3000) (pos 1000000) (pos 0)
      ∷ limit "text-embedding-ada-002" (pos 3000) (pos 1000000) (pos 0)
      ∷ [];
}

abbrev pub tier2 : Tier
tier2 = record {
  name = "tier2";
  description = "Tier 2: $50+ spend";
  model_limits =
      limit "gpt-4o" (pos 5000) (pos 2000000) (pos 0)
      ∷ limit "gpt-4o-mini" (pos 30000) (pos 200000000) (pos 0)
      ∷ limit "gpt-4-turbo" (pos 5000) (pos 1000000) (pos 0)
      ∷ limit "gpt-4" (pos 5000) (pos 1000000) (pos 0)
      ∷ limit "gpt-3.5-turbo" (pos 10000) (pos 2000000) (pos 0)
      ∷ [];
}

abbrev pub tier3 : Tier
tier3 = record {
  name = "tier3";
  description = "Tier 3: $100+ spend";
  model_limits =
      limit "gpt-4o" (pos 10000) (pos 4000000) (pos 0)
      ∷ limit "gpt-4o-mini" (pos 30000) (pos 200000000) (pos 0)
      ∷ limit "gpt-4" (pos 10000) (pos 2000000) (pos 0)
      ∷ limit "gpt-3.5-turbo" (pos 10000) (pos 2000000) (pos 0)
      ∷ [];
}

abbrev pub tier4 : Tier
tier4 = record {
  name = "tier4";
  description = "Tier 4: $250+ spend";
  model_limits =
      limit "gpt-4o" (pos 30000) (pos 10000000) (pos 0)
      ∷ limit "gpt-4" (pos 10000) (pos 4000000) (pos 0)
      ∷ [];
}

abbrev pub tier5 : Tier
tier5 = record {
  name = "tier5";
  description = "Tier 5: $1000+ spend";
  model_limits =
      limit "gpt-4o" (pos 30000) (pos 10000000) (pos 0)
      ∷ limit "gpt-4" (pos 10000) (pos 10000000) (pos 0)
      ∷ [];
}

-- `NewTierRegistry`.
unfoldable pub new_tier_registry : String → TierRegistry
new_tier_registry default = record {
  tiers = insert "tier5" tier5 (
      insert "tier4" tier4 (
        insert "tier3" tier3
          (insert "tier2" tier2 (insert "tier1" tier1 (insert "free" free_tier [])))));
  default_tier = default;
}
