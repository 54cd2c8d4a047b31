-- ===== src/Ratelimit/Tier/Registry.antt =====
-- The registry of tiers: lookups with their fallbacks, and the default tier that stays registered.
use sentra_lab.Base.{
  String, ◌≡◌, ◌∙◌, Option, none, some, List, [], ◌∷◌, arith, if◌then◌else◌, str_eq, eq_iff, pos,
  Dict, lookup, lookup-insert, lookup-erase, Option-cases, Bool-cases, IsMap, inl, inr,
}
use sentra_lab.Ratelimit.Tier.{
  ModelLimit, Tier, TierRegistry, get_tier, get_model_limit, get_model_limit_or_default,
  conservative, set_tier, delete_tier, set_default_tier, compare_models, compare_limits,
  compare_tiers, compared, ModelComparison,
}

-- The default tier is one of the tiers.
abbrev pub HasDefault : TierRegistry → Type 0
HasDefault r = (t : Tier) × (lookup r.default_tier r.tiers ≡ some t)

pub data Change : Type 0 where
  set_change : Tier → Change
  delete_change set_default_change : String → Change

unfoldable pub change : Change → TierRegistry → TierRegistry
change (Change.set_change t) r = set_tier t r
change (Change.delete_change n) r = (delete_tier n r).1
change (Change.set_default_change n) r = (set_default_tier n r).1

unfoldable pub change_all : List Change → TierRegistry → TierRegistry
change_all [] r = r
change_all (c ∷ cs) r = change_all cs (change c r)

change-HasDefault : (c : Change) (r : TierRegistry) → HasDefault r → HasDefault (change c r)
unfolding change set_tier delete_tier set_default_tier
change-HasDefault (Change.set_change t) r (d, h) =
    elim (Bool-cases (str_eq t.name r.default_tier)) [
      | inl same ↦ (t, ground (arith, lookup-insert t.name r.default_tier t r.tiers))
      | inr apart ↦ (d, ground (arith, lookup-insert t.name r.default_tier t r.tiers))
    ]
change-HasDefault (Change.delete_change n) r (d, h) =
    (d, ground (arith, lookup-erase n r.default_tier r.tiers))
change-HasDefault (Change.set_default_change n) r (d, h) = elim (Option-cases (lookup n r.tiers)) [
  | inl missing ↦ (d, ground arith)
  | inr (t, there) ↦ (t, ground arith)
]

-- Once the default tier is one of the tiers it stays so, through any changes: a new or replaced tier,
-- a deletion, another default; and so GetTierOrDefault finds a registered tier for every name.
pub change_all-HasDefault :
    (cs : List Change) (r : TierRegistry) → HasDefault r → HasDefault (change_all cs r)
unfolding change_all
change_all-HasDefault [] r h = h
change_all-HasDefault (c ∷ cs) r h = change_all-HasDefault cs (change c r) (change-HasDefault c r h)

-- The limit in a tier of the registry.
abbrev pub limit_at : TierRegistry → String → String → Option ModelLimit
limit_at r name model = elim (lookup name r.tiers) [
  | none ↦ none
  | some t ↦ lookup model t.model_limits
]

abbrev pub first_of_three : Option ModelLimit → Option ModelLimit → ModelLimit → ModelLimit
first_of_three (some l) _ d = l
first_of_three none (some l) d = l
first_of_three none none d = d

-- GetModelLimitOrDefault is the limit of the named tier, or else of the default tier, or else 60
-- requests and 100000 tokens by the minute under the model's own name.
pub get_model_limit_or_default-cases :
    (r : TierRegistry) (name model : String)
    → get_model_limit_or_default r name model
      ≡ first_of_three
          (limit_at r name model)
          (limit_at r r.default_tier model)
          (record { model_id = model; rpm = pos 60; tpm = pos 100000; rpd = pos 0; tpd = pos 0 })
unfolding get_model_limit_or_default get_model_limit get_tier conservative
get_model_limit_or_default-cases r name model = ground arith

abbrev pub joined : String → Option ModelLimit → Option ModelLimit → Option ModelComparison
joined id (some l1) (some l2) = some (compare_limits id l1 l2)
joined id _ _ = none

abbrev or_else : Option ModelComparison → Option ModelComparison → Option ModelComparison
or_else none d = d
or_else (some c) d = some c

lookup-compared :
    (k id : String) (l : ModelLimit) (o : Option ModelLimit) (acc : Dict ModelComparison)
    → lookup id (compared k l o acc)
      ≡ (if str_eq k id then or_else (joined k (some l) o) (lookup id acc) else lookup id acc)
unfolding compared
lookup-compared k id l none acc = ground arith
lookup-compared k id l (some l2) acc =
    ground (arith, lookup-insert k id (compare_limits k l l2) acc)

compare_models-lookup :
    (m limits2 : Dict ModelLimit) (acc : Dict ModelComparison) (id : String)
    → IsMap m
    → lookup id (compare_models m limits2 acc)
      ≡ or_else (joined id (lookup id m) (lookup id limits2)) (lookup id acc)
unfolding compare_models lookup
compare_models-lookup [] limits2 acc id h = ground arith
compare_models-lookup ((k, l) ∷ m) limits2 acc id (fresh, h) = ground (
  arith,
  compare_models-lookup m limits2 (compared k l (lookup k limits2) acc) id h,
  lookup-compared k id l (lookup k limits2) acc,
  eq_iff k id,
)

-- CompareTiers has an entry for just the models with a limit in both tiers, and it compares these
-- two limits. (`IsMap` says that no model stands twice among the first tier's limits, as in any map.)
pub compare_tiers-lookup :
    (t1 t2 : Tier) (id : String)
    → IsMap t1.model_limits
    → lookup id (compare_tiers t1 t2).models
      ≡ joined id (lookup id t1.model_limits) (lookup id t2.model_limits)
unfolding compare_tiers
compare_tiers-lookup t1 t2 id h =
    compare_models-lookup t1.model_limits t2.model_limits [] id h ∙ (unfold lookup in ground arith)
