-- ===== src/Solvency/HealthFactor.antt =====
-- `computeHealthFactor` of health-factor.util.ts. The numbers of JavaScript, with their arithmetic,
-- are given: nothing is asked of them.
pub mod Fresh
use veillend.Base.{
  ℕ, ◌-◌, ltb, ◌==◌, ◌&&◌, ◌||◌, not, Bool, true, false, Option, none, some, List, [], ◌∷◌,
  contains, if◌then◌else◌, find_first,
}

-- `default_ratio`: 0.8. `bps`: 10000. `scale`: 1e8.
pub record Numbers (F : Type 0) : Type 0 where
  pub add : F → F → F
  pub sub : F → F → F
  pub mul : F → F → F
  pub div : F → F → F
  pub max_number : F → F → F
  pub min_number : F → F → F
  pub lt : F → F → Bool
  pub le : F → F → Bool
  pub floor : F → F
  pub ceil : F → F
  pub zero_number : F
  pub one_number : F
  pub infinity : F
  pub default_ratio : F
  pub bps : F
  pub scale : F

pub record PositionLike (F : Type 0) : Type 0 where
  pub asset_id : ℕ
  pub asset_code : ℕ
  pub deposited_usd : F
  pub borrowed_usd : F
  pub ratio_bps : Option F
  pub ratio : Option F
  pub is_stale : Bool

pub record RegistryEntry (F : Type 0) : Type 0 where
  pub code : ℕ
  pub ratio_bps : Option F
  pub ratio : Option F

pub record PriceEntry (F : Type 0) : Type 0 where
  pub code : ℕ
  pub price_usd : F
  pub updated_at : Option ℕ
  pub is_stale : Bool

pub record HealthOptions (F : Type 0) : Type 0 where
  pub allow_stale : Bool
  pub max_oracle_age_ms : ℕ
  pub current_time : ℕ
  pub bad_debt_usd : F

-- The sums of the loop, and the codes of its two sets.
pub record Sums (F : Type 0) : Type 0 where
  pub collateral : F
  pub weighted : F
  pub borrowed : F
  pub stale_prices : List ℕ
  pub missing_prices : List ℕ

-- A health factor that is none is the source's null.
pub record HealthFactorResult (F : Type 0) : Type 0 where
  pub health_factor : Option F
  pub ex_bad_debt : Option F
  pub with_bad_debt : Option F
  pub sums : Sums F
  pub available_to_borrow : F
  pub is_stale : Bool

-- `new Set` as the list of its elements.
abbrev pub add_code : ℕ → List ℕ → List ℕ
add_code c cs = if contains c cs then cs else c ∷ cs

abbrev pub is_empty : {A : Type 0} → List A → Bool
is_empty [] = true
is_empty (x ∷ xs) = false

module _ {F : Type 0} (n : Numbers F) where
  abbrev pub at_least_zero : F → F
  at_least_zero x = n.max_number n.zero_number x

  abbrev pub at_most_one : F → F
  at_most_one x = n.min_number n.one_number x

  unfoldable pub by_ratio : Option F → F → F
  by_ratio none other = other
  by_ratio (some r) other = r

  unfoldable pub by_bps : Option F → F → F
  by_bps none other = other
  by_bps (some b) other = n.div b n.bps

  -- The registry's entry of the code, or else of the asset's id.
  unfoldable pub entry_of : {E : Type 0} → (ℕ → E → Bool) → PositionLike F → List E → Option E
  entry_of is_key p entries = elim (find_first (is_key p.asset_code) entries) [
    | none ↦ find_first (is_key p.asset_id) entries
    | some e ↦ some e
  ]

  unfoldable pub registry_ratio : Option (RegistryEntry F) → F
  unfolding by_ratio by_bps
  registry_ratio none = n.default_ratio
  registry_ratio (some e) = by_bps e.ratio_bps (by_ratio e.ratio n.default_ratio)

  -- The minimum collateral ratio of the position's asset, between 0 and 1.
  unfoldable pub ratio_of : List (RegistryEntry F) → PositionLike F → F
  unfolding by_ratio by_bps entry_of registry_ratio
  ratio_of registry p = at_least_zero (
      at_most_one (
        by_bps p.ratio_bps
          (by_ratio p.ratio (registry_ratio (entry_of (λ c e. e.code == c) p registry)))))

  abbrev pub is_live_position : PositionLike F → Bool
  is_live_position p = n.lt n.zero_number p.deposited_usd || n.lt n.zero_number p.borrowed_usd

  abbrev pub outdated : HealthOptions F → Option ℕ → Bool
  outdated o none = false
  outdated o (some t) = ltb o.max_oracle_age_ms (o.current_time - t)

  abbrev pub entry_stale : HealthOptions F → Option (PriceEntry F) → Bool
  entry_stale o none = false
  entry_stale o (some e) = e.is_stale || outdated o e.updated_at

  abbrev pub entry_missing : List (PriceEntry F) → Option (PriceEntry F) → Bool
  entry_missing prices none = not (is_empty prices)
  entry_missing prices (some e) = false

  unfoldable pub price_of : List (PriceEntry F) → PositionLike F → Option (PriceEntry F)
  unfolding entry_of
  price_of prices p = entry_of (λ c e. e.code == c) p prices

  unfoldable pub adds_stale : HealthOptions F → List (PriceEntry F) → PositionLike F → Bool
  unfolding price_of
  adds_stale o prices p = is_live_position p && (p.is_stale || entry_stale o (price_of prices p))

  unfoldable pub adds_missing : List (PriceEntry F) → PositionLike F → Bool
  unfolding price_of
  adds_missing prices p = is_live_position p && entry_missing prices (price_of prices p)

  unfoldable pub sum_position :
      HealthOptions F
      → List (RegistryEntry F)
      → List (PriceEntry F)
      → Sums F
      → PositionLike F
      → Sums F
  unfolding ratio_of adds_stale adds_missing
  sum_position o registry prices s p = record {
    collateral = n.add s.collateral p.deposited_usd;
    weighted = n.add s.weighted (n.mul p.deposited_usd (ratio_of registry p));
    borrowed = n.add s.borrowed p.borrowed_usd;
    stale_prices =
        if adds_stale o prices p then add_code p.asset_code s.stale_prices else s.stale_prices;
    missing_prices =
        if adds_missing prices p then add_code p.asset_code s.missing_prices else s.missing_prices;
  }

  unfoldable pub sum_positions :
      HealthOptions F
      → List (RegistryEntry F)
      → List (PriceEntry F)
      → Sums F
      → List (PositionLike F)
      → Sums F
  unfolding sum_position
  sum_positions o registry prices s [] = s
  sum_positions o registry prices s (p ∷ ps) =
      sum_positions o registry prices (sum_position o registry prices s p) ps

  abbrev pub no_sums : Sums F
  no_sums = record {
    collateral = n.zero_number;
    weighted = n.zero_number;
    borrowed = n.zero_number;
    stale_prices = [];
    missing_prices = [];
  }

  abbrev pub unless_null : Bool → F → Option F
  unless_null true x = none
  unless_null false x = some x

  abbrev pub raw_factor : Sums F → F
  raw_factor s = if n.le s.borrowed n.zero_number then n.infinity else n.div s.weighted s.borrowed

  abbrev pub factor_with_bad_debt : F → Sums F → F
  factor_with_bad_debt debt s =
      if n.le s.borrowed n.zero_number
      then (if n.lt n.zero_number debt then n.div s.weighted debt else n.infinity)
      else n.div s.weighted (n.add s.borrowed debt)

  abbrev pub sums_stale : Sums F → Bool
  sums_stale s = not (is_empty s.stale_prices) || not (is_empty s.missing_prices)

  unfoldable pub health_of : HealthOptions F → Sums F → HealthFactorResult F
  health_of o s =
      let null =
        sums_stale s
        && (not o.allow_stale
            && (n.lt n.zero_number s.collateral || n.lt n.zero_number s.borrowed)) in
      record {
        health_factor = unless_null null (raw_factor s);
        ex_bad_debt = unless_null null (raw_factor s);
        with_bad_debt = unless_null null (factor_with_bad_debt (at_least_zero o.bad_debt_usd) s);
        sums = s;
        available_to_borrow = at_least_zero (n.sub s.weighted s.borrowed);
        is_stale = sums_stale s;
      }

  unfoldable pub compute_health_factor :
      List (PositionLike F)
      → List (RegistryEntry F)
      → List (PriceEntry F)
      → HealthOptions F
      → HealthFactorResult F
  unfolding sum_positions health_of
  compute_health_factor ps registry prices o =
      health_of o (sum_positions o registry prices no_sums ps)
