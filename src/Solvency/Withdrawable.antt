-- ===== src/Solvency/Withdrawable.antt =====
-- `assertWithdrawable` and `checkSufficientDeposit` of withdrawal-solvency.service.ts, over the
-- numbers of JavaScript.
pub mod Verdict
pub mod Signed
use veillend.Base.{
  ℕ, ◌==◌, ltb, ◌&&◌, ◌||◌, not, Bool, true, false, Option, none, some, List, [], ◌∷◌, any, map,
  if◌then◌else◌, is_some, find_first, update_many, ℤ, pos, pos_part, leb_ℤ,
}
use veillend.Funds.Data.{
  SolvencyErrorKind, insufficient_deposit, insufficient_collateral, oracle_unavailable,
}
use veillend.Solvency.HealthFactor.{
  Numbers, PositionLike, RegistryEntry, PriceEntry, HealthOptions, HealthFactorResult,
  compute_health_factor,
}

-- The columns of a position and of its asset that the check reads.
pub record PricedPosition (F : Type 0) : Type 0 where
  pub asset_id : ℕ
  pub asset_code : ℕ
  pub decimals : ℕ
  pub ratio : Option F
  pub deposited_raw : ℤ
  pub borrowed_raw : ℤ
  pub deposited_usd : F
  pub borrowed_usd : F
  pub last_sync_at : Option ℕ
  pub is_stale : Bool

pub record SolvencyCheckResult (F : Type 0) : Type 0 where
  pub allowed : Bool
  pub projected_health_factor : Option F
  pub current_health_factor : Option F
  pub error_kind : Option SolvencyErrorKind

abbrev pub max_oracle_age_ms : ℕ
max_oracle_age_ms = 300000

abbrev pub is_positive : ℤ → Bool
is_positive z = ltb 0 (pos_part z)

-- `format_raw` is `formatRawAmount`: `Number(raw) / 10 ** decimals`, by the arithmetic of the numbers.
module _ {F : Type 0} (n : Numbers F) (format_raw : ℤ → ℕ → F) where
  unfoldable pub conservative_round : F → F
  conservative_round v =
      if n.le n.zero_number v
      then n.div (n.floor (n.mul v n.scale)) n.scale
      else n.div (n.ceil (n.mul v n.scale)) n.scale

  abbrev pub worth : F → Bool
  worth x = n.lt n.zero_number x

  unfoldable pub price_per_unit : PricedPosition F → F
  price_per_unit p =
      if worth p.deposited_usd && is_positive p.deposited_raw
      then n.div p.deposited_usd (format_raw p.deposited_raw p.decimals)
      else n.zero_number

  abbrev pub entry_at : PricedPosition F → F → PriceEntry F
  entry_at p price = record {
    code = p.asset_code;
    price_usd = price;
    updated_at = p.last_sync_at;
    is_stale = p.is_stale;
  }

  abbrev pub has_code : ℕ → PriceEntry F → Bool
  has_code c e = e.code == c

  -- `priceMap[code] = entry`
  unfoldable pub set_price : PriceEntry F → List (PriceEntry F) → List (PriceEntry F)
  set_price e prices =
      if is_some (find_first (has_code e.code) prices)
      then update_many (has_code e.code) (λ x. e) prices
      else e ∷ prices

  unfoldable pub add_price :
      PricedPosition F → List (PriceEntry F) → PricedPosition F → List (PriceEntry F)
  unfolding set_price price_per_unit
  add_price target prices p =
      let known = is_some (find_first (has_code p.asset_code) prices) in
      if worth p.deposited_usd && is_positive p.deposited_raw
      then set_price (entry_at p (price_per_unit p)) prices
      else (if worth p.borrowed_usd && (is_positive p.borrowed_raw && not known)
          then set_price (entry_at p (n.div p.borrowed_usd (format_raw p.borrowed_raw p.decimals)))
              prices
          else (if p.asset_code == target.asset_code && (worth (price_per_unit target) && not known)
              then set_price (entry_at p (price_per_unit target)) prices
              else prices))

  unfoldable pub price_map :
      PricedPosition F → List (PriceEntry F) → List (PricedPosition F) → List (PriceEntry F)
  unfolding add_price
  price_map target prices [] = prices
  price_map target prices (p ∷ ps) = price_map target (add_price target prices p) ps

  unfoldable pub registry_of :
      List (RegistryEntry F) → List (PricedPosition F) → List (RegistryEntry F)
  registry_of entries [] = entries
  registry_of entries (p ∷ ps) =
      registry_of
        (if is_some (find_first (λ (e : RegistryEntry F). e.code == p.asset_code) entries)
          then entries
          else record { code = p.asset_code; ratio_bps = none; ratio = p.ratio } ∷ entries)
        ps

  abbrev pub like : PricedPosition F → PositionLike F
  like p = record {
    asset_id = p.asset_id;
    asset_code = p.asset_code;
    deposited_usd = p.deposited_usd;
    borrowed_usd = p.borrowed_usd;
    ratio_bps = none;
    ratio = p.ratio;
    is_stale = p.is_stale;
  }

  unfoldable pub project : ℕ → F → PositionLike F → PositionLike F
  unfolding conservative_round
  project asset_id delta p =
      if p.asset_id == asset_id
      then record p { deposited_usd = conservative_round (n.sub p.deposited_usd delta) }
      else p

  abbrev pub at_time : ℕ → HealthOptions F
  at_time now = record {
    allow_stale = false;
    max_oracle_age_ms = max_oracle_age_ms;
    current_time = now;
    bad_debt_usd = n.zero_number;
  }

  abbrev pub refused : SolvencyErrorKind → Option F → Option F → SolvencyCheckResult F
  refused kind projected current = record {
    allowed = false;
    projected_health_factor = projected;
    current_health_factor = current;
    error_kind = some kind;
  }

  abbrev pub accepted : Option F → Option F → SolvencyCheckResult F
  accepted projected current = record {
    allowed = true;
    projected_health_factor = projected;
    current_health_factor = current;
    error_kind = none;
  }

  abbrev pub unknown : HealthFactorResult F → Bool
  unknown h = h.is_stale && not (is_some h.health_factor)

  abbrev pub enough_now : Option F → Bool
  enough_now none = false
  enough_now (some hf) = n.le n.one_number hf

  -- The tests after the projection, for a user with a debt.
  unfoldable pub verdict_with_debt : Option F → Option F → SolvencyCheckResult F
  verdict_with_debt (some hf) current =
      if n.lt hf n.one_number
      then refused insufficient_collateral (some hf) current
      else accepted (some hf) current
  verdict_with_debt none current =
      if enough_now current
      then refused insufficient_collateral none current
      else accepted none current

  abbrev pub has_borrow : List (PositionLike F) → Bool
  has_borrow ps = any (λ p. n.lt n.zero_number p.borrowed_usd) ps

  unfoldable pub verdict :
      List (PositionLike F) → HealthFactorResult F → HealthFactorResult F → SolvencyCheckResult F
  unfolding verdict_with_debt
  verdict ps current projected =
      if unknown current
      then refused oracle_unavailable none none
      else (if unknown projected
          then refused oracle_unavailable none current.health_factor
          else (if has_borrow ps
              then verdict_with_debt projected.health_factor current.health_factor
              else accepted projected.health_factor current.health_factor))

  unfoldable pub check_target :
      List (PricedPosition F) → ℕ → ℕ → Option (PricedPosition F) → ℕ → SolvencyCheckResult F
  unfolding verdict price_map registry_of project price_per_unit compute_health_factor
  check_target ps asset_id amount none now = refused insufficient_deposit none none
  check_target ps asset_id amount (some target) now =
      let price = price_per_unit target in
      let delta = n.mul (format_raw (pos amount) target.decimals) price in
      let registry = registry_of [] ps in
      let prices = price_map target [] ps in
      let current = map like ps in
      let projected = map (project asset_id delta) current in
      if n.le price n.zero_number
      then refused oracle_unavailable none none
      else verdict current (compute_health_factor n current registry prices (at_time now))
          (compute_health_factor n projected registry prices (at_time now))

  -- A user without positions has none for the asset either.
  unfoldable pub assert_withdrawable : List (PricedPosition F) → ℕ → ℕ → ℕ → SolvencyCheckResult F
  unfolding check_target
  assert_withdrawable ps asset_id amount now =
      check_target ps asset_id amount (find_first (λ p. p.asset_id == asset_id) ps) now

unfoldable pub check_sufficient_deposit : ℤ → ℕ → Bool
check_sufficient_deposit deposited amount = leb_ℤ (pos amount) deposited
