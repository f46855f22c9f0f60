-- ===== src/Solvency/Tests.antt =====
-- One concrete run of each theorem on the solvency check, with natural numbers for JavaScript's: a
-- user with one position, with and without a debt.
use veillend.Base.{
  ℕ, ◌+◌, ◌-◌, ◌*◌, ◌/◌, ◌==◌, ltb, leb, max, min, ◌≡◌, refl, ◌⊎◌, true, false, none, some, List,
  [], ◌∷◌, map, ok, running, ℤ, pos, pos_part, find_first, update_many,
}
use veillend.Funds.Data.{Withdrawal, draft, Db}
use veillend.Funds.Withdrawals.{find_owned, owned_withdrawal}
use veillend.Funds.Withdrawals.Lifecycle.{
  sign_withdrawal, active_timelock, has_used_nonce, use_nonces, degrade_unless,
}
use veillend.Solvency.HealthFactor.{
  Numbers, by_ratio, by_bps, entry_of, registry_ratio, ratio_of, price_of, adds_stale, adds_missing,
  sum_position, sum_positions, health_of, compute_health_factor,
}
use veillend.Solvency.Withdrawable.{
  PricedPosition, like, has_borrow, conservative_round, price_per_unit, set_price, add_price,
  price_map, registry_of, project, at_time, verdict_with_debt, verdict, check_target,
  assert_withdrawable,
}
use veillend.Solvency.Withdrawable.Verdict.{NotBelowOne, debt_free_any_amount}
use veillend.Solvency.Withdrawable.Signed.{solvency_check, signed_is_solvent}

abbrev naturals : Numbers ℕ
naturals = record {
  add = λ a b. a + b;
  sub = λ a b. a - b;
  mul = λ a b. a * b;
  div = λ a b. a / b;
  max_number = λ a b. max a b;
  min_number = λ a b. min a b;
  lt = λ a b. ltb a b;
  le = λ a b. leb a b;
  floor = λ a. a;
  ceil = λ a. a;
  zero_number = 0;
  one_number = 1;
  infinity = 1000000;
  default_ratio = 1;
  bps = 10000;
  scale = 1;
}

abbrev whole : ℤ → ℕ → ℕ
whole z decimals = pos_part z

abbrev priced : ℕ → PricedPosition ℕ
priced debt = record {
  asset_id = 3;
  asset_code = 333;
  decimals = 0;
  ratio = some 1;
  deposited_raw = pos 500;
  borrowed_raw = pos debt;
  deposited_usd = 500;
  borrowed_usd = debt;
  last_sync_at = some 90;
  is_stale = false;
}

priced_at_one : leb (price_per_unit naturals whole (priced 0)) 0 ≡ false
unfolding price_per_unit
priced_at_one = refl

found_priced : find_first (λ p. p.asset_id == 3) (priced 0 ∷ []) ≡ some (priced 0)
unfolding find_first
found_priced = refl

prices_current :
    (compute_health_factor naturals
      (map (like naturals whole) (priced 0 ∷ []))
      (registry_of naturals whole [] (priced 0 ∷ []))
      (price_map naturals whole (priced 0) [] (priced 0 ∷ []))
      (at_time naturals whole 100)).is_stale
    ≡ false
unfolding compute_health_factor health_of sum_positions sum_position ratio_of registry_ratio
    entry_of by_ratio by_bps adds_stale adds_missing price_of registry_of price_map add_price
    set_price price_per_unit find_first update_many
prices_current = refl

debt_free_any_amount_example :
    (assert_withdrawable naturals whole (priced 0 ∷ []) 3 900000 100).allowed ≡ true
debt_free_any_amount_example =
    debt_free_any_amount naturals whole (priced 0 ∷ []) (priced 0) 3 900000 100 found_priced
      priced_at_one (refl, tt) prices_current refl

abbrev request : Withdrawal
request = record {
  id = 20;
  user_wallet = 7;
  user_id = 1;
  asset_id = 3;
  amount_stroops = 200;
  destination_address = 90;
  destination_tag = none;
  whitelist_approved = true;
  timelock_until = none;
  status = draft;
  xdr = 0;
  tx_hash = none;
  confirmations_required = 5;
  confirmations_seen = pos 0;
  idempotency_key = none;
  signed_at = none;
  submitted_at = none;
  confirmed_at = none;
}

abbrev tables : Db
tables = record {
  assets = [];
  configs = [];
  positions = [];
  deposits = [];
  withdrawals = request ∷ [];
  nonces = record { nonce = 1005; withdrawal_id = 20; used = false } ∷ [];
  whitelist = [];
  idempotency_keys = [];
}

abbrev in_debt : ℕ → Db → List (PricedPosition ℕ)
in_debt user db = priced 100 ∷ []

signed_in_debt :
    (sign_withdrawal (solvency_check naturals whole in_debt 100) 20 1 8 78 100 tables).0 ≡ ok tt
unfolding sign_withdrawal running owned_withdrawal find_owned find_first active_timelock
    degrade_unless has_used_nonce use_nonces assert_withdrawable check_target verdict
    verdict_with_debt project conservative_round compute_health_factor health_of sum_positions
    sum_position ratio_of registry_ratio entry_of by_ratio by_bps adds_stale adds_missing price_of
    registry_of price_map add_price set_price price_per_unit update_many
signed_in_debt = refl

signed_is_solvent_example :
    (w : Withdrawal) × (find_owned 20 1 tables.withdrawals ≡ some w)
    × ((has_borrow naturals whole (map (like naturals whole) (in_debt 1 tables)) ≡ false)
        ⊎ NotBelowOne naturals whole
            (assert_withdrawable naturals whole (in_debt 1 tables) w.asset_id w.amount_stroops 100))
signed_is_solvent_example =
    signed_is_solvent naturals whole in_debt 100 20 1 8 78 tables signed_in_debt
