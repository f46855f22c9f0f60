-- ===== src/Mobile/Tests/Lending.antt =====
-- One concrete run of each theorem on lending transactions.
use veillend.Base.{
  ◌==◌, true, false, none, some, List, [], ◌∷◌, ◌≡◌, refl, ok, find_first, ℤ, pos, negsuc, ◌+ℤ◌,
  ◌-ℤ◌, contains,
}
use veillend.Mobile.Storage.{empty_storage}
use veillend.Mobile.Store.Data.{Store, initial_store, deposit, SupportedAsset, no_portfolio}
use veillend.Mobile.Dashboard.{RawPortfolio, parse_portfolio, Scaling, fetched}
use veillend.Mobile.Lending.{
  LendingEnv, Tap, resolved, sent, throws, user_rejected, check_tap, optimistic_delta,
}
use veillend.Mobile.Lending.Session.{
  World, Event, taps, answers, has_portfolio, after_event, after_events,
}
use veillend.Mobile.Lending.Exclusive.{IsExclusive, lending-IsExclusive}
use veillend.Mobile.Lending.Rollback.{IsRolledBack, failure_after_fetch}

-- The numbers of these runs are whole, and a text is its number.
abbrev env : LendingEnv ℤ
env = record {
  plus = ◌+ℤ◌;
  minus = ◌-ℤ◌;
  negate = λ a. pos 0 -ℤ a;
  parse_float = λ t. pos t;
  is_finite = λ a. true;
  not_positive = λ a. elim a [ pos n ↦ n == 0 | negsuc n ↦ true ];
  upper = λ t. t;
  transport_error = λ m. m == 9;
  contract_message = λ x. none;
  on_chain_failure = 8;
  contract_id = 90;
}

abbrev scale : Scaling ℤ
scale = record { number = λ n. pos n; is_finite = λ a. true; div_1e7 = λ a. a; zero_number = pos 0 }

abbrev xlm : SupportedAsset
xlm = record { symbol = 40; decimals = 7; contract_id = none; is_native = true }

abbrev wallet : Store ℤ
wallet = record (initial_store (pos 0)) {
  address = some 70;
  auth_token = some 500;
  supported_assets = xlm ∷ [];
  portfolio = record (no_portfolio (pos 0)) { balance = pos 100 };
}

abbrev world : World ℤ
world = record {
  phone = record { store = wallet; storage = empty_storage };
  requests = record { tracked = 1 ∷ []; cancelled = [] };
  flights = [];
}

abbrev tap : Tap
tap = record { kind = deposit; amount = 25; asset = 40; id = 6; now = 1000 }

abbrev on_the_way : List (Event ℤ)
on_the_way = answers 6 resolved ∷ taps tap ∷ answers 6 resolved ∷ answers 6 (sent 77) ∷ []

accepted : check_tap env tap wallet ≡ ok xlm
unfolding check_tap find_first
accepted = refl

lending-IsExclusive_example : IsExclusive (after_events env scale (taps tap ∷ on_the_way) world)
lending-IsExclusive_example =
    lending-IsExclusive env scale (taps tap ∷ on_the_way) world (tt, (tt, (tt, (tt, (tt, tt)))))
      refl

-- An answer without the deposit that is under way, which its failure takes off all the same.
abbrev richer : RawPortfolio ℤ
richer = record {
  balance = some (pos 120);
  collateral_value = none;
  borrowed_value = none;
  available_to_borrow = none;
  health_factor = none;
  balances = none;
}

not_cancelled :
    contains 1
      (after_events env scale
        (answers 6 resolved ∷ [])
        (after_event env scale (taps tap) world)).requests.cancelled
    ≡ false
unfolding after_events check_tap find_first
not_cancelled = refl

failure_after_fetch_example : IsRolledBack env scale tap user_rejected (pos 120 -ℤ pos 25) (
    after_event env scale (answers 6 (throws user_rejected)) (
      after_events env scale (answers 6 (sent 77) ∷ []) (
        after_event env scale (has_portfolio 1 (fetched richer)) (
          after_events env scale
            (answers 6 resolved ∷ [])
            (after_event env scale (taps tap) world)))))
unfolding optimistic_delta parse_portfolio
failure_after_fetch_example =
    failure_after_fetch env scale tap xlm (answers 6 resolved ∷ []) (answers 6 (sent 77) ∷ []) 1
      richer user_rejected world refl accepted (tt, tt) (tt, tt) not_cancelled
