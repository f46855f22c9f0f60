-- ===== src/Mobile/Dashboard.antt =====
-- The fetches of store.ts: each starts by raising its flag, and writes the store once it is
-- answered. `hydrateDashboard` and `refreshDashboard` collect their errors.
pub mod Errors
use veillend.Base.{
  ℕ, Bool, true, false, Option, none, some, List, [], ◌∷◌, ◌++◌, map, if◌then◌else◌, Outcome, ok,
  err,
}
use veillend.Mobile.Storage.{given}
use veillend.Mobile.Store.Data.{
  Store, AssetBalance, Portfolio, HistoryRow, PositionRow, SupportedAsset, request_timed_out,
  failed_to_load,
}

-- How a request ends: with what it asked for, after the timeout, by an abort, or by an error and
-- its message.
pub data Fetched {ℓ} (A : Type ℓ) : Type ℓ where
  fetched : A → Fetched A
  timed_out aborted : Fetched A
  rejected : (message : Option ℕ) → Fetched A

abbrev pub message_or : ℕ → Option ℕ → ℕ
message_or d none = d
message_or d (some m) = m

-- What JavaScript makes of the raw amounts of a position.
pub record Scaling (F : Type 0) : Type 0 where
  pub number : ℕ → F
  pub is_finite : F → Bool
  pub div_1e7 : F → F
  pub zero_number : F

pub record RawPosition : Type 0 where
  pub user_address : Option ℕ
  pub asset_address : Option ℕ
  pub deposited : Option ℕ
  pub deposited_amount : Option ℕ
  pub borrowed : Option ℕ
  pub borrowed_amount : Option ℕ

-- `data` of `fetchPortfolio`, whose fields may be missing.
pub record RawPortfolio (F : Type 0) : Type 0 where
  pub balance : Option F
  pub collateral_value : Option F
  pub borrowed_value : Option F
  pub available_to_borrow : Option F
  pub health_factor : Option F
  pub balances : Option (List (AssetBalance F))

-- `a ?? b`
abbrev or_else : Option ℕ → Option ℕ → Option ℕ
or_else none b = b
or_else (some a) b = some a

module _ {F : Type 0} where
  -- `a ?? 0`, and an array or the empty one.
  abbrev number_or : F → Option F → F
  number_or z none = z
  number_or z (some a) = a

  abbrev list_or_empty : Option (List (AssetBalance F)) → List (AssetBalance F)
  list_or_empty none = []
  list_or_empty (some xs) = xs

  unfoldable pub parse_portfolio : (zero_number : F) → RawPortfolio F → Portfolio F
  parse_portfolio z p = record {
    balance = number_or z p.balance;
    collateral_value = number_or z p.collateral_value;
    borrowed_value = number_or z p.borrowed_value;
    available_to_borrow = number_or z p.available_to_borrow;
    health_factor = number_or z p.health_factor;
    asset_balances = list_or_empty p.balances;
  }

  unfoldable pub parse_raw_amount : Scaling F → Option ℕ → F
  parse_raw_amount n raw =
      let x = n.number (message_or 0 raw) in if n.is_finite x then n.div_1e7 x else n.zero_number

  unfoldable pub parse_position : Scaling F → ℕ → RawPosition → PositionRow F
  unfolding parse_raw_amount
  parse_position n addr p = record {
    user_address = message_or addr p.user_address;
    asset_address = message_or 0 p.asset_address;
    deposited = parse_raw_amount n (or_else p.deposited p.deposited_amount);
    borrowed = parse_raw_amount n (or_else p.borrowed p.borrowed_amount);
  }

  -- `if (!addr) return;`, then the flag.
  unfoldable pub begin_portfolio : Store F → Store F
  begin_portfolio s =
      if given s.address then record s { portfolio_loading = true; portfolio_error = none } else s

  unfoldable pub settle_portfolio : (zero_number : F) → Fetched (RawPortfolio F) → Store F → Store F
  unfolding parse_portfolio
  settle_portfolio z (fetched p) s = record s {
    portfolio = parse_portfolio z p;
    portfolio_loading = false;
    backend_slow = false;
  }
  settle_portfolio z timed_out s = record s {
    portfolio_error = some request_timed_out;
    portfolio_loading = false;
    backend_slow = true;
  }
  settle_portfolio z aborted s = record s { portfolio_loading = false }
  settle_portfolio z (rejected m) s = record s {
    portfolio_error = some (message_or failed_to_load m);
    portfolio_loading = false;
  }

  unfoldable pub begin_transactions : Store F → Store F
  begin_transactions s =
      if given s.address
      then record s { transactions_loading = true; transactions_error = none }
      else s

  unfoldable pub settle_transactions : Fetched (List (HistoryRow F)) → Store F → Store F
  settle_transactions (fetched ts) s = record s {
    transactions = ts;
    transactions_loading = false;
    backend_slow = false;
  }
  settle_transactions timed_out s = record s {
    transactions_error = some request_timed_out;
    transactions_loading = false;
    backend_slow = true;
  }
  settle_transactions aborted s = record s { transactions_loading = false }
  settle_transactions (rejected m) s = record s {
    transactions_error = some (message_or failed_to_load m);
    transactions_loading = false;
  }

  unfoldable pub begin_assets : Store F → Store F
  begin_assets s = record s { assets_loading = true; assets_error = none }

  -- These two requests have no timeout of their own and cannot be aborted.
  unfoldable pub settle_assets : Outcome (Option ℕ) (List SupportedAsset) → Store F → Store F
  settle_assets (ok xs) s = record s { supported_assets = xs; assets_loading = false }
  settle_assets (err m) s = record s {
    assets_error = some (message_or failed_to_load m);
    assets_loading = false;
  }

  unfoldable pub begin_positions : Store F → Store F
  begin_positions s =
      if given s.address then record s { positions_loading = true; positions_error = none } else s

  unfoldable pub settle_positions :
      Scaling F → (addr : ℕ) → Outcome (Option ℕ) (List RawPosition) → Store F → Store F
  unfolding parse_position
  settle_positions n addr (ok rows) s = record s {
    positions = map (parse_position n addr) rows;
    positions_loading = false;
  }
  settle_positions n addr (err m) s = record s {
    positions_error = some (message_or failed_to_load m);
    positions_loading = false;
  }

-- One of the requests of a dashboard, answered.
pub data Part (F : Type 0) : Type 0 where
  of_assets : Outcome (Option ℕ) (List SupportedAsset) → Part F
  of_portfolio : Fetched (RawPortfolio F) → Part F
  of_positions : Outcome (Option ℕ) (List RawPosition) → Part F
  of_transactions : Fetched (List (HistoryRow F)) → Part F

-- `aborted` and `errors`
pub record Gathered : Type 0 where
  pub any_aborted : Bool
  pub errors : List ℕ

abbrev timeout_message : ℕ
timeout_message = 6

-- The names that stand for a message that an error lacks.
abbrev assets_label : ℕ
assets_label = 7

abbrev portfolio_label : ℕ
portfolio_label = 8

abbrev positions_label : ℕ
positions_label = 9

abbrev transactions_label : ℕ
transactions_label = 10

abbrev pub nothing_gathered : Gathered
nothing_gathered = record { any_aborted = false; errors = [] }

abbrev push_error : ℕ → Gathered → Gathered
push_error m g = record g { errors = g.errors ++ m ∷ [] }

-- `classifyFetchError`, for the two ways in which a request is made.
unfoldable pub classify_fetched : {A : Type 0} → ℕ → Fetched A → Gathered → Gathered
classify_fetched label (fetched _) g = g
classify_fetched label timed_out g = push_error timeout_message g
classify_fetched label aborted g = record g { any_aborted = true }
classify_fetched label (rejected m) g = push_error (message_or label m) g

unfoldable pub classify_outcome : {A : Type 0} → ℕ → Outcome (Option ℕ) A → Gathered → Gathered
classify_outcome label (ok _) g = g
classify_outcome label (err m) g = push_error (message_or label m) g

module _ {F : Type 0} where
  unfoldable pub gather : Part F → Gathered → Gathered
  unfolding classify_fetched classify_outcome
  gather (of_assets r) g = classify_outcome assets_label r g
  gather (of_portfolio r) g = classify_fetched portfolio_label r g
  gather (of_positions r) g = classify_outcome positions_label r g
  gather (of_transactions r) g = classify_fetched transactions_label r g

  unfoldable pub gather_all : List (Part F) → Gathered → Gathered
  unfolding gather
  gather_all [] g = g
  gather_all (x ∷ xs) g = gather_all xs (gather x g)

  unfoldable pub settle_part : Scaling F → (addr : ℕ) → Part F → Store F → Store F
  settle_part n addr (of_assets r) s = settle_assets r s
  settle_part n addr (of_portfolio r) s = settle_portfolio n.zero_number r s
  settle_part n addr (of_positions r) s = settle_positions n addr r s
  settle_part n addr (of_transactions r) s = settle_transactions r s

  unfoldable pub settle_parts : Scaling F → (addr : ℕ) → List (Part F) → Store F → Store F
  unfolding settle_part
  settle_parts n addr [] s = s
  settle_parts n addr (x ∷ xs) s = settle_parts n addr xs (settle_part n addr x s)

  -- The error of the dashboard, the list of messages that the source joins: none where the user has
  -- cancelled.
  unfoldable pub finish_dashboard : Gathered → Store F → Store F
  finish_dashboard g s = record s {
    dashboard_loading = false;
    dashboard_error = if g.any_aborted then [] else g.errors;
  }

  abbrev begin_dashboard : Store F → Store F
  begin_dashboard s = record s { dashboard_loading = true; dashboard_error = [] }

  -- `hydrateDashboard`, whose requests are answered in the order of the list.
  unfoldable pub hydrate_dashboard : Scaling F → List (Part F) → Store F → Store F
  unfolding finish_dashboard settle_parts gather_all begin_portfolio begin_transactions begin_assets
      begin_positions
  hydrate_dashboard n parts s =
      if given s.address
      then finish_dashboard (gather_all parts nothing_gathered) (
          settle_parts n (message_or 0 s.address) parts (
            begin_transactions
              (begin_positions (begin_portfolio (begin_assets (begin_dashboard s))))))
      else record s { dashboard_loading = false }

  -- `refreshDashboard`
  unfoldable pub refresh_dashboard : Scaling F → List (Part F) → Store F → Store F
  unfolding finish_dashboard settle_parts gather_all begin_portfolio begin_transactions
  refresh_dashboard n parts s =
      if given s.address
      then finish_dashboard (gather_all parts nothing_gathered) (
          settle_parts n (message_or 0 s.address) parts
            (begin_transactions (begin_portfolio (begin_dashboard s))))
      else record s { dashboard_loading = false }
