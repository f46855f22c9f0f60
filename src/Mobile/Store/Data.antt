-- ===== src/Mobile/Store/Data.antt =====
-- `StoreState` of store.ts, less the state of the network and of the protocol.
use veillend.Base.{ℕ, Bool, true, false, Option, none, List, []}
use veillend.Mobile.Storage.{Storage}

pub data LendingKind : Type 0 where
  deposit withdraw borrow repay : LendingKind

pub data TxStatus : Type 0 where
  pending confirmed failed : TxStatus

-- Why a lending transaction failed, as the screens show it.
pub data Reason : Type 0 where
  transaction_rejected network_error transaction_failed : Reason
  with_message : ℕ → Reason

pub record SupportedAsset : Type 0 where
  pub symbol : ℕ
  pub decimals : ℕ
  pub contract_id : Option ℕ
  pub is_native : Bool

module _ (F : Type 0) where
  -- A lending transaction of this device.
  pub record TransactionRecord : Type 0 where
    pub id : ℕ
    pub kind : LendingKind
    pub amount : F
    pub asset : ℕ
    pub timestamp : ℕ
    pub status : TxStatus
    pub tx_hash : ℕ
    pub error_reason : Option Reason

  -- A row of the backend's history.
  pub record HistoryRow : Type 0 where
    pub id : ℕ
    pub amount : F

  pub record PositionRow : Type 0 where
    pub user_address : ℕ
    pub asset_address : ℕ
    pub deposited : F
    pub borrowed : F

  pub record AssetBalance : Type 0 where
    pub asset : ℕ
    pub balance : F

  pub record Portfolio : Type 0 where
    pub balance : F
    pub collateral_value : F
    pub borrowed_value : F
    pub available_to_borrow : F
    pub health_factor : F
    pub asset_balances : List AssetBalance

  pub record Store : Type 0 where
    pub address : Option ℕ
    pub auth_token : Option ℕ
    pub session_id : Option ℕ
    pub auth_loading : Bool
    pub session_restored : Bool
    pub hydration_completed : Bool
    pub is_privacy_mode : Bool
    pub profile_name : Option ℕ
    pub profile_image : Option ℕ
    pub currency : ℕ
    pub notifications_enabled : Bool
    pub shielded_loading : Bool
    pub last_lending_tx : Option TransactionRecord
    pub lending_loading : Bool
    pub portfolio : Portfolio
    pub portfolio_loading : Bool
    pub portfolio_error : Option ℕ
    pub transactions : List HistoryRow
    pub transactions_loading : Bool
    pub transactions_error : Option ℕ
    pub supported_assets : List SupportedAsset
    pub assets_loading : Bool
    pub assets_error : Option ℕ
    pub positions : List PositionRow
    pub positions_loading : Bool
    pub positions_error : Option ℕ
    pub dashboard_loading : Bool
    pub dashboard_error : List ℕ  -- the messages that `join` puts together; none for null
    pub backend_slow : Bool
    pub pending_transactions : List TransactionRecord

  -- The application's memory and the device's items.
  pub record Phone : Type 0 where
    pub store : Store
    pub storage : Storage

-- The texts that the code writes out, and the empty one.
abbrev pub true_text : ℕ
true_text = 1

abbrev pub false_text : ℕ
false_text = 2

abbrev pub usd : ℕ
usd = 3

abbrev pub request_timed_out : ℕ
request_timed_out = 4

abbrev pub failed_to_load : ℕ
failed_to_load = 5

module _ {F : Type 0} (zero_number : F) where
  abbrev pub no_portfolio : Portfolio F
  no_portfolio = record {
    balance = zero_number;
    collateral_value = zero_number;
    borrowed_value = zero_number;
    available_to_borrow = zero_number;
    health_factor = zero_number;
    asset_balances = [];
  }

  abbrev pub initial_store : Store F
  initial_store = record {
    address = none;
    auth_token = none;
    session_id = none;
    auth_loading = false;
    session_restored = false;
    hydration_completed = false;
    is_privacy_mode = false;
    profile_name = none;
    profile_image = none;
    currency = usd;
    notifications_enabled = true;
    shielded_loading = false;
    last_lending_tx = none;
    lending_loading = false;
    portfolio = no_portfolio;
    portfolio_loading = false;
    portfolio_error = none;
    transactions = [];
    transactions_loading = false;
    transactions_error = none;
    supported_assets = [];
    assets_loading = false;
    assets_error = none;
    positions = [];
    positions_loading = false;
    positions_error = none;
    dashboard_loading = false;
    dashboard_error = [];
    backend_slow = false;
    pending_transactions = [];
  }
