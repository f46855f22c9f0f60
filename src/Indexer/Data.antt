-- ===== src/Indexer/Data.antt =====
-- The events that the indexer reads off the chain, and the tables of schema.prisma that it writes.
-- Event ids, addresses and unparsed numbers are texts, which the code compares, lowers or casts: a
-- text is a number here, and the record Texts has what is done with it.
use veillend.Base.{ℕ, Bool, Option, List, ℤ}
use veillend.Auth.Data.{User}

pub data TxKind : Type 0 where
  deposit_tx borrow_tx repay_tx withdraw_tx : TxKind

-- `txHash` is none for ''.
pub record IndexerTransaction : Type 0 where
  pub id : ℕ
  pub user_address : ℕ
  pub kind : TxKind
  pub asset_address : ℕ
  pub amount : ℤ
  pub ledger : ℕ
  pub tx_hash : Option ℕ
  pub event_index : Option ℕ
  pub timestamp : ℕ

-- The fields that the other events share.
pub record EventOrigin : Type 0 where
  pub event_id : ℕ
  pub tx_hash : Option ℕ
  pub event_index : ℕ
  pub ledger : ℕ
  pub timestamp : ℕ

pub record InterestAccrued : Type 0 where
  pub asset_address : ℕ
  pub borrow_index : ℕ
  pub supply_index : ℕ
  pub accrued_amount : ℕ
  pub reserve_share : ℕ
  pub origin : EventOrigin

pub record ReserveUpdated : Type 0 where
  pub asset_address : ℕ
  pub total_balance : ℕ
  pub protocol_fees : ℕ
  pub update_kind : ℕ
  pub origin : EventOrigin

pub record Rates : Type 0 where
  pub base_rate_bps : ℕ
  pub kink_util_bps : ℕ
  pub slope1_bps : ℕ
  pub slope2_bps : ℕ
  pub reserve_factor_bps : ℕ

pub record ParamsUpdated : Type 0 where
  pub asset_address : ℕ
  pub rates : Rates
  pub origin : EventOrigin

-- A transaction comes with the change of the deposited and of the borrowed balance.
pub data IndexerParsedEvent : Type 0 where
  transaction_event : (tx : IndexerTransaction) (deposited borrowed : ℤ) → IndexerParsedEvent
  interest_accrued : InterestAccrued → IndexerParsedEvent
  asset_reserve_updated : ReserveUpdated → IndexerParsedEvent
  interest_params_updated : ParamsUpdated → IndexerParsedEvent

pub record IndexedAsset : Type 0 where
  pub id : ℕ
  pub contract_id : Option ℕ
  pub is_supported : Bool

pub record TransactionHistory : Type 0 where
  pub id : ℕ
  pub user_id : ℕ
  pub asset_id : ℕ
  pub kind : TxKind
  pub amount_raw : ℤ
  pub tx_hash : Option ℕ
  pub event_index : Option ℕ
  pub ledger_sequence : Option ℕ
  pub contract_id : Option ℕ
  pub soroban_event_id : Option ℕ
  pub created_at : ℕ

-- The indexes are decimals, which the code only moves about: a value of such a column is a number
-- here, and `one_index` is the default.
pub record IndexedPosition : Type 0 where
  pub id : ℕ
  pub user_id : ℕ
  pub asset_id : ℕ
  pub deposited_raw : ℤ
  pub borrowed_raw : ℤ
  pub borrow_index_snapshot : ℕ
  pub supply_index_snapshot : ℕ
  pub is_stale : Bool

pub record AssetInterestState : Type 0 where
  pub asset_id : ℕ
  pub borrow_index : ℕ
  pub supply_index : ℕ
  pub last_accrual_ledger : ℕ
  pub total_supplied : ℤ
  pub total_borrowed : ℤ
  pub protocol_fees : ℤ

pub record AssetInterestParams : Type 0 where
  pub asset_id : ℕ
  pub rates : Rates

pub record IndexerEventDedup : Type 0 where
  pub event_id : ℕ
  pub tx_hash : Option ℕ
  pub event_index : Option ℕ
  pub ledger : Option ℕ
  pub expires_at : ℕ

-- `next_id` is the next row id to draw.
pub record IndexDb : Type 0 where
  pub users : List User
  pub assets : List IndexedAsset
  pub history : List TransactionHistory
  pub positions : List IndexedPosition
  pub states : List AssetInterestState
  pub params : List AssetInterestParams
  pub dedups : List IndexerEventDedup
  pub checkpoint : Option ℕ
  pub next_id : ℕ

-- `bad_number`: a text that is no number where the code or the database casts it. `out_of_range`: a
-- number that a BIGINT column does not hold.
pub data IndexError : Type 0 where
  unique_row bad_number out_of_range : IndexError

-- What may end a run of the indexer: a write that fails, a request for the latest ledger that fails,
-- or no contract.
pub data RunError : Type 0 where
  write_failed : IndexError → RunError
  rpc_failed not_configured : RunError

-- `text`: the characters. `lower`: toLowerCase. `big_int`: BigInt(…). `index_value`: a cast to
-- numeric, into a column of an index. `one_index`: the decimal 1.0.
pub record Texts : Type 0 where
  pub text : ℕ → List ℕ
  pub lower : ℕ → ℕ
  pub big_int : ℕ → Option ℤ
  pub index_value : ℕ → Option ℕ
  pub one_index : ℕ
