-- ===== src/Funds/Data.antt =====
-- The tables of schema.prisma that the deposit and withdrawal services read and write. Identifiers,
-- addresses, hashes and nonces are only ever compared, and are numbers here. Times are
-- milliseconds, amounts are stroops.
use veillend.Base.{ℕ, ◌+◌, ◌^◌, ltb, ◌&&◌, Bool, Option, List, ℤ, pos_part, neg_part}

pub data DepositStatus : Type 0 where
  pending confirmed orphaned : DepositStatus

pub data WithdrawalStatus : Type 0 where
  draft signed sent confirmed rejected cancelled orphaned requires_revalidation : WithdrawalStatus

pub record Asset : Type 0 where
  pub id : ℕ
  pub contract_id : ℕ
  pub code : ℕ

-- The columns that these services touch; `depositedRaw` is a signed bigint with no check on it.
pub record Position : Type 0 where
  pub user_id : ℕ
  pub asset_id : ℕ
  pub deposited_raw : ℤ
  pub is_stale : Bool

pub record AssetConfig : Type 0 where
  pub asset_id : ℕ
  pub min_confirmations : ℕ

pub record Deposit : Type 0 where
  pub id : ℕ
  pub user_wallet : ℕ
  pub user_id : ℕ
  pub asset_id : ℕ
  pub amount_stroops : ℕ
  pub tx_hash : ℕ
  pub ledger_seq : ℕ
  pub confirmations_required : ℕ
  pub confirmations_seen : ℤ
  pub status : DepositStatus
  pub credited_at : Option ℕ

pub record Withdrawal : Type 0 where
  pub id : ℕ
  pub user_wallet : ℕ
  pub user_id : ℕ
  pub asset_id : ℕ
  pub amount_stroops : ℕ
  pub destination_address : ℕ
  pub destination_tag : Option ℕ
  pub whitelist_approved : Bool
  pub timelock_until : Option ℕ
  pub status : WithdrawalStatus
  pub xdr : ℕ
  pub tx_hash : Option ℕ
  pub confirmations_required : ℕ
  pub confirmations_seen : ℤ
  pub idempotency_key : Option ℕ
  pub signed_at : Option ℕ
  pub submitted_at : Option ℕ
  pub confirmed_at : Option ℕ

pub record WithdrawNonce : Type 0 where
  pub nonce : ℕ
  pub withdrawal_id : ℕ
  pub used : Bool

pub record WhitelistEntry : Type 0 where
  pub id : ℕ
  pub user_id : ℕ
  pub address : ℕ
  pub timelock_until : Option ℕ
  pub is_instant_approved : Bool
  pub instant_limit_usd : Option ℕ

-- Whether a BIGINT column, of 64 bits, holds the number.
abbrev pub fits_bigint : ℤ → Bool
fits_bigint z = ltb (pos_part z) (2 ^ 63) && ltb (neg_part z) (2 ^ 63 + 1)

-- What a creation answers. `read_back` is what comes back of an answer that was written into the
-- JSON column `responseJson`.
pub data Response : Type 0 where
  read_back : (json : ℕ) → Response
  deposit_made : Deposit → Response
  withdrawal_made :
      (id : ℕ) (status : WithdrawalStatus) (nonce : ℕ) (timelock : Option ℕ) → Response

pub record IdempotencyKey : Type 0 where
  pub key : ℕ
  pub user_id : ℕ
  pub response : Response
  pub expires_at : ℕ

pub record Db : Type 0 where
  pub assets : List Asset
  pub configs : List AssetConfig
  pub positions : List Position
  pub deposits : List Deposit
  pub withdrawals : List Withdrawal
  pub nonces : List WithdrawNonce
  pub whitelist : List WhitelistEntry
  pub idempotency_keys : List IdempotencyKey

pub data SolvencyErrorKind : Type 0 where
  insufficient_deposit insufficient_collateral oracle_unavailable : SolvencyErrorKind

-- What `assertWithdrawable` answers.
pub record SolvencyCheck : Type 0 where
  pub allowed : Bool
  pub error_kind : Option SolvencyErrorKind

pub data FundsError : Type 0 where
  asset_not_found duplicate_deposit withdrawal_not_found whitelist_not_found already_whitelisted
        simulation_failed nonce_replay unique_violation missing_record out_of_range :
      FundsError
  timelocked : ℕ → FundsError
  wrong_status : WithdrawalStatus → FundsError
  insolvent : Option SolvencyErrorKind → FundsError

pub record Config : Type 0 where
  pub deposit_min_confirmations : ℕ
  pub withdrawal_min_confirmations : ℕ
  pub timelock_hours : ℕ
  pub instant_whitelist_max_usd : ℕ
  pub to_json : Response → ℕ  -- the JSON column's conversion, by the database client
