-- ===== src/Admin/Data.antt =====
-- The tables of schema.prisma that the admin code reads and writes, beside those of Auth/Data.
-- Addresses, hashes, texts and prices are numbers.
use veillend.Base.{ℕ, Bool, Option, List}
use veillend.Auth.Data.{Db as AuthDb}

pub data AdminActionStatus : Type 0 where
  pending sent confirmed failed : AdminActionStatus

-- What an action asks of the contract.
pub data AdminIntent : Type 0 where
  configures_asset : (contract : ℕ) → (supported : Bool) → AdminIntent
  sets_oracle_price : (contract price : ℕ) → AdminIntent
  sets_min_collateral_ratio : (bps : ℕ) → AdminIntent

-- `xdr` is none for ''.
pub record AdminAction : Type 0 where
  pub id : ℕ
  pub admin_address : ℕ
  pub intent : AdminIntent
  pub xdr : Option ℕ
  pub status : AdminActionStatus
  pub tx_hash : Option ℕ
  pub submitted_at : Option ℕ
  pub confirmed_at : Option ℕ

pub record Admin : Type 0 where
  pub id : ℕ
  pub wallet_address : ℕ

pub data AdminLogEntry : Type 0 where
  admin_added : (actor wallet : ℕ) → AdminLogEntry
  admin_removed : (actor wallet : ℕ) → (sessions_revoked : Bool) → AdminLogEntry

-- The columns of an asset that configureAsset writes.
pub record ManagedAsset : Type 0 where
  pub contract_id : ℕ
  pub symbol : ℕ
  pub display_name : Option ℕ
  pub decimals : ℕ
  pub verified : Bool
  pub is_supported : Bool

-- `next_id` is the next row id to draw.
pub record AdminDb : Type 0 where
  pub admins : List Admin
  pub audit_log : List AdminLogEntry
  pub actions : List AdminAction
  pub assets : List ManagedAsset
  pub auth : AuthDb
  pub next_id : ℕ

pub data AdminError : Type 0 where
  action_not_found not_own_action not_pending build_failed duplicate_row no_record
        not_an_asset_contract impersonation_risk :
      AdminError
