-- ===== src/Admin/History.antt =====
-- The requests of admins and the watcher's cycles, one after the other.
pub mod Final
use veillend.Base.{ℕ, Option, List, [], ◌∷◌}
use veillend.Admin.Data.{AdminDb}
use veillend.Admin.Actions.{
  Builder, ContractData, AssetRequest, ChainStatus, configure_asset_support, set_oracle_price,
  set_min_collateral_ratio, submit_transaction, run_admin_watcher,
}
use veillend.Admin.Members.{add_admin, remove_admin}

pub data AdminCall : Type 0 where
  asks_asset : AssetRequest → AdminCall
  asks_price : (contract price : ℕ) → AdminCall
  asks_ratio : (bps : ℕ) → AdminCall
  reports_hash : (id hash : ℕ) → AdminCall
  adds_admin removes_admin : (wallet : ℕ) → AdminCall
  watches_chain : (ℕ → ChainStatus) → AdminCall

pub record AdminRequest : Type 0 where
  pub actor : ℕ
  pub now : ℕ
  pub call : AdminCall

-- What the contract's builder and the network answer.
pub record Outside : Type 0 where
  pub build : Builder
  pub validate : ℕ → Option ContractData
  pub verified : ℕ → List ℕ

-- The tables after a request, whether it returned or threw.
unfoldable pub after_request : Outside → ℕ → ℕ → AdminCall → AdminDb → AdminDb
after_request o actor now (asks_asset dto) db =
    (configure_asset_support o.build o.validate o.verified dto actor db).1
after_request o actor now (asks_price contract price) db =
    (set_oracle_price o.build contract price actor db).1
after_request o actor now (asks_ratio bps) db = (set_min_collateral_ratio o.build bps actor db).1
after_request o actor now (reports_hash id hash) db = (submit_transaction id hash actor now db).1
after_request o actor now (adds_admin wallet) db = (add_admin wallet actor db).1
after_request o actor now (removes_admin wallet) db = (remove_admin wallet actor db).1
after_request o actor now (watches_chain chain) db = run_admin_watcher chain now db

unfoldable pub after_requests : Outside → List AdminRequest → AdminDb → AdminDb
unfolding after_request
after_requests o [] db = db
after_requests o (q ∷ qs) db = after_requests o qs (after_request o q.actor q.now q.call db)
