-- ===== src/Admin/Actions.antt =====
-- admin-action.repository.ts, the dispatch and submission of actions of admin.service.ts, and
-- runWatcher of admin-action-watcher.service.ts.
use veillend.Base.{
  ℕ, ◌+◌, ◌==◌, ◌&&◌, not, Bool, true, false, Option, none, some, List, [], ◌∷◌, is_some, contains,
  if◌then◌else◌, Action, pure, throw, gets, modify, or_throw, throw_if, ◌>>=◌, ◌>>◌, find_first,
  update_many,
}
use veillend.Admin.Data.{
  AdminActionStatus, pending, sent, confirmed, failed, AdminIntent, configures_asset,
  sets_oracle_price, sets_min_collateral_ratio, AdminAction, ManagedAsset, AdminDb, AdminError,
  action_not_found, not_own_action, not_pending, build_failed, duplicate_row, no_record,
  not_an_asset_contract, impersonation_risk,
}

abbrev pub awaits_signature : AdminActionStatus → Bool
awaits_signature s = elim s [ pending ↦ true | _ ↦ false ]

abbrev pub is_submitted : AdminActionStatus → Bool
is_submitted s = elim s [ sent ↦ true | _ ↦ false ]

abbrev pub new_action : ℕ → ℕ → AdminIntent → AdminAction
new_action id admin intent = record {
  id = id;
  admin_address = admin;
  intent = intent;
  xdr = none;
  status = pending;
  tx_hash = none;
  submitted_at = none;
  confirmed_at = none;
}

unfoldable pub create_action : ℕ → AdminIntent → Action AdminDb AdminError ℕ
create_action admin intent = do
  id ← gets (λ db. db.next_id)
  modify λ db. record db { actions = new_action id admin intent ∷ db.actions; next_id = id + 1 }
  pure id

-- `adminAction.update` by id, which throws where there is no such row.
unfoldable pub update_action :
    ℕ → (AdminAction → AdminAction) → Action AdminDb AdminError (Unit {0})
update_action id f = do
  found ← gets (λ db. find_first (λ a. a.id == id) db.actions)
  throw_if (not (is_some found)) no_record
  modify (λ db. record db { actions = update_many (λ a. a.id == id) f db.actions })

abbrev pub has_hash : ℕ → AdminAction → Bool
has_hash hash a = elim a.tx_hash [ none ↦ false | some h ↦ h == hash ]

-- The hash is unique: one that stands in a row of another action makes the update throw.
unfoldable pub mark_sent : ℕ → ℕ → ℕ → Action AdminDb AdminError (Unit {0})
unfolding update_action
mark_sent id hash now = do
  clash ← gets λ db. find_first (λ a. has_hash hash a && not (a.id == id)) db.actions
  throw_if (is_some clash) duplicate_row
  update_action id (λ a. record a { status = sent; tx_hash = some hash; submitted_at = some now })

unfoldable pub mark_confirmed : ℕ → ℕ → Action AdminDb AdminError (Unit {0})
unfolding update_action
mark_confirmed id now =
    update_action id (λ a. record a { status = confirmed; confirmed_at = some now })

unfoldable pub mark_failed : ℕ → Action AdminDb AdminError (Unit {0})
unfolding update_action
mark_failed id = update_action id (λ a. record a { status = failed })

-- What `buildActionXdr` makes of an action, none where it throws.
abbrev pub Builder : Type 0
Builder = (id admin : ℕ) → AdminIntent → Option ℕ

unfoldable pub keep_built : ℕ → Option ℕ → Action AdminDb AdminError ℕ
unfolding update_action mark_failed
keep_built id (some xdr) = do update_action id (λ a. record a { xdr = some xdr }); pure id
keep_built id none = do mark_failed id; throw build_failed

-- It answers the id of the action; its XDR is in the row.
unfoldable pub dispatch_action : Builder → ℕ → AdminIntent → Action AdminDb AdminError ℕ
unfolding create_action keep_built
dispatch_action build admin intent = do
  id ← create_action admin intent
  keep_built id (build id admin intent)

unfoldable pub submit_transaction : ℕ → ℕ → ℕ → ℕ → Action AdminDb AdminError (Unit {0})
unfolding mark_sent
submit_transaction id hash actor now = do
  found ← gets (λ db. find_first (λ a. a.id == id) db.actions)
  action ← or_throw found action_not_found
  throw_if (not (action.admin_address == actor)) not_own_action
  throw_if (not (awaits_signature action.status)) not_pending
  mark_sent id hash now

-- What `validateStellarAssetContract` answers of a contract.
pub record ContractData : Type 0 where
  pub symbol : ℕ
  pub decimals : ℕ

pub record AssetRequest : Type 0 where
  pub contract : ℕ
  pub name : Option ℕ
  pub supported : Bool

abbrev pub impersonates : List ℕ → ℕ → Bool
impersonates [] contract = false
impersonates (a ∷ rest) contract = not (contains contract (a ∷ rest))

abbrev pub described : ContractData → AssetRequest → ManagedAsset → ManagedAsset
described data_of dto a = record a {
  symbol = data_of.symbol;
  display_name = dto.name;
  decimals = data_of.decimals;
  verified = true;
}

unfoldable pub upsert_asset : ContractData → AssetRequest → List ManagedAsset → List ManagedAsset
upsert_asset d dto assets =
    if is_some (find_first (λ a. a.contract_id == dto.contract) assets)
    then update_many (λ a. a.contract_id == dto.contract) (described d dto) assets
    else record {
      contract_id = dto.contract;
      symbol = d.symbol;
      display_name = dto.name;
      decimals = d.decimals;
      verified = true;
      is_supported = false;
    }
      ∷ assets

-- `verified`: the verified contracts of a symbol.
unfoldable pub configure_asset_support :
    Builder
    → (ℕ → Option ContractData)
    → (ℕ → List ℕ)
    → AssetRequest
    → ℕ
    → Action AdminDb AdminError ℕ
unfolding upsert_asset dispatch_action
configure_asset_support build validate verified dto actor = do
  d ← or_throw (validate dto.contract) not_an_asset_contract
  throw_if (impersonates (verified d.symbol) dto.contract) impersonation_risk
  modify (λ db. record db { assets = upsert_asset d dto db.assets })
  dispatch_action build actor (configures_asset dto.contract dto.supported)

unfoldable pub set_oracle_price : Builder → ℕ → ℕ → ℕ → Action AdminDb AdminError ℕ
unfolding dispatch_action
set_oracle_price build contract price actor =
    dispatch_action build actor (sets_oracle_price contract price)

unfoldable pub set_min_collateral_ratio : Builder → ℕ → ℕ → Action AdminDb AdminError ℕ
unfolding dispatch_action
set_min_collateral_ratio build bps actor =
    dispatch_action build actor (sets_min_collateral_ratio bps)

pub data ChainStatus : Type 0 where
  tx_succeeded tx_failed tx_not_found rpc_down : ChainStatus

unfoldable pub find_submitted : List AdminAction → List AdminAction
find_submitted [] = []
find_submitted (a ∷ rows) =
    let rest = find_submitted rows in
    if is_submitted a.status && is_some a.tx_hash then a ∷ rest else rest

-- What the watcher does with an answer of the chain.
unfoldable pub settle_action : ℕ → ℕ → ChainStatus → AdminDb → AdminDb
unfolding mark_confirmed mark_failed
settle_action id now tx_succeeded db = (mark_confirmed id now db).1
settle_action id now tx_failed db = (mark_failed id db).1
settle_action id now tx_not_found db = db
settle_action id now rpc_down db = db

unfoldable pub settle_with : (ℕ → ChainStatus) → ℕ → ℕ → Option ℕ → AdminDb → AdminDb
unfolding settle_action
settle_with chain now id none db = db
settle_with chain now id (some hash) db = settle_action id now (chain hash) db

unfoldable pub settle_each : (ℕ → ChainStatus) → ℕ → List AdminAction → AdminDb → AdminDb
unfolding settle_with
settle_each chain now [] db = db
settle_each chain now (a ∷ rows) db =
    settle_each chain now rows (settle_with chain now a.id a.tx_hash db)

unfoldable pub run_admin_watcher : (ℕ → ChainStatus) → ℕ → AdminDb → AdminDb
unfolding find_submitted settle_each
run_admin_watcher chain now db = settle_each chain now (find_submitted db.actions) db
