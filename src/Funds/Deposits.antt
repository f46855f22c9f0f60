-- ===== src/Funds/Deposits.antt =====
-- deposits.service.ts and deposit-watcher.service.ts.
pub mod Credit
pub mod Replay
use veillend.Base.{
  ℕ, ◌+◌, ◌*◌, ◌==◌, ltb, ◌&&◌, ◌||◌, not, Bool, true, false, Option, none, some, List, [], ◌∷◌,
  is_some, if◌then◌else◌, ℤ, pos, negsuc, sub_ℕ, ◌+ℤ◌, leb_ℤ, Action, pure, gets, modify, throw,
  or_throw, throw_if, transaction, ◌>>=◌, ◌>>◌, find_first, update_many, count_where,
}
use veillend.Funds.Data.{
  DepositStatus, pending, confirmed, orphaned, Asset, AssetConfig, Position, Deposit, Response,
  deposit_made, IdempotencyKey, Db, FundsError, asset_not_found, duplicate_deposit, out_of_range,
  fits_bigint, read_back, unique_violation, missing_record, Config,
}

-- 24 hours.
abbrev pub idempotency_ttl_ms : ℕ
idempotency_ttl_ms = 24 * 60 * 60 * 1000

pub record CreateDeposit : Type 0 where
  pub asset_address : ℕ
  pub amount_stroops : ℕ
  pub tx_hash : ℕ
  pub ledger_seq : ℕ

-- The stored answer, if the request has a key and the key's row has not expired.
unfoldable pub replay_of : Option ℕ → ℕ → Db → Option Response
replay_of none now db = none
replay_of (some key) now db =
    elim (find_first (λ (k : IdempotencyKey). k.key == key) db.idempotency_keys) [
      | none ↦ none
      | some k ↦ if ltb now k.expires_at then some k.response else none
    ]

unfoldable pub find_asset : ℕ → Db → Option Asset
find_asset address db =
    find_first (λ a. a.contract_id == address || (a.id == address || a.code == address)) db.assets

-- `assetConfig?.minConfirmations || default`: a configured 0 counts as absent.
unfoldable pub required_confirmations : ℕ → ℕ → Db → ℕ
required_confirmations asset_id default db =
    elim (find_first (λ (c : AssetConfig). c.asset_id == asset_id) db.configs) [
      | none ↦ default
      | some c ↦ if c.min_confirmations == 0 then default else c.min_confirmations
    ]

-- `idempotencyKey.create`: the key is unique, and a row of it that has expired is still there.
unfoldable pub store_key : Option ℕ → ℕ → Response → ℕ → Action Db FundsError (Unit {0})
store_key none user_id response now = pure tt
store_key (some key) user_id response now = do
  keys ← gets (λ db. db.idempotency_keys)
  throw_if (is_some (find_first (λ k. k.key == key) keys)) unique_violation
  modify λ db. record db {
    idempotency_keys =
        record {
          key = key;
          user_id = user_id;
          response = response;
          expires_at = now + idempotency_ttl_ms;
        }
        ∷ db.idempotency_keys;
  }

abbrev pub new_deposit : ℕ → ℕ → ℕ → ℕ → ℕ → CreateDeposit → Deposit
new_deposit id user_id wallet asset_id required dto = record {
  id = id;
  user_wallet = wallet;
  user_id = user_id;
  asset_id = asset_id;
  amount_stroops = dto.amount_stroops;
  tx_hash = dto.tx_hash;
  ledger_seq = dto.ledger_seq;
  confirmations_required = required;
  confirmations_seen = pos 0;
  status = pending;
  credited_at = none;
}

unfoldable pub record_deposit :
    Config → ℕ → ℕ → ℕ → CreateDeposit → Option ℕ → ℕ → Action Db FundsError Response
record_deposit cfg id user_id wallet dto key now = do
  found ← gets (find_asset dto.asset_address)
  asset ← or_throw found asset_not_found
  deposits ← gets (λ db. db.deposits)
  throw_if (is_some (find_first (λ d. d.tx_hash == dto.tx_hash) deposits)) duplicate_deposit
  required ← gets (required_confirmations asset.id cfg.deposit_min_confirmations)
  let deposit = new_deposit id user_id wallet asset.id required dto
  modify (λ db. record db { deposits = deposit ∷ db.deposits })
  store_key key user_id (deposit_made deposit) now
  pure (deposit_made deposit)

unfoldable pub create_or_replay :
    Config
    → ℕ
    → ℕ
    → ℕ
    → CreateDeposit
    → Option ℕ
    → ℕ
    → Option Response
    → Action Db FundsError Response
unfolding record_deposit
create_or_replay cfg id user_id wallet dto key now (some response) =
    pure (read_back (cfg.to_json response))
create_or_replay cfg id user_id wallet dto key now none =
    record_deposit cfg id user_id wallet dto key now

unfoldable pub create_deposit :
    Config → ℕ → ℕ → ℕ → CreateDeposit → Option ℕ → ℕ → Action Db FundsError Response
unfolding create_or_replay
create_deposit cfg id user_id wallet dto key now = do
  stored ← gets (replay_of key now)
  create_or_replay cfg id user_id wallet dto key now stored

abbrev pub at_position : ℕ → ℕ → Position → Bool
at_position user_id asset_id p = p.user_id == user_id && p.asset_id == asset_id

-- The balance after the upsert.
unfoldable pub raised : ℕ → Option Position → ℤ
raised amount none = pos amount
raised amount (some p) = p.deposited_raw +ℤ pos amount

unfoldable pub credit_rows : ℕ → ℕ → ℕ → List Position → List Position
credit_rows user_id asset_id amount ps =
    if is_some (find_first (at_position user_id asset_id) ps)
    then update_many (at_position user_id asset_id)
        (λ p. record p { deposited_raw = p.deposited_raw +ℤ pos amount; is_stale = true }) ps
    else record {
      user_id = user_id;
      asset_id = asset_id;
      deposited_raw = pos amount;
      is_stale = true;
    }
      ∷ ps

-- `position.upsert` with `increment`, which throws where the column cannot hold the balance.
unfoldable pub credit : ℕ → ℕ → ℕ → Action Db FundsError (Unit {0})
unfolding raised credit_rows
credit user_id asset_id amount = do
  found ← gets (λ db. find_first (at_position user_id asset_id) db.positions)
  throw_if (not (fits_bigint (raised amount found))) out_of_range
  modify (λ db. record db { positions = credit_rows user_id asset_id amount db.positions })

unfoldable pub confirm_deposit : Deposit → ℤ → ℕ → Action Db FundsError (Unit {0})
unfolding credit
confirm_deposit d seen now = transaction (do
  modify λ db. record db {
    deposits =
        update_many (λ x. x.id == d.id)
          (λ x. record x { confirmations_seen = seen; status = confirmed; credited_at = some now })
          db.deposits;
  }
  credit d.user_id d.asset_id d.amount_stroops)

unfoldable pub note_seen : ℕ → ℤ → Db → Db
note_seen id seen db = record db {
  deposits =
      update_many (λ x. x.id == id) (λ x. record x { confirmations_seen = seen }) db.deposits;
}

-- `ledgerDiff >= deposit.confirmationsRequired`, over signed numbers.
unfoldable pub is_deep_enough : Deposit → ℕ → Bool
is_deep_enough d ledger = leb_ℤ (pos d.confirmations_required) (sub_ℕ ledger d.ledger_seq)

unfoldable pub advance_deposit :
    Deposit → DepositStatus → Bool → ℤ → ℕ → Action Db FundsError (Unit {0})
unfolding confirm_deposit
advance_deposit d pending true seen now = confirm_deposit d seen now
advance_deposit d pending false seen now = modify (note_seen d.id seen)
advance_deposit d _ deep seen now = pure tt

unfoldable pub update_found : Option Deposit → ℤ → ℕ → ℕ → Action Db FundsError (Unit {0})
unfolding advance_deposit
update_found none seen ledger now = pure tt
update_found (some d) seen ledger now =
    advance_deposit d d.status (is_deep_enough d ledger) seen now

unfoldable pub update_deposit_confirmations : ℕ → ℤ → ℕ → ℕ → Action Db FundsError (Unit {0})
unfolding update_found
update_deposit_confirmations id seen ledger now = do
  found ← gets (λ db. find_first (λ d. d.id == id) db.deposits)
  update_found found seen ledger now

unfoldable pub mark_deposit_orphaned : ℕ → Db → Db
mark_deposit_orphaned id db = record db {
  deposits = update_many (λ d. d.id == id) (λ d. record d { status = orphaned }) db.deposits;
}

-- What Horizon answers for a transaction hash.
pub data Lookup : Type 0 where
  unknown failed : Lookup
  successful : (ledger : ℕ) → Lookup
  unreachable : Lookup

-- The body of the watcher's loop for one pending deposit; an error is logged and the loop goes on.
unfoldable pub watch_deposit : ℕ → ℕ → Deposit → Lookup → Db → Db
watch_deposit ledger now d unknown db = mark_deposit_orphaned d.id db
watch_deposit ledger now d failed db = mark_deposit_orphaned d.id db
watch_deposit ledger now d (successful _) db =
    (update_deposit_confirmations d.id (sub_ℕ ledger d.ledger_seq) ledger now db).1
watch_deposit ledger now d unreachable db = db

abbrev pub is_pending : Deposit → Bool
is_pending d = elim d.status [ pending ↦ true | _ ↦ false ]

unfoldable pub get_pending_deposits : List Deposit → List Deposit
get_pending_deposits [] = []
get_pending_deposits (d ∷ ds) =
    let rest = get_pending_deposits ds in if is_pending d then d ∷ rest else rest

watch_each : ℕ → ℕ → (ℕ → Lookup) → List Deposit → Db → Db
watch_each ledger now horizon [] db = db
watch_each ledger now horizon (d ∷ ds) db =
    watch_each ledger now horizon ds (watch_deposit ledger now d (horizon d.tx_hash) db)

-- One cycle of the deposit watcher, over the deposits that are pending when it begins.
unfoldable pub run_deposit_watcher : ℕ → ℕ → (ℕ → Lookup) → Db → Db
unfolding watch_each get_pending_deposits
run_deposit_watcher ledger now horizon db =
    watch_each ledger now horizon (get_pending_deposits db.deposits) db
