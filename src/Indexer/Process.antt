-- ===== src/Indexer/Process.antt =====
-- `processEventSafe`, `processChunk`, `applyEvent` and `resetDatabase` of indexer.repository.ts.
pub mod Policy
pub mod Chunk
pub mod Fresh
pub mod Once
pub mod Recent
pub mod Balances
use veillend.Base.{
  ℕ, ◌+◌, ◌==◌, ltb, ◌&&◌, ◌||◌, not, Bool, true, false, Option, none, some, List, [], ◌∷◌, is_some,
  if◌then◌else◌, ℤ, pos, ◌+ℤ◌, ◌-ℤ◌, Action, pure, throw, gets, modify, or_throw, throw_if,
  transaction, try_catch, ◌>>=◌, ◌>>◌, find_first, update_many, delete_many, any,
}
use veillend.Indexer.EventId.{extract_event_index}
use veillend.Indexer.Data.{
  IndexerTransaction, EventOrigin, InterestAccrued, ReserveUpdated, Rates, ParamsUpdated,
  IndexerParsedEvent, transaction_event, interest_accrued, asset_reserve_updated,
  interest_params_updated, TransactionHistory, AssetInterestState, AssetInterestParams, IndexDb,
  IndexError, unique_row, bad_number, out_of_range, Texts,
}
use veillend.Indexer.Store.{
  fits_int8, resolve_user, resolve_asset, save_checkpoint, same_event, is_event_duplicate,
  record_event_dedup,
}
use veillend.Indexer.Positions.{new_interest_state, apply_position_delta}

unfoldable pub index_or_extract : Texts → ℕ → Option ℕ → ℕ
index_or_extract env event_id none = extract_event_index (env.text event_id)
index_or_extract env event_id (some i) = i

unfoldable pub origin_of : Texts → IndexerParsedEvent → EventOrigin
unfolding index_or_extract
origin_of env (transaction_event tx deposited borrowed) = record {
  event_id = tx.id;
  tx_hash = tx.tx_hash;
  event_index = index_or_extract env tx.id tx.event_index;
  ledger = tx.ledger;
  timestamp = tx.timestamp;
}
origin_of env (interest_accrued e) = e.origin
origin_of env (asset_reserve_updated e) = e.origin
origin_of env (interest_params_updated e) = e.origin

abbrev pub history_row : Texts → ℕ → ℕ → ℕ → ℕ → IndexerTransaction → TransactionHistory
history_row env id user_id asset_id event_index tx = record {
  id = id;
  user_id = user_id;
  asset_id = asset_id;
  kind = tx.kind;
  amount_raw = tx.amount;
  tx_hash = tx.tx_hash;
  event_index = some event_index;
  ledger_sequence = some tx.ledger;
  contract_id = some (env.lower tx.asset_address);
  soroban_event_id = some tx.id;
  created_at = tx.timestamp;
}

-- `transactionHistory.create`: the event's id is unique, and its hash and index together are.
unfoldable pub create_history :
    Texts → ℕ → ℕ → ℕ → IndexerTransaction → Action IndexDb IndexError (Unit {0})
create_history env user_id asset_id event_index tx = do
  throw_if (not (fits_int8 tx.amount)) out_of_range
  clash ← gets λ db. find_first (same_event tx.id tx.tx_hash event_index) db.history
  throw_if (is_some clash) unique_row
  modify λ db. record db {
    history = history_row env db.next_id user_id asset_id event_index tx ∷ db.history;
    next_id = db.next_id + 1;
  }

unfoldable pub store_transaction :
    Texts → ℕ → IndexerTransaction → ℤ → ℤ → Action IndexDb IndexError (Unit {0})
unfolding create_history
store_transaction env event_index tx deposited borrowed = do
  user_id ← resolve_user env tx.user_address
  asset_id ← resolve_asset env tx.asset_address
  create_history env user_id asset_id event_index tx
  apply_position_delta env user_id asset_id deposited borrowed

-- The interest state that is there takes the growth; a new one has no totals.
unfoldable pub accrue :
    Texts → ℕ → ℕ → ℕ → ℕ → ℤ → ℤ → Option AssetInterestState → Action IndexDb IndexError (Unit {0})
accrue env asset_id borrow_index supply_index ledger accrued reserve none = modify λ db. record db {
  states =
      record (new_interest_state env asset_id) {
        borrow_index = borrow_index;
        supply_index = supply_index;
        last_accrual_ledger = ledger;
      }
      ∷ db.states;
}
accrue env asset_id borrow_index supply_index ledger accrued reserve (some s) = do
  let owed = s.total_borrowed +ℤ accrued
  let supplied = s.total_supplied +ℤ (accrued -ℤ reserve)
  throw_if (not (fits_int8 owed && fits_int8 supplied)) out_of_range
  modify λ db. record db {
    states =
        update_many (λ t. t.asset_id == asset_id)
          (λ t. record t {
            borrow_index = borrow_index;
            supply_index = supply_index;
            last_accrual_ledger = ledger;
            total_borrowed = owed;
            total_supplied = supplied;
          })
          db.states;
  }

unfoldable pub store_accrual : Texts → InterestAccrued → Action IndexDb IndexError (Unit {0})
unfolding accrue
store_accrual env e = do
  asset_id ← resolve_asset env e.asset_address
  accrued ← or_throw (env.big_int e.accrued_amount) bad_number
  reserve ← or_throw (env.big_int e.reserve_share) bad_number
  throw_if (not (fits_int8 accrued && fits_int8 reserve)) out_of_range
  borrow_index ← or_throw (env.index_value e.borrow_index) bad_number
  supply_index ← or_throw (env.index_value e.supply_index) bad_number
  state ← gets (λ db. find_first (λ s. s.asset_id == asset_id) db.states)
  accrue env asset_id borrow_index supply_index e.origin.ledger accrued reserve state

unfoldable pub upsert_fees : Texts → ℕ → ℤ → List AssetInterestState → List AssetInterestState
upsert_fees env asset_id fees states =
    if is_some (find_first (λ s. s.asset_id == asset_id) states)
    then update_many (λ s. s.asset_id == asset_id) (λ s. record s { protocol_fees = fees }) states
    else record (new_interest_state env asset_id) { protocol_fees = fees } ∷ states

unfoldable pub store_reserve : Texts → ReserveUpdated → Action IndexDb IndexError (Unit {0})
unfolding upsert_fees
store_reserve env e = do
  asset_id ← resolve_asset env e.asset_address
  fees ← or_throw (env.big_int e.protocol_fees) bad_number
  throw_if (not (fits_int8 fees)) out_of_range
  modify (λ db. record db { states = upsert_fees env asset_id fees db.states })

unfoldable pub upsert_rates : ℕ → Rates → List AssetInterestParams → List AssetInterestParams
upsert_rates asset_id rates params =
    if is_some (find_first (λ q. q.asset_id == asset_id) params)
    then update_many (λ q. q.asset_id == asset_id) (λ q. record q { rates = rates }) params
    else record { asset_id = asset_id; rates = rates } ∷ params

unfoldable pub store_params : Texts → ParamsUpdated → Action IndexDb IndexError (Unit {0})
unfolding upsert_rates
store_params env e = do
  asset_id ← resolve_asset env e.asset_address
  modify (λ db. record db { params = upsert_rates asset_id e.rates db.params })

unfoldable pub store_event :
    Texts → EventOrigin → IndexerParsedEvent → Action IndexDb IndexError (Unit {0})
unfolding store_transaction store_accrual store_reserve store_params
store_event env o (transaction_event tx deposited borrowed) =
    store_transaction env o.event_index tx deposited borrowed
store_event env o (interest_accrued e) = store_accrual env e
store_event env o (asset_reserve_updated e) = store_reserve env e
store_event env o (interest_params_updated e) = store_params env e

-- What the `catch` does with an error.
unfoldable pub duplicate_or_rethrow : IndexError → Action IndexDb IndexError Bool
duplicate_or_rethrow unique_row = pure false
duplicate_or_rethrow bad_number = throw bad_number
duplicate_or_rethrow out_of_range = throw out_of_range

unfoldable pub store_and_record :
    Texts → EventOrigin → IndexerParsedEvent → ℕ → Action IndexDb IndexError Bool
unfolding store_event record_event_dedup
store_and_record env o event now = do
  store_event env o event
  modify (record_event_dedup o.event_id o.tx_hash o.event_index o.ledger now)
  pure true

unfoldable pub process_unless :
    Bool → Texts → EventOrigin → IndexerParsedEvent → ℕ → Action IndexDb IndexError Bool
unfolding store_and_record duplicate_or_rethrow
process_unless true env o event now = pure false
process_unless false env o event now =
    try_catch (store_and_record env o event now) duplicate_or_rethrow

-- The body of the transaction; it answers whether the event is new.
unfoldable pub process_event : Texts → IndexerParsedEvent → ℕ → Action IndexDb IndexError Bool
unfolding process_unless
process_event env event now = do
  let o = origin_of env event
  duplicate ← gets (is_event_duplicate o.event_id o.tx_hash o.event_index now)
  process_unless duplicate env o event now

unfoldable pub process_event_safe : Texts → IndexerParsedEvent → ℕ → Action IndexDb IndexError Bool
unfolding process_event
process_event_safe env event now = transaction (process_event env event now)

pub record Counts : Type 0 where
  pub inserted : ℕ
  pub already_processed : ℕ

abbrev pub count_event : Bool → Counts → Counts
count_event true c = record c { inserted = c.inserted + 1 }
count_event false c = record c { already_processed = c.already_processed + 1 }

unfoldable pub process_events :
    Texts → ℕ → Counts → List IndexerParsedEvent → Action IndexDb IndexError Counts
unfolding process_event
process_events env now c [] = pure c
process_events env now c (event ∷ events) = do
  is_new ← process_event env event now
  process_events env now (count_event is_new c) events

abbrev pub no_counts : Counts
no_counts = record { inserted = 0; already_processed = 0 }

unfoldable pub finish_chunk : ℕ → Counts → Action IndexDb IndexError Counts
unfolding save_checkpoint
finish_chunk chunk_end c = do
  modify (λ db. if ltb 0 chunk_end then save_checkpoint chunk_end db else db)
  pure c

unfoldable pub process_chunk_tx :
    Texts → List IndexerParsedEvent → ℕ → ℕ → Action IndexDb IndexError Counts
unfolding process_events finish_chunk
process_chunk_tx env events chunk_end now =
    process_events env now no_counts events >>= finish_chunk chunk_end

unfoldable pub process_chunk :
    Texts → List IndexerParsedEvent → ℕ → ℕ → Action IndexDb IndexError Counts
unfolding process_chunk_tx
process_chunk env events chunk_end now = transaction (process_chunk_tx env events chunk_end now)

unfoldable pub apply_event : Texts → IndexerTransaction → ℤ → ℤ → ℕ → Action IndexDb IndexError Bool
unfolding process_event_safe
apply_event env tx deposited borrowed now =
    process_event_safe env (transaction_event tx deposited borrowed) now
