-- ===== src/Indexer/Store.antt =====
-- The repository's single-table operations: indexer.repository.ts.
use veillend.Base.{
  ℕ, ◌+◌, ◌*◌, ◌^◌, ◌==◌, ltb, ◌&&◌, ◌||◌, Bool, false, Option, none, some, List, ◌∷◌, is_some,
  if◌then◌else◌, ℤ, pos_part, neg_part, Action, pure, gets, modify, ◌>>=◌, ◌>>◌, find_first,
  update_many, delete_many, count_where,
}
use veillend.Auth.Data.{User}
use veillend.Indexer.Data.{
  IndexedAsset, TransactionHistory, IndexerEventDedup, IndexDb, IndexError, Texts,
}

abbrev pub is_some_of : ℕ → Option ℕ → Bool
is_some_of a none = false
is_some_of a (some b) = a == b

-- Whether a BIGINT column holds the number.
abbrev pub fits_int8 : ℤ → Bool
fits_int8 z = ltb (pos_part z) (2 ^ 63) && ltb (neg_part z) (2 ^ 63 + 1)

-- `user.upsert` with nothing to update.
unfoldable pub user_or_new : ℕ → Option User → Action IndexDb IndexError ℕ
user_or_new wallet (some u) = pure u.id
user_or_new wallet none = do
  id ← gets (λ db. db.next_id)
  modify λ db. record db {
    users = record { id = id; wallet_address = wallet } ∷ db.users;
    next_id = id + 1;
  }
  pure id

unfoldable pub resolve_user : Texts → ℕ → Action IndexDb IndexError ℕ
resolve_user env address = do
  found ← gets λ db. find_first (λ u. u.wallet_address == env.lower address) db.users
  user_or_new (env.lower address) found

unfoldable pub asset_or_new : ℕ → Option IndexedAsset → Action IndexDb IndexError ℕ
asset_or_new contract (some a) = pure a.id
asset_or_new contract none = do
  id ← gets (λ db. db.next_id)
  modify λ db. record db {
    assets = record { id = id; contract_id = some contract; is_supported = false } ∷ db.assets;
    next_id = id + 1;
  }
  pure id

unfoldable pub resolve_asset : Texts → ℕ → Action IndexDb IndexError ℕ
resolve_asset env address = do
  found ← gets λ db. find_first (λ a. is_some_of (env.lower address) a.contract_id) db.assets
  asset_or_new (env.lower address) found

unfoldable pub get_checkpoint : IndexDb → ℕ
get_checkpoint db = elim db.checkpoint [ none ↦ 0 | some ledger ↦ ledger ]

unfoldable pub save_checkpoint : ℕ → IndexDb → IndexDb
save_checkpoint ledger db = record db { checkpoint = some ledger }

abbrev pub active_at : ℕ → Option IndexerEventDedup → Bool
active_at now none = false
active_at now (some d) = ltb now d.expires_at

unfoldable pub remembered : ℕ → ℕ → IndexDb → Bool
remembered event_id now db = active_at now (find_first (λ d. d.event_id == event_id) db.dedups)

-- The rows of the history that stand for the same event.
abbrev pub same_place : Option ℕ → ℕ → TransactionHistory → Bool
same_place none event_index row = false
same_place (some h) event_index row =
    is_some_of h row.tx_hash && is_some_of event_index row.event_index

abbrev pub same_event : ℕ → Option ℕ → ℕ → TransactionHistory → Bool
same_event event_id tx_hash event_index row =
    is_some_of event_id row.soroban_event_id || same_place tx_hash event_index row

unfoldable pub is_event_duplicate : ℕ → Option ℕ → ℕ → ℕ → IndexDb → Bool
is_event_duplicate event_id tx_hash event_index now db =
    remembered event_id now db
    || is_some (find_first (same_event event_id tx_hash event_index) db.history)

-- One hour.
abbrev pub dedup_ttl_ms : ℕ
dedup_ttl_ms = 3600 * 1000

abbrev pub dedup_row : ℕ → Option ℕ → ℕ → ℕ → ℕ → IndexerEventDedup
dedup_row event_id tx_hash event_index ledger now = record {
  event_id = event_id;
  tx_hash = tx_hash;
  event_index = some event_index;
  ledger = some ledger;
  expires_at = now + dedup_ttl_ms;
}

unfoldable pub upsert_dedup : IndexerEventDedup → List IndexerEventDedup → List IndexerEventDedup
upsert_dedup row rows =
    if is_some (find_first (λ d. d.event_id == row.event_id) rows)
    then update_many (λ d. d.event_id == row.event_id) (λ d. row) rows
    else row ∷ rows

unfoldable pub record_event_dedup : ℕ → Option ℕ → ℕ → ℕ → ℕ → IndexDb → IndexDb
unfolding upsert_dedup
record_event_dedup event_id tx_hash event_index ledger now db = record db {
  dedups = upsert_dedup (dedup_row event_id tx_hash event_index ledger now) db.dedups;
}

-- It answers how many rows it deleted.
unfoldable pub clean_expired_dedup : ℕ → Action IndexDb IndexError ℕ
clean_expired_dedup now = do
  count ← gets λ db. count_where (λ d. ltb d.expires_at now) db.dedups
  modify λ db. record db { dedups = delete_many (λ d. ltb d.expires_at now) db.dedups }
  pure count

abbrev pub with_asset : ℕ → Bool → IndexDb → IndexDb
with_asset contract supported db = record db {
  assets =
      record { id = db.next_id; contract_id = some contract; is_supported = supported } ∷ db.assets;
  next_id = db.next_id + 1;
}

unfoldable pub set_asset_supported : Texts → ℕ → Bool → IndexDb → IndexDb
set_asset_supported env address supported db =
    let mine = λ (a : IndexedAsset). is_some_of (env.lower address) a.contract_id in
    if is_some (find_first mine db.assets)
    then record db {
      assets = update_many mine (λ a. record a { is_supported = supported }) db.assets;
    }
    else with_asset (env.lower address) supported db
