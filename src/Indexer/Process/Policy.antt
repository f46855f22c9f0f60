-- ===== src/Indexer/Process/Policy.antt =====
-- Properties of the tables that every write of the indexer keeps (indexer.repository.ts).
use veillend.Base.{
  ℕ, Bool, true, false, Option, none, some, List, ◌∷◌, ℤ, update_many, Keeps, Keeps->>=, Keeps->>,
  Keeps-pure, Keeps-throw, Keeps-gets, Keeps-or_throw, Keeps-throw_if, Keeps-modify,
  Keeps-try_catch, [],
}
use veillend.Auth.Data.{User}
use veillend.Indexer.Data.{
  IndexerTransaction, EventOrigin, InterestAccrued, IndexerParsedEvent, transaction_event,
  interest_accrued, asset_reserve_updated, interest_params_updated, IndexedAsset,
  TransactionHistory, AssetInterestState, AssetInterestParams, IndexerEventDedup, IndexDb,
  IndexError, unique_row, bad_number, out_of_range, Texts,
}
use veillend.Indexer.Store.{
  user_or_new, resolve_user, asset_or_new, resolve_asset, record_event_dedup,
}
use veillend.Indexer.Positions.{
  position_of, insert_position, clamp, anchored, move_position, apply_position_delta,
}
use veillend.Indexer.Positions.Totals.{totals-Kept}
use veillend.Indexer.Process.{
  create_history, store_transaction, accrue, store_accrual, store_reserve, store_params,
  store_event, duplicate_or_rethrow, store_and_record, process_unless, process_event,
  process_events, Counts, count_event,
}

-- What each kind of write must keep.
pub record Policy (P : IndexDb → Type 0) : Type 0 where
  pub users :
      (us : List User) (n : ℕ) (db : IndexDb) → P db → P (record db { users = us; next_id = n })
  pub assets :
      (xs : List IndexedAsset) (n : ℕ) (db : IndexDb)
      → P db
      → P (record db { assets = xs; next_id = n })
  pub history :
      (row : TransactionHistory) (n : ℕ) (db : IndexDb)
      → P db
      → P (record db { history = row ∷ db.history; next_id = n })
  pub inserted :
      (env : Texts) (user_id asset_id : ℕ) (db : IndexDb)
      → P db
      → P (insert_position env user_id asset_id db)
  pub moved :
      (user_id asset_id : ℕ) (d b : ℤ) (i j : ℕ) (db : IndexDb)
      → P db
      → P (record db {
        positions =
            update_many
              (position_of user_id asset_id)
              (anchored (clamp d) (clamp b) i j)
              db.positions;
      })
  pub states : (xs : List AssetInterestState) (db : IndexDb) → P db → P (record db { states = xs })
  pub params : (xs : List AssetInterestParams) (db : IndexDb) → P db → P (record db { params = xs })
  pub dedups : (xs : List IndexerEventDedup) (db : IndexDb) → P db → P (record db { dedups = xs })

module _ (P : IndexDb → Type 0) (k : Policy P) (env : Texts) where
  user_or_new-Kept : (wallet : ℕ) (o : Option User) → Keeps P (user_or_new wallet o)
  unfolding user_or_new
  user_or_new-Kept wallet (some u) = Keeps-pure P _
  user_or_new-Kept wallet none =
      Keeps->>= P (Keeps-gets P _)
        λ id. Keeps->> P (Keeps-modify P _ (λ db h. k.users _ _ db h)) (Keeps-pure P _)

  asset_or_new-Kept : (contract : ℕ) (o : Option IndexedAsset) → Keeps P (asset_or_new contract o)
  unfolding asset_or_new
  asset_or_new-Kept contract (some a) = Keeps-pure P _
  asset_or_new-Kept contract none =
      Keeps->>= P (Keeps-gets P _)
        λ id. Keeps->> P (Keeps-modify P _ (λ db h. k.assets _ _ db h)) (Keeps-pure P _)

  resolve_asset-Kept : (address : ℕ) → Keeps P (resolve_asset env address)
  unfolding resolve_asset
  resolve_asset-Kept address = Keeps->>= P (Keeps-gets P _) (asset_or_new-Kept _)

  pub delta-Kept :
      (user_id asset_id : ℕ) (d b : ℤ) → Keeps P (apply_position_delta env user_id asset_id d b)
  unfolding apply_position_delta move_position
  delta-Kept user_id asset_id d b =
      Keeps->> P (Keeps-modify P _ (k.inserted env user_id asset_id)) (
        Keeps->>= P (Keeps-gets P _) λ row. Keeps->>= P (Keeps-gets P _) λ state.
          Keeps->> P (Keeps-throw_if P _ _) (
            Keeps->> P (Keeps-modify P _ (λ db h. k.moved user_id asset_id _ _ _ _ db h))
              (totals-Kept P (λ xs db h. k.states xs db h) env _ asset_id d b)))

  transaction-Kept :
      (index : ℕ) (tx : IndexerTransaction) (d b : ℤ) → Keeps P (store_transaction env index tx d b)
  unfolding store_transaction resolve_user create_history
  transaction-Kept index tx d b =
      Keeps->>= P (Keeps->>= P (Keeps-gets P _) (user_or_new-Kept _)) λ user_id.
        Keeps->>= P (resolve_asset-Kept tx.asset_address) λ asset_id.
          Keeps->> P
            (Keeps->> P (Keeps-throw_if P _ _) (
              Keeps->>= P (Keeps-gets P _) λ clash.
                Keeps->> P (Keeps-throw_if P _ _) (Keeps-modify P _ (λ db h. k.history _ _ db h))))
            (delta-Kept user_id asset_id d b)

  accrue-Kept :
      (asset_id i j ledger : ℕ) (a r : ℤ) (o : Option AssetInterestState)
      → Keeps P (accrue env asset_id i j ledger a r o)
  unfolding accrue
  accrue-Kept asset_id i j ledger a r none = Keeps-modify P _ (λ db h. k.states _ db h)
  accrue-Kept asset_id i j ledger a r (some s) =
      Keeps->> P (Keeps-throw_if P _ _) (Keeps-modify P _ (λ db h. k.states _ db h))

  accrual-Kept : (e : InterestAccrued) → Keeps P (store_accrual env e)
  unfolding store_accrual
  accrual-Kept e = Keeps->>= P (resolve_asset-Kept e.asset_address) λ asset_id.
      Keeps->>= P (Keeps-or_throw P _ _) λ a. Keeps->>= P (Keeps-or_throw P _ _) λ r.
        Keeps->> P (Keeps-throw_if P _ _) (
          Keeps->>= P (Keeps-or_throw P _ _) λ i.
            Keeps->>= P (Keeps-or_throw P _ _)
              λ j. Keeps->>= P (Keeps-gets P _) λ o. accrue-Kept asset_id i j e.origin.ledger a r o)

  event-Kept : (o : EventOrigin) (event : IndexerParsedEvent) → Keeps P (store_event env o event)
  unfolding store_event store_reserve store_params
  event-Kept o (transaction_event tx d b) = transaction-Kept o.event_index tx d b
  event-Kept o (interest_accrued e) = accrual-Kept e
  event-Kept o (asset_reserve_updated e) =
      Keeps->>= P (resolve_asset-Kept e.asset_address) λ asset_id.
        Keeps->>= P (Keeps-or_throw P _ _)
          λ fees. Keeps->> P (Keeps-throw_if P _ _) (Keeps-modify P _ (λ db h. k.states _ db h))
  event-Kept o (interest_params_updated e) =
      Keeps->>= P (resolve_asset-Kept e.asset_address)
        λ asset_id. Keeps-modify P _ (λ db h. k.params _ db h)

  rethrow-Kept : (e : IndexError) → Keeps P (duplicate_or_rethrow e)
  unfolding duplicate_or_rethrow
  rethrow-Kept unique_row = Keeps-pure P _
  rethrow-Kept bad_number = Keeps-throw P _
  rethrow-Kept out_of_range = Keeps-throw P _

  process_unless-Kept :
      (duplicate : Bool) (o : EventOrigin) (event : IndexerParsedEvent) (now : ℕ)
      → Keeps P (process_unless duplicate env o event now)
  unfolding process_unless store_and_record record_event_dedup
  process_unless-Kept true o event now = Keeps-pure P _
  process_unless-Kept false o event now =
      Keeps-try_catch P
        (Keeps->> P (event-Kept o event)
          (Keeps->> P (Keeps-modify P _ (λ db h. k.dedups _ db h)) (Keeps-pure P _)))
        rethrow-Kept

  pub process_event-Kept :
      (event : IndexerParsedEvent) (now : ℕ) → Keeps P (process_event env event now)
  unfolding process_event
  process_event-Kept event now =
      Keeps->>= P (Keeps-gets P _) λ duplicate. process_unless-Kept duplicate _ event now

  pub process_events-Kept :
      (now : ℕ) (c : Counts) (events : List IndexerParsedEvent)
      → Keeps P (process_events env now c events)
  unfolding process_events
  process_events-Kept now c [] = Keeps-pure P _
  process_events-Kept now c (e ∷ es) =
      Keeps->>= P (process_event-Kept e now) λ b. process_events-Kept now (count_event b c) es
