-- ===== src/Indexer/History.antt =====
-- The calls that the indexer and its controller make of indexer.repository.ts, one after the other,
-- less resetDatabase.
use veillend.Base.{
  ℕ, ◌+◌, Bool, List, [], ◌∷◌, Keeps, Keeps-transaction, Keeps->>=, Keeps->>, Keeps-gets,
  Keeps-modify, Keeps-pure, if◌then◌else◌, ltb, true, false,
}
use veillend.Indexer.Data.{IndexerParsedEvent, IndexDb, Texts}
use veillend.Indexer.Store.{save_checkpoint, clean_expired_dedup, set_asset_supported}
use veillend.Indexer.Process.{
  process_event_safe, process_chunk, process_chunk_tx, finish_chunk, Counts, no_counts,
}
use veillend.Indexer.Process.Policy.{Policy, process_event-Kept, process_events-Kept}

pub data IndexerCall : Type 0 where
  processes_chunk : List IndexerParsedEvent → (end now : ℕ) → IndexerCall
  processes_event : IndexerParsedEvent → (now : ℕ) → IndexerCall
  saves_checkpoint : (ledger : ℕ) → IndexerCall
  cleans_dedup : (now : ℕ) → IndexerCall
  sets_supported : (address : ℕ) → Bool → IndexerCall

-- The tables after a call, whether it returned or threw.
unfoldable pub after_index_call : Texts → IndexerCall → IndexDb → IndexDb
after_index_call env (processes_chunk es end now) db = (process_chunk env es end now db).1
after_index_call env (processes_event e now) db = (process_event_safe env e now db).1
after_index_call env (saves_checkpoint ledger) db = save_checkpoint ledger db
after_index_call env (cleans_dedup now) db = (clean_expired_dedup now db).1
after_index_call env (sets_supported address b) db = set_asset_supported env address b db

unfoldable pub after_calls : Texts → List IndexerCall → IndexDb → IndexDb
unfolding after_index_call
after_calls env [] db = db
after_calls env (c ∷ cs) db = after_calls env cs (after_index_call env c db)

module _ (P : IndexDb → Type 0) (k : Policy P) (env : Texts)
    (moves : (ledger : ℕ) (db : IndexDb) → P db → P (save_checkpoint ledger db)) where
  either_way : (b : Bool) {x y : IndexDb} → P x → P y → P (if b then x else y)
  either_way true h g = h
  either_way false h g = g

  finish-Kept : (end : ℕ) (c : Counts) → Keeps P (finish_chunk end c)
  unfolding finish_chunk
  finish-Kept end c =
      Keeps->> P (Keeps-modify P _ λ db h. either_way (ltb 0 end) (moves end db h) h)
        (Keeps-pure P _)

  supported-Kept :
      (address : ℕ) (b : Bool) (db : IndexDb) → P db → P (set_asset_supported env address b db)
  unfolding set_asset_supported
  supported-Kept address b db h =
      either_way _ (k.assets _ db.next_id db h) (k.assets _ (db.next_id + 1) db h)

  after_index_call-Kept : (c : IndexerCall) (db : IndexDb) → P db → P (after_index_call env c db)
  unfolding after_index_call process_chunk process_chunk_tx process_event_safe clean_expired_dedup
  after_index_call-Kept (processes_chunk es end now) db h =
      (Keeps-transaction P
          (Keeps->>= P (process_events-Kept P k env now no_counts es) (finish-Kept end))).apply
        db h
  after_index_call-Kept (processes_event e now) db h =
      (Keeps-transaction P (process_event-Kept P k env e now)).apply db h
  after_index_call-Kept (saves_checkpoint ledger) db h = moves ledger db h
  after_index_call-Kept (cleans_dedup now) db h =
      (Keeps->>= P (Keeps-gets P _)
          λ n. Keeps->> P (Keeps-modify P _ (λ db' h'. k.dedups _ db' h')) (Keeps-pure P _)).apply
        db h
  after_index_call-Kept (sets_supported address b) db h = supported-Kept address b db h

  pub after_calls-Kept : (cs : List IndexerCall) (db : IndexDb) → P db → P (after_calls env cs db)
  unfolding after_calls
  after_calls-Kept [] db h = h
  after_calls-Kept (c ∷ cs) db h =
      after_calls-Kept cs (after_index_call env c db) (after_index_call-Kept c db h)
