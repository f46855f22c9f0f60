-- ===== src/Indexer/Service.antt =====
-- `runIndexer`, `replay`, `forceReplay` and `getSyncStats` of indexer.service.ts, and
-- `resetDatabase` of indexer.repository.ts.
pub mod Outcomes
pub mod Reset
use veillend.Base.{
  ℕ, ◌+◌, ◌-◌, ◌==◌, ltb, leb, ◌&&◌, not, Bool, true, false, Option, none, some, List, [], ◌∷◌,
  is_some, any, max, delete_many, if◌then◌else◌, Outcome, ok, err, Action, pure, throw, gets,
  modify, ◌>>=◌, ◌>>◌, try_catch,
}
use veillend.Auth.Data.{User}
use veillend.Indexer.Data.{
  TransactionHistory, IndexedPosition, IndexDb, IndexError, RunError, write_failed, rpc_failed,
  not_configured, Texts,
}
use veillend.Indexer.Store.{get_checkpoint, clean_expired_dedup}
use veillend.Indexer.Parse.{Words}
use veillend.Indexer.Process.{Counts, no_counts}
use veillend.Indexer.Chunks.{
  default_chunk_size, Chunk, Rpc, ReplayState, replay_running, replay_completed, replay_failed,
  SyncStatus, sync_idle, syncing, replaying, sync_error, Indexer, on_db, count_chunk, OnChunk,
  index_events_in_chunks,
}

-- `startLedger` is at least 1, by the validation of the configuration.
pub record IndexerConfig : Type 0 where
  pub start_ledger : ℕ
  pub contract_id : Option ℕ

-- The RPC server at the time of a run: `oldest` and `latest` are none where the request fails.
pub record Network : Type 0 where
  pub oldest : Option ℕ
  pub latest : Option ℕ
  pub pages : Rpc

-- `lastLedger + 1`, before and after the look at what the server retains.
unfoldable pub next_ledger : IndexerConfig → IndexDb → ℕ
next_ledger cfg db =
    let last = get_checkpoint db in if last == 0 then cfg.start_ledger else last + 1

unfoldable pub retained : Option ℕ → ℕ → ℕ
retained none next = next
retained (some oldest) next = if ltb next oldest then oldest else next

abbrev pub no_progress : OnChunk
no_progress chunk counts s = s

unfoldable pub settle_run : Outcome IndexError Counts × Indexer → Indexer
settle_run (ok c, s) = record s { sync_status = sync_idle; is_processing = false }
settle_run (err e, s) = record s {
  sync_status = sync_error;
  last_error = some (write_failed e);
  is_processing = false;
}

-- The chunks from the next ledger to the server's latest, where there is one.
unfoldable pub index_to : Words → Texts → Network → ℕ → ℕ → ℕ → Indexer → Indexer
unfolding settle_run index_events_in_chunks
index_to w env net now next latest s =
    if leb next latest
    then settle_run
        (index_events_in_chunks w env net.pages now no_progress next latest default_chunk_size s)
    else settle_run (ok no_counts, s)

unfoldable pub run_latest : Words → Texts → Network → ℕ → ℕ → Option ℕ → Indexer → Indexer
unfolding index_to
run_latest w env net now next none s = record s {
  sync_status = sync_error;
  last_error = some rpc_failed;
  is_processing = false;
}
run_latest w env net now next (some latest) s = index_to w env net now next latest s

unfoldable pub cleaned : ℕ → Indexer → Indexer
unfolding clean_expired_dedup
cleaned now s = record s { db = (clean_expired_dedup now s.db).1 }

unfoldable pub run_configured :
    Words → Texts → IndexerConfig → Network → ℕ → Option ℕ → Indexer → Indexer
unfolding run_latest cleaned next_ledger retained
run_configured w env cfg net now none s = record s {
  sync_status = sync_idle;
  is_processing = false;
}
run_configured w env cfg net now (some contract) s =
    let s' = cleaned now s in
    run_latest w env net now (retained net.oldest (next_ledger cfg s'.db)) net.latest s'

abbrev pub started : SyncStatus → Indexer → Indexer
started status s = record s { is_processing = true; sync_status = status; last_error = none }

unfoldable pub run_indexer : Words → Texts → IndexerConfig → Network → ℕ → Indexer → Indexer
unfolding run_configured
run_indexer w env cfg net now s =
    if s.is_processing
    then s
    else run_configured w env cfg net now cfg.contract_id (started syncing s)

pub record ReplayOptions : Type 0 where
  pub from_ledger : Option ℕ
  pub to_ledger : Option ℕ
  pub chunk : Option ℕ

pub record ReplayResult : Type 0 where
  pub from_ledger : ℕ
  pub to_ledger : ℕ
  pub chunk : ℕ
  pub inserted : ℕ
  pub already_processed : ℕ

abbrev pub value_or : ℕ → Option ℕ → ℕ
value_or other none = other
value_or other (some n) = n

-- The latest ledger, and the first where the server gives none or 0.
abbrev pub latest_or : ℕ → Option ℕ → ℕ
latest_or first none = first
latest_or first (some n) = if n == 0 then first else n

abbrev pub size_or_default : Option ℕ → ℕ
size_or_default none = default_chunk_size
size_or_default (some n) = if n == 0 then default_chunk_size else n

abbrev pub replay_progress : OnChunk
replay_progress chunk counts s = record s {
  replay = record s.replay {
    current_ledger = chunk.last;
    inserted_count = s.replay.inserted_count + counts.inserted;
    already_processed_count = s.replay.already_processed_count + counts.already_processed;
  };
}

abbrev pub new_replay : ℕ → ℕ → ℕ → ReplayState
new_replay first last size = record {
  status = replay_running;
  from_ledger = first;
  to_ledger = last;
  current_ledger = first;
  chunk_size = size;
  inserted_count = 0;
  already_processed_count = 0;
  last_error = none;
}

unfoldable pub settle_replay :
    ℕ → ℕ → ℕ → Outcome IndexError Counts × Indexer → Outcome RunError ReplayResult × Indexer
settle_replay first last size (ok c, s) = (
  ok (record {
    from_ledger = first;
    to_ledger = last;
    chunk = size;
    inserted = c.inserted;
    already_processed = c.already_processed;
  }),
  record s {
    replay = record s.replay { status = replay_completed; current_ledger = last };
    sync_status = sync_idle;
    is_processing = false;
  },
)
settle_replay first last size (err e, s) = (
  err (write_failed e),
  record s {
    replay = record s.replay { status = replay_failed; last_error = some (write_failed e) };
    sync_status = sync_error;
    last_error = some (write_failed e);
    is_processing = false;
  },
)

unfoldable pub replay_range :
    Words → Texts → Rpc → ℕ → ℕ → ℕ → ℕ → Action Indexer RunError ReplayResult
unfolding settle_replay index_events_in_chunks
replay_range w env pages now first last size s =
    if ltb last first
    then (
      ok (record {
        from_ledger = first;
        to_ledger = last;
        chunk = size;
        inserted = 0;
        already_processed = 0;
      }),
      s,
    )
    else settle_replay first last size (
        index_events_in_chunks w env pages now replay_progress first last size
          (record (started replaying s) { replay = new_replay first last size }))

unfoldable pub replay :
    Words
    → Texts
    → IndexerConfig
    → Network
    → ℕ
    → ReplayOptions
    → Action Indexer RunError ReplayResult
unfolding replay_range
replay w env cfg net now options =
    let first = value_or cfg.start_ledger options.from_ledger in
    let last = value_or (latest_or first net.latest) options.to_ledger in
    elim cfg.contract_id [
      | none ↦ throw not_configured
      | some c ↦ replay_range w env net.pages now first last (size_or_default options.chunk)
    ]

abbrev pub above : ℕ → Option ℕ → Bool
above last none = false
above last (some ledger) = ltb last ledger

pub data ResetScope : Type 0 where
  full_scope bad_only_scope : ResetScope

-- What both scopes delete whole.
abbrev pub without_models : IndexDb → IndexDb
without_models db = record db { checkpoint = none; states = []; params = [] }

-- The statements run in their order: the positions are looked up after the history was deleted.
unfoldable pub reset_database : ResetScope → IndexDb → IndexDb
reset_database full_scope db = record (without_models db) {
  history = delete_many (λ row. is_some row.soroban_event_id) db.history;
  positions = [];
  dedups = [];
}
reset_database bad_only_scope db =
    let last = get_checkpoint db in
    let history =
      delete_many (λ row. is_some row.soroban_event_id && above last row.ledger_sequence)
        db.history in
    record (without_models db) {
      history = history;
      positions =
          delete_many
            (λ p. any (λ row. row.user_id == p.user_id && above last row.ledger_sequence) history)
            db.positions;
      dedups = delete_many (λ d. above last d.ledger) db.dedups;
    }

-- The replay that follows runs on its own; what it returns or throws is dropped.
unfoldable pub force_replay :
    Words → Texts → IndexerConfig → Network → ℕ → ResetScope → Indexer → Indexer
unfolding reset_database replay
force_replay w env cfg net now scope s =
    let s' = record s { db = reset_database scope s.db; inserted_counter = 0; dedup_counter = 0 } in
    (replay w env cfg net now
      (record { from_ledger = some cfg.start_ledger; to_ledger = none; chunk = none }) s').1

-- `lag` of `getSyncStats`: `Math.max(0, latest - current)`, and 0 where the server gives no latest.
unfoldable pub sync_lag : Network → Indexer → ℕ
sync_lag net s = elim net.latest [ none ↦ 0 | some latest ↦ latest - get_checkpoint s.db ]
