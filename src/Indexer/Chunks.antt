-- ===== src/Indexer/Chunks.antt =====
-- `indexEventsInChunks` of indexer.service.ts: the chunks of a range of ledgers, and the loop over
-- them.
pub mod Cover
pub mod Progress
use veillend.Base.{
  ℕ, zero, suc, ◌+◌, ◌-◌, leb, Bool, true, false, Option, none, some, List, [], ◌∷◌, min,
  if◌then◌else◌, Outcome, ok, err, Action, pure, gets, modify, ◌>>=◌, ◌>>◌,
}
use veillend.Indexer.Data.{IndexerParsedEvent, IndexDb, IndexError, RunError, Texts}
use veillend.Indexer.Parse.{Words}
use veillend.Indexer.Fetch.{Page, fetch_and_parse_events}
use veillend.Indexer.Process.{Counts, no_counts, process_chunk}

abbrev pub default_chunk_size : ℕ
default_chunk_size = 100

pub record Chunk : Type 0 where
  pub first : ℕ
  pub last : ℕ

-- The chunks that the loop visits from a first ledger on, on fuel.
unfoldable pub chunks_from : ℕ → ℕ → ℕ → ℕ → List Chunk
chunks_from zero start end size = []
chunks_from (suc fuel) start end size =
    let rest = chunks_from fuel (start + size) end size in
    if leb start end then record { first = start; last = min (start + size - 1) end } ∷ rest else []

-- Each chunk has a ledger or more: there are no more chunks than ledgers.
unfoldable pub chunks : ℕ → ℕ → ℕ → List Chunk
unfolding chunks_from
chunks start end size = chunks_from (end + 1 - start) start end size

-- What the RPC server answers to the requests for a range.
abbrev pub Rpc : Type 0
Rpc = ℕ → ℕ → List (Option Page)

pub data ReplayStatus : Type 0 where
  replay_idle replay_running replay_completed replay_failed : ReplayStatus

-- The times and the estimates made of them are left out.
pub record ReplayState : Type 0 where
  pub status : ReplayStatus
  pub from_ledger : ℕ
  pub to_ledger : ℕ
  pub current_ledger : ℕ
  pub chunk_size : ℕ
  pub inserted_count : ℕ
  pub already_processed_count : ℕ
  pub last_error : Option RunError

pub data SyncStatus : Type 0 where
  sync_idle syncing replaying sync_error : SyncStatus

-- The tables, and what the service keeps in memory.
pub record Indexer : Type 0 where
  pub db : IndexDb
  pub is_processing : Bool
  pub sync_status : SyncStatus
  pub last_error : Option RunError
  pub inserted_counter : ℕ
  pub dedup_counter : ℕ
  pub replay : ReplayState

unfoldable pub on_db : {A : Type 0} → Action IndexDb IndexError A → Action Indexer IndexError A
on_db m s = let (r, db) = m s.db in (r, record s { db = db })

abbrev pub count_chunk : Counts → Indexer → Indexer
count_chunk c s = record s {
  inserted_counter = s.inserted_counter + c.inserted;
  dedup_counter = s.dedup_counter + c.already_processed;
}

abbrev pub add_counts : Counts → Counts → Counts
add_counts c d = record {
  inserted = c.inserted + d.inserted;
  already_processed = c.already_processed + d.already_processed;
}

-- `onChunkProcessed`
abbrev pub OnChunk : Type 0
OnChunk = Chunk → Counts → Indexer → Indexer

unfoldable pub fetch_chunk :
    Words → Texts → Rpc → ℕ → Chunk → Action IndexDb IndexError (List IndexerParsedEvent)
unfolding fetch_and_parse_events
fetch_chunk w env rpc now c db =
    let (events, db') = fetch_and_parse_events w env now (rpc c.first c.last) db in (ok events, db')

unfoldable pub note_chunk : OnChunk → Chunk → Counts → Action Indexer IndexError Counts
note_chunk on_chunk c counts = do
  modify (λ s. on_chunk c counts (count_chunk counts s))
  pure counts

unfoldable pub index_chunk :
    Words → Texts → Rpc → ℕ → OnChunk → Chunk → Action Indexer IndexError Counts
unfolding on_db fetch_chunk process_chunk note_chunk
index_chunk w env rpc now on_chunk c = do
  events ← on_db (fetch_chunk w env rpc now c)
  counts ← on_db (process_chunk env events c.last now)
  note_chunk on_chunk c counts

unfoldable pub index_chunks :
    Words → Texts → Rpc → ℕ → OnChunk → Counts → List Chunk → Action Indexer IndexError Counts
unfolding index_chunk
index_chunks w env rpc now on_chunk total [] = pure total
index_chunks w env rpc now on_chunk total (c ∷ cs) = do
  counts ← index_chunk w env rpc now on_chunk c
  index_chunks w env rpc now on_chunk (add_counts total counts) cs

unfoldable pub index_events_in_chunks :
    Words → Texts → Rpc → ℕ → OnChunk → ℕ → ℕ → ℕ → Action Indexer IndexError Counts
unfolding index_chunks chunks
index_events_in_chunks w env rpc now on_chunk start end size =
    index_chunks w env rpc now on_chunk no_counts (chunks start end size)
