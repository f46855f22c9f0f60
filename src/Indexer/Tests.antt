-- ===== src/Indexer/Tests.antt =====
-- One concrete run of each theorem on the indexer: a deposit event and an empty database.
use veillend.Base.{
  ◌==◌, ◌+◌, ◌-◌, ◌≤◌, ◌≡◌, refl, ◌⊎◌, true, false, none, some, List, [], ◌∷◌, arith, ok, err,
  running, pos, find_first, update_many, ◌+ℤ◌, settle, handle,
}
use veillend.Indexer.Data.{
  deposit_tx, IndexerTransaction, transaction_event, TransactionHistory, IndexedPosition, IndexDb,
  IndexError, Texts,
}
use veillend.Indexer.Store.{
  fits_int8, user_or_new, resolve_user, asset_or_new, resolve_asset, get_checkpoint, remembered,
  is_event_duplicate, record_event_dedup,
}
use veillend.Indexer.Positions.{
  insert_position, clamp, move_position, add_totals, update_totals, update_totals_unless,
  apply_position_delta,
}
use veillend.Indexer.Positions.Returns.{TotalsFit, apply_position_delta_refines}
use veillend.Indexer.Positions.Balances.{balances, shifted}
use veillend.Indexer.Process.{
  origin_of, index_or_extract, create_history, store_transaction, store_event, store_and_record,
  process_unless, process_event, process_event_safe, process_chunk,
}
use veillend.Indexer.Process.Chunk.{Done, chunk_all_or_nothing}
use veillend.Indexer.Process.Once.{processed_once}
use veillend.Indexer.Process.Balances.{AllNonNegative, balances-NonNegative}
use veillend.Indexer.History.{
  IndexerCall, processes_chunk, processes_event, cleans_dedup, after_calls,
}
use veillend.Indexer.Parse.{Words, unhandled_topic}
use veillend.Indexer.Chunks.{chunks, ReplayState, replay_idle, sync_idle, Indexer}
use veillend.Indexer.Chunks.Cover.{ledgers, visited, chunks_visit_range}
use veillend.Indexer.Chunks.Progress.{checkpoint_of}
use veillend.Indexer.Service.{
  IndexerConfig, Network, next_ledger, retained, run_indexer, bad_only_scope, reset_database,
}
use veillend.Indexer.Service.Outcomes.{RunEnds, first_of, run_indexer-RunEnds}
use veillend.Indexer.Service.Reset.{bad_only_keeps_positions}

abbrev texts : Texts
texts = record {
  text = λ n. n ∷ [];
  lower = λ n. n;
  big_int = λ n. some (pos n);
  index_value = λ n. some n;
  one_index = 1;
}

abbrev empty_tables : IndexDb
empty_tables = record {
  users = [];
  assets = [];
  history = [];
  positions = [];
  states = [];
  params = [];
  dedups = [];
  checkpoint = none;
  next_id = 1;
}

abbrev deposit_event : IndexerTransaction
deposit_event = record {
  id = 900;
  user_address = 70;
  kind = deposit_tx;
  asset_address = 80;
  amount = pos 50;
  ledger = 5;
  tx_hash = some 600;
  event_index = some 2;
  timestamp = 1000;
}

-- The event is new to an empty database.
is_new :
    (process_event_safe texts
      (transaction_event deposit_event (pos 50) (pos 0))
      1000
      empty_tables).0
    ≡ ok true
unfolding running process_event_safe process_event process_unless origin_of index_or_extract
    is_event_duplicate remembered store_and_record store_event store_transaction resolve_user
    user_or_new resolve_asset asset_or_new create_history apply_position_delta move_position
    insert_position clamp update_totals_unless update_totals add_totals record_event_dedup
    find_first update_many settle handle ◌+ℤ◌
is_new = refl

abbrev later_calls : List IndexerCall
later_calls = processes_chunk [] 7 2000 ∷ cleans_dedup 9000000 ∷ []

processed_once_example :
    let later =
      after_calls texts later_calls
        (process_event_safe texts
          (transaction_event deposit_event (pos 50) (pos 0))
          1000
          empty_tables).1 in
    process_event_safe texts (transaction_event deposit_event (pos 50) (pos 0)) 9000000 later
    ≡ (ok false, later)
processed_once_example =
    processed_once texts deposit_event (pos 50) (pos 0) 1000 empty_tables later_calls deposit_event
      (pos 50) (pos 0) 9000000 is_new refl

chunk_all_or_nothing_example :
    Done (transaction_event deposit_event (pos 50) (pos 0) ∷ []) 7 empty_tables (
      process_chunk texts
        (transaction_event deposit_event (pos 50) (pos 0) ∷ [])
        7
        1000
        empty_tables)
    ⊎ ((e : IndexError) × (process_chunk texts
            (transaction_event deposit_event (pos 50) (pos 0) ∷ [])
            7
            1000
            empty_tables
          ≡ (err e, empty_tables)))
chunk_all_or_nothing_example =
    chunk_all_or_nothing texts (transaction_event deposit_event (pos 50) (pos 0) ∷ []) 7 1000
      empty_tables

balances-NonNegative_example : AllNonNegative (
    after_calls texts
      (processes_event (transaction_event deposit_event (pos 50) (pos 0)) 1000 ∷ [])
      empty_tables)
balances-NonNegative_example =
    balances-NonNegative texts
      (processes_event (transaction_event deposit_event (pos 50) (pos 0)) 1000 ∷ []) empty_tables tt

fits_after : fits_int8 (clamp ((balances empty_tables.positions 1 2).0 +ℤ pos 50)) ≡ true
unfolding clamp find_first ◌+ℤ◌
fits_after = refl

still_fits : fits_int8 (clamp ((balances empty_tables.positions 1 2).1 +ℤ pos 0)) ≡ true
unfolding clamp find_first ◌+ℤ◌
still_fits = refl

no_totals : TotalsFit (pos 50) (pos 0) (find_first (λ s. s.asset_id == 2) empty_tables.states)
unfolding find_first
no_totals = tt

apply_position_delta_refines_example :
    ((apply_position_delta texts 1 2 (pos 50) (pos 0) empty_tables).0 ≡ ok tt)
    × (balances (apply_position_delta texts 1 2 (pos 50) (pos 0) empty_tables).1.positions 1 2
        ≡ shifted 1 2 (pos 50) (pos 0) (balances empty_tables.positions) 1 2)
apply_position_delta_refines_example =
    apply_position_delta_refines texts 1 2 (pos 50) (pos 0) empty_tables 1 2 refl refl fits_after
      still_fits no_totals

chunks_visit_range_example : visited (chunks 5 251 100) ≡ ledgers 5 (251 + 1 - 5)
chunks_visit_range_example = chunks_visit_range 5 251 100 (omega arith)

abbrev words : Words
words = record {
  is_veillend = λ n. true;
  topic_of = λ n. unhandled_topic;
  zero_text = 0;
  empty_text = 1;
}

abbrev idle_replay : ReplayState
idle_replay = record {
  status = replay_idle;
  from_ledger = 0;
  to_ledger = 0;
  current_ledger = 0;
  chunk_size = 100;
  inserted_count = 0;
  already_processed_count = 0;
  last_error = none;
}

abbrev fresh_indexer : Indexer
fresh_indexer = record {
  db = empty_tables;
  is_processing = false;
  sync_status = sync_idle;
  last_error = none;
  inserted_counter = 0;
  dedup_counter = 0;
  replay = idle_replay;
}

abbrev settings : IndexerConfig
settings = record { start_ledger = 1; contract_id = some 44 }

abbrev network : Network
network = record { oldest = some 120; latest = some 450; pages = λ first last. [] }

first_in_reach : first_of settings network fresh_indexer ≤ 450
unfolding retained next_ledger get_checkpoint
first_in_reach = omega arith

run_indexer-RunEnds_example :
    RunEnds
      (first_of settings network fresh_indexer)
      450
      (checkpoint_of fresh_indexer)
      (run_indexer words texts settings network 1000 fresh_indexer)
run_indexer-RunEnds_example =
    run_indexer-RunEnds words texts settings network 1000 fresh_indexer 44 450 refl refl refl
      (omega arith) first_in_reach

abbrev bad_row : TransactionHistory
bad_row = record {
  id = 1;
  user_id = 1;
  asset_id = 2;
  kind = deposit_tx;
  amount_raw = pos 50;
  tx_hash = some 600;
  event_index = some 2;
  ledger_sequence = some 9;
  contract_id = some 80;
  soroban_event_id = some 900;
  created_at = 1000;
}

abbrev bad_position : IndexedPosition
bad_position = record {
  id = 2;
  user_id = 1;
  asset_id = 2;
  deposited_raw = pos 50;
  borrowed_raw = pos 0;
  borrow_index_snapshot = 1;
  supply_index_snapshot = 1;
  is_stale = false;
}

abbrev bad_tables : IndexDb
bad_tables = record empty_tables { history = bad_row ∷ []; positions = bad_position ∷ [] }

bad_only_keeps_positions_example :
    (reset_database bad_only_scope bad_tables).positions ≡ bad_tables.positions
unfolding get_checkpoint
bad_only_keeps_positions_example = bad_only_keeps_positions bad_tables (refl, tt)
