-- ===== src/Indexer/Process/Recent.antt =====
-- The hour in which the lookaside table of indexer.repository.ts remembers an event.
use veillend.Base.{
  ℕ, ◌+◌, ◌<◌, ◌≡◌, refl, inl, inr, true, false, List, [], ◌∷◌, ◌==◌, ==_refl, Option, some,
  Bool-cases, Option-cases, find_first, update_many, ok, arith, ltb, Ensures, Ensures->>_last,
  Ensures->>_first, Ensures-modify, Keeps-pure,
}
use veillend.Indexer.Data.{IndexerParsedEvent, IndexerEventDedup, EventOrigin, IndexDb, Texts}
use veillend.Indexer.Store.{
  dedup_row, dedup_ttl_ms, upsert_dedup, remembered, record_event_dedup, is_event_duplicate,
}
use veillend.Indexer.Process.{store_and_record, process_event_safe, origin_of}
use veillend.Indexer.Process.Fresh.{process_new, seen_refuses}

upserted_first :
    (row : IndexerEventDedup) (rows : List IndexerEventDedup) {d : IndexerEventDedup}
    → find_first (λ d. d.event_id == row.event_id) rows ≡ some d
    → find_first
        (λ d. d.event_id == row.event_id)
        (update_many (λ d. d.event_id == row.event_id) (λ d. row) rows)
      ≡ some row
unfolding find_first update_many
upserted_first row [] e = cc
upserted_first row (x ∷ xs) {d} e = elim (Bool-cases (x.event_id == row.event_id)) [
  | inl t ↦ rw (t, ==_refl row.event_id) refl
  | inr f ↦ rw (f, f) (upserted_first row xs {d = d} (rw f at e))
]

upserted :
    (row : IndexerEventDedup) (rows : List IndexerEventDedup)
    → find_first (λ d. d.event_id == row.event_id) (upsert_dedup row rows) ≡ some row
unfolding upsert_dedup find_first
upserted row rows = elim (Option-cases (find_first (λ d. d.event_id == row.event_id) rows)) [
  | inl e ↦ rw (e, ==_refl row.event_id) refl
  | inr (d, e) ↦ rw e (upserted_first row rows {d = d} e)
]

abbrev Remembers : IndexerEventDedup → IndexDb → Type 0
Remembers row db = find_first (λ d. d.event_id == row.event_id) db.dedups ≡ some row

abbrev pub row_of : EventOrigin → ℕ → IndexerEventDedup
row_of o now = dedup_row o.event_id o.tx_hash o.event_index o.ledger now

stored-Remembers :
    (env : Texts) (o : EventOrigin) (event : IndexerParsedEvent) (now : ℕ)
    → Ensures (Remembers (row_of o now)) (store_and_record env o event now)
unfolding store_and_record record_event_dedup
stored-Remembers env o event now = Ensures->>_last (Remembers (row_of o now)) _ (
    Ensures->>_first (Remembers (row_of o now))
      (Ensures-modify (Remembers (row_of o now)) _ λ db. upserted (row_of o now) db.dedups)
      (Keeps-pure _ _))

still_remembered :
    (row : IndexerEventDedup) (hash : Option ℕ) (index now : ℕ) (db : IndexDb)
    → Remembers row db
    → now < row.expires_at
    → is_event_duplicate row.event_id hash index now db ≡ true
unfolding is_event_duplicate remembered
still_remembered row hash index now db r soon =
    let t : ltb now row.expires_at ≡ true = ground (arith, soon) in rw (r, t) refl

-- An event of any kind that was processed as new and comes again within the hour is refused without
-- a change.
pub recent_refused :
    (env : Texts) (event : IndexerParsedEvent) (now now' : ℕ) (db : IndexDb)
    → (process_event_safe env event now db).0 ≡ ok true
    → now' < now + dedup_ttl_ms
    → (let later = (process_event_safe env event now db).1 in
        process_event_safe env event now' later ≡ (ok false, later))
recent_refused env event now now' db h soon =
    let o = origin_of env event in
    let r =
      process_new (Remembers (row_of o now)) env event now db (stored-Remembers env o event now)
        h in
    seen_refuses env event now' _
      (still_remembered (row_of o now) o.tx_hash o.event_index now' _ r soon)
