-- ===== src/Indexer/Process/Chunk.antt =====
-- What `processChunk` of indexer.repository.ts leaves, where it returns and where it throws.
use veillend.Base.{
  ℕ, ◌+◌, ◌≡◌, refl, sym, subst, Bool-cases, ap, ◌∙◌, ◌⊎◌, inl, inr, Bool, true, false, List, [],
  ◌∷◌, length, ltb, if◌then◌else◌, Option, some, ok, err, transaction-cases, >>=_returned, running,
  arith, Outcome,
}
use veillend.Indexer.Data.{IndexerParsedEvent, IndexDb, IndexError, Texts}
use veillend.Indexer.Store.{save_checkpoint}
use veillend.Indexer.Positions.{insert_position}
use veillend.Indexer.Process.{
  process_event, process_events, Counts, count_event, no_counts, process_chunk_tx, process_chunk,
  finish_chunk,
}
use veillend.Indexer.Process.Policy.{Policy, process_events-Kept}

abbrev pub total : Counts → ℕ
total c = c.inserted + c.already_processed

count_event-total : (b : Bool) (c : Counts) → total (count_event b c) ≡ total c + 1
count_event-total true c = omega arith
count_event-total false c = omega arith

events_counted :
    (env : Texts) (now : ℕ) (c c' : Counts) (es : List IndexerParsedEvent) (db : IndexDb)
    → (process_events env now c es db).0 ≡ ok c'
    → total c' ≡ total c + length es
unfolding process_events running
events_counted env now c c' [] db h = ground arith
events_counted env now c c' (e ∷ es) db h =
    let (b, _, same) =
      >>=_returned (process_event env e now) (λ b. process_events env now (count_event b c) es) db
        c' h in
    let ih =
      events_counted env now (count_event b c) c' es (process_event env e now db).1
        (sym (ap (λ r. r.0) same) ∙ h) in
    omega (arith, ih, count_event-total b c)

-- Indexing moves no checkpoint of its own.
abbrev AtCheckpoint : Option ℕ → IndexDb → Type 0
AtCheckpoint c db = db.checkpoint ≡ c

checkpoint_policy : (c : Option ℕ) → Policy (AtCheckpoint c)
unfolding insert_position
checkpoint_policy c = record {
  users = λ us n db h. h;
  assets = λ xs n db h. h;
  history = λ row n db h. h;
  inserted = λ env u a db h. h;
  moved = λ u a d b i j db h. h;
  states = λ xs db h. h;
  params = λ xs db h. h;
  dedups = λ xs db h. h;
}

abbrev pub saved : ℕ → IndexDb → Option ℕ
saved end db = if ltb 0 end then some end else db.checkpoint

finished :
    (end : ℕ) (c : Counts) (db : IndexDb)
    → ((finish_chunk end c db).0 ≡ ok c) × ((finish_chunk end c db).1.checkpoint ≡ saved end db)
unfolding finish_chunk save_checkpoint running
finished end c db = elim (Bool-cases (ltb 0 end)) [
  | inl t ↦ rw t (refl, refl)
  | inr f ↦ rw f (refl, refl)
]

abbrev pub Done :
    List IndexerParsedEvent → ℕ → IndexDb → Outcome IndexError Counts × IndexDb → Type 0
Done es end db r =
    (c : Counts) × (r.0 ≡ ok c) × (total c ≡ length es) × (r.1.checkpoint ≡ saved end db)

counts_of_body :
    (env : Texts) (es : List IndexerParsedEvent) (end now : ℕ) (c : Counts) (db : IndexDb)
    → (process_chunk_tx env es end now db).0 ≡ ok c
    → Done es end db (process_chunk_tx env es end now db)
unfolding process_chunk_tx
counts_of_body env es end now c db h =
    let (b, e, same) =
      >>=_returned (process_events env now no_counts es) (finish_chunk end) db c h in
    let (f, g) = finished end b (process_events env now no_counts es db).1 in
    let kept =
      (process_events-Kept (AtCheckpoint db.checkpoint) (checkpoint_policy db.checkpoint) env now
          no_counts es).apply
        db refl in
    let n = events_counted env now no_counts b es db e in
    (
      b,
      ap (λ r. r.0) same ∙ f,
      omega (arith, n),
      ap (λ r. r.1.checkpoint) same ∙ g ∙ ap (λ k. if ltb 0 end then some end else k) kept,
    )

-- A chunk either throws and leaves the database as it was, or returns counts that add up to its
-- number of events and has moved the checkpoint to its end, where that is not 0.
pub chunk_all_or_nothing :
    (env : Texts) (es : List IndexerParsedEvent) (end now : ℕ) (db : IndexDb)
    → Done es end db (process_chunk env es end now db)
      ⊎ ((e : IndexError) × (process_chunk env es end now db ≡ (err e, db)))
unfolding process_chunk
chunk_all_or_nothing env es end now db =
    elim (transaction-cases (process_chunk_tx env es end now) db) [
      | inl (c, r, same) ↦
          inl (subst (Done es end db) (sym same) (counts_of_body env es end now c db r))
      | inr (e, same) ↦ inr (e, same)
    ]
