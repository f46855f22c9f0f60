-- ===== src/Indexer/Process/Fresh.antt =====
-- What `processEventSafe` of indexer.repository.ts has established where it took an event for new,
-- and what it does with one that it took for a duplicate.
use veillend.Base.{
  ℕ, ◌≡◌, refl, sym, ap, subst, ◌∙◌, inl, inr, Bool, true, false, Outcome, ok, err, handle,
  transaction-cases, running, Ensures,
}
use veillend.Indexer.Data.{
  IndexerParsedEvent, EventOrigin, IndexDb, IndexError, unique_row, bad_number, out_of_range, Texts,
}
use veillend.Indexer.Store.{is_event_duplicate}
use veillend.Indexer.Process.{
  store_and_record, duplicate_or_rethrow, process_unless, process_event, process_event_safe,
  origin_of,
}

not_ok : (e : IndexError) (r : Outcome IndexError Bool) → r ≡ err e → ¬ (r ≡ ok true)
not_ok e r g h = cc

caught :
    (Q : IndexDb → Type 0) (r : Outcome IndexError Bool × IndexDb)
    → (r.0 ≡ ok true → Q r.1)
    → (handle duplicate_or_rethrow r).0 ≡ ok true
    → Q (handle duplicate_or_rethrow r).1
unfolding handle duplicate_or_rethrow running
caught Q (ok b, s) q h = q h
caught Q (err unique_row, s) q h = cc
caught Q (err bad_number, s) q h = cc
caught Q (err out_of_range, s) q h = cc

unless_new :
    (Q : IndexDb → Type 0) (seen : Bool) (env : Texts) (o : EventOrigin)
    (event : IndexerParsedEvent) (now : ℕ) (db : IndexDb)
    → Ensures Q (store_and_record env o event now)
    → (process_unless seen env o event now db).0 ≡ ok true
    → Q (process_unless seen env o event now db).1
unfolding process_unless running
unless_new Q true env o event now db q h = cc
unless_new Q false env o event now db q h =
    caught Q (store_and_record env o event now db) (q.apply db true) h

-- What storing an event establishes holds after it was processed as new.
pub process_new :
    (Q : IndexDb → Type 0) (env : Texts) (event : IndexerParsedEvent) (now : ℕ) (db : IndexDb)
    → Ensures Q (store_and_record env (origin_of env event) event now)
    → (process_event_safe env event now db).0 ≡ ok true
    → Q (process_event_safe env event now db).1
unfolding process_event_safe process_event running
process_new Q env event now db q h = elim (transaction-cases (process_event env event now) db) [
  | inl (c, r, same) ↦
      subst (λ x. Q x.1) (sym same)
        (unless_new Q _ env _ event now db q (sym (ap (λ x. x.0) same) ∙ h))
  | inr (e, same) ↦ absurd (not_ok e _ (ap (λ x. x.0) same) h)
]

-- A duplicate changes nothing.
pub seen_refuses :
    (env : Texts) (event : IndexerParsedEvent) (now : ℕ) (db : IndexDb)
    → (let o = origin_of env event in
        is_event_duplicate o.event_id o.tx_hash o.event_index now db ≡ true)
    → process_event_safe env event now db ≡ (ok false, db)
unfolding process_event_safe process_event process_unless running
seen_refuses env event now db h = rw h refl
