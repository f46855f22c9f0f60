-- ===== src/Indexer/Process/Once.antt =====
-- When `processEventSafe` of indexer.repository.ts takes an event for one that it has seen.
use veillend.Base.{
  ℕ, ◌≡◌, refl, inl, inr, Bool, true, false, ◌||◌, List, [], ◌∷◌, ==_refl, Option, is_some,
  Bool-cases, find_first, ok, ℤ, Ensures, Ensures->>=_last, Ensures->>_last, Ensures->>_first,
  Ensures-modify, Keeps->>, Keeps-modify, Keeps-pure,
}
use veillend.Indexer.Data.{
  IndexerTransaction, TransactionHistory, transaction_event, EventOrigin, IndexDb, Texts,
}
use veillend.Indexer.Store.{
  save_checkpoint, is_some_of, same_place, is_event_duplicate, remembered, record_event_dedup,
}
use veillend.Indexer.Positions.{insert_position}
use veillend.Indexer.Process.{
  create_history, store_transaction, store_event, store_and_record, process_event_safe, origin_of,
}
use veillend.Indexer.Process.Policy.{Policy, delta-Kept}
use veillend.Indexer.Process.Fresh.{process_new, seen_refuses}
use veillend.Indexer.History.{IndexerCall, after_calls, after_calls-Kept}

abbrev pub has_id : ℕ → TransactionHistory → Bool
has_id id row = is_some_of id row.soroban_event_id

-- The history has a row of the event.
abbrev pub InHistory : ℕ → IndexDb → Type 0
InHistory id db = is_some (find_first (has_id id) db.history) ≡ true

found_either :
    {A : Type 0} (p q : A → Bool) (xs : List A)
    → is_some (find_first p xs) ≡ true
    → is_some (find_first (λ x. p x || q x) xs) ≡ true
unfolding find_first
found_either p q [] h = h
found_either p q (x ∷ xs) h = elim (Bool-cases (p x)) [
  | inl t ↦ rw t refl
  | inr f ↦
      let ih = found_either p q xs (rw f at h) in
      elim (Bool-cases (q x)) [ inl t ↦ rw (f, t) refl | inr g ↦ rw (f, g) ih ]
]

pub history_policy : (id : ℕ) → Policy (InHistory id)
unfolding insert_position find_first
history_policy id = record {
  users = λ us n db h. h;
  assets = λ xs n db h. h;
  history = λ row n db h. elim (Bool-cases (has_id id row)) [ inl t ↦ rw t refl | inr f ↦ rw f h ];
  inserted = λ env u a db h. h;
  moved = λ u a d b i j db h. h;
  states = λ xs db h. h;
  params = λ xs db h. h;
  dedups = λ xs db h. h;
}

create-InHistory :
    (env : Texts) (user_id asset_id index : ℕ) (tx : IndexerTransaction)
    → Ensures (InHistory tx.id) (create_history env user_id asset_id index tx)
unfolding create_history find_first
create-InHistory env user_id asset_id index tx = Ensures->>_last (InHistory tx.id) _ (
    Ensures->>=_last (InHistory tx.id) _ λ clash.
      Ensures->>_last (InHistory tx.id) _
        (Ensures-modify (InHistory tx.id) _ λ db. rw (==_refl tx.id) refl))

stored-InHistory :
    (env : Texts) (o : EventOrigin) (tx : IndexerTransaction) (d b : ℤ) (now : ℕ)
    → Ensures (InHistory tx.id) (store_and_record env o (transaction_event tx d b) now)
unfolding store_and_record store_event store_transaction record_event_dedup
stored-InHistory env o tx d b now =
    Ensures->>_first (InHistory tx.id)
      (Ensures->>=_last (InHistory tx.id) _ λ user_id.
        Ensures->>=_last (InHistory tx.id) _ λ asset_id.
          Ensures->>_first (InHistory tx.id)
            (create-InHistory env user_id asset_id o.event_index tx)
            (delta-Kept (InHistory tx.id) (history_policy tx.id) env user_id asset_id d b))
      (Keeps->> (InHistory tx.id) (Keeps-modify (InHistory tx.id) _ λ db h. h)
        (Keeps-pure (InHistory tx.id) _))

history_duplicate :
    (id : ℕ) (hash : Option ℕ) (index now : ℕ) (db : IndexDb)
    → InHistory id db
    → is_event_duplicate id hash index now db ≡ true
unfolding is_event_duplicate
history_duplicate id hash index now db h = elim (Bool-cases (remembered id now db)) [
  | inl t ↦ rw t refl
  | inr f ↦ rw f (found_either (has_id id) (same_place hash index) db.history h)
]

-- A transaction event that was processed as new is refused without a change when it comes again, at
-- any time, after any calls of the repository but resets, and whatever else it carries then.
pub processed_once :
    (env : Texts) (tx : IndexerTransaction) (d b : ℤ) (now : ℕ) (db : IndexDb)
    (cs : List IndexerCall) (tx' : IndexerTransaction) (d' b' : ℤ) (now' : ℕ)
    → (process_event_safe env (transaction_event tx d b) now db).0 ≡ ok true
    → tx'.id ≡ tx.id
    → (let later =
          after_calls env cs (process_event_safe env (transaction_event tx d b) now db).1 in
        process_event_safe env (transaction_event tx' d' b') now' later ≡ (ok false, later))
unfolding origin_of save_checkpoint
processed_once env tx d b now db cs tx' d' b' now' h same =
    let new =
      process_new (InHistory tx.id) env (transaction_event tx d b) now db
        (stored-InHistory env _ tx d b now) h in
    let kept =
      after_calls-Kept (InHistory tx.id) (history_policy tx.id) env (λ ledger db h. h) cs
        (process_event_safe env (transaction_event tx d b) now db).1 new in
    seen_refuses env (transaction_event tx' d' b') now' _
      (history_duplicate tx'.id tx'.tx_hash _ now' _ (rw same kept))
