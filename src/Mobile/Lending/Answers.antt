-- ===== src/Mobile/Lending/Answers.antt =====
-- What an answer does to the transaction that it is for.
use veillend.Base.{ℕ, Option, some, ◌≡◌, refl, find_first, find_first-update_many}
use veillend.Mobile.Store.Data.{Store, TransactionRecord, failed}
use veillend.Mobile.Dashboard.{Scaling}
use veillend.Mobile.Lending.{
  LendingEnv, Flight, Phase, building, signing, sending, polling, Answer, resolved, sent,
  node_error, succeeded, failed_on_chain, throws, Thrown, same_tx, advance, fail_lending, note_hash,
  reason_of,
}

-- An answer after which the transaction goes on.
abbrev pub GoesOn : Answer → Type 0
GoesOn resolved = Unit
GoesOn (sent _) = Unit
GoesOn _ = ⊥

module _ {F : Type 0} (env : LendingEnv F) (scale : Scaling F) where
  -- The row that is shown takes the hash.
  note_hash_shown :
      (tx : TransactionRecord F) (hash : ℕ) (s : Store F) {r : TransactionRecord F}
      → find_first (same_tx env tx.id) s.pending_transactions ≡ some r
      → find_first (same_tx env tx.id) (note_hash env tx hash s).pending_transactions
        ≡ some (record r { tx_hash = hash })
  unfolding note_hash
  note_hash_shown tx hash s h =
      find_first-update_many (same_tx env tx.id) (λ t. record t { tx_hash = hash })
        s.pending_transactions (λ t. refl) h

  pub fail_shown :
      (tx : TransactionRecord F) (e : Thrown) (s : Store F) {r : TransactionRecord F}
      → find_first (same_tx env tx.id) s.pending_transactions ≡ some r
      → find_first (same_tx env tx.id) (fail_lending env tx e s).pending_transactions
        ≡ some (record r { status = failed; error_reason = some (reason_of env e) })
  unfolding fail_lending
  fail_shown tx e s h =
      find_first-update_many (same_tx env tx.id)
        (λ t. record t { status = failed; error_reason = some (reason_of env e) })
        s.pending_transactions (λ t. refl) h

  -- What an answer on the way does to a transaction and to the store.
  pub record Continues (tx : TransactionRecord F) (s : Store F) (r : Option (Flight F) × Store F)
      : Type 0 where
    pub phase : Phase
    pub flight : r.0 ≡ some (record { tx = tx; phase = phase })
    pub raised : r.1.lending_loading ≡ s.lending_loading
    pub moved : r.1.portfolio.balance ≡ s.portfolio.balance
    pub row : TransactionRecord F
    pub shown : find_first (same_tx env tx.id) r.1.pending_transactions ≡ some row

  pub advance-Continues :
      (tx : TransactionRecord F) (p : Phase) (a : Answer) (s : Store F) (row : TransactionRecord F)
      → GoesOn a
      → find_first (same_tx env tx.id) s.pending_transactions ≡ some row
      → Continues tx s (advance env tx p a s)
  unfolding advance
  advance-Continues tx p (node_error x) s row k h = absurd k
  advance-Continues tx p succeeded s row k h = absurd k
  advance-Continues tx p (failed_on_chain x) s row k h = absurd k
  advance-Continues tx p (throws x) s row k h = absurd k
  advance-Continues tx building resolved s row k h = record {
    phase = signing;
    flight = refl;
    raised = refl;
    moved = refl;
    row = row;
    shown = h;
  }
  advance-Continues tx building (sent x) s row k h = record {
    phase = building;
    flight = refl;
    raised = refl;
    moved = refl;
    row = row;
    shown = h;
  }
  advance-Continues tx signing resolved s row k h = record {
    phase = sending;
    flight = refl;
    raised = refl;
    moved = refl;
    row = row;
    shown = h;
  }
  advance-Continues tx signing (sent x) s row k h = record {
    phase = signing;
    flight = refl;
    raised = refl;
    moved = refl;
    row = row;
    shown = h;
  }
  advance-Continues tx sending resolved s row k h = record {
    phase = sending;
    flight = refl;
    raised = refl;
    moved = refl;
    row = row;
    shown = h;
  }
  advance-Continues tx sending (sent x) s row k h = record {
    phase = polling x;
    flight = refl;
    raised = refl;
    moved = refl;
    row = record row { tx_hash = x };
    shown = note_hash_shown tx x s h;
  }
  advance-Continues tx (polling y) resolved s row k h = record {
    phase = polling y;
    flight = refl;
    raised = refl;
    moved = refl;
    row = row;
    shown = h;
  }
  advance-Continues tx (polling y) (sent x) s row k h = record {
    phase = polling y;
    flight = refl;
    raised = refl;
    moved = refl;
    row = row;
    shown = h;
  }
