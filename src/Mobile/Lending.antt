-- ===== src/Mobile/Lending.antt =====
-- `runLending` of store.ts, cut where it awaits: the tap checks and shows the transaction, and each
-- answer of the builder, the signer and the node moves it on, settles it or rolls it back.
pub mod Session
pub mod Unmoved
pub mod Exclusive
pub mod Answers
pub mod Waiting
pub mod Rollback
pub mod Cancelled
use veillend.Base.{
  ℕ, ◌==◌, ◌&&◌, ◌||◌, Bool, true, false, not, Option, none, some, List, [], ◌∷◌, if◌then◌else◌,
  Outcome, ok, err, find_first, update_many,
}
use veillend.Mobile.Storage.{given}
use veillend.Mobile.Store.Data.{
  LendingKind, deposit, withdraw, borrow, repay, pending, confirmed, failed, SupportedAsset,
  TransactionRecord, Store, Portfolio, Reason, transaction_rejected, network_error,
  transaction_failed, with_message,
}

-- JavaScript's numbers and texts, and what the build configures. `transport_error` says whether a
-- message tells of a timeout or of the network.
pub record LendingEnv (F : Type 0) : Type 0 where
  pub plus : F → F → F
  pub minus : F → F → F
  pub negate : F → F
  pub parse_float : ℕ → F
  pub is_finite : F → Bool
  pub not_positive : F → Bool
  pub upper : ℕ → ℕ
  pub transport_error : ℕ → Bool
  pub contract_message : ℕ → Option ℕ
  pub on_chain_failure : ℕ
  pub contract_id : ℕ

pub data LendingError : Type 0 where
  invalid_amount not_connected unsupported_asset no_contract not_configured in_progress :
      LendingError

-- What a tap asks for, with the id and the time that it draws.
pub record Tap : Type 0 where
  pub kind : LendingKind
  pub amount : ℕ
  pub asset : ℕ
  pub id : ℕ
  pub now : ℕ

pub data Phase : Type 0 where
  building signing sending : Phase
  polling : (hash : ℕ) → Phase

pub record Flight (F : Type 0) : Type 0 where
  pub tx : TransactionRecord F
  pub phase : Phase

-- Why an await threw: the user's refusal, or another error with its message.
pub data Thrown : Type 0 where
  user_rejected : Thrown
  thrown : (message : Option ℕ) → Thrown

pub data Answer : Type 0 where
  resolved : Answer  -- the builder's or the signer's envelope
  sent : (hash : ℕ) → Answer
  node_error : (message : ℕ) → Answer
  succeeded : Answer
  failed_on_chain : (result_xdr : ℕ) → Answer
  throws : Thrown → Answer

module _ {F : Type 0} (env : LendingEnv F) where
  unfoldable pub optimistic_delta : LendingKind → F → F
  optimistic_delta deposit a = a
  optimistic_delta borrow a = a
  optimistic_delta withdraw a = env.negate a
  optimistic_delta repay a = env.negate a

  abbrev pub same_symbol : ℕ → SupportedAsset → Bool
  same_symbol asset a = env.upper a.symbol == env.upper asset

  unfoldable pub check_asset : Option SupportedAsset → Outcome LendingError SupportedAsset
  check_asset none = err unsupported_asset
  check_asset (some a) =
      if not (given a.contract_id) && not a.is_native then err no_contract else ok a

  -- The checks before the transaction is shown.
  unfoldable pub check_tap : Tap → Store F → Outcome LendingError SupportedAsset
  unfolding check_asset
  check_tap t s =
      let amount = env.parse_float t.amount in
      if not (env.is_finite amount) || env.not_positive amount
      then err invalid_amount
      else if not (given s.address) || not (given s.auth_token)
      then err not_connected
      else elim (check_asset (find_first (same_symbol t.asset) s.supported_assets)) [
        | err e ↦ err e
        | ok a ↦
            if env.contract_id == 0
            then err not_configured
            else if s.lending_loading
            then err in_progress
            else ok a
      ]

  unfoldable pub new_tx : Tap → TransactionRecord F
  new_tx t = record {
    id = t.id;
    kind = t.kind;
    amount = env.parse_float t.amount;
    asset = t.asset;
    timestamp = t.now;
    status = pending;
    tx_hash = 0;
    error_reason = none;
  }

  abbrev with_balance : F → Portfolio F → Portfolio F
  with_balance b p = record p { balance = b }

  -- The transaction is shown, and the balance moved, at once.
  unfoldable pub show_pending : TransactionRecord F → Store F → Store F
  unfolding optimistic_delta
  show_pending tx s = record s {
    pending_transactions = tx ∷ s.pending_transactions;
    portfolio =
        with_balance (env.plus s.portfolio.balance (optimistic_delta tx.kind tx.amount))
          s.portfolio;
    lending_loading = true;
  }

  abbrev pub same_tx : ℕ → TransactionRecord F → Bool
  same_tx i t = t.id == i

  unfoldable pub note_hash : TransactionRecord F → ℕ → Store F → Store F
  note_hash tx hash s = record s {
    pending_transactions =
        update_many (same_tx tx.id) (λ t. record t { tx_hash = hash }) s.pending_transactions;
  }

  unfoldable pub confirm_lending : TransactionRecord F → ℕ → Store F → Store F
  confirm_lending tx hash s =
      let done = record tx { status = confirmed; tx_hash = hash } in
      record s {
        pending_transactions = update_many (same_tx tx.id) (λ _. done) s.pending_transactions;
        last_lending_tx = some done;
        lending_loading = false;
      }

  unfoldable pub reason_of : Thrown → Reason
  reason_of user_rejected = transaction_rejected
  reason_of (thrown none) = transaction_failed
  reason_of (thrown (some m)) = if env.transport_error m then network_error else with_message m

  -- The rollback.
  unfoldable pub fail_lending : TransactionRecord F → Thrown → Store F → Store F
  unfolding optimistic_delta reason_of
  fail_lending tx e s = record s {
    pending_transactions =
        update_many (same_tx tx.id)
          (λ t. record t { status = failed; error_reason = some (reason_of e) })
          s.pending_transactions;
    portfolio =
        with_balance (env.minus s.portfolio.balance (optimistic_delta tx.kind tx.amount))
          s.portfolio;
    last_lending_tx = some (record tx { status = failed; error_reason = some (reason_of e) });
    lending_loading = false;
  }

  abbrev message_of : Option ℕ → ℕ
  message_of none = env.on_chain_failure
  message_of (some m) = m

  -- What follows an answer: the flight, if it goes on, and the store. An answer that the phase does
  -- not wait for is none of this flight's.
  unfoldable pub advance :
      TransactionRecord F → Phase → Answer → Store F → Option (Flight F) × Store F
  unfolding note_hash confirm_lending fail_lending
  advance tx building resolved s = (some (record { tx = tx; phase = signing }), s)
  advance tx signing resolved s = (some (record { tx = tx; phase = sending }), s)
  advance tx sending (sent h) s = (some (record { tx = tx; phase = polling h }), note_hash tx h s)
  advance tx sending (node_error m) s = (none, fail_lending tx (thrown (some m)) s)
  advance tx (polling h) succeeded s = (none, confirm_lending tx h s)
  advance tx (polling h) (failed_on_chain x) s =
      (none, fail_lending tx (thrown (some (message_of (env.contract_message x)))) s)
  advance tx p (throws e) s = (none, fail_lending tx e s)
  advance tx p _ s = (some (record { tx = tx; phase = p }), s)
