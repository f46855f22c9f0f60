-- ===== src/Funds/Withdrawals/Settle.antt =====
-- `updateWithdrawalConfirmations` and `markWithdrawalOrphaned` of withdrawals.service.ts, and
-- withdrawal-watcher.service.ts.
use veillend.Base.{
  ℕ, ◌==◌, not, true, Option, none, some, List, [], ◌∷◌, is_some, ℤ, pos, negsuc, leb_ℤ, sub_ℕ,
  ◌-ℤ◌, Action, pure, gets, modify, throw_if, transaction, ◌>>=◌, ◌>>◌, find_first, update_many,
  if◌then◌else◌,
}
use veillend.Funds.Data.{
  confirmed, orphaned, Withdrawal, Db, Position, FundsError, missing_record, out_of_range,
  fits_bigint,
}
use veillend.Funds.Deposits.{at_position, Lookup, unknown, failed, successful, unreachable}
use veillend.Funds.Withdrawals.{is_sent, update_withdrawal, set_status}

-- The balance after the decrement.
unfoldable pub lowered : ℕ → Option Position → ℤ
lowered amount none = negsuc 0
lowered amount (some p) = p.deposited_raw -ℤ pos amount

-- `position.update` with `decrement`: it throws P2025 where there is no such position, and where the
-- column cannot hold the balance; it does not look whether that is negative.
unfoldable pub debit : ℕ → ℕ → ℕ → Action Db FundsError (Unit {0})
unfolding lowered
debit user_id asset_id amount = do
  found ← gets (λ db. find_first (at_position user_id asset_id) db.positions)
  throw_if (not (is_some found)) missing_record
  throw_if (not (fits_bigint (lowered amount found))) out_of_range
  modify λ db. record db {
    positions =
        update_many (at_position user_id asset_id)
          (λ p. record p { deposited_raw = p.deposited_raw -ℤ pos amount; is_stale = true })
          db.positions;
  }

unfoldable pub confirm_withdrawal : Withdrawal → ℤ → ℕ → Action Db FundsError (Unit {0})
unfolding debit
confirm_withdrawal w seen now = transaction (do
  modify (
      update_withdrawal w.id
        λ x. record x { confirmations_seen = seen; status = confirmed; confirmed_at = some now })
  debit w.user_id w.asset_id w.amount_stroops)

unfoldable pub settle_found : Option Withdrawal → ℤ → ℕ → Action Db FundsError (Unit {0})
unfolding confirm_withdrawal
settle_found none seen now = pure tt
settle_found (some w) seen now =
    if is_sent w.status
    then (if leb_ℤ (pos w.confirmations_required) seen
        then confirm_withdrawal w seen now
        else modify (update_withdrawal w.id λ x. record x { confirmations_seen = seen }))
    else pure tt

unfoldable pub update_withdrawal_confirmations : ℕ → ℤ → ℕ → Action Db FundsError (Unit {0})
unfolding settle_found
update_withdrawal_confirmations id seen now = do
  found ← gets (λ db. find_first (λ w. w.id == id) db.withdrawals)
  settle_found found seen now

-- It does not look at the status.
unfoldable pub mark_withdrawal_orphaned : ℕ → Db → Db
mark_withdrawal_orphaned id db = set_status id orphaned db

-- `withdrawal.txHash || ''`.
unfoldable pub look_up : (ℕ → Lookup) → Option ℕ → Lookup
look_up horizon none = horizon 0
look_up horizon (some hash) = horizon hash

-- The body of the watcher's loop for one withdrawal; an error is logged and the loop goes on.
unfoldable pub watch_withdrawal : ℕ → ℕ → Withdrawal → Lookup → Db → Db
watch_withdrawal ledger now w unknown db = mark_withdrawal_orphaned w.id db
watch_withdrawal ledger now w failed db = mark_withdrawal_orphaned w.id db
watch_withdrawal ledger now w (successful included) db =
    (update_withdrawal_confirmations w.id (sub_ℕ ledger included) now db).1
watch_withdrawal ledger now w unreachable db = db

unfoldable pub get_pending_withdrawals : List Withdrawal → List Withdrawal
get_pending_withdrawals [] = []
get_pending_withdrawals (w ∷ ws) =
    let rest = get_pending_withdrawals ws in if is_sent w.status then w ∷ rest else rest

unfoldable pub watch_each : ℕ → ℕ → (ℕ → Lookup) → List Withdrawal → Db → Db
unfolding look_up
watch_each ledger now horizon [] db = db
watch_each ledger now horizon (w ∷ ws) db =
    watch_each ledger now horizon ws (watch_withdrawal ledger now w (look_up horizon w.tx_hash) db)

-- One cycle of the withdrawal watcher, over the withdrawals that are SENT when it begins.
unfoldable pub run_withdrawal_watcher : ℕ → ℕ → (ℕ → Lookup) → Db → Db
unfolding watch_each get_pending_withdrawals
run_withdrawal_watcher ledger now horizon db =
    watch_each ledger now horizon (get_pending_withdrawals db.withdrawals) db
