-- ===== src/Funds/Withdrawals/Debit.antt =====
-- `updateWithdrawalConfirmations` of withdrawals.service.ts and the balances of the positions.
use veillend.Base.{
  ap, find_first-update_many, ℕ, ◌≡◌, refl, true, false, some, List, ◌==◌, ◌&&◌, arith, not, ok,
  err, ℤ, pos, ◌-ℤ◌, leb_ℤ, running, find_first, update_many, if◌then◌else◌, find_first-holds,
  ==_iff,
}
use veillend.Funds.Data.{
  Withdrawal, sent, confirmed, cancelled, Position, Db, out_of_range, fits_bigint,
}
use veillend.Funds.Deposits.{at_position}
use veillend.Funds.Deposits.Credit.{balance, same_position, balance-update, find-same}
use veillend.Funds.Withdrawals.{
  is_sent, find_owned, owned_withdrawal, update_withdrawal, set_status,
}
use veillend.Funds.Withdrawals.Lifecycle.{cancel_withdrawal}
use veillend.Funds.Withdrawals.Settle.{
  debit, confirm_withdrawal, settle_found, update_withdrawal_confirmations,
}

debit-balance :
    (u a n u' a' : ℕ) (ps : List Position) (p : Position)
    → find_first (at_position u a) ps ≡ some p
    → balance u' a' (
        update_many
          (at_position u a)
          (λ p. record p { deposited_raw = p.deposited_raw -ℤ pos n; is_stale = true })
          ps)
      ≡ (if same_position u a u' a' then balance u' a' ps -ℤ pos n else balance u' a' ps)
unfolding balance ◌-ℤ◌
debit-balance u a n u' a' ps p e =
    let up =
      balance-update u a u' a'
        (λ p. record p { deposited_raw = p.deposited_raw -ℤ pos n; is_stale = true }) ps (λ p. refl)
        (λ p. refl) in
    ground (arith, up, find-same u a u' a' ps)

-- A SENT withdrawal whose user has a position in its asset is debited in full, from that position
-- and from no other, exactly where it has as many confirmations as are required and the position can
-- hold the difference in 64 bits. Where it cannot, the update throws; otherwise it returns.
pub withdrawal_debited :
    (id now user asset : ℕ) (seen : ℤ) (db : Db) (w : Withdrawal) (p : Position)
    → find_first (λ w. w.id == id) db.withdrawals ≡ some w
    → w.status ≡ sent
    → find_first (at_position w.user_id w.asset_id) db.positions ≡ some p
    → let deep = leb_ℤ (pos w.confirmations_required) seen in
      let fits = fits_bigint (p.deposited_raw -ℤ pos w.amount_stroops) in
      let r = update_withdrawal_confirmations id seen now db in
      (r.0 ≡ (if deep && not fits then err out_of_range else ok tt))
      × (balance user asset r.1.positions ≡ (
          if (deep && fits) && same_position w.user_id w.asset_id user asset
          then balance user asset db.positions -ℤ pos w.amount_stroops
          else balance user asset db.positions))
unfolding update_withdrawal_confirmations settle_found confirm_withdrawal debit running
    update_withdrawal
withdrawal_debited id now user asset seen db w p found on_way there = (
  ground arith,
  ground
      (arith, debit-balance w.user_id w.asset_id w.amount_stroops user asset db.positions p there),
)

id-of-found :
    (id : ℕ) (ws : List Withdrawal) {w : Withdrawal}
    → find_first (λ w. w.id == id) ws ≡ some w
    → w.id ≡ id
id-of-found id ws {w} found =
    (==_iff w.id id).0 (find_first-holds (λ (w : Withdrawal). w.id == id) ws found)

find-updated :
    (id : ℕ) (f : Withdrawal → Withdrawal) (ws : List Withdrawal) {w : Withdrawal}
    → ((w : Withdrawal) → (f w).id ≡ w.id)
    → find_first (λ w. w.id == id) ws ≡ some w
    → find_first (λ w. w.id == id) (update_many (λ w. w.id == id) f ws) ≡ some (f w)
find-updated id f xs h e =
    find_first-update_many (λ x. x.id == id) f xs (λ x. ap (λ n. n == id) (h x)) e

find-updated_at :
    (id key : ℕ) (f : Withdrawal → Withdrawal) (ws : List Withdrawal) {w : Withdrawal}
    → ((w : Withdrawal) → (f w).id ≡ w.id)
    → key ≡ id
    → find_first (λ w. w.id == id) ws ≡ some w
    → find_first (λ w. w.id == id) (update_many (λ w. w.id == key) f ws) ≡ some (f w)
find-updated_at id key f ws h same e = rw same (find-updated id f ws h e)

not_sent-untouched :
    (id now : ℕ) (seen : ℤ) (db : Db) (w : Withdrawal)
    → find_first (λ w. w.id == id) db.withdrawals ≡ some w
    → is_sent w.status ≡ false
    → (update_withdrawal_confirmations id seen now db).1 ≡ db
unfolding update_withdrawal_confirmations settle_found running
not_sent-untouched id now seen db w found settled = ground arith

-- Once a SENT withdrawal was confirmed and debited, further confirmations change nothing.
pub withdrawal_debited_once :
    (id now later : ℕ) (seen seen' : ℤ) (db : Db) (w : Withdrawal) (p : Position)
    → find_first (λ w. w.id == id) db.withdrawals ≡ some w
    → w.status ≡ sent
    → leb_ℤ (pos w.confirmations_required) seen ≡ true
    → find_first (at_position w.user_id w.asset_id) db.positions ≡ some p
    → fits_bigint (p.deposited_raw -ℤ pos w.amount_stroops) ≡ true
    → let db' = (update_withdrawal_confirmations id seen now db).1 in
      (update_withdrawal_confirmations id seen' later db').1 ≡ db'
unfolding update_withdrawal_confirmations settle_found confirm_withdrawal debit running
    update_withdrawal
withdrawal_debited_once id now later seen seen' db w p found on_way deep there fits =
    not_sent-untouched id later seen' _
      (record w { confirmations_seen = seen; status = confirmed; confirmed_at = some now })
      (ground (
        arith,
        find-updated_at id w.id
            (λ x. record x {
              confirmations_seen = seen;
              status = confirmed;
              confirmed_at = some now;
            })
            db.withdrawals {w = w} (λ x. refl) (id-of-found id db.withdrawals found) found,
      ))
      refl

cancel-sent :
    (id user : ℕ) (db : Db) (w : Withdrawal)
    → find_owned id user db.withdrawals ≡ some w
    → w.status ≡ sent
    → cancel_withdrawal id user db ≡ (ok tt, set_status id cancelled db)
unfolding cancel_withdrawal running owned_withdrawal
cancel-sent id user db w mine on_way = ground arith

-- A withdrawal that its user cancels after it was submitted to the network is never debited: the
-- cancellation succeeds, and no number of confirmations changes anything after it.
pub cancelled_after_submission_never_debited :
    (id user now : ℕ) (seen : ℤ) (db : Db) (w : Withdrawal)
    → find_owned id user db.withdrawals ≡ some w
    → find_first (λ w. w.id == id) db.withdrawals ≡ some w
    → w.status ≡ sent
    → let db' = (cancel_withdrawal id user db).1 in
      ((cancel_withdrawal id user db).0 ≡ ok tt)
      × (db'.positions ≡ db.positions)
      × ((update_withdrawal_confirmations id seen now db').1 ≡ db')
unfolding set_status update_withdrawal
cancelled_after_submission_never_debited id user now seen db w mine found on_way =
    rw (cancel-sent id user db w mine on_way) (
      refl,
      refl,
      not_sent-untouched id now seen _ (record w { status = cancelled })
          (find-updated id _ db.withdrawals (λ x. refl) found) refl,
    )
