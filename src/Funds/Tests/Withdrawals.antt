-- ===== src/Funds/Tests/Withdrawals.antt =====
-- One concrete run of each theorem on withdrawals.
use veillend.Base.{
  ℕ, false, ◌≡◌, ◌==◌, refl, some, List, [], ◌∷◌, ok, err, running, pos, find_first, ◌-ℤ◌,
}
use veillend.Funds.Data.{WithdrawalStatus, draft, signed, sent, Withdrawal, withdrawal_not_found}
use veillend.Funds.Deposits.{at_position}
use veillend.Funds.Deposits.Credit.{balance}
use veillend.Funds.Withdrawals.{find_owned, owned_withdrawal}
use veillend.Funds.Withdrawals.Lifecycle.{
  check_signing, finish_signing, sign_withdrawal, submit_withdrawal, cancel_withdrawal,
  revalidate_withdrawal, active_timelock, has_used_nonce, use_nonces, degrade_unless,
}
use veillend.Funds.Withdrawals.Settle.{update_withdrawal_confirmations}
use veillend.Funds.Withdrawals.Guards.{MaySign, sign_requires, stranger_changes_nothing}
use veillend.Funds.Withdrawals.Debit.{withdrawal_debited, cancelled_after_submission_never_debited}
use veillend.Funds.Withdrawals.History.{submits, Request, run}
use veillend.Funds.Withdrawals.Signing.Once.{signed_once}
use veillend.Funds.Withdrawals.Signing.Overlap.{IsFree, overlapping_both_signed}
use veillend.Funds.Tests.{
  config, solvent, insolvent_now, sha256_hex, withdrawal, position, nonce, db_in,
}

found_owned :
    (status : WithdrawalStatus)
    → find_owned 20 1 (db_in status).withdrawals ≡ some (withdrawal status)
unfolding find_owned find_first
found_owned status = refl

found_withdrawal :
    (status : WithdrawalStatus)
    → find_first (λ w. w.id == 20) (db_in status).withdrawals ≡ some (withdrawal status)
unfolding find_first
found_withdrawal status = refl

signed_ok : (sign_withdrawal solvent 20 1 8 78 100 (db_in draft)).0 ≡ ok tt
unfolding sign_withdrawal running owned_withdrawal find_owned find_first active_timelock
    degrade_unless has_used_nonce use_nonces
signed_ok = refl

sign_requires_example : (w : Withdrawal) × MaySign solvent 20 1 100 (db_in draft) w
sign_requires_example = sign_requires solvent 20 1 8 78 100 (db_in draft) signed_ok

found_nonce : find_first (λ n. n.withdrawal_id == 20) (db_in draft).nonces ≡ some nonce
unfolding find_first
found_nonce = refl

abbrev between : List Request
between = record { user = 1; now = 150; call = submits 20 78 } ∷ []

signed_once_example : ¬ (
    (check_signing solvent 20 1 9 200
      (run config sha256_hex insolvent_now between (finish_signing 20 8 78 100 (db_in draft)).1)).0
    ≡ ok tt)
signed_once_example =
    signed_once config sha256_hex solvent insolvent_now 20 1 8 9 78 100 200 between (db_in draft)
      nonce found_nonce

abbrev signing_at : (xdr hash now : ℕ) → Withdrawal → Withdrawal
signing_at x h t w = record w { status = signed; xdr = x; tx_hash = some h; signed_at = some t }

nothing_used : has_used_nonce 20 (db_in draft) ≡ false
unfolding has_used_nonce find_first
nothing_used = refl

IsFree-hash : IsFree 20 78 (db_in draft)
unfolding find_first
IsFree-hash = refl

IsFree-later : IsFree 20 79 (db_in draft)
unfolding find_first
IsFree-later = refl

overlapping_both_signed_example :
    let first = finish_signing 20 8 78 100 (db_in draft) in
    let second = finish_signing 20 9 79 101 first.1 in
    (check_signing solvent 20 1 8 100 (db_in draft) ≡ (ok tt, db_in draft))
    × (check_signing solvent 20 1 9 101 (db_in draft) ≡ (ok tt, db_in draft))
    × (first.0 ≡ ok tt)
    × (second.0 ≡ ok tt)
    × (find_owned 20 1 first.1.withdrawals ≡ some (signing_at 8 78 100 (withdrawal draft)))
    × (find_owned 20 1 second.1.withdrawals
        ≡ some (signing_at 9 79 101 (signing_at 8 78 100 (withdrawal draft))))
overlapping_both_signed_example =
    overlapping_both_signed solvent 20 1 8 78 100 9 79 101 (db_in draft) (withdrawal draft)
      (found_owned draft) refl refl refl nothing_used IsFree-hash IsFree-later

stranger_changes_nothing_example :
    (sign_withdrawal solvent 20 2 8 78 100 (db_in draft) ≡ (err withdrawal_not_found, db_in draft))
    × (submit_withdrawal solvent 20 2 78 100 (db_in draft)
        ≡ (err withdrawal_not_found, db_in draft))
    × (cancel_withdrawal 20 2 (db_in draft) ≡ (err withdrawal_not_found, db_in draft))
    × (revalidate_withdrawal solvent 20 2 (db_in draft) ≡ (err withdrawal_not_found, db_in draft))
stranger_changes_nothing_example =
    stranger_changes_nothing solvent 20 2 8 78 100 (db_in draft) (refl, tt)

found_position : find_first (at_position 1 3) (db_in sent).positions ≡ some position
unfolding find_first
found_position = refl

withdrawal_debited_example :
    ((update_withdrawal_confirmations 20 (pos 6) 100 (db_in sent)).0 ≡ ok tt)
    × (balance 1 3 (update_withdrawal_confirmations 20 (pos 6) 100 (db_in sent)).1.positions
        ≡ balance 1 3 (db_in sent).positions -ℤ pos 200)
unfolding ◌-ℤ◌
withdrawal_debited_example =
    withdrawal_debited 20 100 1 3 (pos 6) (db_in sent) (withdrawal sent) position
      (found_withdrawal sent) refl found_position

cancelled_after_submission_never_debited_example :
    let db' = (cancel_withdrawal 20 1 (db_in sent)).1 in
    ((cancel_withdrawal 20 1 (db_in sent)).0 ≡ ok tt)
    × (db'.positions ≡ (db_in sent).positions)
    × ((update_withdrawal_confirmations 20 (pos 9) 200 db').1 ≡ db')
cancelled_after_submission_never_debited_example =
    cancelled_after_submission_never_debited 20 1 200 (pos 9) (db_in sent) (withdrawal sent)
      (found_owned sent) (found_withdrawal sent) refl
