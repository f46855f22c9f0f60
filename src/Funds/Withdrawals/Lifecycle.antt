-- ===== src/Funds/Withdrawals/Lifecycle.antt =====
-- `signWithdrawal`, `submitWithdrawal`, `cancelWithdrawal` and `revalidateWithdrawal` of
-- withdrawals.service.ts.
use veillend.Base.{
  ℕ, ◌==◌, ltb, ◌&&◌, not, Bool, true, false, Option, none, some, Action, pure, gets, modify, throw,
  throw_if, ◌>>=◌, ◌>>◌, is_some, find_first, update_many, if◌then◌else◌,
}
use veillend.Funds.Data.{
  WithdrawalStatus, draft, signed, sent, confirmed, rejected, cancelled, requires_revalidation,
  Withdrawal, WithdrawNonce, Db, SolvencyCheck, FundsError, timelocked, wrong_status, insolvent,
  simulation_failed, nonce_replay, unique_violation,
}
use veillend.Funds.Withdrawals.{
  Solvency, has, is_draft, is_signed, needs_revalidation, owned_withdrawal, update_withdrawal,
  set_status,
}

-- `simulateWithdrawalXdr`: it reads nothing of the XDR and succeeds.
abbrev pub simulate_withdrawal_xdr : ℕ → Bool
simulate_withdrawal_xdr xdr = true

-- The timelock that is still running, if one is.
unfoldable pub active_timelock : ℕ → Withdrawal → Option ℕ
active_timelock now w = elim w.timelock_until [
  | none ↦ none
  | some until ↦ if ltb now until then some until else none
]

unfoldable pub throw_timelocked : Option ℕ → Action Db FundsError (Unit {0})
throw_timelocked none = pure tt
throw_timelocked (some until) = throw (timelocked until)

-- A failed check moves the withdrawal to REQUIRES_REVALIDATION and throws.
unfoldable pub degrade_unless : SolvencyCheck → ℕ → Action Db FundsError (Unit {0})
degrade_unless check id =
    if check.allowed
    then pure tt
    else (do modify (set_status id requires_revalidation); throw (insolvent check.error_kind))

unfoldable pub reject_unless : Bool → ℕ → Action Db FundsError (Unit {0})
reject_unless simulated id =
    if simulated then pure tt else (do modify (set_status id rejected); throw simulation_failed)

unfoldable pub has_used_nonce : ℕ → Db → Bool
has_used_nonce id db =
    is_some (find_first (λ (n : WithdrawNonce). n.withdrawal_id == id && n.used) db.nonces)

unfoldable pub use_nonces : ℕ → Db → Db
use_nonces id db = record db {
  nonces = update_many (λ n. n.withdrawal_id == id) (λ n. record n { used = true }) db.nonces;
}

-- `withdrawalRequest.update` of a row's `txHash`, which is unique.
unfoldable pub update_with_hash :
    ℕ → ℕ → (Withdrawal → Withdrawal) → Action Db FundsError (Unit {0})
update_with_hash id tx_hash f = do
  withdrawals ← gets (λ db. db.withdrawals)
  throw_if (is_some (find_first (λ w. has tx_hash w.tx_hash && not (w.id == id)) withdrawals))
      unique_violation
  modify (update_withdrawal id f)

-- What `signWithdrawal` reads: its checks, up to the one for a used nonce.
unfoldable pub check_signing : Solvency → ℕ → ℕ → ℕ → ℕ → Action Db FundsError (Unit {0})
unfolding throw_timelocked reject_unless
check_signing assert_withdrawable id user_id xdr now = do
  w ← owned_withdrawal id user_id
  throw_if (not (is_draft w.status)) (wrong_status w.status)
  throw_timelocked (active_timelock now w)
  check ← gets (assert_withdrawable user_id w.asset_id w.amount_stroops)
  degrade_unless check id
  reject_unless (simulate_withdrawal_xdr xdr) id
  used ← gets (has_used_nonce id)
  throw_if used nonce_replay

-- What it writes once its checks have passed. No transaction holds the two together: other requests
-- may run in between.
unfoldable pub finish_signing : ℕ → ℕ → ℕ → ℕ → Action Db FundsError (Unit {0})
unfolding update_with_hash
finish_signing id xdr tx_hash now = do
  modify (use_nonces id)
  update_with_hash id tx_hash
      (λ w. record w { status = signed; xdr = xdr; tx_hash = some tx_hash; signed_at = some now })

unfoldable pub sign_withdrawal : Solvency → ℕ → ℕ → ℕ → ℕ → ℕ → Action Db FundsError (Unit {0})
unfolding check_signing finish_signing
sign_withdrawal assert_withdrawable id user_id xdr tx_hash now = do
  check_signing assert_withdrawable id user_id xdr now
  finish_signing id xdr tx_hash now

unfoldable pub submit_withdrawal : Solvency → ℕ → ℕ → ℕ → ℕ → Action Db FundsError (Unit {0})
unfolding update_with_hash
submit_withdrawal assert_withdrawable id user_id tx_hash now = do
  w ← owned_withdrawal id user_id
  throw_if (not (is_signed w.status)) (wrong_status w.status)
  check ← gets (assert_withdrawable user_id w.asset_id w.amount_stroops)
  degrade_unless check id
  update_with_hash id tx_hash
      (λ w. record w { status = sent; tx_hash = some tx_hash; submitted_at = some now })

abbrev pub is_closed : WithdrawalStatus → Bool
is_closed s = elim s [ confirmed ↦ true | cancelled ↦ true | _ ↦ false ]

-- Every status but CONFIRMED and CANCELLED can be cancelled, also SENT.
unfoldable pub cancel_withdrawal : ℕ → ℕ → Action Db FundsError (Unit {0})
cancel_withdrawal id user_id = do
  w ← owned_withdrawal id user_id
  throw_if (is_closed w.status) (wrong_status w.status)
  modify (set_status id cancelled)

-- Back to DRAFT; the nonce stays used, if it was.
unfoldable pub revalidate_withdrawal : Solvency → ℕ → ℕ → Action Db FundsError (Unit {0})
revalidate_withdrawal assert_withdrawable id user_id = do
  w ← owned_withdrawal id user_id
  throw_if (not (needs_revalidation w.status)) (wrong_status w.status)
  check ← gets (assert_withdrawable user_id w.asset_id w.amount_stroops)
  throw_if (not check.allowed) (insolvent check.error_kind)
  modify (set_status id draft)
