-- ===== src/Funds/Withdrawals.antt =====
-- withdrawals.service.ts: what its parts share. Create, Lifecycle, Settle and Whitelist hold the
-- operations, the other children the theorems.
pub mod Create
pub mod Lifecycle
pub mod Settle
pub mod Whitelist
pub mod Guards
pub mod History
pub mod Signing
pub mod Timelock
pub mod Debit
use veillend.Base.{
  ℕ, ◌==◌, ◌&&◌, Bool, true, false, Option, none, some, List, Action, gets, or_throw, ◌>>=◌,
  find_first, update_many,
}
use veillend.Funds.Data.{
  WithdrawalStatus, draft, signed, sent, requires_revalidation, Withdrawal, Db, SolvencyCheck,
  FundsError, withdrawal_not_found,
}

-- `assertWithdrawable(userId, assetId, amount)` of withdrawal-solvency.service.ts: it reads
-- positions, prices and market data, and writes nothing.
abbrev pub Solvency : Type 0
Solvency = ℕ → ℕ → ℕ → Db → SolvencyCheck

abbrev pub is_draft : WithdrawalStatus → Bool
is_draft s = elim s [ draft ↦ true | _ ↦ false ]

abbrev pub is_signed : WithdrawalStatus → Bool
is_signed s = elim s [ signed ↦ true | _ ↦ false ]

abbrev pub is_sent : WithdrawalStatus → Bool
is_sent s = elim s [ sent ↦ true | _ ↦ false ]

abbrev pub needs_revalidation : WithdrawalStatus → Bool
needs_revalidation s = elim s [ requires_revalidation ↦ true | _ ↦ false ]

-- The column has this value.
abbrev pub has : ℕ → Option ℕ → Bool
has n o = elim o [ none ↦ false | some m ↦ m == n ]

-- `findFirst({ where: { id, userId } })`.
unfoldable pub find_owned : ℕ → ℕ → List Withdrawal → Option Withdrawal
find_owned id user_id ws = find_first (λ w. w.id == id && w.user_id == user_id) ws

-- `getWithdrawalById`, and the first lines of every operation of a user on a withdrawal.
unfoldable pub owned_withdrawal : ℕ → ℕ → Action Db FundsError Withdrawal
owned_withdrawal id user_id = do
  found ← gets (λ db. find_owned id user_id db.withdrawals)
  or_throw found withdrawal_not_found

-- `withdrawalRequest.update({ where: { id }, data })`.
unfoldable pub update_withdrawal : ℕ → (Withdrawal → Withdrawal) → Db → Db
update_withdrawal id f db = record db {
  withdrawals = update_many (λ w. w.id == id) f db.withdrawals;
}

unfoldable pub set_status : ℕ → WithdrawalStatus → Db → Db
set_status id status db = update_withdrawal id (λ w. record w { status = status }) db
