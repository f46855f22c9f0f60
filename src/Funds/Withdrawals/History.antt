-- ===== src/Funds/Withdrawals/History.antt =====
-- The requests that the withdrawals API and its watcher make of the database, one after the other. A
-- sign request may also be two steps, its checks and its writes, with others in between.
use veillend.Base.{ℕ, Bool, Option, List, [], ◌∷◌}
use veillend.Funds.Data.{Db, Config}
use veillend.Funds.Deposits.{Lookup}
use veillend.Funds.Withdrawals.{Solvency}
use veillend.Funds.Withdrawals.Create.{CreateWithdrawal, WithdrawalDraws, create_withdrawal}
use veillend.Funds.Withdrawals.Lifecycle.{
  check_signing, finish_signing, sign_withdrawal, submit_withdrawal, cancel_withdrawal,
  revalidate_withdrawal,
}
use veillend.Funds.Withdrawals.Settle.{run_withdrawal_watcher}
use veillend.Funds.Withdrawals.Whitelist.{add_to_whitelist, remove_from_whitelist}

pub data Call : Type 0 where
  creates : WithdrawalDraws → (wallet : ℕ) → CreateWithdrawal → (key : Option ℕ) → Call
  signs finishes_signing : (id xdr hash : ℕ) → Call
  checks_signing : (id xdr : ℕ) → Call
  submits : (id hash : ℕ) → Call
  cancels revalidates : (id : ℕ) → Call
  allows : (id address : ℕ) (instant : Bool) (limit : Option ℕ) → Call
  disallows : (id : ℕ) → Call
  watches : (ledger : ℕ) → (ℕ → Lookup) → Call

pub record Request : Type 0 where
  pub user : ℕ
  pub now : ℕ
  pub call : Call

-- The state after a request, whether it returned or threw.
unfoldable pub step : Config → (ℕ → ℕ) → Solvency → ℕ → ℕ → Call → Db → Db
step cfg sha check user now (creates d wallet dto key) db =
    (create_withdrawal cfg sha check d user wallet dto key now db).1
step cfg sha check user now (signs id xdr hash) db =
    (sign_withdrawal check id user xdr hash now db).1
step cfg sha check user now (checks_signing id xdr) db = (check_signing check id user xdr now db).1
step cfg sha check user now (finishes_signing id xdr hash) db =
    (finish_signing id xdr hash now db).1
step cfg sha check user now (submits id hash) db = (submit_withdrawal check id user hash now db).1
step cfg sha check user now (cancels id) db = (cancel_withdrawal id user db).1
step cfg sha check user now (revalidates id) db = (revalidate_withdrawal check id user db).1
step cfg sha check user now (allows id address instant limit) db =
    (add_to_whitelist cfg id user address instant limit now db).1
step cfg sha check user now (disallows id) db = (remove_from_whitelist user id db).1
step cfg sha check user now (watches ledger horizon) db =
    run_withdrawal_watcher ledger now horizon db

unfoldable pub run : Config → (ℕ → ℕ) → Solvency → List Request → Db → Db
unfolding step
run cfg sha check [] db = db
run cfg sha check (q ∷ qs) db = run cfg sha check qs (step cfg sha check q.user q.now q.call db)
