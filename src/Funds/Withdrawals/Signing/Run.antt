-- ===== src/Funds/Withdrawals/Signing/Run.antt =====
-- Used nonces under the other requests of withdrawals.service.ts, the watcher and any run.
use veillend.Base.{
  ℕ, Bool, Option, none, some, List, [], ◌∷◌, arith, ℤ, find_first, Keeps, Keeps->>=, Keeps->>,
  Keeps-gets, Keeps-pure, Keeps-or_throw, Keeps-throw_if, Keeps-modify, Keeps-if, Keeps-transaction,
}
use veillend.Funds.Data.{Db, Response, Withdrawal, Config}
use veillend.Funds.Deposits.{store_key, Lookup, unknown, failed, successful, unreachable}
use veillend.Funds.Withdrawals.{Solvency, update_withdrawal, set_status}
use veillend.Funds.Withdrawals.Create.{
  CreateWithdrawal, WithdrawalDraws, create_withdrawal, make_or_replay, make_withdrawal, create_tx,
  store_nonce, store_withdrawal,
}
use veillend.Funds.Withdrawals.Lifecycle.{has_used_nonce}
use veillend.Funds.Withdrawals.Settle.{
  debit, confirm_withdrawal, settle_found, update_withdrawal_confirmations,
  mark_withdrawal_orphaned, watch_withdrawal, get_pending_withdrawals, watch_each,
  run_withdrawal_watcher,
}
use veillend.Funds.Withdrawals.Whitelist.{add_to_whitelist, remove_from_whitelist}
use veillend.Funds.Withdrawals.History.{
  Call, creates, signs, checks_signing, finishes_signing, submits, cancels, revalidates, allows,
  disallows, watches, Request, step, run,
}
use veillend.Funds.Withdrawals.Signing.Requests.{
  Used, status-Used, check-Used, finish-Used, sign-Used, submit-Used, cancel-Used, revalidate-Used,
}

module _ (id : ℕ) where
  key-Used :
      (key : Option ℕ) (user now : ℕ) (r : Response) → Keeps (Used id) (store_key key user r now)
  unfolding store_key has_used_nonce
  key-Used none user now r = Keeps-pure (Used id) _
  key-Used (some key) user now r =
      Keeps->>= (Used id) (Keeps-gets (Used id) _) λ ks.
        Keeps->> (Used id) (Keeps-throw_if (Used id) _ _) (Keeps-modify (Used id) _ (λ db h. h))

  nonce-Used : (hash other : ℕ) → Keeps (Used id) (store_nonce hash other)
  unfolding store_nonce has_used_nonce find_first
  nonce-Used hash other = Keeps->>= (Used id) (Keeps-gets (Used id) _) λ ns.
      Keeps->> (Used id) (Keeps-throw_if (Used id) _ _)
        (Keeps-modify (Used id) _ (λ db h. ground arith))

  row-Used : (w : Withdrawal) → Keeps (Used id) (store_withdrawal w)
  unfolding store_withdrawal has_used_nonce
  row-Used w =
      Keeps->>= (Used id) (Keeps-gets (Used id) _) λ ws.
        Keeps->> (Used id) (Keeps-throw_if (Used id) _ _) (Keeps-modify (Used id) _ (λ db h. h))

  create_tx-Used :
      (sha : ℕ → ℕ) (d : WithdrawalDraws) (user : ℕ) (w : Withdrawal) (key : Option ℕ) (now : ℕ)
      → Keeps (Used id) (create_tx sha d user w key now)
  unfolding create_tx
  create_tx-Used sha d user w key now =
      let k = Used id in
      Keeps->> k (row-Used w)
        (Keeps->> k (nonce-Used _ _) (Keeps->> k (key-Used key user now _) (Keeps-pure k _)))

  make-Used :
      (cfg : Config) (sha : ℕ → ℕ) (check : Solvency) (d : WithdrawalDraws) (user wallet : ℕ)
      (dto : CreateWithdrawal) (key : Option ℕ) (now : ℕ) (stored : Option Response)
      → Keeps (Used id) (make_or_replay cfg sha check d user wallet dto key now stored)
  unfolding make_or_replay make_withdrawal
  make-Used cfg sha check d user wallet dto key now (some r) = Keeps-pure (Used id) _
  make-Used cfg sha check d user wallet dto key now none =
      let k = Used id in
      Keeps->>= k (Keeps-gets k _) λ found. Keeps->>= k (Keeps-or_throw k found _) λ asset.
        Keeps->>= k (Keeps-gets k _) λ solvency. Keeps->> k (Keeps-throw_if k _ _) (
          Keeps->>= k (Keeps-gets k _) λ entry.
            Keeps->>= k (Keeps-gets k _)
              λ required. Keeps-transaction k (create_tx-Used sha d user _ key now))

  create-Used :
      (cfg : Config) (sha : ℕ → ℕ) (check : Solvency) (d : WithdrawalDraws) (user wallet : ℕ)
      (dto : CreateWithdrawal) (key : Option ℕ) (now : ℕ)
      → Keeps (Used id) (create_withdrawal cfg sha check d user wallet dto key now)
  unfolding create_withdrawal
  create-Used cfg sha check d user wallet dto key now =
      Keeps->>= (Used id) (Keeps-gets (Used id) _)
        λ stored. make-Used cfg sha check d user wallet dto key now stored

  allow-Used :
      (cfg : Config) (row user address : ℕ) (instant : Bool) (limit : Option ℕ) (now : ℕ)
      → Keeps (Used id) (add_to_whitelist cfg row user address instant limit now)
  unfolding add_to_whitelist has_used_nonce
  allow-Used cfg row user address instant limit now =
      let k = Used id in
      Keeps->>= k (Keeps-gets k _) λ found.
        Keeps->> k (Keeps-throw_if k _ _)
          (Keeps->> k (Keeps-modify k _ (λ db h. h)) (Keeps-pure k _))

  disallow-Used : (user row : ℕ) → Keeps (Used id) (remove_from_whitelist user row)
  unfolding remove_from_whitelist has_used_nonce
  disallow-Used user row =
      let k = Used id in
      Keeps->>= k (Keeps-gets k _)
        λ entries. Keeps->> k (Keeps-throw_if k _ _) (Keeps-modify k _ (λ db h. h))

  debit-Used : (user asset amount : ℕ) → Keeps (Used id) (debit user asset amount)
  unfolding debit has_used_nonce
  debit-Used user asset amount =
      let k = Used id in
      Keeps->>= k (Keeps-gets k _) λ ps.
        Keeps->> k (Keeps-throw_if k _ _)
          (Keeps->> k (Keeps-throw_if k _ _) (Keeps-modify k _ (λ db h. h)))

  settle-Used :
      (o : Option Withdrawal) (seen : ℤ) (now : ℕ) → Keeps (Used id) (settle_found o seen now)
  unfolding settle_found confirm_withdrawal
  settle-Used none seen now = Keeps-pure (Used id) _
  settle-Used (some w) seen now =
      let k = Used id in
      Keeps-if k _
        (Keeps-if k _ (Keeps-transaction k (Keeps->> k (status-Used id _ _) (debit-Used _ _ _)))
          (status-Used id _ _))
        (Keeps-pure k _)

  confirmations-Used :
      (other : ℕ) (seen : ℤ) (now : ℕ)
      → Keeps (Used id) (update_withdrawal_confirmations other seen now)
  unfolding update_withdrawal_confirmations
  confirmations-Used other seen now =
      Keeps->>= (Used id) (Keeps-gets (Used id) _) λ found. settle-Used found seen now

  watch-Used :
      (ledger now : ℕ) (w : Withdrawal) (l : Lookup) (db : Db)
      → Used id db
      → Used id (watch_withdrawal ledger now w l db)
  unfolding watch_withdrawal mark_withdrawal_orphaned set_status update_withdrawal has_used_nonce
  watch-Used ledger now w unknown db h = h
  watch-Used ledger now w failed db h = h
  watch-Used ledger now w (successful included) db h = (confirmations-Used w.id _ now).apply db h
  watch-Used ledger now w unreachable db h = h

  watch_each-Used :
      (ledger now : ℕ) (horizon : ℕ → Lookup) (ws : List Withdrawal) (db : Db)
      → Used id db
      → Used id (watch_each ledger now horizon ws db)
  unfolding watch_each
  watch_each-Used ledger now horizon [] db h = h
  watch_each-Used ledger now horizon (w ∷ ws) db h =
      watch_each-Used ledger now horizon ws _ (watch-Used ledger now w _ db h)

  step-Used :
      (cfg : Config) (sha : ℕ → ℕ) (check : Solvency) (user now : ℕ) (c : Call) (db : Db)
      → Used id db
      → Used id (step cfg sha check user now c db)
  unfolding step run_withdrawal_watcher
  step-Used cfg sha check user now (creates d wallet dto key) db h =
      (create-Used cfg sha check d user wallet dto key now).apply db h
  step-Used cfg sha check user now (signs other xdr hash) db h =
      (sign-Used id check other user xdr hash now).apply db h
  step-Used cfg sha check user now (checks_signing other xdr) db h =
      (check-Used id check other user xdr now).apply db h
  step-Used cfg sha check user now (finishes_signing other xdr hash) db h =
      (finish-Used id other xdr hash now).apply db h
  step-Used cfg sha check user now (submits other hash) db h =
      (submit-Used id check other user hash now).apply db h
  step-Used cfg sha check user now (cancels other) db h = (cancel-Used id other user).apply db h
  step-Used cfg sha check user now (revalidates other) db h =
      (revalidate-Used id check other user).apply db h
  step-Used cfg sha check user now (allows row address instant limit) db h =
      (allow-Used cfg row user address instant limit now).apply db h
  step-Used cfg sha check user now (disallows row) db h = (disallow-Used user row).apply db h
  step-Used cfg sha check user now (watches ledger horizon) db h =
      watch_each-Used ledger now horizon (get_pending_withdrawals db.withdrawals) db h

  pub run-Used :
      (cfg : Config) (sha : ℕ → ℕ) (check : Solvency) (qs : List Request) (db : Db)
      → Used id db
      → Used id (run cfg sha check qs db)
  unfolding run
  run-Used cfg sha check [] db h = h
  run-Used cfg sha check (q ∷ qs) db h =
      run-Used cfg sha check qs _ (step-Used cfg sha check q.user q.now q.call db h)
