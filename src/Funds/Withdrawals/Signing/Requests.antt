-- ===== src/Funds/Withdrawals/Signing/Requests.antt =====
-- Used nonces under the requests of withdrawals.service.ts that act on a withdrawal.
use veillend.Base.{
  ℕ, ◌≡◌, Bool, true, Option, none, some, List, [], ◌∷◌, ◌==◌, ◌&&◌, arith, modify, find_first,
  update_many, is_some, Keeps, Keeps->>=, Keeps->>, Keeps-gets, Keeps-pure, Keeps-throw,
  Keeps-or_throw, Keeps-throw_if, Keeps-modify, Keeps-if,
}
use veillend.Funds.Data.{Db, FundsError, SolvencyCheck, Withdrawal, WithdrawNonce}
use veillend.Funds.Withdrawals.{Solvency, owned_withdrawal, update_withdrawal, set_status}
use veillend.Funds.Withdrawals.Lifecycle.{
  simulate_withdrawal_xdr, throw_timelocked, degrade_unless, reject_unless, has_used_nonce,
  use_nonces, update_with_hash, check_signing, finish_signing, sign_withdrawal, submit_withdrawal,
  cancel_withdrawal, revalidate_withdrawal,
}

-- The withdrawal has a used nonce.
abbrev pub Used : ℕ → Db → Type 0
Used id db = has_used_nonce id db ≡ true

used-update :
    (id other : ℕ) (ns : List WithdrawNonce)
    → is_some (find_first (λ (n : WithdrawNonce). n.withdrawal_id == id && n.used) ns) ≡ true
    → is_some (
        find_first
          (λ (n : WithdrawNonce). n.withdrawal_id == id && n.used)
          (update_many (λ n. n.withdrawal_id == other) (λ n. record n { used = true }) ns))
      ≡ true
unfolding find_first update_many
used-update id other [] h = h
used-update id other (n ∷ ns) h = ground (arith, used-update id other ns)

module _ (id : ℕ) where
  pub use_nonces-Used : (other : ℕ) (db : Db) → Used id db → Used id (use_nonces other db)
  unfolding has_used_nonce use_nonces
  use_nonces-Used other db h = used-update id other db.nonces h

  pub owned-Used : (other user : ℕ) → Keeps (Used id) (owned_withdrawal other user)
  unfolding owned_withdrawal
  owned-Used other user =
      Keeps->>= (Used id) (Keeps-gets (Used id) _) λ found. Keeps-or_throw (Used id) found _

  pub status-Used :
      (other : ℕ) (f : Withdrawal → Withdrawal)
      → Keeps (Used id) (modify {E = FundsError} (update_withdrawal other f))
  unfolding has_used_nonce update_withdrawal
  status-Used other f = Keeps-modify (Used id) _ (λ db h. h)

  pub hash-Used :
      (other hash : ℕ) (f : Withdrawal → Withdrawal)
      → Keeps (Used id) (update_with_hash other hash f)
  unfolding update_with_hash
  hash-Used other hash f =
      Keeps->>= (Used id) (Keeps-gets (Used id) _)
        λ ws. Keeps->> (Used id) (Keeps-throw_if (Used id) _ _) (status-Used other f)

  pub degrade-Used :
      (check : SolvencyCheck) (other : ℕ) → Keeps (Used id) (degrade_unless check other)
  unfolding degrade_unless set_status
  degrade-Used check other =
      Keeps-if (Used id) _ (Keeps-pure (Used id) _)
        (Keeps->> (Used id) (status-Used other _) (Keeps-throw (Used id) _))

  pub reject-Used : (b : Bool) (other : ℕ) → Keeps (Used id) (reject_unless b other)
  unfolding reject_unless set_status
  reject-Used b other =
      Keeps-if (Used id) b (Keeps-pure (Used id) _)
        (Keeps->> (Used id) (status-Used other _) (Keeps-throw (Used id) _))

  pub timelock-Used : (o : Option ℕ) → Keeps (Used id) (throw_timelocked o)
  unfolding throw_timelocked
  timelock-Used none = Keeps-pure (Used id) _
  timelock-Used (some until) = Keeps-throw (Used id) _

  pub check-Used :
      (check : Solvency) (other user xdr now : ℕ)
      → Keeps (Used id) (check_signing check other user xdr now)
  unfolding check_signing
  check-Used check other user xdr now =
      let k = Used id in
      Keeps->>= k (owned-Used other user) λ w. Keeps->> k (Keeps-throw_if k _ _) (
        Keeps->> k (timelock-Used _) (
          Keeps->>= k (Keeps-gets k _) λ c. Keeps->> k (degrade-Used c other) (
            Keeps->> k (reject-Used (simulate_withdrawal_xdr xdr) other)
              (Keeps->>= k (Keeps-gets k _) λ u. Keeps-throw_if k u _))))

  pub finish-Used : (other xdr hash now : ℕ) → Keeps (Used id) (finish_signing other xdr hash now)
  unfolding finish_signing
  finish-Used other xdr hash now =
      let k = Used id in
      Keeps->> k (Keeps-modify k _ (use_nonces-Used other)) (hash-Used other hash _)

  pub sign-Used :
      (check : Solvency) (other user xdr hash now : ℕ)
      → Keeps (Used id) (sign_withdrawal check other user xdr hash now)
  unfolding sign_withdrawal
  sign-Used check other user xdr hash now =
      Keeps->> (Used id) (check-Used check other user xdr now) (finish-Used other xdr hash now)

  pub submit-Used :
      (check : Solvency) (other user hash now : ℕ)
      → Keeps (Used id) (submit_withdrawal check other user hash now)
  unfolding submit_withdrawal
  submit-Used check other user hash now =
      let k = Used id in
      Keeps->>= k (owned-Used other user) λ w. Keeps->> k (Keeps-throw_if k _ _) (
        Keeps->>= k (Keeps-gets k _)
          λ c. Keeps->> k (degrade-Used c other) (hash-Used other hash _))

  pub cancel-Used : (other user : ℕ) → Keeps (Used id) (cancel_withdrawal other user)
  unfolding cancel_withdrawal set_status
  cancel-Used other user =
      Keeps->>= (Used id) (owned-Used other user)
        λ w. Keeps->> (Used id) (Keeps-throw_if (Used id) _ _) (status-Used other _)

  pub revalidate-Used :
      (check : Solvency) (other user : ℕ) → Keeps (Used id) (revalidate_withdrawal check other user)
  unfolding revalidate_withdrawal set_status
  revalidate-Used check other user =
      let k = Used id in
      Keeps->>= k (owned-Used other user) λ w.
        Keeps->> k (Keeps-throw_if k _ _) (
          Keeps->>= k (Keeps-gets k _) λ c. Keeps->> k (Keeps-throw_if k _ _) (status-Used other _))
