-- ===== src/Auth/Nonces/Failure.antt =====
-- The error paths of `verifyWallet` (auth.service.ts).
use veillend.Base.{
  ℕ, ◌≡◌, refl, Option, none, some, arith, err, Keeps, Keeps->>=, Keeps->>, Keeps-throw, Keeps-gets,
  Keeps-modify, Keeps-if, Fails, Fails-if, Fails->>=_Returns, Fails-try_catch, Fails-transaction,
  Fails-Keeps, Returns-modify-pure,
}
use veillend.Auth.Data.{Client, WalletNonce, Crypto, Draws, Db, AuthError, Reason, claim_failed}
use veillend.Auth.Login.{
  verify_wallet, on_login_error, handle_nonce_claim_failure, classify, refuse, log_auth_failure,
}

-- The tables that hold what a login grants are those of `db`.
pub record SameGrants (db db' : Db) : Type 0 where
  pub users : db'.users ≡ db.users
  pub sessions : db'.sessions ≡ db.sessions
  pub refresh_tokens : db'.refresh_tokens ≡ db.refresh_tokens
  pub jtis : db'.jtis ≡ db.jtis

module _ (db : Db) where
  refuse-SameGrants :
      {A : Type 0} (wallet : ℕ) (reason : Reason) (who : Client) (now : ℕ)
      → Keeps (SameGrants db) (refuse {A = A} wallet reason who now)
  unfolding refuse log_auth_failure
  refuse-SameGrants wallet reason who now =
      Keeps->> (SameGrants db) (Keeps-modify (SameGrants db) _ (λ s h. ground arith))
        (Keeps-throw (SameGrants db) _)

  classify-SameGrants :
      {A : Type 0} (wallet : ℕ) (who : Client) (now : ℕ) (o : Option WalletNonce)
      → Keeps (SameGrants db) (classify {A = A} wallet who now o)
  unfolding classify
  classify-SameGrants wallet who now none = refuse-SameGrants wallet _ who now
  classify-SameGrants wallet who now (some n) =
      Keeps-if (SameGrants db) _ (refuse-SameGrants wallet _ who now) (
        Keeps->> (SameGrants db) (Keeps-modify (SameGrants db) _ (λ s h. ground arith))
          (refuse-SameGrants wallet _ who now))

  on_login_error-SameGrants :
      {A : Type 0} (wallet nonce now : ℕ) (who : Client) (e : AuthError)
      → Keeps (SameGrants db) (on_login_error {A = A} wallet nonce now who e)
  unfolding on_login_error handle_nonce_claim_failure
  on_login_error-SameGrants wallet nonce now who claim_failed =
      Keeps->>= (SameGrants db) (Keeps-gets (SameGrants db) _)
        λ nonces. classify-SameGrants wallet who now _
  on_login_error-SameGrants wallet nonce now who _ = Keeps-throw (SameGrants db) _

  verify_wallet-SameGrants :
      (c : Crypto) (d : Draws) (wallet nonce signature now : ℕ) (who : Client)
      → Fails (SameGrants db) (verify_wallet c d wallet nonce signature now who)
  unfolding verify_wallet
  verify_wallet-SameGrants c d wallet nonce signature now who =
      Fails-if (SameGrants db) _
        (Fails->>=_Returns (SameGrants db)
          (Fails-try_catch (SameGrants db) (Fails-transaction (SameGrants db) _)
            (on_login_error-SameGrants wallet nonce now who))
          (λ r. Returns-modify-pure _ r))
        (Fails-Keeps (SameGrants db) (refuse-SameGrants wallet _ who now))

-- When `verifyWallet` throws, for whatever reason, the tables of users, sessions, refresh tokens
-- and jtis are as they were.
pub failed_login_grants_nothing :
    (c : Crypto) (d : Draws) (wallet nonce signature now : ℕ) (who : Client) (db : Db)
    (e : AuthError)
    → (verify_wallet c d wallet nonce signature now who db).0 ≡ err e
    → SameGrants db (verify_wallet c d wallet nonce signature now who db).1
failed_login_grants_nothing c d wallet nonce signature now who db e failed =
    (verify_wallet-SameGrants db c d wallet nonce signature now who).apply db e
      (record { users = refl; sessions = refl; refresh_tokens = refl; jtis = refl }) failed
