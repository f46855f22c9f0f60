-- ===== src/Auth/Nonces/Single.antt =====
-- The claim of a nonce in `verifyWallet` (auth.service.ts), across whole histories.
use veillend.Base.{
  ℕ, ◌≤◌, ◌≡◌, ◌≢◌, false, List, Option, none, some, All, All-All, All-map, arith, ok, err, running,
  count_where-eq-zero, update_many-All_of, Ensures, Ensures->>=_first, Ensures->>_first,
  Ensures->>=_last, Ensures->>_last, Ensures-throw, Ensures-transaction, Ensures-try_catch,
  Ensures-modify, Ensures-if, Keeps-pure, Keeps-modify, Keeps->>=, Keeps->>,
}
use veillend.Auth.Data.{
  Client, WalletNonce, Crypto, Draws, Db, AuthError, Reason, claim_failed, unauthorized,
  authentication_failed, SessionResult,
}
use veillend.Auth.Login.{
  verify_wallet, login_tx, claim_nonce, claimable, create_session, on_login_error,
  handle_nonce_claim_failure, classify, refuse,
}
use veillend.Auth.History.{
  Call, asks_nonce, logs_in, presents, redeems, validates, logs_out, revokes, revokes_all,
  cleans_up, Request, run,
}
use veillend.Auth.History.Policy.{Policy, Kept, Admits}
use veillend.Auth.History.RefreshKept.{update_session-Kept, issue-Kept}
use veillend.Auth.History.LoginKept.{upsert_user-Kept}
use veillend.Auth.History.Run.{run-Kept}

-- No request draws this value for a new nonce.
abbrev pub DrawsOtherNonce : ℕ → Call → Type 0
DrawsOtherNonce nonce (asks_nonce id drawn wallet) = drawn ≢ nonce
DrawsOtherNonce nonce _ = Unit

-- No row of this wallet and nonce can be claimed, now or later.
used_up : ℕ → ℕ → ℕ → Policy
unfolding claimable
used_up wallet nonce now = record {
  NonceOk = λ n. claimable wallet nonce now n ≡ false;
  TokenOk = λ r. Unit;
  JtiOk = λ j. Unit;
  used_ok = λ n h. ground arith;
  revoked_ok = λ r t h. tt;
  jti_revoked_ok = λ j t h. tt;
}

admitted : (w nonce now : ℕ) (q : Call) → DrawsOtherNonce nonce q → Admits (used_up w nonce now) q
unfolding used_up claimable
admitted w nonce now (asks_nonce i n v) h = λ n' e. ground arith
admitted w nonce now (logs_in d v n s) h = (λ r e. tt, λ j e. tt)
admitted w nonce now (presents raw) h = tt
admitted w nonce now (redeems d p) h = (λ r e. tt, λ j e. tt)
admitted w nonce now (validates token) h = tt
admitted w nonce now (logs_out i v) h = tt
admitted w nonce now (revokes i u v) h = tt
admitted w nonce now (revokes_all u v k) h = tt
admitted w nonce now cleans_up h = tt

refuse-Ensures :
    {A : Type 0} (Q : Db → Type 0) (wallet : ℕ) (reason : Reason) (who : Client) (now : ℕ)
    → Ensures Q (refuse {A = A} wallet reason who now)
unfolding refuse
refuse-Ensures Q wallet reason who now = Ensures->>_last Q _ (Ensures-throw Q _)

classify-Ensures :
    {A : Type 0} (Q : Db → Type 0) (wallet : ℕ) (who : Client) (now : ℕ) (o : Option WalletNonce)
    → Ensures Q (classify {A = A} wallet who now o)
unfolding classify
classify-Ensures Q wallet who now none = refuse-Ensures Q wallet _ who now
classify-Ensures Q wallet who now (some n) =
    Ensures-if Q _ (refuse-Ensures Q wallet _ who now)
      (Ensures->>_last Q _ (refuse-Ensures Q wallet _ who now))

on_login_error-Ensures :
    {A : Type 0} (Q : Db → Type 0) (wallet nonce now : ℕ) (who : Client) (e : AuthError)
    → Ensures Q (on_login_error {A = A} wallet nonce now who e)
unfolding on_login_error handle_nonce_claim_failure
on_login_error-Ensures Q wallet nonce now who claim_failed =
    Ensures->>=_last Q _ λ nonces. classify-Ensures Q wallet who now _
on_login_error-Ensures Q wallet nonce now who _ = Ensures-throw Q _

module _ (wallet nonce now : ℕ) where
  claim_nonce-used_up : Ensures (Kept (used_up wallet nonce now)) (claim_nonce wallet nonce now)
  unfolding claim_nonce used_up claimable
  claim_nonce-used_up =
      let p = used_up wallet nonce now in
      Ensures->>=_last (Kept p) _ λ nonces. Ensures->>_last (Kept p) _ (
        Ensures-modify (Kept p) _ λ db. (
          update_many-All_of p.NonceOk (claimable wallet nonce now) _ db.nonces
              (λ n h. ground arith) (λ n h. h),
          All-All _ db.refresh_tokens (λ r. tt),
          All-All _ db.jtis (λ j. tt),
        ))

  verify_wallet-used_up :
      (c : Crypto) (d : Draws) (signature : ℕ) (who : Client)
      → Ensures (Kept (used_up wallet nonce now)) (verify_wallet c d wallet nonce signature now who)
  unfolding verify_wallet login_tx create_session used_up
  verify_wallet-used_up c d signature who =
      let p = used_up wallet nonce now in
      Ensures-if (Kept p) _
        (Ensures->>=_first (Kept p)
          (Ensures-try_catch (Kept p)
            (Ensures-transaction (Kept p) (
              Ensures->>_first (Kept p) claim_nonce-used_up (
                Keeps->>= (Kept p) (upsert_user-Kept p _ wallet) λ user.
                  Keeps->> (Kept p) (Keeps-modify (Kept p) _ (λ db h. h)) (
                    Keeps->>= (Kept p) (issue-Kept p c d now _ (λ r e. tt, λ j e. tt)) λ pair.
                      Keeps->> (Kept p) (update_session-Kept p _ _) (Keeps-pure (Kept p) _)))))
            (on_login_error-Ensures (Kept p) wallet nonce now who))
          λ r. Keeps->> (Kept p) (Keeps-modify (Kept p) _ (λ db h. h)) (Keeps-pure (Kept p) r))
        (refuse-Ensures (Kept p) wallet _ who now)

  unclaimable_later :
      (later : ℕ) (n : WalletNonce)
      → now ≤ later
      → claimable wallet nonce now n ≡ false
      → claimable wallet nonce later n ≡ false
  unfolding claimable
  unclaimable_later later n le h = ground arith

  verify_wallet_of_used_up :
      (c : Crypto) (d : Draws) (signature later : ℕ) (who : Client) (db : Db)
      → now ≤ later
      → Kept (used_up wallet nonce now) db
      → (verify_wallet c d wallet nonce signature later who db).0
        ≡ err (unauthorized authentication_failed)
  unfolding used_up verify_wallet login_tx running
  verify_wallet_of_used_up c d signature later who db le h = ground (
    arith,
    count_where-eq-zero (claimable wallet nonce later) db.nonces
        (All-map _ _ db.nonces (λ n. unclaimable_later later n le) h.0),
  )

  -- Once a nonce has logged a wallet in, it never does so again: after any later requests that do
  -- not draw the same value for a new nonce, a later login with it is refused, whatever its
  -- signature.
  pub login_once :
      (c : Crypto) (d d' : Draws) (signature signature' later : ℕ) (who who' : Client) (db : Db)
      (qs : List Request) (result : SessionResult)
      → (verify_wallet c d wallet nonce signature now who db).0 ≡ ok result
      → All (λ q. DrawsOtherNonce nonce q.call) qs
      → now ≤ later
      → (verify_wallet c d' wallet nonce signature' later who'
          (run c qs (verify_wallet c d wallet nonce signature now who db).1)).0
        ≡ err (unauthorized authentication_failed)
  login_once c d d' signature signature' later who who' db qs result done others le =
      verify_wallet_of_used_up c d' signature' later who' _ le (
        run-Kept (used_up wallet nonce now) c qs _
          (All-map _ _ qs (λ q. admitted wallet nonce now q.call) others)
          ((verify_wallet-used_up c d signature who).apply db result done))
