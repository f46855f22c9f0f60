-- ===== src/Auth/History/LoginKept.antt =====
-- Policies under `generateNonce` and `verifyWallet` (auth.service.ts).
use veillend.Base.{
  ℕ, ◌≡◌, refl, Option, none, some, inl, inr, Option-cases, find_first, update_many-All, Keeps,
  Keeps->>=, Keeps->>, Keeps-pure, Keeps-throw, Keeps-gets, Keeps-throw_if, Keeps-modify,
  Keeps-transaction, Keeps-try_catch, Keeps-if, ◌==◌, running,
}
use veillend.Auth.Data.{Client, Crypto, Draws, AuthError, User, Reason, WalletNonce, claim_failed}
use veillend.Auth.Login.{
  generate_nonce, replace_nonces, verify_wallet, login_tx, claim_nonce, upsert_user, create_session,
  handle_nonce_claim_failure, log_auth_failure, refuse, classify, on_login_error,
}
use veillend.Auth.History.Policy.{Policy, Kept, AdmitsDraws}
use veillend.Auth.History.RefreshKept.{update_session-Kept, issue-Kept}

module _ (p : Policy) where
  pub generate_nonce-Kept :
      (id nonce now wallet : ℕ) (who : Client)
      → ((n : WalletNonce) → n.nonce ≡ nonce → p.NonceOk n)
      → Keeps (Kept p) (generate_nonce id nonce now wallet who)
  unfolding generate_nonce replace_nonces
  generate_nonce-Kept id nonce now wallet who new =
      Keeps->> (Kept p)
        (Keeps-transaction (Kept p) (
          Keeps-modify (Kept p) _ λ db h.
            ((new _ refl, update_many-All p.NonceOk _ _ db.nonces p.used_ok h.0), h.1, h.2)))
        (Keeps->> (Kept p) (Keeps-modify (Kept p) _ (λ db h. h)) (Keeps-pure (Kept p) nonce))

  claim_nonce-Kept : (wallet nonce now : ℕ) → Keeps (Kept p) (claim_nonce wallet nonce now)
  unfolding claim_nonce
  claim_nonce-Kept wallet nonce now = Keeps->>= (Kept p) (Keeps-gets (Kept p) _) λ nonces.
      Keeps->> (Kept p) (Keeps-throw_if (Kept p) _ _) (
        Keeps-modify (Kept p) _
          λ db h. (update_many-All p.NonceOk _ _ db.nonces p.used_ok h.0, h.1, h.2))

  pub upsert_user-Kept : (id wallet : ℕ) → Keeps (Kept p) (upsert_user id wallet)
  unfolding upsert_user running
  upsert_user-Kept id wallet = record {
    apply = λ db h.
        elim (Option-cases (find_first (λ (u : User). u.wallet_address == wallet) db.users)) [
          | inl e ↦ rw (e, upsert_user) h
          | inr (u, e) ↦ rw (e, upsert_user) h
        ];
  }

  login_tx-Kept :
      (c : Crypto) (d : Draws) (wallet nonce now : ℕ) (who : Client)
      → AdmitsDraws p d
      → Keeps (Kept p) (login_tx c d wallet nonce now who)
  unfolding login_tx create_session
  login_tx-Kept c d wallet nonce now who new =
      Keeps->> (Kept p) (claim_nonce-Kept wallet nonce now) (
        Keeps->>= (Kept p) (upsert_user-Kept _ wallet) λ user.
          Keeps->> (Kept p) (Keeps-modify (Kept p) _ (λ db h. h)) (
            Keeps->>= (Kept p) (issue-Kept p c d now _ new)
              λ pair. Keeps->> (Kept p) (update_session-Kept p _ _) (Keeps-pure (Kept p) _)))

  refuse-Kept :
      {A : Type 0} (wallet : ℕ) (reason : Reason) (who : Client) (now : ℕ)
      → Keeps (Kept p) (refuse {A = A} wallet reason who now)
  unfolding refuse log_auth_failure
  refuse-Kept wallet reason who now =
      Keeps->> (Kept p) (Keeps-modify (Kept p) _ (λ db h. h)) (Keeps-throw (Kept p) _)

  classify-Kept :
      {A : Type 0} (wallet : ℕ) (who : Client) (now : ℕ) (o : Option WalletNonce)
      → Keeps (Kept p) (classify {A = A} wallet who now o)
  unfolding classify
  classify-Kept wallet who now none = refuse-Kept wallet _ who now
  classify-Kept wallet who now (some stored) = Keeps-if (Kept p) _ (refuse-Kept wallet _ who now) (
      Keeps->> (Kept p)
        (Keeps-modify (Kept p) _
          λ db h. (update_many-All p.NonceOk _ _ db.nonces p.used_ok h.0, h.1, h.2))
        (refuse-Kept wallet _ who now))

  on_login_error-Kept :
      {A : Type 0} (wallet nonce now : ℕ) (who : Client) (e : AuthError)
      → Keeps (Kept p) (on_login_error {A = A} wallet nonce now who e)
  unfolding on_login_error handle_nonce_claim_failure
  on_login_error-Kept wallet nonce now who claim_failed =
      Keeps->>= (Kept p) (Keeps-gets (Kept p) _) λ nonces. classify-Kept wallet who now _
  on_login_error-Kept wallet nonce now who _ = Keeps-throw (Kept p) _

  pub verify_wallet-Kept :
      (c : Crypto) (d : Draws) (wallet nonce signature now : ℕ) (who : Client)
      → AdmitsDraws p d
      → Keeps (Kept p) (verify_wallet c d wallet nonce signature now who)
  unfolding verify_wallet
  verify_wallet-Kept c d wallet nonce signature now who new =
      Keeps-if (Kept p) _
        (Keeps->>= (Kept p)
          (Keeps-try_catch (Kept p)
            (Keeps-transaction (Kept p) (login_tx-Kept c d wallet nonce now who new))
            (on_login_error-Kept wallet nonce now who))
          λ r. Keeps->> (Kept p) (Keeps-modify (Kept p) _ (λ db h. h)) (Keeps-pure (Kept p) r))
        (refuse-Kept wallet _ who now)
