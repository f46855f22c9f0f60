-- ===== src/Auth/History/RefreshKept.antt =====
-- Policies under `present` and `redeem`, the two halves of `refreshTokens` (auth.service.ts).
use veillend.Base.{
  ℕ, refl, Option, none, some, update_many-All, Keeps, Keeps->>=, Keeps->>, Keeps-pure, Keeps-throw,
  Keeps-gets, Keeps-or_throw, Keeps-throw_if, Keeps-modify, Keeps-transaction, Keeps-try_catch,
  Keeps-if,
}
use veillend.Auth.Data.{
  Client, Session, RefreshToken, Crypto, Draws, Db, AuthError, User, claim_failed,
}
use veillend.Auth.Tokens.{PairParams, issue_token_pair, update_session}
use veillend.Auth.Refresh.{
  Presented, log_reuse, compromised, check_presented, on_claim_error, revoke_all_of, present,
  redeem, claim_token, rotate_tx, revoke_family, revoke_jtis, handle_refresh_reuse,
}
use veillend.Auth.History.Policy.{Policy, Kept, AdmitsDraws}

module _ (p : Policy) where
  pub update_session-Kept : (id : ℕ) (f : Session → Session) → Keeps (Kept p) (update_session id f)
  unfolding update_session
  update_session-Kept id f =
      Keeps->>= (Kept p) (Keeps-gets (Kept p) _)
        λ s. Keeps->> (Kept p) (Keeps-throw_if (Kept p) _ _) (Keeps-modify (Kept p) _ (λ db h. h))

  pub issue-Kept :
      (c : Crypto) (d : Draws) (now : ℕ) (q : PairParams)
      → AdmitsDraws p d
      → Keeps (Kept p) (issue_token_pair c d now q)
  unfolding issue_token_pair
  issue-Kept c d now q (token, jti) =
      Keeps->> (Kept p)
        (Keeps-modify (Kept p) _ (λ db h. (h.0, (token _ refl, h.1), (jti _ refl, h.2))))
        (Keeps-pure (Kept p) _)

  claim_token-Kept : (id now : ℕ) → Keeps (Kept p) (claim_token id now)
  unfolding claim_token
  claim_token-Kept id now = Keeps->>= (Kept p) (Keeps-gets (Kept p) _) λ s.
      Keeps->> (Kept p) (Keeps-throw_if (Kept p) _ _) (
        Keeps-modify (Kept p) _ λ db h.
          (h.0, update_many-All p.TokenOk _ _ db.refresh_tokens (λ r. p.revoked_ok r now) h.1, h.2))

  rotate_tx-Kept :
      (c : Crypto) (d : Draws) (q : Presented) (now : ℕ) (who : Client)
      → AdmitsDraws p d
      → Keeps (Kept p) (rotate_tx c d q now who)
  unfolding rotate_tx
  rotate_tx-Kept c d q now who new = Keeps->> (Kept p) (claim_token-Kept _ now) (
      Keeps->>= (Kept p) (issue-Kept c d now _ new)
        λ pair. Keeps->> (Kept p) (update_session-Kept _ _) (Keeps-pure (Kept p) _))

  log_reuse-Kept :
      (o : Option User) (who : Client) (now : ℕ) (db : Db)
      → Kept p db
      → Kept p (log_reuse o who now db)
  unfolding log_reuse
  log_reuse-Kept none who now db h = h
  log_reuse-Kept (some u) who now db h = h

  reuse-Kept :
      (user family now : ℕ) (who : Client) (db : Db)
      → Kept p db
      → Kept p (handle_refresh_reuse user family now who db)
  unfolding handle_refresh_reuse revoke_all_of revoke_family revoke_jtis
  reuse-Kept user family now who db h = log_reuse-Kept _ who now (revoke_all_of family now db) (
    h.0,
    update_many-All p.TokenOk _ _ db.refresh_tokens (λ r. p.revoked_ok r now) h.1,
    update_many-All p.JtiOk _ _ db.jtis (λ j. p.jti_revoked_ok j now) h.2,
  )

  compromised-Kept :
      {A : Type 0} (r : RefreshToken) (now : ℕ) (who : Client)
      → Keeps (Kept p) (compromised {A = A} r now who)
  unfolding compromised
  compromised-Kept r now who =
      Keeps->> (Kept p) (Keeps-modify (Kept p) _ (reuse-Kept _ _ now who)) (Keeps-throw (Kept p) _)

  on_claim_error-Kept :
      {A : Type 0} (r : RefreshToken) (now : ℕ) (who : Client) (e : AuthError)
      → Keeps (Kept p) (on_claim_error {A = A} r now who e)
  unfolding on_claim_error
  on_claim_error-Kept r now who claim_failed = compromised-Kept r now who
  on_claim_error-Kept r now who _ = Keeps-throw (Kept p) _

  pub redeem-Kept :
      (c : Crypto) (d : Draws) (q : Presented) (now : ℕ) (who : Client)
      → AdmitsDraws p d
      → Keeps (Kept p) (redeem c d q now who)
  unfolding redeem
  redeem-Kept c d q now who new =
      Keeps->>= (Kept p)
        (Keeps-try_catch (Kept p) (Keeps-transaction (Kept p) (rotate_tx-Kept c d q now who new))
          (on_claim_error-Kept q.existing now who))
        λ r. Keeps->> (Kept p) (Keeps-modify (Kept p) _ (λ db h. h)) (Keeps-pure (Kept p) r)

  check_presented-Kept :
      (r : RefreshToken) (now : ℕ) (who : Client) → Keeps (Kept p) (check_presented r now who)
  unfolding check_presented
  check_presented-Kept r now who =
      Keeps-if (Kept p) _
        (Keeps->> (Kept p) (Keeps-throw_if (Kept p) _ _) (
          Keeps->>= (Kept p) (Keeps-gets (Kept p) _)
            λ users. Keeps->>= (Kept p) (Keeps-or_throw (Kept p) _ _) λ u. Keeps-pure (Kept p) _))
        (compromised-Kept r now who)

  pub present-Kept :
      (c : Crypto) (raw now : ℕ) (who : Client) → Keeps (Kept p) (present c raw now who)
  unfolding present
  present-Kept c raw now who =
      Keeps->>= (Kept p) (Keeps-gets (Kept p) _) λ tokens.
        Keeps->>= (Kept p) (Keeps-or_throw (Kept p) _ _) λ r. check_presented-Kept r now who
