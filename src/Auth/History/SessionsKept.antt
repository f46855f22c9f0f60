-- ===== src/Auth/History/SessionsKept.antt =====
-- Policies under the session requests and the cleanup (auth.service.ts).
use veillend.Base.{
  ℕ, Option, none, some, inl, inr, Bool-cases, delete_many-All, count_where, Keeps, Keeps->>=,
  Keeps->>, Keeps-pure, Keeps-gets, Keeps-throw_if, Keeps-or_throw, Keeps-modify, ◌==◌, ◌&&◌, Bool,
}
use veillend.Auth.Data.{Client, Crypto, Db, Session}
use veillend.Auth.Sessions.{
  validate_session, delete_sessions, log_logout, revoke_session, revoke_session_by_id,
  revoke_all_sessions, cleanup_expired_tokens,
}
use veillend.Auth.History.Policy.{Policy, Kept}

module _ (p : Policy) where
  pub validate_session-Kept :
      (c : Crypto) (token now : ℕ) → Keeps (Kept p) (validate_session c token now)
  unfolding validate_session
  validate_session-Kept c token now = Keeps->>= (Kept p) (Keeps-gets (Kept p) _) λ sessions.
      Keeps->>= (Kept p) (Keeps-or_throw (Kept p) _ _) λ s.
        Keeps->> (Kept p) (Keeps-throw_if (Kept p) _ _) (
          Keeps->>= (Kept p) (Keeps-gets (Kept p) _) λ users.
            Keeps->>= (Kept p) (Keeps-or_throw (Kept p) _ _) λ wallet.
              Keeps->> (Kept p) (Keeps-modify (Kept p) _ (λ db h. h)) (Keeps-pure (Kept p) _))

  delete_sessions-Kept : (q : Session → Bool) (db : Db) → Kept p db → Kept p (delete_sessions q db)
  unfolding delete_sessions
  delete_sessions-Kept q db h = (
    h.0,
    delete_many-All p.TokenOk _ db.refresh_tokens h.1,
    delete_many-All p.JtiOk _ db.jtis h.2,
  )

  log_logout-Kept :
      (o : Option ℕ) (who : Client) (now : ℕ) (db : Db)
      → Kept p db
      → Kept p (log_logout o who now db)
  unfolding log_logout
  log_logout-Kept none who now db h = h
  log_logout-Kept (some u) who now db h = h

  pub revoke_session-Kept :
      (id : ℕ) (wallet : Option ℕ) (who : Client) (now : ℕ) (db : Db)
      → Kept p db
      → Kept p (revoke_session id wallet who now db)
  unfolding revoke_session
  revoke_session-Kept id wallet who now db h =
      elim (Bool-cases (count_where (λ (s : Session). s.id == id) db.sessions == 0)) [
        | inl e ↦ rw e h
        | inr e ↦ rw e (log_logout-Kept wallet who now _ (delete_sessions-Kept _ db h))
      ]

  pub revoke_session_by_id-Kept :
      (id user_id wallet : ℕ) (who : Client) (now : ℕ) (db : Db)
      → Kept p db
      → Kept p (revoke_session_by_id id user_id wallet who now db)
  unfolding revoke_session_by_id
  revoke_session_by_id-Kept id user_id wallet who now db h =
      elim (Bool-cases
        (count_where (λ (s : Session). s.id == id && s.user_id == user_id) db.sessions == 0)) [
          | inl e ↦ rw e h
          | inr e ↦ rw e (delete_sessions-Kept _ db h)
        ]

  pub revoke_all_sessions-Kept :
      (user_id wallet : ℕ) (keep : Option ℕ) (who : Client) (now : ℕ)
      → Keeps (Kept p) (revoke_all_sessions user_id wallet keep who now)
  unfolding revoke_all_sessions
  revoke_all_sessions-Kept user_id wallet keep who now =
      Keeps->>= (Kept p) (Keeps-gets (Kept p) _) λ sessions.
        Keeps->> (Kept p) (Keeps-modify (Kept p) _ (delete_sessions-Kept _))
          (Keeps->> (Kept p) (Keeps-modify (Kept p) _ (λ db h. h)) (Keeps-pure (Kept p) _))

  pub cleanup-Kept : (now : ℕ) → Keeps (Kept p) (cleanup_expired_tokens now)
  unfolding cleanup_expired_tokens
  cleanup-Kept now = Keeps->>= (Kept p) (Keeps-gets (Kept p) _) λ db'.
      Keeps->> (Kept p)
        (Keeps-modify (Kept p) _ λ db h. (
          h.0,
          delete_many-All p.TokenOk _ db.refresh_tokens h.1,
          delete_many-All p.JtiOk _ db.jtis h.2,
        ))
        (Keeps-pure (Kept p) _)
