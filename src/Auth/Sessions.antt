-- ===== src/Auth/Sessions.antt =====
-- `validateSession`, `revokeSession`, `revokeSessionById`, `revokeAllSessions` and
-- `cleanupExpiredTokens` of auth.service.ts. Deleting a session deletes its refresh tokens and jtis
-- (`onDelete: Cascade` in schema.prisma).
use veillend.Base.{
  ℕ, ◌==◌, ltb, not, any, ◌&&◌, Bool, Option, none, some, List, Action, pure, gets, modify,
  or_throw, throw_if, ◌>>=◌, ◌>>◌, find_first, count_where, update_many, delete_many, if◌then◌else◌,
}
use veillend.Auth.Data.{
  Client, User, Session, logout, session_revoked, session_revoke_all, Db, Crypto, AuthError,
  unauthorized, missing_record, session_not_found, session_has_expired,
}
use veillend.Auth.Tokens.{log_event}

-- The session with this id is one of those that `p` selects.
unfoldable pub selects : (Session → Bool) → List Session → ℕ → Bool
selects p sessions id = any (λ s. p s && s.id == id) sessions

unfoldable pub delete_sessions : (Session → Bool) → Db → Db
delete_sessions p db = record db {
  sessions = delete_many p db.sessions;
  refresh_tokens = delete_many (λ r. selects p db.sessions r.session_id) db.refresh_tokens;
  jtis = delete_many (λ j. selects p db.sessions j.session_id) db.jtis;
}

pub record SessionInfo : Type 0 where
  pub session_id : ℕ
  pub wallet_address : ℕ
  pub user_id : ℕ
  pub expires_at : ℕ

-- `include: { user: true }`; a session's user exists by the foreign key.
unfoldable pub wallet_of : ℕ → List User → Option ℕ
wallet_of user_id users = elim (find_first (λ (u : User). u.id == user_id) users) [
  | none ↦ none
  | some u ↦ some u.wallet_address
]

unfoldable pub session_by_token : ℕ → List Session → Option Session
session_by_token hash sessions = find_first (λ s. s.token == hash) sessions

unfoldable pub validate_session : Crypto → ℕ → ℕ → Action Db AuthError SessionInfo
unfolding wallet_of session_by_token
validate_session c token now = do
  sessions ← gets (λ db. db.sessions)
  session ←
      or_throw (session_by_token (c.sha256_hex token) sessions) (unauthorized session_not_found)
  throw_if (ltb session.expires_at now) (unauthorized session_has_expired)
  users ← gets (λ db. db.users)
  wallet ← or_throw (wallet_of session.user_id users) missing_record
  modify λ db. record db {
    sessions =
        update_many (λ s. s.id == session.id) (λ s. record s { last_seen_at = now }) db.sessions;
  }
  pure (record {
    session_id = session.id;
    wallet_address = wallet;
    user_id = session.user_id;
    expires_at = session.expires_at;
  })

unfoldable pub log_logout : Option ℕ → Client → ℕ → Db → Db
unfolding log_event
log_logout none who now db = db
log_logout (some wallet) who now db = log_event wallet logout who now db

-- `session.delete` throws P2025 where there is no such session, and the `catch` swallows that.
unfoldable pub revoke_session : ℕ → Option ℕ → Client → ℕ → Db → Db
unfolding log_logout
revoke_session id wallet who now db =
    if count_where (λ s. s.id == id) db.sessions == 0
    then db
    else log_logout wallet who now (delete_sessions (λ s. s.id == id) db)

unfoldable pub revoke_session_by_id : ℕ → ℕ → ℕ → Client → ℕ → Db → Db
unfolding log_event
revoke_session_by_id id user_id wallet who now db =
    if count_where (λ s. s.id == id && s.user_id == user_id) db.sessions == 0
    then db
    else log_event wallet session_revoked who now
        (delete_sessions (λ s. s.id == id && s.user_id == user_id) db)

-- The `where` of `revokeAllSessions`.
unfoldable pub revocable : ℕ → Option ℕ → Session → Bool
revocable user_id none s = s.user_id == user_id
revocable user_id (some keep) s = s.user_id == user_id && not (s.id == keep)

unfoldable pub revoke_all_sessions : ℕ → ℕ → Option ℕ → Client → ℕ → Action Db AuthError ℕ
unfolding log_event
revoke_all_sessions user_id wallet keep who now = do
  sessions ← gets (λ db. db.sessions)
  modify (delete_sessions (revocable user_id keep))
  modify (log_event wallet session_revoke_all who now)
  pure (count_where (revocable user_id keep) sessions)

pub record Cleanup : Type 0 where
  pub jti_deleted : ℕ
  pub refresh_tokens_deleted : ℕ

unfoldable pub cleanup_expired_tokens : ℕ → Action Db AuthError Cleanup
cleanup_expired_tokens now = do
  db ← gets (λ db. db)
  modify λ db. record db {
    jtis = delete_many (λ j. ltb j.expires_at now) db.jtis;
    refresh_tokens = delete_many (λ r. ltb r.expires_at now) db.refresh_tokens;
  }
  pure (record {
    jti_deleted = count_where (λ j. ltb j.expires_at now) db.jtis;
    refresh_tokens_deleted = count_where (λ r. ltb r.expires_at now) db.refresh_tokens;
  })
