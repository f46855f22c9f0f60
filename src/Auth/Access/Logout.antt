-- ===== src/Auth/Access/Logout.antt =====
-- `revokeSession` and `revokeAllSessions` of auth.service.ts.
use veillend.Base.{
  ℕ, ◌+◌, ◌≡◌, refl, false, ◌==◌, ==_iff, Option, none, some, length, All, arith, inl, inr,
  Bool-cases, ok, err, running, find_first, find_first-eq-none, count_where, delete_many-All_of,
  count_where-delete_many, All-of-count_where, find_first-delete_many,
}
use veillend.Auth.Data.{Client, Session, Db, unauthorized, session_not_found}
use veillend.Auth.Sessions.{
  delete_sessions, selects, revoke_session, log_logout, revocable, revoke_all_sessions,
}
use veillend.Auth.Strategy.{validate_jti_token}

logged-sessions :
    (o : Option ℕ) (who : Client) (now : ℕ) (db : Db)
    → (log_logout o who now db).sessions ≡ db.sessions
unfolding log_logout
logged-sessions none who now db = refl
logged-sessions (some w) who now db = refl

no_session :
    (id : ℕ) (wallet : Option ℕ) (who : Client) (now : ℕ) (db : Db)
    → All (λ s. (s.id == id) ≡ false) (revoke_session id wallet who now db).sessions
unfolding revoke_session delete_sessions
no_session id wallet who now db =
    elim (Bool-cases (count_where (λ (s : Session). s.id == id) db.sessions == 0)) [
      | inl e ↦ rw e (All-of-count_where _ db.sessions ((==_iff _ 0).0 e))
      | inr e ↦
          rw (e, logged-sessions wallet who now (delete_sessions (λ s. s.id == id) db))
            (delete_many-All_of _ _ db.sessions (λ s h. h))
    ]

-- Once a session is revoked, no access token that names it is accepted, whether or not the session
-- was there and whatever its jti.
pub logout_refuses_access :
    (id : ℕ) (wallet : Option ℕ) (who : Client) (now jti bearer later : ℕ) (db : Db)
    → validate_jti_token jti id bearer later (revoke_session id wallet who now db)
      ≡ err (unauthorized session_not_found)
unfolding validate_jti_token
logout_refuses_access id wallet who now jti bearer later db =
    ground (arith, find_first-eq-none _ _ (no_session id wallet who now db))

-- `revokeAllSessions` returns how many sessions it removed; of the sessions it was to revoke none
-- is left, nor a refresh token or a jti of one.
pub logout_everywhere_leaves :
    (user wallet : ℕ) (keep : Option ℕ) (who : Client) (now : ℕ) (db : Db)
    → let r = revoke_all_sessions user wallet keep who now db in
      (n : ℕ) × (r.0 ≡ ok n)
      × (length r.1.sessions + n ≡ length db.sessions)
      × All (λ s. revocable user keep s ≡ false) r.1.sessions
      × All (λ t. selects (revocable user keep) db.sessions t.session_id ≡ false) r.1.refresh_tokens
      × All (λ j. selects (revocable user keep) db.sessions j.session_id ≡ false) r.1.jtis
unfolding revoke_all_sessions running delete_sessions
logout_everywhere_leaves user wallet keep who now db = (
  count_where (revocable user keep) db.sessions,
  refl,
  count_where-delete_many (revocable user keep) db.sessions,
  delete_many-All_of _ _ db.sessions (λ s h. h),
  delete_many-All_of _ _ db.refresh_tokens (λ s h. h),
  delete_many-All_of _ _ db.jtis (λ s h. h),
)

-- The session that the caller keeps is still there, as it was.
pub logout_everywhere_keeps_current :
    (user wallet keep : ℕ) (who : Client) (now : ℕ) (db : Db) (s : Session)
    → find_first (λ t. t.id == keep) db.sessions ≡ some s
    → find_first
        (λ t. t.id == keep)
        (revoke_all_sessions user wallet (some keep) who now db).1.sessions
      ≡ some s
unfolding revoke_all_sessions running delete_sessions revocable
logout_everywhere_keeps_current user wallet keep who now db s found =
    find_first-delete_many (λ t. t.id == keep) (revocable user (some keep)) db.sessions found
      (λ t h. ground arith)
