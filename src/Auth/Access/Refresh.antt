-- ===== src/Auth/Access/Refresh.antt =====
-- `refreshTokens` of auth.service.ts followed by `validate` of jwt.strategy.ts.
use veillend.Base.{
  ℕ, ◌<◌, ◌≡◌, refl, true, some, ◌==◌, ==_refl, arith, ok, running, find_first, count_where-found,
  find_first-holds, find_first-update_many, ◌&&◌,
}
use veillend.Auth.Data.{
  Client, User, Session, RefreshToken, is_live, Crypto, Draws, Db, SessionResult,
}
use veillend.Auth.Tokens.{new_pair, issue_token_pair, update_session}
use veillend.Auth.Refresh.{
  present, compromised, check_presented, redeem, rotate_tx, claim_token, refresh_tokens,
}
use veillend.Auth.Strategy.{validate_jti_token}

module _ (c : Crypto) (d : Draws) (raw now : ℕ) (who : Client) (db : Db) (r : RefreshToken)
    (u : User) (s : Session) where
  abbrev rotated : SessionResult
  rotated =
      let pair = new_pair c d now (record {
        user_id = r.user_id;
        wallet_address = u.wallet_address;
        session_id = r.session_id;
        family_id = r.family_id;
        client = who;
      }) in
      record {
        access_token = pair.access_token;
        refresh_token = pair.refresh_token;
        session_id = r.session_id;
        expires_at = pair.access_expires_at;
        refresh_expires_at = pair.refresh_expires_at;
        user_id = r.user_id;
        wallet_address = u.wallet_address;
      }

  -- A refresh token that is found, unrevoked and unexpired, whose user and session are there, is
  -- exchanged for a new pair in its session, for its user.
  pub live_token_refreshed :
      find_first (λ t. t.token_hash == c.sha256_hex raw) db.refresh_tokens ≡ some r
      → find_first (λ t. t.id == r.id) db.refresh_tokens ≡ some r
      → is_live r ≡ true
      → now < r.expires_at
      → find_first (λ u. u.id == r.user_id) db.users ≡ some u
      → find_first (λ s. s.id == r.session_id) db.sessions ≡ some s
      → (result : SessionResult) × ((refresh_tokens c d raw now who db).0 ≡ ok result)
        × (result.session_id ≡ r.session_id)
        × (result.user_id ≡ r.user_id)
        × (result.refresh_token ≡ d.refresh_token)
  unfolding refresh_tokens present check_presented redeem rotate_tx claim_token running
      issue_token_pair update_session
  live_token_refreshed found row live soon user session =
      let claimed =
        count_where-found (λ (t : RefreshToken). t.id == r.id) (λ t. t.id == r.id && is_live t)
          db.refresh_tokens row (ground (arith, ==_refl r.id)) in
      let opened =
        count_where-found (λ (s : Session). s.id == r.session_id) (λ s. s.id == r.session_id)
          db.sessions session (find_first-holds _ db.sessions session) in
      (rotated, ground (arith, claimed, opened), refl, refl, refl)

  -- After a refresh that succeeded, the new access token is accepted until it expires, for the
  -- session of the refresh token.
  pub refresh_then_validate :
      (result : SessionResult) (later : ℕ)
      → find_first (λ t. t.token_hash == c.sha256_hex raw) db.refresh_tokens ≡ some r
      → find_first (λ s. s.id == r.session_id) db.sessions ≡ some s
      → (refresh_tokens c d raw now who db).0 ≡ ok result
      → later < result.expires_at
      → validate_jti_token d.jti r.session_id result.wallet_address later
          (refresh_tokens c d raw now who db).1
        ≡ ok (record {
          session_id = s.id;
          wallet_address = result.wallet_address;
          user_id = s.user_id;
          expires_at = result.expires_at;
        })
  unfolding refresh_tokens present check_presented redeem rotate_tx claim_token running
      issue_token_pair update_session validate_jti_token compromised find_first
  refresh_then_validate result later found session done soon = ground (
    arith,
    find_first-update_many (λ (s : Session). s.id == r.session_id)
        (λ s. record s {
          token = c.sha256_hex result.access_token;
          expires_at = result.expires_at;
          last_seen_at = now;
        })
        db.sessions (λ s. refl) session,
  )
