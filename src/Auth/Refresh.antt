-- ===== src/Auth/Refresh.antt =====
-- `refreshTokens` and `handleRefreshReuse` of auth.service.ts.
use veillend.Base.{
  ℕ, ◌==◌, leb, ◌&&◌, Option, none, some, List, [], Action, pure, gets, modify, throw, or_throw,
  throw_if, transaction, try_catch, ◌>>=◌, ◌>>◌, find_first, count_where, update_many, contains,
  if◌then◌else◌, ◌∷◌,
}
use veillend.Auth.Data.{
  Client, User, RefreshToken, JtiEntry, is_live, token_refresh, token_refresh_reuse_detected, Db,
  Draws, Crypto, AuthError, unauthorized, claim_failed, invalid_refresh_token,
  refresh_token_compromised, refresh_token_expired, SessionResult,
}
use veillend.Auth.Tokens.{log_event, issue_token_pair, update_session}

-- The jtis of the refresh tokens of a family.
unfoldable pub family_jtis : ℕ → List RefreshToken → List ℕ
family_jtis family [] = []
family_jtis family (r ∷ rs) =
    let rest = family_jtis family rs in if r.family_id == family then r.jti ∷ rest else rest

-- `updateMany({ where: { familyId, revokedAt: null }, data: { revokedAt } })`
unfoldable pub revoke_family : ℕ → ℕ → List RefreshToken → List RefreshToken
revoke_family family now =
    update_many (λ r. r.family_id == family && is_live r) (λ r. record r { revoked_at = some now })

-- The code skips this update where the list is empty, which changes nothing either.
unfoldable pub revoke_jtis : List ℕ → ℕ → List JtiEntry → List JtiEntry
revoke_jtis ids now =
    update_many (λ j. contains j.jti ids) (λ j. record j { revoked_at = some now })

unfoldable pub revoke_all_of : ℕ → ℕ → Db → Db
revoke_all_of family now db = record db {
  refresh_tokens = revoke_family family now db.refresh_tokens;
  jtis = revoke_jtis (family_jtis family db.refresh_tokens) now db.jtis;
}

unfoldable pub log_reuse : Option User → Client → ℕ → Db → Db
unfolding log_event
log_reuse none who now db = db
log_reuse (some user) who now db =
    log_event user.wallet_address token_refresh_reuse_detected who now db

unfoldable pub handle_refresh_reuse : ℕ → ℕ → ℕ → Client → Db → Db
unfolding revoke_all_of log_reuse
handle_refresh_reuse user_id family now who db =
    log_reuse (find_first (λ u. u.id == user_id) db.users) who now (revoke_all_of family now db)

-- What the first half of `refreshTokens` has read.
pub record Presented : Type 0 where
  pub existing : RefreshToken
  pub user : User

unfoldable pub compromised : {A : Type 0} → RefreshToken → ℕ → Client → Action Db AuthError A
unfolding handle_refresh_reuse
compromised existing now who = do
  modify (handle_refresh_reuse existing.user_id existing.family_id now who)
  throw (unauthorized refresh_token_compromised)

unfoldable pub check_presented : RefreshToken → ℕ → Client → Action Db AuthError Presented
unfolding compromised
check_presented existing now who =
    if is_live existing
    then (do
      throw_if (leb existing.expires_at now) (unauthorized refresh_token_expired)
      users ← gets (λ db. db.users)
      user ←
          or_throw (find_first (λ u. u.id == existing.user_id) users)
            (unauthorized invalid_refresh_token)
      pure (record { existing = existing; user = user }))
    else compromised existing now who

-- The reads before the transaction of `refreshTokens`. Other requests may run between this and
-- `redeem`.
unfoldable pub present : Crypto → ℕ → ℕ → Client → Action Db AuthError Presented
unfolding check_presented
present c raw now who = do
  tokens ← gets (λ db. db.refresh_tokens)
  existing ←
      or_throw (find_first (λ r. r.token_hash == c.sha256_hex raw) tokens)
        (unauthorized invalid_refresh_token)
  check_presented existing now who

-- The claim: an unrevoked row with this id is revoked, or the transaction is left.
unfoldable pub claim_token : ℕ → ℕ → Action Db AuthError (Unit {0})
claim_token id now = do
  tokens ← gets (λ db. db.refresh_tokens)
  throw_if (count_where (λ r. r.id == id && is_live r) tokens == 0) claim_failed
  modify λ db. record db {
    refresh_tokens =
        update_many (λ r. r.id == id && is_live r) (λ r. record r { revoked_at = some now })
          db.refresh_tokens;
  }

unfoldable pub rotate_tx :
    Crypto → Draws → Presented → ℕ → Client → Action Db AuthError SessionResult
unfolding claim_token
rotate_tx c d p now who = do
  claim_token p.existing.id now
  pair ← issue_token_pair c d now (record {
    user_id = p.existing.user_id;
    wallet_address = p.user.wallet_address;
    session_id = p.existing.session_id;
    family_id = p.existing.family_id;
    client = who;
  })
  update_session p.existing.session_id (λ s. record s {
    token = c.sha256_hex pair.access_token;
    expires_at = pair.access_expires_at;
    last_seen_at = now;
  })
  pure (record {
    access_token = pair.access_token;
    refresh_token = pair.refresh_token;
    session_id = p.existing.session_id;
    expires_at = pair.access_expires_at;
    refresh_expires_at = pair.refresh_expires_at;
    user_id = p.existing.user_id;
    wallet_address = p.user.wallet_address;
  })

-- The `catch` of `refreshTokens`: a lost race is answered as a replay.
unfoldable pub on_claim_error :
    {A : Type 0} → RefreshToken → ℕ → Client → AuthError → Action Db AuthError A
unfolding compromised
on_claim_error existing now who claim_failed = compromised existing now who
on_claim_error existing now who e = throw e

unfoldable pub redeem : Crypto → Draws → Presented → ℕ → Client → Action Db AuthError SessionResult
unfolding rotate_tx on_claim_error log_event
redeem c d p now who = do
  rotated ← try_catch (transaction (rotate_tx c d p now who)) (on_claim_error p.existing now who)
  modify (log_event p.user.wallet_address token_refresh who now)
  pure rotated

-- `refreshTokens` with no other request in between.
unfoldable pub refresh_tokens : Crypto → Draws → ℕ → ℕ → Client → Action Db AuthError SessionResult
unfolding present redeem
refresh_tokens c d raw now who = do p ← present c raw now who; redeem c d p now who
