-- ===== src/Auth/Login.antt =====
-- `generateNonce`, `verifyWallet`, `handleNonceClaimFailure` and `logAuthFailure` of
-- auth.service.ts.
use veillend.Base.{
  ℕ, ◌+◌, ◌==◌, ltb, not, ◌&&◌, Bool, true, false, Option, none, some, ◌∷◌, Action, pure, gets,
  modify, throw, throw_if, transaction, try_catch, ◌>>=◌, ◌>>◌, find_first, count_where,
  find_latest, update_many, if◌then◌else◌,
}
use veillend.Auth.Data.{
  Client, WalletNonce, User, Reason, invalid_signature, unknown_nonce, nonce_already_used,
  nonce_expired, login_failed, nonce_generated, login_success, Db, Draws, Crypto, TokenPair,
  AuthError, unauthorized, claim_failed, authentication_failed, SessionResult,
}
use veillend.Auth.Tokens.{log_event, nonce_ttl_ms, PairParams, issue_token_pair, update_session}

-- The wallet's earlier nonces are used up, and the new one is the only one left.
unfoldable pub replace_nonces : ℕ → ℕ → ℕ → ℕ → Db → Db
replace_nonces id nonce now wallet db = record db {
  nonces =
      record {
        id = id;
        wallet_address = wallet;
        nonce = nonce;
        expires_at = now + nonce_ttl_ms;
        used = false;
      }
      ∷ update_many (λ n. n.wallet_address == wallet && not n.used) (λ n. record n { used = true })
          db.nonces;
}

unfoldable pub generate_nonce : ℕ → ℕ → ℕ → ℕ → Client → Action Db AuthError ℕ
unfolding replace_nonces log_event
generate_nonce id nonce now wallet who = do
  transaction (modify (replace_nonces id nonce now wallet))
  modify (log_event wallet nonce_generated who now)
  pure nonce

unfoldable pub log_auth_failure : ℕ → Reason → Client → ℕ → Action Db AuthError (Unit {0})
unfolding log_event
log_auth_failure wallet reason who now = modify (log_event wallet (login_failed reason) who now)

-- The gate of the atomic claim.
unfoldable pub claimable : ℕ → ℕ → ℕ → WalletNonce → Bool
claimable wallet nonce now n =
    n.wallet_address == wallet && (n.nonce == nonce && (not n.used && ltb now n.expires_at))

unfoldable pub claim_nonce : ℕ → ℕ → ℕ → Action Db AuthError (Unit {0})
claim_nonce wallet nonce now = do
  nonces ← gets (λ db. db.nonces)
  throw_if (count_where (claimable wallet nonce now) nonces == 0) claim_failed
  modify λ db. record db {
    nonces = update_many (claimable wallet nonce now) (λ n. record n { used = true }) db.nonces;
  }

-- `tx.user.upsert({ where: { walletAddress }, create, update: {} })`
unfoldable pub upsert_user : ℕ → ℕ → Action Db AuthError User
upsert_user id wallet db = elim (find_first (λ (u : User). u.wallet_address == wallet) db.users) [
  | some u ↦ pure u db
  | none ↦ pure (new_user) (record db { users = new_user ∷ db.users })
]
  where
    new_user : User
    new_user = record { id = id; wallet_address = wallet }

unfoldable pub create_session : Draws → ℕ → ℕ → Client → Action Db AuthError (Unit {0})
create_session d user_id now who = modify λ db. record db {
  sessions =
      record {
        id = d.session_id;
        user_id = user_id;
        token = d.placeholder;
        expires_at = now;
        created_at = now;
        last_seen_at = now;
        client = who;
      }
      ∷ db.sessions;
}

abbrev pub login_params : Draws → ℕ → ℕ → Client → PairParams
login_params d user_id wallet who = record {
  user_id = user_id;
  wallet_address = wallet;
  session_id = d.session_id;
  family_id = d.family_id;
  client = who;
}

abbrev pub login_result : Draws → ℕ → ℕ → TokenPair → SessionResult
login_result d user_id wallet pair = record {
  access_token = pair.access_token;
  refresh_token = pair.refresh_token;
  session_id = d.session_id;
  expires_at = pair.access_expires_at;
  refresh_expires_at = pair.refresh_expires_at;
  user_id = user_id;
  wallet_address = wallet;
}

-- The body of the transaction of `verifyWallet`.
unfoldable pub login_tx : Crypto → Draws → ℕ → ℕ → ℕ → Client → Action Db AuthError SessionResult
unfolding claim_nonce upsert_user create_session
login_tx c d wallet nonce now who = do
  claim_nonce wallet nonce now
  user ← upsert_user d.user_id wallet
  create_session d user.id now who
  pair ← issue_token_pair c d now (login_params d user.id wallet who)
  update_session d.session_id
      λ s. record s { token = c.sha256_hex pair.access_token; expires_at = pair.access_expires_at }
  pure (login_result d user.id wallet pair)

unfoldable pub refuse : {A : Type 0} → ℕ → Reason → Client → ℕ → Action Db AuthError A
unfolding log_auth_failure
refuse wallet reason who now = do
  log_auth_failure wallet reason who now
  throw (unauthorized authentication_failed)

-- Why no row was claimed. An expired nonce is used up, so that no change of the clock revives it.
unfoldable pub classify : {A : Type 0} → ℕ → Client → ℕ → Option WalletNonce → Action Db AuthError A
unfolding refuse
classify wallet who now none = refuse wallet unknown_nonce who now
classify wallet who now (some stored) =
    if stored.used then refuse wallet nonce_already_used who now else do
      modify λ db. record db {
        nonces = update_many (λ n. n.id == stored.id) (λ n. record n { used = true }) db.nonces;
      }
      refuse wallet nonce_expired who now

-- It runs after the transaction was rolled back, and always throws.
unfoldable pub handle_nonce_claim_failure :
    {A : Type 0} → ℕ → ℕ → ℕ → Client → Action Db AuthError A
unfolding classify
handle_nonce_claim_failure wallet nonce now who = do
  nonces ← gets (λ db. db.nonces)
  classify wallet who now
      (find_latest (λ n. n.expires_at) (λ n. n.wallet_address == wallet && n.nonce == nonce) nonces)

-- The `catch` of `verifyWallet`.
unfoldable pub on_login_error :
    {A : Type 0} → ℕ → ℕ → ℕ → Client → AuthError → Action Db AuthError A
unfolding handle_nonce_claim_failure
on_login_error wallet nonce now who claim_failed = handle_nonce_claim_failure wallet nonce now who
on_login_error wallet nonce now who e = throw e

unfoldable pub verify_wallet :
    Crypto → Draws → ℕ → ℕ → ℕ → ℕ → Client → Action Db AuthError SessionResult
unfolding on_login_error refuse log_event
verify_wallet c d wallet nonce signature now who =
    if c.verify_signature wallet nonce signature
    then (do
      result ←
          try_catch (transaction (login_tx c d wallet nonce now who))
            (on_login_error wallet nonce now who)
      modify (log_event wallet login_success who now)
      pure result)
    else refuse wallet invalid_signature who now
