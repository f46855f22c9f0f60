-- ===== src/Auth/Tokens.antt =====
-- The writes that the handlers of auth.service.ts share: the audit log, and `issueTokenPair`.
use veillend.Base.{
  ℕ, ◌+◌, ◌*◌, ◌==◌, Option, none, some, ◌∷◌, Action, pure, modify, ◌>>=◌, ◌>>◌, throw_if, gets,
  count_where, update_many,
}
use veillend.Auth.Data.{
  Client, AuditEvent, AuditLog, Db, Draws, Crypto, TokenPair, AuthError, missing_record, Session,
}

-- 5 minutes, and 30 days.
abbrev pub nonce_ttl_ms : ℕ
nonce_ttl_ms = 5 * 60 * 1000

abbrev pub refresh_token_ttl_ms : ℕ
refresh_token_ttl_ms = 30 * 24 * 60 * 60 * 1000

unfoldable pub log_event : ℕ → AuditEvent → Client → ℕ → Db → Db
log_event wallet event who now db = record db { audit = entry ∷ db.audit }
  where
    entry : AuditLog
    entry = record { wallet_address = wallet; event = event; client = who; created_at = now }

pub record PairParams : Type 0 where
  pub user_id : ℕ
  pub wallet_address : ℕ
  pub session_id : ℕ
  pub family_id : ℕ
  pub client : Client

-- `decoded?.exp ?? 0`
abbrev pub exp_or_zero : Option ℕ → ℕ
exp_or_zero none = 0
exp_or_zero (some e) = e

unfoldable pub new_pair : Crypto → Draws → ℕ → PairParams → TokenPair
new_pair c d now p = record {
  access_token = access;
  access_expires_at = exp_or_zero (c.decode_exp access) * 1000;
  refresh_token = d.refresh_token;
  refresh_expires_at = now + refresh_token_ttl_ms;
}
  where
    access : ℕ
    access =
        c.sign
          (record {
            wallet_address = p.wallet_address;
            sub = p.user_id;
            jti = d.jti;
            sid = p.session_id;
          })
          now

-- The two rows that `issueTokenPair` creates: the jti of the access token, and the hashed refresh
-- token that names that jti.
unfoldable pub store_pair : Crypto → Draws → PairParams → TokenPair → Db → Db
store_pair c d p pair db = record db {
  jtis =
      record {
        jti = d.jti;
        user_id = p.user_id;
        session_id = p.session_id;
        expires_at = pair.access_expires_at;
        revoked_at = none;
      }
      ∷ db.jtis;
  refresh_tokens =
      record {
        id = d.refresh_id;
        user_id = p.user_id;
        session_id = p.session_id;
        token_hash = c.sha256_hex pair.refresh_token;
        jti = d.jti;
        family_id = p.family_id;
        expires_at = pair.refresh_expires_at;
        revoked_at = none;
        client = p.client;
      }
      ∷ db.refresh_tokens;
}

unfoldable pub issue_token_pair : Crypto → Draws → ℕ → PairParams → Action Db AuthError TokenPair
unfolding new_pair store_pair
issue_token_pair c d now p = do
  let pair = new_pair c d now p
  modify (store_pair c d p pair)
  pure pair

-- `tx.session.update({ where: { id }, data })`, which throws if there is no such session.
unfoldable pub update_session : ℕ → (Session → Session) → Action Db AuthError (Unit {0})
update_session id f = do
  sessions ← gets (λ db. db.sessions)
  throw_if (count_where (λ s. s.id == id) sessions == 0) missing_record
  modify (λ db. record db { sessions = update_many (λ s. s.id == id) f db.sessions })
