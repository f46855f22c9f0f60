-- ===== src/Auth/Data.antt =====
-- The tables of schema.prisma that the authentication code reads and writes, its errors, and what
-- it takes from outside: hashing, signatures, JSON web tokens, random values and the clock.
-- Identifiers, wallet addresses, hashes and tokens are only ever compared, and are numbers here.
-- Times are milliseconds.
use veillend.Base.{ℕ, Bool, true, false, Option, none, some, List}

-- Where a request came from; the code stores this and never reads it.
pub record Client : Type 0 where
  pub ip : Option ℕ
  pub user_agent : Option ℕ
  pub correlation_id : Option ℕ

pub record WalletNonce : Type 0 where
  pub id : ℕ
  pub wallet_address : ℕ
  pub nonce : ℕ
  pub expires_at : ℕ
  pub used : Bool

pub record User : Type 0 where
  pub id : ℕ
  pub wallet_address : ℕ

pub record Session : Type 0 where
  pub id : ℕ
  pub user_id : ℕ
  pub token : ℕ
  pub expires_at : ℕ
  pub created_at : ℕ
  pub last_seen_at : ℕ
  pub client : Client

pub record RefreshToken : Type 0 where
  pub id : ℕ
  pub user_id : ℕ
  pub session_id : ℕ
  pub token_hash : ℕ
  pub jti : ℕ
  pub family_id : ℕ
  pub expires_at : ℕ
  pub revoked_at : Option ℕ
  pub client : Client

-- `sessionId` is nullable in the schema; the one place that creates a row always sets it.
pub record JtiEntry : Type 0 where
  pub jti : ℕ
  pub user_id : ℕ
  pub session_id : ℕ
  pub expires_at : ℕ
  pub revoked_at : Option ℕ

pub data Reason : Type 0 where
  invalid_signature unknown_nonce nonce_already_used nonce_expired : Reason

pub data AuditEvent : Type 0 where
  nonce_generated login_success token_refresh token_refresh_reuse_detected logout session_revoked
        session_revoke_all :
      AuditEvent
  login_failed : Reason → AuditEvent

pub record AuditLog : Type 0 where
  pub wallet_address : ℕ
  pub event : AuditEvent
  pub client : Client
  pub created_at : ℕ

pub record Db : Type 0 where
  pub nonces : List WalletNonce
  pub users : List User
  pub sessions : List Session
  pub refresh_tokens : List RefreshToken
  pub jtis : List JtiEntry
  pub audit : List AuditLog

-- The texts of the `UnauthorizedException`s.
pub data Message : Type 0 where
  authentication_failed invalid_refresh_token refresh_token_compromised refresh_token_expired
        session_not_found session_has_expired invalid_issuer invalid_audience no_token_provided
        legacy_not_accepted :
      Message

-- `claim_failed` is the internal error by which a transaction is left; `missing_record` is the
-- P2025 of an update or a delete that fits no row.
pub data AuthError : Type 0 where
  unauthorized : Message → AuthError
  claim_failed missing_record : AuthError

pub record Claims : Type 0 where
  pub wallet_address : ℕ
  pub sub : ℕ
  pub jti : ℕ
  pub sid : ℕ

-- What the code takes from `crypto`, `@nestjs/jwt` and the Stellar SDK. `sign` also reads the
-- clock, and `decode_exp` is the `exp` of a decoded token, in seconds.
pub record Crypto : Type 0 where
  pub sha256_hex : ℕ → ℕ
  pub verify_signature : ℕ → ℕ → ℕ → Bool
  pub sign : Claims → ℕ → ℕ
  pub decode_exp : ℕ → Option ℕ

-- The random values that one request draws.
pub record Draws : Type 0 where
  pub user_id : ℕ
  pub session_id : ℕ
  pub placeholder : ℕ
  pub family_id : ℕ
  pub jti : ℕ
  pub refresh_id : ℕ
  pub refresh_token : ℕ

pub record TokenPair : Type 0 where
  pub access_token : ℕ
  pub access_expires_at : ℕ
  pub refresh_token : ℕ
  pub refresh_expires_at : ℕ

pub record SessionResult : Type 0 where
  pub access_token : ℕ
  pub refresh_token : ℕ
  pub session_id : ℕ
  pub expires_at : ℕ
  pub refresh_expires_at : ℕ
  pub user_id : ℕ
  pub wallet_address : ℕ

abbrev pub is_live : RefreshToken → Bool
is_live r = elim r.revoked_at [ none ↦ true | some _ ↦ false ]
