-- ===== src/Auth/Strategy.antt =====
-- jwt.strategy.ts: which bearer tokens a request may come with. Passport has checked the signature
-- and the expiry of the token before `validate` sees its payload.
use veillend.Base.{
  ℕ, ◌==◌, ltb, not, Bool, false, Option, none, some, List, [], ◌∷◌, Outcome, ok, err, contains,
  find_first, if◌then◌else◌,
}
use veillend.Auth.Data.{
  Session, JtiEntry, Db, Crypto, AuthError, unauthorized, missing_record, session_not_found,
  session_has_expired, invalid_issuer, invalid_audience, no_token_provided, legacy_not_accepted,
}
use veillend.Auth.Sessions.{SessionInfo, session_by_token, wallet_of}

pub record AuthConfig : Type 0 where
  pub jwt_issuer : ℕ
  pub jwt_audience : ℕ
  pub legacy_auth_allow : Bool

pub data Audience : Type 0 where
  absent : Audience
  one : ℕ → Audience
  many : List ℕ → Audience

pub record Payload : Type 0 where
  pub iss : Option ℕ
  pub aud : Audience
  pub jti : Option ℕ
  pub sid : Option ℕ
  pub wallet_address : ℕ

unfoldable pub issuer_ok : AuthConfig → Option ℕ → Bool
issuer_ok cfg none = false
issuer_ok cfg (some iss) = iss == cfg.jwt_issuer

unfoldable pub audiences : Audience → List ℕ
audiences absent = []
audiences (one a) = a ∷ []
audiences (many as_list) = as_list

abbrev pub Verdict : Type 0
Verdict = Outcome AuthError SessionInfo

unfoldable pub check_session : ℕ → ℕ → Option Session → Verdict
check_session wallet now none = err (unauthorized session_not_found)
check_session wallet now (some s) =
    if ltb s.expires_at now
    then err (unauthorized session_has_expired)
    else ok (record {
      session_id = s.id;
      wallet_address = wallet;
      user_id = s.user_id;
      expires_at = s.expires_at;
    })

unfoldable pub jti_usable : ℕ → Option JtiEntry → Bool
jti_usable now none = false
jti_usable now (some j) = elim j.revoked_at [ none ↦ ltb now j.expires_at | some _ ↦ false ]

unfoldable pub validate_jti_token : ℕ → ℕ → ℕ → ℕ → Db → Verdict
unfolding jti_usable check_session
validate_jti_token jti sid wallet now db =
    if jti_usable now (find_first (λ j. j.jti == jti) db.jtis)
    then check_session wallet now (find_first (λ s. s.id == sid) db.sessions)
    else err (unauthorized session_not_found)

legacy_session : ℕ → Db → Option Session → Verdict
unfolding check_session wallet_of
legacy_session now db none = err (unauthorized session_not_found)
legacy_session now db (some s) = elim (wallet_of s.user_id db.users) [
  | none ↦ err missing_record
  | some wallet ↦ check_session wallet now (some s)
]

unfoldable pub validate_legacy_token : AuthConfig → Crypto → ℕ → ℕ → Db → Verdict
unfolding legacy_session session_by_token
validate_legacy_token cfg c token now db =
    if cfg.legacy_auth_allow
    then legacy_session now db (session_by_token (c.sha256_hex token) db.sessions)
    else err (unauthorized legacy_not_accepted)

by_format : AuthConfig → Crypto → Option ℕ → Option ℕ → ℕ → ℕ → ℕ → Db → Verdict
unfolding validate_jti_token validate_legacy_token
by_format cfg c (some jti) (some sid) wallet token now db = validate_jti_token jti sid wallet now db
by_format cfg c _ _ wallet token now db = validate_legacy_token cfg c token now db

with_token : AuthConfig → Crypto → Payload → Option ℕ → ℕ → Db → Verdict
unfolding by_format
with_token cfg c payload none now db = err (unauthorized no_token_provided)
with_token cfg c payload (some token) now db =
    by_format cfg c payload.jti payload.sid payload.wallet_address token now db

-- `bearer` is what follows "Bearer " in the authorization header, if anything does.
unfoldable pub validate : AuthConfig → Crypto → Payload → Option ℕ → ℕ → Db → Verdict
unfolding issuer_ok audiences with_token
validate cfg c payload bearer now db =
    if not (issuer_ok cfg payload.iss)
    then err (unauthorized invalid_issuer)
    else if not (contains cfg.jwt_audience (audiences payload.aud))
    then err (unauthorized invalid_audience)
    else with_token cfg c payload bearer now db
