-- ===== src/Auth/Access/Login.antt =====
-- `verifyWallet` of auth.service.ts followed by `validate` of jwt.strategy.ts.
use veillend.Base.{
  ℕ, ◌<◌, ◌≡◌, ◌==◌, ==_refl, Option, none, some, ap, ◌∙◌, arith, inl, inr, Option-cases, ok,
  running, update_many, find_first,
}
use veillend.Auth.Data.{Client, User, Claims, Crypto, Draws, Db, SessionResult}
use veillend.Auth.Tokens.{issue_token_pair, update_session}
use veillend.Auth.Login.{verify_wallet, login_tx}
use veillend.Auth.Strategy.{AuthConfig, Payload, Verdict, one, validate, validate_jti_token}

login_rows :
    (c : Crypto) (d : Draws) (wallet nonce signature now : ℕ) (who : Client) (db : Db)
    (result : SessionResult) (later : ℕ)
    → (verify_wallet c d wallet nonce signature now who db).0 ≡ ok result
    → later < result.expires_at
    → validate_jti_token d.jti d.session_id wallet later
        (verify_wallet c d wallet nonce signature now who db).1
      ≡ ok (record {
        session_id = d.session_id;
        wallet_address = wallet;
        user_id = result.user_id;
        expires_at = result.expires_at;
      })
unfolding verify_wallet login_tx running update_session issue_token_pair validate_jti_token
    update_many find_first
login_rows c d wallet nonce signature now who db result later done soon =
    elim (Option-cases (find_first (λ (u : User). u.wallet_address == wallet) db.users)) [
      | inl e ↦ ground arith
      | inr (u, e) ↦ ground arith
    ]

-- The access token of a login is signed over its claims.
login_signs :
    (c : Crypto) (d : Draws) (wallet nonce signature now : ℕ) (who : Client) (db : Db)
    (result : SessionResult)
    → (verify_wallet c d wallet nonce signature now who db).0 ≡ ok result
    → result.access_token
      ≡ c.sign
          (record {
            wallet_address = wallet;
            sub = result.user_id;
            jti = d.jti;
            sid = d.session_id;
          })
          now
unfolding verify_wallet login_tx running issue_token_pair update_session
login_signs c d wallet nonce signature now who db result done =
    elim (Option-cases (find_first (λ (u : User). u.wallet_address == wallet) db.users)) [
      | inl e ↦ ground arith
      | inr (u, e) ↦ ground arith
    ]

-- The payload of a token over these claims, signed with the configured issuer and audience.
abbrev pub payload_of : AuthConfig → Claims → Payload
payload_of cfg claims = record {
  iss = some cfg.jwt_issuer;
  aud = one cfg.jwt_audience;
  jti = some claims.jti;
  sid = some claims.sid;
  wallet_address = claims.wallet_address;
}

-- A request that bears a token. `opened` is what the check of a token's signature returns: the
-- claims that were signed, if it is a token of this backend.
unfoldable pub on_opened :
    AuthConfig → Crypto → (token now : ℕ) → Db → Option Claims → Option Verdict
on_opened cfg c token now db none = none
on_opened cfg c token now db (some claims) =
    some (validate cfg c (payload_of cfg claims) (some token) now db)

abbrev pub bears :
    AuthConfig → Crypto → (opened : ℕ → Option Claims) → (token now : ℕ) → Db → Option Verdict
bears cfg c opened token now db = on_opened cfg c token now db (opened token)

bears-opened :
    (cfg : AuthConfig) (c : Crypto) (opened : ℕ → Option Claims) (claims : Claims) (token now : ℕ)
    (db : Db)
    → opened token ≡ some claims
    → bears cfg c opened token now db
      ≡ some (validate cfg c (payload_of cfg claims) (some token) now db)
unfolding on_opened
bears-opened cfg c opened claims token now db e = ap (on_opened cfg c token now db) e

-- After a login that succeeded, a request that bears the access token it returned is accepted at
-- every time before that token expires, in the session and as the user that the login returned,
-- where opening a signed token gives the claims that it was signed over.
pub login_then_validate :
    (cfg : AuthConfig) (c : Crypto) (opened : ℕ → Option Claims) (d : Draws)
    (wallet nonce signature now later : ℕ) (who : Client) (db : Db) (result : SessionResult)
    → ((claims : Claims) (at : ℕ) → opened (c.sign claims at) ≡ some claims)
    → (verify_wallet c d wallet nonce signature now who db).0 ≡ ok result
    → later < result.expires_at
    → bears cfg c opened result.access_token later
        (verify_wallet c d wallet nonce signature now who db).1
      ≡ some (
          ok (record {
            session_id = d.session_id;
            wallet_address = wallet;
            user_id = result.user_id;
            expires_at = result.expires_at;
          }))
unfolding validate
login_then_validate cfg c opened d wallet nonce signature now later who db result opens done soon =
    let claims : Claims = record {
      wallet_address = wallet;
      sub = result.user_id;
      jti = d.jti;
      sid = d.session_id;
    } in
    bears-opened cfg c opened claims result.access_token later _
      (ap opened (login_signs c d wallet nonce signature now who db result done) ∙ opens claims now)
    ∙ ap some (
        rw (==_refl cfg.jwt_issuer, ==_refl cfg.jwt_audience)
          (login_rows c d wallet nonce signature now who db result later done soon))
