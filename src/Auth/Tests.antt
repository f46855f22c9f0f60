-- ===== src/Auth/Tests.antt =====
-- One concrete run of each theorem on the authentication code: a wallet, its session and its
-- tokens.
use veillend.Base.{
  ℕ, zero, suc, ◌+◌, ◌-◌, ◌≤◌, ap, ◌∙◌, ◌≡◌, ◌==◌, contains, refl, true, false, Option, none, some,
  List, [], ◌∷◌, arith, ok, err, running, find_first, update_many, count_where,
}
use veillend.Auth.Data.{
  Client, Session, RefreshToken, Db, Claims, Crypto, Draws, SessionResult, unauthorized,
  refresh_token_compromised, session_not_found, authentication_failed,
}
use veillend.Auth.Tokens.{issue_token_pair, refresh_token_ttl_ms, update_session}
use veillend.Auth.Login.{generate_nonce, verify_wallet, login_tx, claimable}
use veillend.Auth.Refresh.{Presented, present, redeem, family_jtis}
use veillend.Auth.Strategy.{AuthConfig, validate_jti_token}
use veillend.Auth.History.{asks_nonce, Request, run}
use veillend.Auth.Rotation.Single.{redeem_once}
use veillend.Auth.Rotation.Reuse.{reuse_locks_out}
use veillend.Auth.Nonces.Single.{login_once}
use veillend.Auth.Nonces.Latest.{latest_nonce_accepted}
use veillend.Auth.Access.Login.{bears, login_then_validate}

abbrev crypto : Crypto
crypto = record {
  sha256_hex = λ x. x + 1000;
  verify_signature = λ wallet nonce signature. signature == wallet + nonce;
  sign = λ claims now. claims.jti + 5;
  decode_exp = λ token. some 2000;
}

abbrev who : Client
who = record { ip = none; user_agent = none; correlation_id = none }

abbrev session : Session
session = record {
  id = 20;
  user_id = 1;
  token = 1045;
  expires_at = 5000;
  created_at = 0;
  last_seen_at = 0;
  client = who;
}

abbrev token : Option ℕ → RefreshToken
token revoked_at = record {
  id = 30;
  user_id = 1;
  session_id = 20;
  token_hash = 1050;
  jti = 40;
  family_id = 60;
  expires_at = 9000;
  revoked_at = revoked_at;
  client = who;
}

abbrev db_with : Option ℕ → Db
db_with revoked_at = record {
  nonces = record { id = 1; wallet_address = 7; nonce = 3; expires_at = 300; used = false } ∷ [];
  users = record { id = 1; wallet_address = 7 } ∷ [];
  sessions = session ∷ [];
  refresh_tokens = token revoked_at ∷ [];
  jtis =
      record { jti = 40; user_id = 1; session_id = 20; expires_at = 5000; revoked_at = none } ∷ [];
  audit = [];
}

abbrev db_live : Db
db_live = db_with none

abbrev db_reused : Db
db_reused = db_with (some 1)

abbrev draws : Draws
draws = record {
  user_id = 2;
  session_id = 21;
  placeholder = 99;
  family_id = 61;
  jti = 41;
  refresh_id = 31;
  refresh_token = 51;
}

abbrev draws_later : Draws
draws_later = record draws { session_id = 22; jti = 42; refresh_id = 32; refresh_token = 52 }

abbrev presented : Presented
presented = record { existing = token none; user = record { id = 1; wallet_address = 7 } }

abbrev between : List Request
between = record { call = asks_nonce 5 6 8; now = 150; who = who } ∷ []

abbrev rotated : SessionResult
rotated = record {
  access_token = 46;
  refresh_token = 51;
  session_id = 20;
  expires_at = 2000000;
  refresh_expires_at = 100 + refresh_token_ttl_ms;
  user_id = 1;
  wallet_address = 7;
}

abbrev logged_in : SessionResult
logged_in = record rotated { session_id = 21 }

redeemed : (redeem crypto draws presented 100 who db_live).0 ≡ ok rotated
unfolding redeem running find_first update_many count_where issue_token_pair update_session
redeemed = refl

redeem_once_example :
    (redeem crypto draws_later presented 200 who
      (run crypto between (redeem crypto draws presented 100 who db_live).1)).0
    ≡ err (unauthorized refresh_token_compromised)
redeem_once_example =
    redeem_once crypto draws draws_later presented presented 100 200 who who db_live between rotated
      redeemed (omega arith) (tt, tt) refl

found_reused :
    find_first (λ t. t.token_hash == crypto.sha256_hex 50) db_reused.refresh_tokens
    ≡ some (token (some 1))
unfolding find_first
found_reused = refl

held : contains 40 (family_jtis 60 db_reused.refresh_tokens) ≡ true
unfolding family_jtis
held = refl

reuse_locks_out_example :
    validate_jti_token 40 20 7 200 (run crypto between (present crypto 50 100 who db_reused).1)
    ≡ err (unauthorized session_not_found)
reuse_locks_out_example =
    reuse_locks_out crypto 50 100 who db_reused (token (some 1)) 40 between 20 7 200 found_reused
      refl held (tt, tt)

signed_in : (verify_wallet crypto draws 7 3 10 100 who db_live).0 ≡ ok logged_in
unfolding verify_wallet login_tx running find_first update_many count_where claimable
    issue_token_pair update_session
signed_in = refl

login_once_example :
    (verify_wallet crypto draws_later 7 3 10 200 who
      (run crypto between (verify_wallet crypto draws 7 3 10 100 who db_live).1)).0
    ≡ err (unauthorized authentication_failed)
login_once_example =
    login_once 7 3 100 crypto draws draws_later 10 10 200 who who db_live between logged_in
      signed_in (omega arith, tt) (omega arith)

latest_nonce_accepted_example :
    (result : SessionResult) × ((verify_wallet crypto draws 7 4 11 110 who
        (generate_nonce 2 4 100 7 who db_live).1).0
      ≡ ok result)
    × (result.session_id ≡ 21)
    × (result.wallet_address ≡ 7)
latest_nonce_accepted_example =
    latest_nonce_accepted crypto draws 2 4 100 7 11 110 who who db_live refl (omega arith)

abbrev config : AuthConfig
config = record { jwt_issuer = 70; jwt_audience = 71; legacy_auth_allow = false }

-- A token is the number of its claims, in the order of Cantor's pairs.
triangle : ℕ → ℕ
triangle zero = 0
triangle (suc n) = suc n + triangle n

abbrev pair : ℕ → ℕ → ℕ
pair a b = triangle (a + b) + b

abbrev next_pair : ℕ × ℕ → ℕ × ℕ
next_pair (zero, b) = (suc b, 0)
next_pair (suc a, b) = (a, suc b)

unpair : ℕ → ℕ × ℕ
unpair zero = (0, 0)
unpair (suc n) = next_pair (unpair n)

unpair-triangle : (n b : ℕ) → b ≤ n → unpair (triangle n + b) ≡ (n - b, b)
unfolding unpair triangle
unpair-triangle zero b h = let e : b ≡ 0 = omega arith in rw e refl
unpair-triangle (suc n) zero h =
    let e : suc n + triangle n + 0 ≡ suc (triangle n + n) = omega arith in
    let low : n - n ≡ 0 = omega arith in
    let whole : suc n - 0 ≡ suc n = omega arith in
    ap unpair e ∙ ap next_pair (unpair-triangle n n (omega arith)) ∙ rw (low, whole) refl
unpair-triangle (suc n) (suc b) h =
    let e : suc n + triangle n + suc b ≡ suc (triangle (suc n) + b) = omega arith in
    let left : suc n - b ≡ suc (n - b) = omega (arith, h) in
    let same : suc n - suc b ≡ n - b = omega arith in
    ap unpair e ∙ ap next_pair (unpair-triangle (suc n) b (omega (arith, h))) ∙ rw (left, same) refl

unpair-pair : (a b : ℕ) → unpair (pair a b) ≡ (a, b)
unpair-pair a b =
    let left : a + b - b ≡ a = omega arith in
    unpair-triangle (a + b) b (omega arith) ∙ ap (λ (x : ℕ). (x, b)) left

abbrev claims_of : (ℕ × ℕ) × (ℕ × ℕ) → Claims
claims_of ((wallet, sub), (jti, sid)) = record {
  wallet_address = wallet;
  sub = sub;
  jti = jti;
  sid = sid;
}

abbrev halves : ℕ × ℕ → (ℕ × ℕ) × (ℕ × ℕ)
halves (a, b) = (unpair a, unpair b)

abbrev opened : ℕ → Option Claims
opened token = some (claims_of (halves (unpair token)))

abbrev sealing : Crypto
sealing = record crypto {
  sign = λ claims at. pair (pair claims.wallet_address claims.sub) (pair claims.jti claims.sid);
}

opened-sealed : (claims : Claims) (at : ℕ) → opened (sealing.sign claims at) ≡ some claims
opened-sealed claims at =
    ap (λ x. some (claims_of (halves x)))
      (unpair-pair (pair claims.wallet_address claims.sub) (pair claims.jti claims.sid))
    ∙ rw (unpair-pair claims.wallet_address claims.sub, unpair-pair claims.jti claims.sid) refl

-- The result of the login above, with such a token.
abbrev sealed_in : SessionResult
sealed_in = record logged_in { access_token = pair (pair 7 1) (pair 41 21) }

signed_in_sealed : (verify_wallet sealing draws 7 3 10 100 who db_live).0 ≡ ok sealed_in
unfolding verify_wallet login_tx running find_first update_many count_where claimable
    issue_token_pair update_session
signed_in_sealed = refl

login_then_validate_example :
    bears config sealing opened sealed_in.access_token 200
      (verify_wallet sealing draws 7 3 10 100 who db_live).1
    ≡ some (ok (record { session_id = 21; wallet_address = 7; user_id = 1; expires_at = 2000000 }))
login_then_validate_example =
    login_then_validate config sealing opened draws 7 3 10 100 200 who db_live sealed_in
      opened-sealed signed_in_sealed (omega arith)
