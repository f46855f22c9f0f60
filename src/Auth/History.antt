-- ===== src/Auth/History.antt =====
-- Any sequence of requests to the authentication code. A refresh is two requests, `presents` and
-- `redeems`, since others may run between its reads and its transaction.
pub mod Policy
pub mod RefreshKept
pub mod LoginKept
pub mod SessionsKept
pub mod Run
use veillend.Base.{ℕ, Option, List, [], ◌∷◌, Outcome}
use veillend.Auth.Data.{Client, Crypto, Draws, Db}
use veillend.Auth.Login.{generate_nonce, verify_wallet}
use veillend.Auth.Refresh.{Presented, present, redeem}
use veillend.Auth.Sessions.{
  validate_session, revoke_session, revoke_session_by_id, revoke_all_sessions,
  cleanup_expired_tokens,
}

pub data Call : Type 0 where
  asks_nonce : (id nonce wallet : ℕ) → Call
  logs_in : (d : Draws) (wallet nonce signature : ℕ) → Call
  presents : (raw : ℕ) → Call
  redeems : (d : Draws) (p : Presented) → Call
  validates : (token : ℕ) → Call
  logs_out : (id : ℕ) (wallet : Option ℕ) → Call
  revokes : (id user_id wallet : ℕ) → Call
  revokes_all : (user_id wallet : ℕ) (keep : Option ℕ) → Call
  cleans_up : Call

-- A request, when it runs and where it came from.
pub record Request : Type 0 where
  pub call : Call
  pub now : ℕ
  pub who : Client

abbrev pub step : Crypto → Call → ℕ → Client → Db → Db
step c (asks_nonce id nonce wallet) now who db = (generate_nonce id nonce now wallet who db).1
step c (logs_in d wallet nonce signature) now who db =
    (verify_wallet c d wallet nonce signature now who db).1
step c (presents raw) now who db = (present c raw now who db).1
step c (redeems d p) now who db = (redeem c d p now who db).1
step c (validates token) now who db = (validate_session c token now db).1
step c (logs_out id wallet) now who db = revoke_session id wallet who now db
step c (revokes id user_id wallet) now who db = revoke_session_by_id id user_id wallet who now db
step c (revokes_all user_id wallet keep) now who db =
    (revoke_all_sessions user_id wallet keep who now db).1
step c cleans_up now who db = (cleanup_expired_tokens now db).1

pub run : Crypto → List Request → Db → Db
run c [] db = db
run c (q ∷ qs) db = run c qs (step c q.call q.now q.who db)
