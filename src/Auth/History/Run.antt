-- ===== src/Auth/History/Run.antt =====
-- Policies under any sequence of requests to the authentication code.
use veillend.Base.{ℕ, [], ◌∷◌, List}
use veillend.Auth.Data.{Client, Crypto, Db}
use veillend.Auth.History.{
  Call, asks_nonce, logs_in, presents, redeems, validates, logs_out, revokes, revokes_all,
  cleans_up, Request, step, run,
}
use veillend.Auth.History.Policy.{Policy, Kept, Admits, AllAdmitted}
use veillend.Auth.History.RefreshKept.{present-Kept, redeem-Kept}
use veillend.Auth.History.LoginKept.{generate_nonce-Kept, verify_wallet-Kept}
use veillend.Auth.History.SessionsKept.{
  validate_session-Kept, revoke_session-Kept, revoke_session_by_id-Kept, revoke_all_sessions-Kept,
  cleanup-Kept,
}

module _ (p : Policy) (c : Crypto) where
  step-Kept :
      (q : Call) (now : ℕ) (who : Client) (db : Db)
      → Admits p q
      → Kept p db
      → Kept p (step c q now who db)
  step-Kept (asks_nonce id nonce wallet) now who db a =
      (generate_nonce-Kept p id nonce now wallet who a).apply db
  step-Kept (logs_in d wallet nonce signature) now who db a =
      (verify_wallet-Kept p c d wallet nonce signature now who a).apply db
  step-Kept (presents raw) now who db a = (present-Kept p c raw now who).apply db
  step-Kept (redeems d q) now who db a = (redeem-Kept p c d q now who a).apply db
  step-Kept (validates token) now who db a = (validate_session-Kept p c token now).apply db
  step-Kept (logs_out id wallet) now who db a = revoke_session-Kept p id wallet who now db
  step-Kept (revokes id user wallet) now who db a =
      revoke_session_by_id-Kept p id user wallet who now db
  step-Kept (revokes_all user wallet keep) now who db a =
      (revoke_all_sessions-Kept p user wallet keep who now).apply db
  step-Kept cleans_up now who db a = (cleanup-Kept p now).apply db

  pub run-Kept : (qs : List Request) (db : Db) → AllAdmitted p qs → Kept p db → Kept p (run c qs db)
  unfolding run
  run-Kept [] db a h = h
  run-Kept (q ∷ qs) db (a, as') h =
      run-Kept qs (step c q.call q.now q.who db) as' (step-Kept q.call q.now q.who db a h)
