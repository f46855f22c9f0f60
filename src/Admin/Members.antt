-- ===== src/Admin/Members.antt =====
-- addAdmin and removeAdmin of admin.service.ts.
pub mod Removal
use veillend.Base.{
  ℕ, ◌+◌, ◌==◌, not, Bool, true, false, Option, none, some, List, [], ◌∷◌, is_some, Action, pure,
  throw, gets, modify, throw_if, transaction, ◌>>=◌, ◌>>◌, find_first, delete_many,
}
use veillend.Auth.Data.{User, Session, Db as AuthDb}
use veillend.Auth.Sessions.{delete_sessions}
use veillend.Admin.Data.{
  Admin, AdminLogEntry, admin_added, admin_removed, AdminDb, AdminError, duplicate_row, no_record,
}

unfoldable pub add_admin_tx : ℕ → ℕ → Action AdminDb AdminError (Unit {0})
add_admin_tx wallet actor = do
  found ← gets (λ db. find_first (λ a. a.wallet_address == wallet) db.admins)
  throw_if (is_some found) duplicate_row
  modify λ db. record db {
    admins = record { id = db.next_id; wallet_address = wallet } ∷ db.admins;
    audit_log = admin_added actor wallet ∷ db.audit_log;
    next_id = db.next_id + 1;
  }

unfoldable pub add_admin : ℕ → ℕ → Action AdminDb AdminError (Unit {0})
unfolding add_admin_tx
add_admin wallet actor = transaction (add_admin_tx wallet actor)

-- The sessions of the wallet's user, if it has one.
unfoldable pub revoke_sessions_of : Option User → AuthDb → AuthDb
unfolding delete_sessions
revoke_sessions_of none db = db
revoke_sessions_of (some u) db = delete_sessions (λ s. s.user_id == u.id) db

unfoldable pub remove_admin_tx : ℕ → ℕ → Action AdminDb AdminError (Unit {0})
unfolding revoke_sessions_of
remove_admin_tx wallet actor = do
  user ← gets (λ db. find_first (λ u. u.wallet_address == wallet) db.auth.users)
  modify (λ db. record db { auth = revoke_sessions_of user db.auth })
  found ← gets (λ db. find_first (λ a. a.wallet_address == wallet) db.admins)
  throw_if (not (is_some found)) no_record
  modify λ db. record db {
    admins = delete_many (λ a. a.wallet_address == wallet) db.admins;
    audit_log = admin_removed actor wallet (is_some user) ∷ db.audit_log;
  }

unfoldable pub remove_admin : ℕ → ℕ → Action AdminDb AdminError (Unit {0})
unfolding remove_admin_tx
remove_admin wallet actor = transaction (remove_admin_tx wallet actor)
