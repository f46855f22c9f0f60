-- ===== src/Admin/Members/Removal.antt =====
-- What removeAdmin of admin.service.ts leaves.
use veillend.Base.{
  ℕ, ◌==◌, ◌≡◌, Bool, false, Option-cases, inl, inr, none, some, All, find_first,
  delete_many-All_of, find_first-eq-none, ok, running, settle,
}
use veillend.Auth.Data.{User, Session, RefreshToken}
use veillend.Auth.Sessions.{delete_sessions, selects}
use veillend.Admin.Data.{Admin, AdminDb}
use veillend.Admin.Members.{revoke_sessions_of, remove_admin_tx, remove_admin}

abbrev pub of_user : User → Session → Bool
of_user u s = s.user_id == u.id

-- Neither a session of the user, nor a refresh token of one that there was, nor the admin.
abbrev pub Removed : ℕ → User → AdminDb → AdminDb → Type 0
Removed wallet u before db =
    All (λ s. of_user u s ≡ false) db.auth.sessions
    × All (λ (r : RefreshToken). selects (of_user u) before.auth.sessions r.session_id ≡ false)
        db.auth.refresh_tokens
    × (find_first (λ (a : Admin). a.wallet_address == wallet) db.admins ≡ none)

-- A removeAdmin that returns leaves neither the admin, nor a session of its user, nor a refresh
-- token of one.
pub remove_admin_leaves :
    (wallet actor : ℕ) (u : User) (db : AdminDb)
    → find_first (λ x. x.wallet_address == wallet) db.auth.users ≡ some u
    → (remove_admin wallet actor db).0 ≡ ok tt
    → Removed wallet u db (remove_admin wallet actor db).1
unfolding remove_admin remove_admin_tx revoke_sessions_of delete_sessions running settle
remove_admin_leaves wallet actor u db e h =
    elim (Option-cases (find_first (λ a. a.wallet_address == wallet) db.admins)) [
      | inl n ↦ let k = rw (e, n) at h in (cc)
      | inr (a, s) ↦
          rw (e, s)
            (
              delete_many-All_of (λ x. of_user u x ≡ false) (of_user u) db.auth.sessions (λ x k. k),
              delete_many-All_of
                  (λ (r : RefreshToken). selects (of_user u) db.auth.sessions r.session_id ≡ false)
                  (λ r. selects (of_user u) db.auth.sessions r.session_id) db.auth.refresh_tokens
                  (λ x k. k),
              find_first-eq-none (λ a. a.wallet_address == wallet) _
                  (delete_many-All_of (λ x. (x.wallet_address == wallet) ≡ false)
                    (λ x. x.wallet_address == wallet) db.admins (λ x k. k)),
            )
    ]
