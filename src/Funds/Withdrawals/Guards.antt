-- ===== src/Funds/Withdrawals/Guards.antt =====
-- The conditions of `signWithdrawal` and `submitWithdrawal` (withdrawals.service.ts).
use veillend.Base.{
  ℤ, ◌==◌, ◌&&◌, ◌≤◌, refl, Option, List, [], ◌∷◌, is_some, All, Bool-cases, find_first, ℕ, ◌≡◌,
  true, false, none, some, arith, inl, inr, Option-cases, ok, err, Outcome, running,
}
use veillend.Funds.Data.{
  confirmed, wrong_status, Withdrawal, Db, FundsError, draft, signed, requires_revalidation,
  insolvent, withdrawal_not_found, WithdrawalStatus, sent, rejected, cancelled, orphaned,
  WithdrawNonce,
}
use veillend.Funds.Withdrawals.{Solvency, is_draft, find_owned, owned_withdrawal, set_status}
use veillend.Funds.Withdrawals.Settle.{settle_found, update_withdrawal_confirmations}
use veillend.Funds.Withdrawals.Lifecycle.{
  active_timelock, throw_timelocked, degrade_unless, reject_unless, has_used_nonce,
  update_with_hash, sign_withdrawal, submit_withdrawal, cancel_withdrawal, revalidate_withdrawal,
}

-- What `signWithdrawal` requires of the withdrawal it finds.
pub record Signable (check : Solvency) (id user now : ℕ) (db : Db) (w : Withdrawal) : Type 0 where
  pub found : find_owned id user db.withdrawals ≡ some w
  pub is_in_draft : is_draft w.status ≡ true
  pub timelock_over : active_timelock now w ≡ none
  pub solvent : (check user w.asset_id w.amount_stroops db).allowed ≡ true
  pub nonce_unused : has_used_nonce id db ≡ false

signable :
    (check : Solvency) (id user xdr hash now : ℕ) (db : Db) (w : Withdrawal)
    → find_owned id user db.withdrawals ≡ some w
    → (sign_withdrawal check id user xdr hash now db).0 ≡ ok tt
    → Signable check id user now db w
unfolding sign_withdrawal running owned_withdrawal throw_timelocked degrade_unless reject_unless
    update_with_hash
signable check id user xdr hash now db w found done = record {
  found = found;
  is_in_draft = ground arith;
  timelock_over = ground arith;
  solvent = ground arith;
  nonce_unused = ground arith;
}

pub signed-Signable :
    (check : Solvency) (id user xdr hash now : ℕ) (db : Db)
    → (sign_withdrawal check id user xdr hash now db).0 ≡ ok tt
    → (w : Withdrawal) × Signable check id user now db w
unfolding sign_withdrawal running owned_withdrawal
signed-Signable check id user xdr hash now db done =
    elim (Option-cases (find_owned id user db.withdrawals)) [
      | inl e ↦ ground arith
      | inr (w, e) ↦ (w, signable check id user xdr hash now db w e done)
    ]

-- There is no timelock, or its end has come.
abbrev pub IsOver : Option ℕ → ℕ → Type 0
IsOver none now = Unit
IsOver (some until) now = until ≤ now

-- What a signature asks for, of the rows: the user's own withdrawal, in DRAFT, past its timelock,
-- solvent by the check, and with no row of a nonce that is used.
pub record MaySign (check : Solvency) (id user now : ℕ) (db : Db) (w : Withdrawal) : Type 0 where
  pub stored : find_first (λ w. w.id == id && w.user_id == user) db.withdrawals ≡ some w
  pub in_draft : w.status ≡ draft
  pub over : IsOver w.timelock_until now
  pub solvent : (check user w.asset_id w.amount_stroops db).allowed ≡ true
  pub unused : All (λ n. (n.withdrawal_id == id && n.used) ≡ false) db.nonces

draft_only : (s : WithdrawalStatus) → is_draft s ≡ true → s ≡ draft
draft_only draft h = refl
draft_only signed h = cc
draft_only sent h = cc
draft_only confirmed h = cc
draft_only rejected h = cc
draft_only cancelled h = cc
draft_only orphaned h = cc
draft_only requires_revalidation h = cc

timelock-IsOver :
    (o : Option ℕ) (w : Withdrawal) (now : ℕ)
    → w.timelock_until ≡ o
    → active_timelock now w ≡ none
    → IsOver o now
unfolding active_timelock
timelock-IsOver none w now e h = tt
timelock-IsOver (some until) w now e h = ground arith

unused-All :
    (id : ℕ) (ns : List WithdrawNonce)
    → is_some (find_first (λ (n : WithdrawNonce). n.withdrawal_id == id && n.used) ns) ≡ false
    → All (λ n. (n.withdrawal_id == id && n.used) ≡ false) ns
unfolding find_first
unused-All id [] h = tt
unused-All id (n ∷ ns) h = elim (Bool-cases (n.withdrawal_id == id && n.used)) [
  | inl e ↦ ground arith
  | inr e ↦ (e, unused-All id ns (ground arith))
]

-- A withdrawal is signed only if it is its user's, is in DRAFT, has no timelock or one whose end has
-- come, the user is solvent by the check, and none of its nonces is used.
pub sign_requires :
    (check : Solvency) (id user xdr hash now : ℕ) (db : Db)
    → (sign_withdrawal check id user xdr hash now db).0 ≡ ok tt
    → (w : Withdrawal) × MaySign check id user now db w
unfolding find_owned has_used_nonce
sign_requires check id user xdr hash now db done =
    let (w, s) = signed-Signable check id user xdr hash now db done in
    (
      w,
      record {
        stored = s.found;
        in_draft = draft_only w.status s.is_in_draft;
        over = timelock-IsOver w.timelock_until w now refl s.timelock_over;
        solvent = s.solvent;
        unused = unused-All id db.nonces s.nonce_unused;
      },
    )

not_owned-All :
    (id user : ℕ) (ws : List Withdrawal)
    → All (λ w. (w.id == id && w.user_id == user) ≡ false) ws
    → find_owned id user ws ≡ none
unfolding find_owned find_first
not_owned-All id user [] h = refl
not_owned-All id user (w ∷ ws) (k, ks) = ground (arith, not_owned-All id user ws ks)

-- A user whose id is on no row of the withdrawal gets the same refusal from every operation on it,
-- and changes nothing.
pub stranger_changes_nothing :
    (check : Solvency) (id user xdr hash now : ℕ) (db : Db)
    → All (λ w. (w.id == id && w.user_id == user) ≡ false) db.withdrawals
    → (sign_withdrawal check id user xdr hash now db ≡ (err withdrawal_not_found, db))
      × (submit_withdrawal check id user hash now db ≡ (err withdrawal_not_found, db))
      × (cancel_withdrawal id user db ≡ (err withdrawal_not_found, db))
      × (revalidate_withdrawal check id user db ≡ (err withdrawal_not_found, db))
unfolding sign_withdrawal submit_withdrawal cancel_withdrawal revalidate_withdrawal running
    owned_withdrawal
stranger_changes_nothing check id user xdr hash now db strange =
    let none_owned = not_owned-All id user db.withdrawals strange in
    (ground arith, ground arith, ground arith, ground arith)

-- What a failed check leaves and answers.
abbrev pub degraded : Solvency → ℕ → ℕ → Withdrawal → Db → Outcome FundsError (Unit {0}) × Db
degraded check id user w db = (
  err (insolvent (check user w.asset_id w.amount_stroops db).error_kind),
  set_status id requires_revalidation db,
)

-- Signing a draft whose timelock is over while the solvency check fails moves it to
-- REQUIRES_REVALIDATION, answers the check's error and changes nothing else.
pub insolvent_not_signed :
    (check : Solvency) (id user xdr hash now : ℕ) (db : Db) (w : Withdrawal)
    → find_owned id user db.withdrawals ≡ some w
    → (check user w.asset_id w.amount_stroops db).allowed ≡ false
    → w.status ≡ draft
    → active_timelock now w ≡ none
    → sign_withdrawal check id user xdr hash now db ≡ degraded check id user w db
unfolding sign_withdrawal running owned_withdrawal throw_timelocked degrade_unless
insolvent_not_signed check id user xdr hash now db w found bad s t = ground arith

-- A withdrawal that was signed while its user was solvent is not submitted once the check fails: it
-- moves to REQUIRES_REVALIDATION, the answer is the check's error, and nothing else changes.
pub insolvent_not_submitted :
    (check : Solvency) (id user hash now : ℕ) (db : Db) (w : Withdrawal)
    → find_owned id user db.withdrawals ≡ some w
    → (check user w.asset_id w.amount_stroops db).allowed ≡ false
    → w.status ≡ signed
    → submit_withdrawal check id user hash now db ≡ degraded check id user w db
unfolding submit_withdrawal running owned_withdrawal degrade_unless
insolvent_not_submitted check id user hash now db w found bad s = ground arith

-- A CONFIRMED withdrawal stays as it is: its user can neither sign, submit, cancel nor revalidate
-- it, and further confirmations change nothing.
pub confirmed_is_final :
    (check : Solvency) (id user xdr hash now : ℕ) (seen : ℤ) (db : Db) (w : Withdrawal)
    → find_owned id user db.withdrawals ≡ some w
    → find_first (λ w. w.id == id) db.withdrawals ≡ some w
    → w.status ≡ confirmed
    → (sign_withdrawal check id user xdr hash now db ≡ (err (wrong_status confirmed), db))
      × (submit_withdrawal check id user hash now db ≡ (err (wrong_status confirmed), db))
      × (cancel_withdrawal id user db ≡ (err (wrong_status confirmed), db))
      × (revalidate_withdrawal check id user db ≡ (err (wrong_status confirmed), db))
      × (update_withdrawal_confirmations id seen now db ≡ (ok tt, db))
unfolding sign_withdrawal submit_withdrawal cancel_withdrawal revalidate_withdrawal running
    owned_withdrawal update_withdrawal_confirmations settle_found
confirmed_is_final check id user xdr hash now seen db w mine found final =
    (ground arith, ground arith, ground arith, ground arith, ground arith)
