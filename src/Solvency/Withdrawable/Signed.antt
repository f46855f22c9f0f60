-- ===== src/Solvency/Withdrawable/Signed.antt =====
-- The check of withdrawal-solvency.service.ts in signWithdrawal of withdrawals.service.ts.
use veillend.Base.{ℕ, ◌≡◌, ◌⊎◌, some, false, List, map, ok, ℤ}
use veillend.Funds.Data.{Withdrawal, Db, SolvencyCheck}
use veillend.Funds.Withdrawals.{Solvency, find_owned}
use veillend.Funds.Withdrawals.Lifecycle.{sign_withdrawal}
use veillend.Funds.Withdrawals.Guards.{signed-Signable}
use veillend.Solvency.HealthFactor.{Numbers}
use veillend.Solvency.Withdrawable.{
  PricedPosition, SolvencyCheckResult, like, has_borrow, assert_withdrawable,
}
use veillend.Solvency.Withdrawable.Verdict.{NotBelowOne, allowed_sound}

module _ {F : Type 0} (n : Numbers F) (format_raw : ℤ → ℕ → F)
    (view : ℕ → Db → List (PricedPosition F)) (now : ℕ) where
  abbrev answer : SolvencyCheckResult F → SolvencyCheck
  answer r = record { allowed = r.allowed; error_kind = r.error_kind }

  -- `view` reads the positions of a user with the columns that the check needs.
  abbrev pub solvency_check : Solvency
  solvency_check user asset_id amount db =
      answer (assert_withdrawable n format_raw (view user db) asset_id amount now)

  -- A withdrawal that is signed under this check is its user's, and the user has no debt, or a
  -- projected health factor that is known and not below 1.
  pub signed_is_solvent :
      (id user xdr hash : ℕ) (db : Db)
      → (sign_withdrawal solvency_check id user xdr hash now db).0 ≡ ok tt
      → (w : Withdrawal) × (find_owned id user db.withdrawals ≡ some w)
        × ((has_borrow n format_raw (map (like n format_raw) (view user db)) ≡ false)
            ⊎ NotBelowOne n format_raw
                (assert_withdrawable n format_raw (view user db) w.asset_id w.amount_stroops now))
  signed_is_solvent id user xdr hash db h =
      let (w, s) = signed-Signable solvency_check id user xdr hash now db h in
      (
        w,
        s.found,
        allowed_sound n format_raw (view user db) w.asset_id w.amount_stroops now s.solvent,
      )
