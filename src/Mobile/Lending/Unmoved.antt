-- ===== src/Mobile/Lending/Unmoved.antt =====
-- What settings and fetches leave of the lending transactions.
use veillend.Base.{
  ℕ, ◌==◌, Bool, Option, none, some, List, ◌≡◌, refl, Outcome, ok, err, Bool-cases, inl, inr,
}
use veillend.Mobile.Storage.{given}
use veillend.Mobile.Store.Data.{
  Store, Phone, TransactionRecord, SupportedAsset, Portfolio, HistoryRow,
}
use veillend.Mobile.Store.Settings.{verified, refused, or_null}
use veillend.Mobile.Store.Calls.{
  SettingsCall, sets_profile_name, sets_profile_image, toggles_privacy_mode, sets_currency,
  sets_notifications, authenticates, logs_out, wipes, hydrates, after_setting,
}
use veillend.Mobile.Dashboard.{
  RawPortfolio, Scaling, Fetched, fetched, timed_out, aborted, rejected, RawPosition,
  begin_portfolio, settle_portfolio, begin_transactions, settle_transactions, settle_assets,
  begin_positions, settle_positions,
}

-- The part of the store that a lending transaction writes, less the last transaction.
pub record View (F : Type 0) : Type 0 where
  pub flag : Bool
  pub rows : List (TransactionRecord F)
  pub portfolio : Portfolio F

-- Every call but a logout and a wipe.
abbrev pub KeepsLogin : SettingsCall → Type 0
KeepsLogin logs_out = ⊥
KeepsLogin wipes = ⊥
KeepsLogin _ = Unit

-- An answer that brings no portfolio.
abbrev pub BringsNone : {A : Type 0} → Fetched A → Type 0
BringsNone (fetched _) = ⊥
BringsNone _ = Unit

module _ {F : Type 0} where
  abbrev pub view_of : Store F → View F
  view_of s = record {
    flag = s.lending_loading;
    rows = s.pending_transactions;
    portfolio = s.portfolio;
  }

  pub setting_view :
      (z : F) (c : SettingsCall) (p : Phone F)
      → KeepsLogin c
      → view_of (after_setting z c p).store ≡ view_of p.store
  unfolding after_setting or_null
  setting_view z (sets_profile_name n) p k = refl
  setting_view z (sets_profile_image n) p k = refl
  setting_view z toggles_privacy_mode p k = refl
  setting_view z (sets_currency c) p k = refl
  setting_view z (sets_notifications b) p k = refl
  setting_view z (authenticates w refused) p k = refl
  setting_view z (authenticates w (verified none s)) p k = refl
  setting_view z (authenticates w (verified (some t) s)) p k = elim (Bool-cases (t == 0)) [
    | inl e ↦ rw e refl
    | inr e ↦ rw e refl
  ]
  setting_view z logs_out p k = absurd k
  setting_view z wipes p k = absurd k
  setting_view z hydrates p k = refl

  pub begin_portfolio_view : (s : Store F) → view_of (begin_portfolio s) ≡ view_of s
  unfolding begin_portfolio
  begin_portfolio_view s = elim (Bool-cases (given s.address)) [
    | inl e ↦ rw e refl
    | inr e ↦ rw e refl
  ]

  pub begin_transactions_view : (s : Store F) → view_of (begin_transactions s) ≡ view_of s
  unfolding begin_transactions
  begin_transactions_view s = elim (Bool-cases (given s.address)) [
    | inl e ↦ rw e refl
    | inr e ↦ rw e refl
  ]

  pub begin_positions_view : (s : Store F) → view_of (begin_positions s) ≡ view_of s
  unfolding begin_positions
  begin_positions_view s = elim (Bool-cases (given s.address)) [
    | inl e ↦ rw e refl
    | inr e ↦ rw e refl
  ]

  pub portfolio_loading :
      (z : F) (x : Fetched (RawPortfolio F)) (s : Store F)
      → (settle_portfolio z x s).lending_loading ≡ s.lending_loading
  unfolding settle_portfolio
  portfolio_loading z (fetched p) s = refl
  portfolio_loading z timed_out s = refl
  portfolio_loading z aborted s = refl
  portfolio_loading z (rejected m) s = refl

  pub portfolio_view :
      (z : F) (x : Fetched (RawPortfolio F)) (s : Store F)
      → BringsNone x
      → view_of (settle_portfolio z x s) ≡ view_of s
  unfolding settle_portfolio
  portfolio_view z (fetched p) s k = absurd k
  portfolio_view z timed_out s k = refl
  portfolio_view z aborted s k = refl
  portfolio_view z (rejected m) s k = refl

  pub transactions_view :
      (x : Fetched (List (HistoryRow F))) (s : Store F)
      → view_of (settle_transactions x s) ≡ view_of s
  unfolding settle_transactions
  transactions_view (fetched p) s = refl
  transactions_view timed_out s = refl
  transactions_view aborted s = refl
  transactions_view (rejected m) s = refl

  pub assets_view :
      (x : Outcome (Option ℕ) (List SupportedAsset)) (s : Store F)
      → view_of (settle_assets x s) ≡ view_of s
  unfolding settle_assets
  assets_view (ok xs) s = refl
  assets_view (err m) s = refl

  pub positions_view :
      (n : Scaling F) (addr : ℕ) (x : Outcome (Option ℕ) (List RawPosition)) (s : Store F)
      → view_of (settle_positions n addr x s) ≡ view_of s
  unfolding settle_positions
  positions_view n addr (ok xs) s = refl
  positions_view n addr (err m) s = refl
