-- ===== src/Mobile/Lending/Cancelled.antt =====
-- The answers to requests that were cancelled.
use veillend.Base.{ℕ, true, List, ◌≡◌, contains}
use veillend.Mobile.Store.Data.{Store, Portfolio, HistoryRow}
use veillend.Mobile.Store.Calls.{SettingsCall, wipes}
use veillend.Mobile.Lending.Session.{
  World, Event, taps, answers, sets, has_portfolio, has_transactions,
}

-- The data that the two requests bring.
pub record Brought (F : Type 0) : Type 0 where
  pub portfolio : Portfolio F
  pub transactions : List (HistoryRow F)

-- An event that answers only requests of a list, and neither taps nor wipes.
abbrev pub AnswersOnly : {F : Type 0} → List ℕ → Event F → Type 0
AnswersOnly rs (has_portfolio i x) = contains i rs ≡ true
AnswersOnly rs (has_transactions i x) = contains i rs ≡ true
AnswersOnly rs (taps t) = ⊥
AnswersOnly rs (answers i a) = ⊥
AnswersOnly rs (sets wipes) = ⊥
AnswersOnly rs _ = Unit

abbrev IsNoWipe : SettingsCall → Type 0
IsNoWipe wipes = ⊥
IsNoWipe _ = Unit

module _ {F : Type 0} where
  abbrev pub brought : Store F → Brought F
  brought s = record { portfolio = s.portfolio; transactions = s.transactions }

  -- The requests of the list are cancelled, and the data are some given ones.
  record IsCancelled (rs : List ℕ) (d : Brought F) (w : World F) : Type 0 where
    same : brought w.phone.store ≡ d
    all_cancelled : (i : ℕ) → contains i rs ≡ true → contains i w.requests.cancelled ≡ true
