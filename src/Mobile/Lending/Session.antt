-- ===== src/Mobile/Lending/Session.antt =====
-- What happens to the application while lending transactions are in flight: every tap, answer,
-- fetch, setting, login and logout is one step of a history.
use veillend.Base.{
  ℕ, ◌==◌, Bool, Option, none, some, List, [], ◌∷◌, ◌++◌, if◌then◌else◌, contains, Outcome, ok, err,
  find_first, delete_many,
}
use veillend.Mobile.Storage.{given}
use veillend.Mobile.Store.Data.{Store, Phone, HistoryRow, SupportedAsset}
use veillend.Mobile.Store.Calls.{SettingsCall, logs_out, wipes, after_setting}
use veillend.Mobile.Dashboard.{
  Fetched, aborted, RawPosition, RawPortfolio, Scaling, begin_portfolio, settle_portfolio,
  begin_transactions, settle_transactions, begin_assets, settle_assets, begin_positions,
  settle_positions,
}
use veillend.Mobile.Lending.{
  LendingEnv, LendingError, Tap, Flight, building, Answer, check_tap, new_tx, show_pending, advance,
}

-- `pendingRequestControllers`, and the requests that were aborted.
pub record Requests : Type 0 where
  pub tracked : List ℕ
  pub cancelled : List ℕ

pub record World (F : Type 0) : Type 0 where
  pub phone : Phone F
  pub requests : Requests
  pub flights : List (Flight F)

pub data Event (F : Type 0) : Type 0 where
  taps : Tap → Event F
  answers : (id : ℕ) → Answer → Event F
  sets : SettingsCall → Event F
  asks_portfolio asks_transactions : (request : ℕ) → Event F
  has_portfolio : (request : ℕ) → Fetched (RawPortfolio F) → Event F
  has_transactions : (request : ℕ) → Fetched (List (HistoryRow F)) → Event F
  asks_assets asks_positions : Event F
  has_assets : Outcome (Option ℕ) (List SupportedAsset) → Event F
  has_positions : (addr : ℕ) → Outcome (Option ℕ) (List RawPosition) → Event F
  cancels : Event F

unfoldable pub cancel_pending_requests : Requests → Requests
cancel_pending_requests r = record { tracked = []; cancelled = r.tracked ++ r.cancelled }

-- `createTrackedRequest` and `releaseTrackedRequest`
abbrev track : ℕ → Requests → Requests
track i r = record r { tracked = i ∷ r.tracked }

abbrev release : ℕ → Requests → Requests
release i r = record r { tracked = delete_many (λ j. j == i) r.tracked }

-- A request that was aborted ends as such.
abbrev pub ended : {A : Type 0} → ℕ → Requests → Fetched A → Fetched A
ended i r x = if contains i r.cancelled then aborted else x

-- A logout and a wipe cancel what is pending before they write.
abbrev cancels_first : SettingsCall → Requests → Requests
cancels_first logs_out r = cancel_pending_requests r
cancels_first wipes r = cancel_pending_requests r
cancels_first _ r = r

module _ {F : Type 0} where
  abbrev pub store_of : World F → Store F
  store_of w = w.phone.store

  abbrev pub on_store : (Store F → Store F) → World F → World F
  on_store f w = record w { phone = record (w.phone) { store = f w.phone.store } }

  abbrev pub flies : ℕ → Flight F → Bool
  flies i f = f.tx.id == i

  abbrev pub others : ℕ → List (Flight F) → List (Flight F)
  others i fs = delete_many (flies i) fs

  abbrev pub continued : Option (Flight F) → List (Flight F) → List (Flight F)
  continued none fs = fs
  continued (some f) fs = f ∷ fs

module _ {F : Type 0} (env : LendingEnv F) where
  unfoldable pub tap_with : Outcome LendingError SupportedAsset → Tap → World F → World F
  unfolding show_pending new_tx
  tap_with (err e) t w = w
  tap_with (ok a) t w = record (on_store (show_pending env (new_tx env t)) w) {
    flights = record { tx = new_tx env t; phase = building } ∷ w.flights;
  }

  unfoldable pub run_tap : Tap → World F → World F
  unfolding tap_with check_tap
  run_tap t w = tap_with (check_tap env t w.phone.store) t w

  unfoldable pub answer_flight : Option (Flight F) → Answer → World F → World F
  unfolding advance
  answer_flight none a w = w
  answer_flight (some f) a w =
      let (f', s) = advance env f.tx f.phase a w.phone.store in
      record (on_store (λ _. s) w) { flights = continued f' (others f.tx.id w.flights) }

module _ {F : Type 0} (env : LendingEnv F) (scale : Scaling F) where
  unfoldable pub after_event : Event F → World F → World F
  unfolding run_tap answer_flight cancel_pending_requests delete_many
  after_event (taps t) w = run_tap env t w
  after_event (answers i a) w = answer_flight env (find_first (flies i) w.flights) a w
  after_event (sets c) w = record w {
    phone = after_setting scale.zero_number c w.phone;
    requests = cancels_first c w.requests;
  }
  after_event (asks_portfolio i) w = record (on_store begin_portfolio w) {
    requests = if given w.phone.store.address then track i w.requests else w.requests;
  }
  after_event (asks_transactions i) w = record (on_store begin_transactions w) {
    requests = if given w.phone.store.address then track i w.requests else w.requests;
  }
  after_event (has_portfolio i x) w =
      record (on_store (settle_portfolio scale.zero_number (ended i w.requests x)) w) {
        requests = release i w.requests;
      }
  after_event (has_transactions i x) w =
      record (on_store (settle_transactions (ended i w.requests x)) w) {
        requests = release i w.requests;
      }
  after_event asks_assets w = on_store begin_assets w
  after_event asks_positions w = on_store begin_positions w
  after_event (has_assets x) w = on_store (settle_assets x) w
  after_event (has_positions addr x) w = on_store (settle_positions scale addr x) w
  after_event cancels w = record w { requests = cancel_pending_requests w.requests }

  unfoldable pub after_events : List (Event F) → World F → World F
  unfolding after_event
  after_events [] w = w
  after_events (e ∷ es) w = after_events es (after_event e w)
