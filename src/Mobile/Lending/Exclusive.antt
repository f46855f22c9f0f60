-- ===== src/Mobile/Lending/Exclusive.antt =====
-- How many lending transactions are in flight.
use veillend.Base.{
  ℕ, suc, Bool, true, false, Option, none, some, List, [], ◌∷◌, ◌≡◌, refl, ap, arith, if◌then◌else◌,
  All, length, is_some, Outcome, ok, err, find_first, delete_many, ==_refl,
}
use veillend.Mobile.Store.Data.{Store, SupportedAsset, TransactionRecord}
use veillend.Mobile.Dashboard.{Scaling, begin_assets}
use veillend.Mobile.Lending.{
  LendingEnv, LendingError, Tap, Flight, Phase, building, signing, sending, polling, Answer,
  check_tap, advance,
}
use veillend.Mobile.Lending.Unmoved.{
  KeepsLogin, setting_view, begin_portfolio_view, begin_transactions_view, begin_positions_view,
  portfolio_loading, transactions_view, assets_view, positions_view,
}
use veillend.Mobile.Lending.Session.{
  World, Event, taps, answers, sets, asks_portfolio, asks_transactions, has_portfolio,
  has_transactions, asks_assets, asks_positions, has_assets, has_positions, cancels, flies, others,
  ended, continued, tap_with, answer_flight, after_event, after_events,
}

-- Every event but a logout and a wipe.
abbrev pub KeepsSession : {F : Type 0} → Event F → Type 0
KeepsSession (sets c) = KeepsLogin c
KeepsSession _ = Unit

-- As many transactions in flight as the flag says.
abbrev pub IsExclusive : {F : Type 0} → World F → Type 0
IsExclusive w = length w.flights ≡ (if w.phone.store.lending_loading then 1 else 0)

one_less : (n : ℕ) (b : Bool) → suc (suc n) ≡ (if b then 1 else 0) → ⊥
one_less n true h = omega arith
one_less n false h = omega arith

module _ {F : Type 0} (env : LendingEnv F) (scale : Scaling F) where
  -- An answer that ends a flight lowers the flag, and another leaves it.
  advance_loading :
      (tx : TransactionRecord F) (p : Phase) (a : Answer) (s : Store F)
      → s.lending_loading ≡ true
      → (advance env tx p a s).1.lending_loading ≡ is_some (advance env tx p a s).0
  unfolding advance
  advance_loading tx building a s h = ground arith
  advance_loading tx signing a s h = ground arith
  advance_loading tx sending a s h = ground arith
  advance_loading tx (polling x) a s h = ground arith

  pub check_tap_free :
      (t : Tap) (s : Store F) (a : SupportedAsset)
      → check_tap env t s ≡ ok a
      → s.lending_loading ≡ false
  unfolding check_tap
  check_tap_free t s a h = ground arith

  -- Where one transaction is in flight and is found, no other is.
  single_flight :
      (i : ℕ) (fs : List (Flight F)) (b : Bool) {f : Flight F}
      → length fs ≡ (if b then 1 else 0)
      → find_first (flies i) fs ≡ some f
      → (b ≡ true) × (others f.tx.id fs ≡ [])
  unfolding find_first delete_many
  single_flight i [] b n e = cc
  single_flight i (g ∷ []) false n e = absurd (omega arith)
  single_flight i (g ∷ []) true {f} n e =
      let same : g ≡ f = ground arith in (refl, rw (same, ==_refl f.tx.id) refl)
  single_flight i (g ∷ h ∷ fs) b n e = absurd (one_less (length fs) b n)

  length-continued :
      (f : Option (Flight F)) (b : Bool)
      → b ≡ is_some f
      → length (continued f []) ≡ (if b then 1 else 0)
  length-continued none b h = rw h refl
  length-continued (some f) b h = rw h refl

  answer-IsExclusive :
      (i : ℕ) (o : Option (Flight F)) (a : Answer) (w : World F)
      → find_first (flies i) w.flights ≡ o
      → IsExclusive w
      → IsExclusive (answer_flight env o a w)
  unfolding answer_flight
  answer-IsExclusive i none a w e h = h
  answer-IsExclusive i (some f) a w e h =
      let (loading, alone) = single_flight i w.flights w.phone.store.lending_loading h e in
      rw alone (
        length-continued (advance env f.tx f.phase a w.phone.store).0 _
          (advance_loading f.tx f.phase a w.phone.store loading))

  tap-IsExclusive :
      (t : Tap) (o : Outcome LendingError SupportedAsset) (w : World F)
      → check_tap env t w.phone.store ≡ o
      → IsExclusive w
      → IsExclusive (tap_with env o t w)
  unfolding tap_with
  tap-IsExclusive t (err x) w e h = h
  tap-IsExclusive t (ok a) w e h =
      let free = check_tap_free t w.phone.store a e in omega (arith, rw free at h)

  event-IsExclusive :
      (e : Event F) (w : World F)
      → KeepsSession e
      → IsExclusive w
      → IsExclusive (after_event env scale e w)
  unfolding after_event begin_assets
  event-IsExclusive (taps t) w k h = tap-IsExclusive t (check_tap env t w.phone.store) w refl h
  event-IsExclusive (answers i a) w k h =
      answer-IsExclusive i (find_first (flies i) w.flights) a w refl h
  event-IsExclusive (sets c) w k h =
      rw (ap (λ v. v.flag) (setting_view scale.zero_number c w.phone k)) h
  event-IsExclusive (asks_portfolio i) w k h =
      rw (ap (λ v. v.flag) (begin_portfolio_view w.phone.store)) h
  event-IsExclusive (asks_transactions i) w k h =
      rw (ap (λ v. v.flag) (begin_transactions_view w.phone.store)) h
  event-IsExclusive (has_portfolio i x) w k h =
      rw (portfolio_loading scale.zero_number (ended i w.requests x) w.phone.store) h
  event-IsExclusive (has_transactions i x) w k h =
      rw (ap (λ v. v.flag) (transactions_view (ended i w.requests x) w.phone.store)) h
  event-IsExclusive asks_assets w k h = h
  event-IsExclusive asks_positions w k h =
      rw (ap (λ v. v.flag) (begin_positions_view w.phone.store)) h
  event-IsExclusive (has_assets x) w k h = rw (ap (λ v. v.flag) (assets_view x w.phone.store)) h
  event-IsExclusive (has_positions addr x) w k h =
      rw (ap (λ v. v.flag) (positions_view scale addr x w.phone.store)) h
  event-IsExclusive cancels w k h = h

  -- From a world without lending transactions in flight, and through any events but logouts and
  -- wipes, at most one is in flight: one exactly while the store's flag is up.
  pub lending-IsExclusive :
      (es : List (Event F)) (w : World F)
      → All KeepsSession es
      → IsExclusive w
      → IsExclusive (after_events env scale es w)
  unfolding after_events
  lending-IsExclusive [] w k h = h
  lending-IsExclusive (e ∷ es) w (k, ks) h =
      lending-IsExclusive es (after_event env scale e w) ks (event-IsExclusive e w k h)
