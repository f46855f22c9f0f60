-- ===== src/Mobile/Lending/Waiting.antt =====
-- A lending transaction that waits for the answers of its builder, its signer and the node, whatever
-- else happens.
use veillend.Base.{
  ℕ, ◌==◌, true, false, Option, none, some, List, [], ◌∷◌, ◌≡◌, ◌⊎◌, refl, sym, ◌∙◌, ap, All,
  Outcome, ok, err, find_first, delete_many, ==_refl, contains, Bool-cases, inl, inr,
}
use veillend.Mobile.Store.Data.{SupportedAsset, TransactionRecord}
use veillend.Mobile.Dashboard.{
  RawPortfolio, parse_portfolio, Scaling, Fetched, fetched, begin_assets, settle_portfolio,
}
use veillend.Mobile.Lending.{
  LendingEnv, LendingError, Tap, Flight, Phase, Answer, check_tap, same_tx,
}
use veillend.Mobile.Lending.Answers.{GoesOn, advance-Continues}
use veillend.Mobile.Lending.Exclusive.{check_tap_free}
use veillend.Mobile.Lending.Unmoved.{
  view_of, KeepsLogin, BringsNone, setting_view, begin_portfolio_view, begin_transactions_view,
  begin_positions_view, portfolio_view, transactions_view, assets_view, positions_view,
}
use veillend.Mobile.Lending.Session.{
  World, Event, taps, answers, sets, asks_portfolio, asks_transactions, has_portfolio,
  has_transactions, asks_assets, asks_positions, has_assets, has_positions, cancels, flies, others,
  continued, ended, Requests, tap_with, answer_flight, after_event, after_events,
}

false_is_not_true : ¬ (false ≡ true)
false_is_not_true e = cc

-- An event that neither ends a transaction nor signs out, and brings no new portfolio.
abbrev pub IsQuiet : {F : Type 0} → Event F → Type 0
IsQuiet (answers i a) = GoesOn a
IsQuiet (sets c) = KeepsLogin c
IsQuiet (has_portfolio i x) = BringsNone x
IsQuiet _ = Unit

module _ {F : Type 0} (env : LendingEnv F) (scale : Scaling F) where
  -- The transaction is in flight alone, shown, and counted in the balance.
  pub record IsWaiting (tx : TransactionRecord F) (b : F) (w : World F) : Type 0 where
    pub phase : Phase
    pub alone : w.flights ≡ record { tx = tx; phase = phase } ∷ []
    pub raised : w.phone.store.lending_loading ≡ true
    pub moved : w.phone.store.portfolio.balance ≡ b
    pub row : TransactionRecord F
    pub shown : find_first (same_tx env tx.id) w.phone.store.pending_transactions ≡ some row

  abbrev SameView : World F → World F → Type 0
  SameView w w' = view_of w.phone.store ≡ view_of w'.phone.store

  IsWaiting-of_view :
      {tx : TransactionRecord F} {b : F} (w w' : World F)
      → view_of w'.phone.store ≡ view_of w.phone.store
      → w'.flights ≡ w.flights
      → IsWaiting tx b w
      → IsWaiting tx b w'
  IsWaiting-of_view {tx} w w' e f h = record {
    phase = h.phase;
    alone = f ∙ h.alone;
    raised = ap (λ v. v.flag) e ∙ h.raised;
    moved = ap (λ v. v.portfolio.balance) e ∙ h.moved;
    row = h.row;
    shown = ap (λ v. find_first (same_tx env tx.id) v.rows) e ∙ h.shown;
  }

  ended-BringsNone :
      (i : ℕ) (r : Requests) (x : Fetched (RawPortfolio F))
      → BringsNone x
      → BringsNone (ended i r x)
  ended-BringsNone i r x k = elim (Bool-cases (contains i r.cancelled)) [
    | inl e ↦ rw e tt
    | inr e ↦ rw e k
  ]

  only_flight :
      (i : ℕ) (f : Flight F) (fs : List (Flight F))
      → fs ≡ f ∷ []
      → (find_first (flies i) fs ≡ none) ⊎ (find_first (flies i) fs ≡ some f)
  unfolding find_first
  only_flight i f fs e = elim (Bool-cases (f.tx.id == i)) [
    | inl t ↦ inr (rw (e, t) refl)
    | inr n ↦ inl (rw (e, n) refl)
  ]

  pub found_flight :
      (i : ℕ) (f : Flight F) (fs : List (Flight F))
      → fs ≡ f ∷ []
      → (f.tx.id == i) ≡ true
      → find_first (flies i) fs ≡ some f
  unfolding find_first
  found_flight i f fs e t = rw (e, t) refl

  pub others_none : (f : Flight F) (fs : List (Flight F)) → fs ≡ f ∷ [] → others f.tx.id fs ≡ []
  unfolding delete_many
  others_none f fs e = rw (e, ==_refl f.tx.id) refl

  answer-IsWaiting :
      (tx : TransactionRecord F) (b : F) (o : Option (Flight F)) (a : Answer) (w : World F)
      → (h : IsWaiting tx b w) → (o ≡ none) ⊎ (o ≡ some (record { tx = tx; phase = h.phase }))
      → GoesOn a
      → IsWaiting tx b (answer_flight env o a w)
  unfolding answer_flight
  answer-IsWaiting tx b o a w h (inl e) k = rw e h
  answer-IsWaiting tx b o a w h (inr e) k =
      let c = advance-Continues env scale tx h.phase a w.phone.store h.row k h.shown in
      rw e (record {
        phase = c.phase;
        alone = λ j.
            continued (c.flight j)
              (others_none (record { tx = tx; phase = h.phase }) w.flights h.alone j);
        raised = c.raised ∙ h.raised;
        moved = c.moved ∙ h.moved;
        row = c.row;
        shown = c.shown;
      })

  raised_refuses :
      (tx : TransactionRecord F) (b : F) (t : Tap) (o : Outcome LendingError SupportedAsset)
      (w : World F)
      → check_tap env t w.phone.store ≡ o
      → IsWaiting tx b w
      → IsWaiting tx b (tap_with env o t w)
  unfolding tap_with
  raised_refuses tx b t (err x) w e h = h
  raised_refuses tx b t (ok a) w e h =
      absurd (false_is_not_true (sym (check_tap_free env scale t w.phone.store a e) ∙ h.raised))

  event-IsWaiting :
      (tx : TransactionRecord F) (b : F) (e : Event F) (w : World F)
      → IsQuiet e
      → IsWaiting tx b w
      → IsWaiting tx b (after_event env scale e w)
  unfolding after_event begin_assets
  event-IsWaiting tx b (taps t) w k h =
      raised_refuses tx b t (check_tap env t w.phone.store) w refl h
  event-IsWaiting tx b (answers i a) w k h =
      answer-IsWaiting tx b (find_first (flies i) w.flights) a w h
        (only_flight i (record { tx = tx; phase = h.phase }) w.flights h.alone) k
  event-IsWaiting tx b (sets c) w k h =
      IsWaiting-of_view w _ (setting_view scale.zero_number c w.phone k) refl h
  event-IsWaiting tx b (asks_portfolio i) w k h =
      IsWaiting-of_view w _ (begin_portfolio_view w.phone.store) refl h
  event-IsWaiting tx b (asks_transactions i) w k h =
      IsWaiting-of_view w _ (begin_transactions_view w.phone.store) refl h
  event-IsWaiting tx b (has_portfolio i x) w k h =
      IsWaiting-of_view w _
        (portfolio_view scale.zero_number (ended i w.requests x) w.phone.store
          (ended-BringsNone i w.requests x k))
        refl h
  event-IsWaiting tx b (has_transactions i x) w k h =
      IsWaiting-of_view w _ (transactions_view (ended i w.requests x) w.phone.store) refl h
  event-IsWaiting tx b asks_assets w k h = IsWaiting-of_view w _ refl refl h
  event-IsWaiting tx b asks_positions w k h =
      IsWaiting-of_view w _ (begin_positions_view w.phone.store) refl h
  event-IsWaiting tx b (has_assets x) w k h =
      IsWaiting-of_view w _ (assets_view x w.phone.store) refl h
  event-IsWaiting tx b (has_positions addr x) w k h =
      IsWaiting-of_view w _ (positions_view scale addr x w.phone.store) refl h
  event-IsWaiting tx b cancels w k h = IsWaiting-of_view w _ refl refl h

  pub events-IsWaiting :
      (tx : TransactionRecord F) (b : F) (es : List (Event F)) (w : World F)
      → All IsQuiet es
      → IsWaiting tx b w
      → IsWaiting tx b (after_events env scale es w)
  unfolding after_events
  events-IsWaiting tx b [] w k h = h
  events-IsWaiting tx b (e ∷ es) w (k, ks) h =
      events-IsWaiting tx b es (after_event env scale e w) ks (event-IsWaiting tx b e w k h)

  -- A portfolio that comes meanwhile replaces the shown balance.
  pub portfolio-IsWaiting :
      (tx : TransactionRecord F) (b : F) (i : ℕ) (p : RawPortfolio F) (w : World F)
      → contains i w.requests.cancelled ≡ false
      → IsWaiting tx b w
      → IsWaiting tx
          (parse_portfolio scale.zero_number p).balance
          (after_event env scale (has_portfolio i (fetched p)) w)
  unfolding after_event settle_portfolio
  portfolio-IsWaiting tx b i p w kept h = rw kept (record {
    phase = h.phase;
    alone = h.alone;
    raised = h.raised;
    moved = refl;
    row = h.row;
    shown = h.shown;
  })
