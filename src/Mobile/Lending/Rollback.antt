-- ===== src/Mobile/Lending/Rollback.antt =====
-- What is left of a lending transaction that failed.
use veillend.Base.{
  ℕ, false, Option, none, some, List, [], ◌∷◌, ◌≡◌, refl, ap, All, ok, find_first, ==_refl,
  contains,
}
use veillend.Mobile.Store.Data.{Store, SupportedAsset, TransactionRecord, failed}
use veillend.Mobile.Dashboard.{RawPortfolio, parse_portfolio, Scaling, fetched}
use veillend.Mobile.Lending.{
  LendingEnv, Tap, Flight, Phase, building, signing, sending, polling, throws, Thrown, check_tap,
  new_tx, same_tx, advance, optimistic_delta, fail_lending, reason_of,
}
use veillend.Mobile.Lending.Answers.{fail_shown}
use veillend.Mobile.Lending.Waiting.{
  IsQuiet, IsWaiting, found_flight, others_none, events-IsWaiting, portfolio-IsWaiting,
}
use veillend.Mobile.Lending.Session.{
  World, Event, taps, answers, has_portfolio, flies, tap_with, answer_flight, after_event,
  after_events,
}

module _ {F : Type 0} (env : LendingEnv F) (scale : Scaling F) where
  -- The balance that a tap shows.
  abbrev pub shown_balance : Tap → Store F → F
  shown_balance t s =
      env.plus s.portfolio.balance (optimistic_delta env t.kind (env.parse_float t.amount))

  tap-IsWaiting :
      (t : Tap) (a : SupportedAsset) (w : World F)
      → w.flights ≡ []
      → check_tap env t w.phone.store ≡ ok a
      → IsWaiting env scale
          (new_tx env t)
          (shown_balance t w.phone.store)
          (after_event env scale (taps t) w)
  unfolding after_event tap_with find_first
  tap-IsWaiting t a w none_flies checked = rw checked (record {
    phase = building;
    alone = λ j. record { tx = new_tx env t; phase = building } ∷ none_flies j;
    raised = refl;
    moved = refl;
    row = new_tx env t;
    shown = rw (==_refl t.id) refl;
  })

  -- What the store shows of a transaction that was rolled back.
  pub record IsRolledBack (t : Tap) (e : Thrown) (b : F) (w : World F) : Type 0 where
    pub balance : w.phone.store.portfolio.balance ≡ b
    pub lowered : w.phone.store.lending_loading ≡ false
    pub none_flies : w.flights ≡ []
    pub row : TransactionRecord F
    pub shown : find_first (same_tx env t.id) w.phone.store.pending_transactions ≡ some row
    pub is_failed : row.status ≡ failed
    pub reason : row.error_reason ≡ some (reason_of env e)

  advance_throws :
      (tx : TransactionRecord F) (p : Phase) (e : Thrown) (s : Store F)
      → advance env tx p (throws e) s ≡ (none, fail_lending env tx e s)
  unfolding advance
  advance_throws tx building e s = refl
  advance_throws tx signing e s = refl
  advance_throws tx sending e s = refl
  advance_throws tx (polling h) e s = refl

  failed_waiting :
      (t : Tap) (e : Thrown) (b : F) (o : Option (Flight F)) (w : World F)
      → (h : IsWaiting env scale (new_tx env t) b w)
      → o ≡ some (record { tx = new_tx env t; phase = h.phase })
      → IsRolledBack t e
          (env.minus b (optimistic_delta env t.kind (env.parse_float t.amount)))
          (answer_flight env o (throws e) w)
  unfolding answer_flight new_tx
  failed_waiting t e b o w h found =
      rw (found, advance_throws (new_tx env t) h.phase e w.phone.store)
        (record {
          balance =
              ap (λ x. env.minus x (optimistic_delta env t.kind (env.parse_float t.amount)))
                h.moved;
          lowered = refl;
          none_flies =
              others_none env scale (record { tx = new_tx env t; phase = h.phase }) w.flights
                h.alone;
          row = record (h.row) { status = failed; error_reason = some (reason_of env e) };
          shown = fail_shown env scale (new_tx env t) e w.phone.store h.shown;
          is_failed = refl;
          reason = refl;
        })

  fails_waiting :
      (t : Tap) (e : Thrown) (b : F) (w : World F)
      → IsWaiting env scale (new_tx env t) b w
      → IsRolledBack t e
          (env.minus b (optimistic_delta env t.kind (env.parse_float t.amount)))
          (after_event env scale (answers t.id (throws e)) w)
  unfolding after_event
  fails_waiting t e b w h = failed_waiting t e b (find_first (flies t.id) w.flights) w h (
      found_flight env scale t.id (record { tx = new_tx env t; phase = h.phase }) w.flights h.alone
        (==_refl t.id))

  -- A portfolio that is fetched while a lending transaction is in flight does not know of the change
  -- that its failure then takes off: the balance is left at the fetched one less the change.
  pub failure_after_fetch :
      (t : Tap) (a : SupportedAsset) (es es' : List (Event F)) (i : ℕ) (p : RawPortfolio F)
      (e : Thrown) (w : World F)
      → w.flights ≡ []
      → check_tap env t w.phone.store ≡ ok a
      → All IsQuiet es
      → All IsQuiet es'
      → contains i (after_events env scale es (after_event env scale (taps t) w)).requests.cancelled
        ≡ false
      → IsRolledBack t e
          (env.minus
            (parse_portfolio scale.zero_number p).balance
            (optimistic_delta env t.kind (env.parse_float t.amount)))
          (after_event env scale (answers t.id (throws e)) (
            after_events env scale es' (
              after_event env scale
                (has_portfolio i (fetched p))
                (after_events env scale es (after_event env scale (taps t) w)))))
  failure_after_fetch t a es es' i p e w f c k k' kept = fails_waiting t e _ _ (
      events-IsWaiting env scale (new_tx env t) (parse_portfolio scale.zero_number p).balance es' _
        k'
        (portfolio-IsWaiting env scale (new_tx env t) (shown_balance t w.phone.store) i p
          (after_events env scale es (after_event env scale (taps t) w)) kept
          (events-IsWaiting env scale (new_tx env t) (shown_balance t w.phone.store) es
            (after_event env scale (taps t) w) k (tap-IsWaiting t a w f c))))
