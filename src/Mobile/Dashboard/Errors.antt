-- ===== src/Mobile/Dashboard/Errors.antt =====
-- What the dashboard tells of requests that failed.
use veillend.Base.{
  ℕ, Bool, true, false, Option, List, [], ◌∷◌, ◌++◌, ◌≡◌, ◌||◌, ◌∙◌, refl, arith, any, not, ◌&&◌,
  Outcome, ok, err,
}
use veillend.Mobile.Storage.{given}
use veillend.Mobile.Store.Data.{Store}
use veillend.Mobile.Dashboard.{
  Part, of_assets, of_portfolio, of_positions, of_transactions, Fetched, fetched, timed_out,
  aborted, rejected, Scaling, Gathered, gather, gather_all, nothing_gathered, hydrate_dashboard,
  refresh_dashboard, finish_dashboard,
}

-- An answer that is an error, other than an abort; and an abort.
abbrev fetch_failed : {A : Type 0} → Fetched A → Bool
fetch_failed (fetched _) = false
fetch_failed aborted = false
fetch_failed _ = true

abbrev fetch_aborted : {A : Type 0} → Fetched A → Bool
fetch_aborted aborted = true
fetch_aborted _ = false

abbrev outcome_failed : {A : Type 0} → Outcome (Option ℕ) A → Bool
outcome_failed (ok _) = false
outcome_failed (err _) = true

abbrev is_nil : List ℕ → Bool
is_nil [] = true
is_nil (_ ∷ _) = false

module _ {F : Type 0} where
  abbrev pub part_failed : Part F → Bool
  part_failed (of_assets r) = outcome_failed r
  part_failed (of_portfolio r) = fetch_failed r
  part_failed (of_positions r) = outcome_failed r
  part_failed (of_transactions r) = fetch_failed r

  abbrev pub part_aborted : Part F → Bool
  part_aborted (of_assets r) = false
  part_aborted (of_portfolio r) = fetch_aborted r
  part_aborted (of_positions r) = false
  part_aborted (of_transactions r) = fetch_aborted r

abbrev pub shows_error : List ℕ → Bool
shows_error [] = false
shows_error (_ ∷ _) = true

shows_error-push : (es : List ℕ) (m : ℕ) → shows_error (es ++ m ∷ []) ≡ true
shows_error-push [] m = refl
shows_error-push (e ∷ es) m = refl

or_true : (b : Bool) → true ≡ (b || true)
or_true true = refl
or_true false = refl

or-false : (b : Bool) → (b || false) ≡ b
or-false true = refl
or-false false = refl

tail_shown :
    (g : Gathered) (m : ℕ) → shows_error (g.errors ++ m ∷ []) ≡ (shows_error g.errors || true)
tail_shown g m = shows_error-push g.errors m ∙ or_true (shows_error g.errors)

shown_of : {a b c d : Bool} → a ≡ b → c ≡ d → (not a && c) ≡ (not b && d)
shown_of e f = cc

or_assoc : (a b c : Bool) → ((a || b) || c) ≡ (a || (b || c))
or_assoc true b c = refl
or_assoc false b c = refl

module _ {F : Type 0} where
  gather_aborted :
      (x : Part F) (g : Gathered) → (gather x g).any_aborted ≡ (g.any_aborted || part_aborted x)
  unfolding gather
  gather_aborted (of_assets r) g = ground arith
  gather_aborted (of_portfolio r) g = ground arith
  gather_aborted (of_positions r) g = ground arith
  gather_aborted (of_transactions r) g = ground arith

  gather_errors :
      (x : Part F) (g : Gathered)
      → shows_error (gather x g).errors ≡ (shows_error g.errors || part_failed x)
  unfolding gather
  gather_errors (of_assets (ok r)) g = ground (arith, or-false (shows_error g.errors))
  gather_errors (of_assets (err m)) g = tail_shown g _
  gather_errors (of_portfolio (fetched r)) g = ground (arith, or-false (shows_error g.errors))
  gather_errors (of_portfolio timed_out) g = tail_shown g _
  gather_errors (of_portfolio aborted) g = ground (arith, or-false (shows_error g.errors))
  gather_errors (of_portfolio (rejected m)) g = tail_shown g _
  gather_errors (of_positions (ok r)) g = ground (arith, or-false (shows_error g.errors))
  gather_errors (of_positions (err m)) g = tail_shown g _
  gather_errors (of_transactions (fetched r)) g = ground (arith, or-false (shows_error g.errors))
  gather_errors (of_transactions timed_out) g = tail_shown g _
  gather_errors (of_transactions aborted) g = ground (arith, or-false (shows_error g.errors))
  gather_errors (of_transactions (rejected m)) g = tail_shown g _

  gather_all_aborted :
      (xs : List (Part F)) (g : Gathered)
      → (gather_all xs g).any_aborted ≡ (g.any_aborted || any part_aborted xs)
  unfolding gather_all
  gather_all_aborted [] g = ground arith
  gather_all_aborted (x ∷ xs) g =
      rw (gather_all_aborted xs (gather x g), gather_aborted x g)
        (or_assoc g.any_aborted (part_aborted x) (any part_aborted xs))

  gather_all_errors :
      (xs : List (Part F)) (g : Gathered)
      → shows_error (gather_all xs g).errors ≡ (shows_error g.errors || any part_failed xs)
  unfolding gather_all
  gather_all_errors [] g = ground arith
  gather_all_errors (x ∷ xs) g =
      rw (gather_all_errors xs (gather x g), gather_errors x g)
        (or_assoc (shows_error g.errors) (part_failed x) (any part_failed xs))

  finish_error :
      (g : Gathered) (s : Store F)
      → shows_error (finish_dashboard g s).dashboard_error
        ≡ (not g.any_aborted && shows_error g.errors)
  unfolding finish_dashboard
  finish_error g s = ground arith

  gathered_error :
      (parts : List (Part F)) (s : Store F)
      → shows_error (finish_dashboard (gather_all parts nothing_gathered) s).dashboard_error
        ≡ (not (any part_aborted parts) && any part_failed parts)
  gathered_error parts s =
      finish_error (gather_all parts nothing_gathered) s
      ∙ shown_of (gather_all_aborted parts nothing_gathered)
          (gather_all_errors parts nothing_gathered)

  -- A dashboard of a connected wallet that was loaded or refreshed, in whatever order its requests
  -- ended, is no longer loading, and shows an error exactly where a request failed and none was
  -- aborted.
  pub dashboard_error_shown :
      (n : Scaling F) (parts : List (Part F)) (s : Store F)
      → given s.address ≡ true
      → ((hydrate_dashboard n parts s).dashboard_loading ≡ false)
        × (shows_error (hydrate_dashboard n parts s).dashboard_error
            ≡ (not (any part_aborted parts) && any part_failed parts))
        × ((refresh_dashboard n parts s).dashboard_loading ≡ false)
        × (shows_error (refresh_dashboard n parts s).dashboard_error
            ≡ (not (any part_aborted parts) && any part_failed parts))
  unfolding hydrate_dashboard refresh_dashboard
  dashboard_error_shown n parts s there =
      rw there (refl, gathered_error parts s, refl, gathered_error parts s)
