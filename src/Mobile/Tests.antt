-- ===== src/Mobile/Tests.antt =====
-- One concrete run of each theorem on the store, the dashboard, the PIN and the amount.
mod Lending
mod Lock
use veillend.Base.{
  ℕ, ◌+◌, ◌*◌, ◌^◌, ◌≤◌, ◌<◌, Bool, true, false, Option, none, some, List, [], ◌∷◌, ◌++◌, ◌≡◌, ◌↔◌,
  refl, inl, All, arith, ltb, ℤ, pos, ◌+ℤ◌, any, not, ◌&&◌, ok, err, if◌then◌else◌, ◌==◌,
}
use veillend.Mobile.Storage.{
  Key, Storage, empty_storage, given, get_secure_item, set_secure_item, wipe_all_secure_items,
}
use veillend.Mobile.Store.Data.{Store, Phone, initial_store, usd}
use veillend.Mobile.Store.Settings.{
  verified, launch, or_null, is_true_text, patched_text, patched_flag, any_lock_enabled,
}
use veillend.Mobile.Store.Restart.{IsPersisted, IsComplete, settings_of, settings_survive_restart}
use veillend.Mobile.Store.Calls.{
  SettingsCall, sets_profile_name, toggles_privacy_mode, sets_currency, authenticates, logs_out,
  after_settings, reopened,
}
use veillend.Mobile.Store.SignedOut.{IsSignedOut, IsNoLogin, IsSignedOut-stays}
use veillend.Mobile.Dashboard.{
  Part, of_assets, of_portfolio, of_positions, of_transactions, timed_out, aborted, fetched,
  Scaling, hydrate_dashboard, refresh_dashboard,
}
use veillend.Mobile.Dashboard.Errors.{part_failed, part_aborted, shows_error, dashboard_error_shown}
use veillend.Mobile.Pin.{Digests, hash_pin, verify_pin}
use veillend.Mobile.Pin.Compare.{IsAscii, verify_pin_iff}
use veillend.Mobile.Amount.{dot, to_scaled_big_int}
use veillend.Mobile.Amount.Floor.{decimal, to_scaled-IsFloor}

-- The numbers of these runs are whole.
abbrev zero_balance : ℕ
zero_balance = 0

abbrev fresh : Phone ℕ
fresh = record { store = initial_store zero_balance; storage = empty_storage }

fresh-IsPersisted : IsPersisted fresh
unfolding or_null is_true_text patched_text patched_flag
fresh-IsPersisted = record {
  address = refl;
  auth_token = refl;
  session_id = refl;
  name = refl;
  image = refl;
  privacy = refl;
  currency = refl;
  notifications = refl;
}

abbrev a_session : List SettingsCall
a_session =
    authenticates 70 (verified (some 500) (some 20))
    ∷ sets_profile_name (some 33)
    ∷ toggles_privacy_mode
    ∷ sets_currency 44
    ∷ []

settings_survive_restart_example :
    settings_of (reopened zero_balance (after_settings zero_balance a_session fresh).storage).store
    ≡ settings_of (after_settings zero_balance a_session fresh).store
settings_survive_restart_example =
    settings_survive_restart zero_balance a_session fresh
      ((refl, refl, refl), (tt, (tt, (refl, tt)))) fresh-IsPersisted

-- The session is there again.
token_restored :
    (reopened zero_balance (after_settings zero_balance a_session fresh).storage).store.auth_token
    ≡ some 500
unfolding reopened after_settings any_lock_enabled
token_restored = refl

IsSignedOut-stays_example :
    IsSignedOut (after_settings zero_balance (logs_out ∷ toggles_privacy_mode ∷ []) fresh)
    × IsSignedOut (
        reopened zero_balance
          (after_settings zero_balance (logs_out ∷ toggles_privacy_mode ∷ []) fresh).storage)
IsSignedOut-stays_example =
    IsSignedOut-stays zero_balance logs_out (toggles_privacy_mode ∷ []) fresh (inl refl) (tt, tt)

abbrev whole_numbers : Scaling ℕ
whole_numbers = record {
  number = λ n. n;
  is_finite = λ n. true;
  div_1e7 = λ n. n;
  zero_number = zero_balance;
}

abbrev connected : Store ℕ
connected = record (initial_store zero_balance) { address = some 70 }

-- The portfolio times out, and the positions fail before it.
abbrev two_fail : List (Part ℕ)
two_fail =
    of_assets (ok [])
    ∷ of_positions (err (some 90))
    ∷ of_portfolio timed_out
    ∷ of_transactions (fetched [])
    ∷ []

dashboard_error_shown_example :
    ((hydrate_dashboard whole_numbers two_fail connected).dashboard_loading ≡ false)
    × (shows_error (hydrate_dashboard whole_numbers two_fail connected).dashboard_error
        ≡ (not (any part_aborted two_fail) && any part_failed two_fail))
    × ((refresh_dashboard whole_numbers two_fail connected).dashboard_loading ≡ false)
    × (shows_error (refresh_dashboard whole_numbers two_fail connected).dashboard_error
        ≡ (not (any part_aborted two_fail) && any part_failed two_fail))
dashboard_error_shown_example = dashboard_error_shown whole_numbers two_fail connected refl

-- A digest that keeps the hexadecimal digits of its input.
abbrev keep_digits : Digests
keep_digits = record { digest_hex = λ cs. []; encode = λ cs. cs; to_hex = λ cs. b'a' ∷ b'0' ∷ [] }

digest-IsAscii : IsAscii (hash_pin keep_digits (b'1' ∷ []) (b'0' ∷ b'f' ∷ []))
unfolding hash_pin
digest-IsAscii = omega arith

verify_pin_iff_example :
    (verify_pin keep_digits (b'1' ∷ []) (b'0' ∷ b'f' ∷ []) (b'a' ∷ b'0' ∷ []) ≡ true)
    ↔ (hash_pin keep_digits (b'1' ∷ []) (b'0' ∷ b'f' ∷ []) ≡ b'a' ∷ b'0' ∷ [])
verify_pin_iff_example =
    verify_pin_iff keep_digits (b'1' ∷ []) (b'0' ∷ b'f' ∷ []) (b'a' ∷ b'0' ∷ []) digest-IsAscii
      (omega arith)

-- 12.345 with two decimals.
to_scaled-IsFloor_example :
    (n : ℕ) × (to_scaled_big_int
        (λ e. 10 ^ e)
        ((b'1' ∷ b'2' ∷ []) ++ dot ∷ b'3' ∷ b'4' ∷ b'5' ∷ [])
        2
      ≡ some (pos n))
    × (n * 10 ^ 3 ≤ decimal (b'1' ∷ b'2' ∷ b'3' ∷ b'4' ∷ b'5' ∷ []) * 10 ^ 2)
    × (decimal (b'1' ∷ b'2' ∷ b'3' ∷ b'4' ∷ b'5' ∷ []) * 10 ^ 2 < (n + 1) * 10 ^ 3)
to_scaled-IsFloor_example =
    to_scaled-IsFloor (λ e. 10 ^ e) (b'1' ∷ b'2' ∷ []) (b'3' ∷ b'4' ∷ b'5' ∷ []) 2 (λ e few. refl)
      (omega arith) (omega arith) (omega arith)

scaled_down :
    to_scaled_big_int (λ e. 10 ^ e) (b'1' ∷ b'2' ∷ dot ∷ b'3' ∷ b'4' ∷ b'5' ∷ []) 2
    ≡ some (pos 1234)
unfolding to_scaled_big_int ◌+ℤ◌
scaled_down = refl
