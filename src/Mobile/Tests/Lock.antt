-- ===== src/Mobile/Tests/Lock.antt =====
-- One concrete run of each theorem on the lock.
use veillend.Base.{◌+◌, true, false, none, some, [], ◌∷◌, ◌≡◌, refl, ℤ, pos}
use veillend.Mobile.Storage.{Key, Storage, empty_storage, set_secure_item}
use veillend.Mobile.Store.Data.{initial_store, true_text}
use veillend.Mobile.Store.Settings.{
  any_lock_enabled, or_null, is_true_text, patched_text, patched_flag,
}
use veillend.Mobile.Store.Restart.{IsPersisted}
use veillend.Mobile.Lock.{Pins, Prompt, App, launch_app, enroll_pin}
use veillend.Mobile.Lock.History.{
  after_app_event, after_app_events, presses_biometrics, prompts_itself, submits_pin, goes_away,
  comes_back,
}
use veillend.Mobile.Lock.Sealed.{HoldsNothing, locked-HoldsNothing}
use veillend.Mobile.Lock.Gate.{IsWaitingFor, IsUntouched, failures_leave_locked}
use veillend.Mobile.Lock.Torn.{torn_prompt_leaks}
use veillend.Mobile.Lock.Enrolled.{Reopens, enrolled_pin_opens}

abbrev pins : Pins
pins = record { six_digits = λ pin. true; hash_pin = λ pin salt. pin + salt }

abbrev granted : Prompt
granted = record { has_hardware = true; is_enrolled = true; succeeds = true; has_types = true }

abbrev denied : Prompt
denied = record { has_hardware = true; is_enrolled = true; succeeds = false; has_types = true }

-- A token is stored, and a PIN.
abbrev items : Storage
items =
    set_secure_item Key.auth_token 500
      (set_secure_item Key.salt 7 (set_secure_item Key.pin_hash 1007 empty_storage))

locked_example_state :
    (after_app_events pins
      (pos 0)
      (submits_pin 1001 denied ∷ prompts_itself granted granted ∷ goes_away 5 ∷ [])
      (launch_app (pos 0) items)).lock.is_locked
    ≡ true
unfolding after_app_events launch_app any_lock_enabled
locked_example_state = refl

locked-HoldsNothing_example :
    HoldsNothing
      (after_app_events pins
        (pos 0)
        (submits_pin 1001 denied ∷ prompts_itself granted granted ∷ goes_away 5 ∷ [])
        (launch_app (pos 0) items)).phone.store
locked-HoldsNothing_example =
    locked-HoldsNothing pins (pos 0) items
      (submits_pin 1001 denied ∷ prompts_itself granted granted ∷ goes_away 5 ∷ [])
      (tt, (refl, (tt, tt))) locked_example_state

waits : IsWaitingFor pins (pos 0) 7 1007 (launch_app (pos 0) items)
unfolding launch_app any_lock_enabled
waits = record { locked = refl; there = refl; salted = refl; enrolled = refl }

failures_leave_locked_example : IsUntouched (launch_app (pos 0) items) (
    after_app_events pins
      (pos 0)
      (submits_pin 1001 granted ∷ presses_biometrics granted denied ∷ comes_back 90000 ∷ [])
      (launch_app (pos 0) items))
failures_leave_locked_example =
    failures_leave_locked pins (pos 0) 7 1007
      (submits_pin 1001 granted ∷ presses_biometrics granted denied ∷ comes_back 90000 ∷ [])
      (launch_app (pos 0) items) waits (refl, (refl, (tt, tt)))

abbrev opened_app : App ℤ
opened_app = record {
  phone = record { store = initial_store (pos 0); storage = empty_storage };
  lock = record {
    biometrics_enabled = false;
    pin_enabled = false;
    any_lock_enabled = false;
    is_locked = false;
  };
  left_at = none;
  is_active = true;
}

opened-IsPersisted : IsPersisted opened_app.phone
unfolding or_null is_true_text patched_text patched_flag
opened-IsPersisted = record {
  address = refl;
  auth_token = refl;
  session_id = refl;
  name = refl;
  image = refl;
  privacy = refl;
  currency = refl;
  notifications = refl;
}

enrolled_pin_opens_example :
    Reopens pins
      (pos 0)
      1000
      denied
      opened_app
      (launch_app (pos 0) (enroll_pin pins 1000 1000 7 opened_app).1.phone.storage)
enrolled_pin_opens_example =
    enrolled_pin_opens pins (pos 0) 1000 7 denied opened_app refl refl refl opened-IsPersisted

-- A lock by biometrics over a stored token.
abbrev guarded_items : Storage
guarded_items =
    set_secure_item Key.auth_token 500
      (set_secure_item Key.biometrics_enabled true_text empty_storage)

torn_prompt_leaks_example :
    ((after_app_event pins
        (pos 0)
        (prompts_itself granted denied)
        (launch_app (pos 0) guarded_items)).lock.is_locked
      ≡ true)
    × ((after_app_event pins
          (pos 0)
          (prompts_itself granted denied)
          (launch_app (pos 0) guarded_items)).phone.store.auth_token
        ≡ some 500)
unfolding launch_app any_lock_enabled
torn_prompt_leaks_example =
    torn_prompt_leaks pins (pos 0) granted denied 500 (launch_app (pos 0) guarded_items) refl refl
      refl refl refl refl refl
