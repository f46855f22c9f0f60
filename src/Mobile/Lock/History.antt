-- ===== src/Mobile/Lock/History.antt =====
-- What happens to the application and its lock: what the gate, the device and the screens behind the
-- gate do, as the steps of a history.
use veillend.Base.{ℕ, Option, List, [], ◌∷◌, if◌then◌else◌}
use veillend.Mobile.Store.Calls.{SettingsCall, after_setting}
use veillend.Mobile.Lock.{
  Pins, Prompt, App, press_biometrics, auto_prompt, submit_pin, forgot_pin, to_background,
  to_foreground, enroll_biometrics, enroll_pin, disable_lock,
}

pub data AppEvent : Type 0 where
  presses_biometrics prompts_itself : (first second : Prompt) → AppEvent
  submits_pin : (pin : ℕ) → Prompt → AppEvent
  forgets_pin : AppEvent
  goes_away comes_back : (now : ℕ) → AppEvent
  enrolls_biometrics : Prompt → AppEvent
  enrolls_pin : (pin confirm salt : ℕ) → AppEvent
  disables : Prompt → Option ℕ → AppEvent
  uses : SettingsCall → AppEvent

module _ {F : Type 0} (env : Pins) (z : F) where
  -- The screens behind the gate are there only while it is lifted.
  abbrev behind_gate : (App F → App F) → App F → App F
  behind_gate f a = if a.lock.is_locked then a else f a

  unfoldable pub after_app_event : AppEvent → App F → App F
  unfolding press_biometrics auto_prompt submit_pin forgot_pin to_background to_foreground
      enroll_biometrics enroll_pin disable_lock
  after_app_event (presses_biometrics first second) a =
      if a.lock.is_locked then press_biometrics env first second a else a
  after_app_event (prompts_itself first second) a =
      if a.lock.is_locked then auto_prompt env first second a else a
  after_app_event (submits_pin pin prompt) a =
      if a.lock.is_locked then submit_pin env pin prompt a else a
  after_app_event forgets_pin a = if a.lock.is_locked then forgot_pin a else a
  after_app_event (goes_away now) a = to_background now a
  after_app_event (comes_back now) a = to_foreground now a
  after_app_event (enrolls_biometrics prompt) a =
      behind_gate (λ x. (enroll_biometrics prompt x).1) a
  after_app_event (enrolls_pin pin confirm salt) a =
      behind_gate (λ x. (enroll_pin env pin confirm salt x).1) a
  after_app_event (disables prompt pin) a = behind_gate (λ x. (disable_lock env prompt pin x).1) a
  after_app_event (uses c) a = behind_gate (λ x. record x { phone = after_setting z c x.phone }) a

  unfoldable pub after_app_events : List AppEvent → App F → App F
  unfolding after_app_event
  after_app_events [] a = a
  after_app_events (e ∷ es) a = after_app_events es (after_app_event e a)
