-- ===== src/Mobile/Lock/Sealed.antt =====
-- What a locked application holds, and what lifts the lock.
use veillend.Base.{
  ℕ, ◌&&◌, Bool, true, false, not, Option, none, some, List, [], ◌∷◌, ◌≡◌, refl, arith,
  if◌then◌else◌, Bool-cases, inl, inr, All,
}
use veillend.Mobile.Storage.{Storage}
use veillend.Mobile.Store.Data.{Store}
use veillend.Mobile.Lock.{
  Pins, Prompt, LockState, App, opened, unlock, authenticated, lock_now, to_foreground,
  enroll_biometrics, enroll_pin, disable_lock, forgot_pin, launch_app, try_biometrics, try_pin,
  too_long, auto_prompt,
}
use veillend.Mobile.Lock.History.{
  AppEvent, presses_biometrics, prompts_itself, submits_pin, forgets_pin, goes_away, comes_back,
  enrolls_biometrics, enrolls_pin, disables, uses, after_app_event, after_app_events,
}

-- A locked application holds no token, no address and no session id.
pub record HoldsNothing {F : Type 0} (s : Store F) : Type 0 where
  pub token : s.auth_token ≡ none
  pub address : s.address ≡ none
  pub session : s.session_id ≡ none

-- While it is locked, a lock is there to lift.
pub record IsSealed {F : Type 0} (a : App F) : Type 0 where
  pub holds :
      a.lock.is_locked ≡ true → HoldsNothing a.phone.store × (a.lock.any_lock_enabled ≡ true)

-- No prompt that the gate showed of itself was confirmed at first and refused the second time.
abbrev pub IsNotTorn : AppEvent → Type 0
IsNotTorn (prompts_itself first second) =
    (try_biometrics first && not (try_biometrics second)) ≡ false
IsNotTorn _ = Unit

apart : {b : Bool} → b ≡ false → b ≡ true → ⊥
apart e f = cc

not-true : {b : Bool} → not b ≡ true → b ≡ false
not-true {b = true} e = cc
not-true {b = false} e = refl

second_not : (a b c : Bool) → (a && not b && c) ≡ true → b ≡ false
second_not a b c e = ground arith

both_first : (a b : Bool) → (a && b) ≡ true → a ≡ true
both_first a b e = ground arith

then_second : (a b c : Bool) → (a && b) ≡ true → (b && not c) ≡ false → c ≡ true
then_second a b c e k = ground arith

lock_now_kept :
    (l : LockState)
    → (lock_now l).is_locked ≡ true
    → l.is_locked ≡ false
    → (lock_now l).any_lock_enabled ≡ true
unfolding lock_now
lock_now_kept l h e = ground arith

module _ {F : Type 0} where
  enroll_biometrics_open :
      (prompt : Prompt) (a : App F)
      → a.lock.is_locked ≡ false
      → (enroll_biometrics prompt a).1.lock.is_locked ≡ false
  unfolding enroll_biometrics
  enroll_biometrics_open prompt a e = ground arith

  enroll_pin_open :
      (env : Pins) (pin confirm salt : ℕ) (a : App F)
      → a.lock.is_locked ≡ false
      → (enroll_pin env pin confirm salt a).1.lock.is_locked ≡ false
  unfolding enroll_pin
  enroll_pin_open env pin confirm salt a e = ground arith

  disable_lock_open :
      (env : Pins) (prompt : Prompt) (pin : Option ℕ) (a : App F)
      → a.lock.is_locked ≡ false
      → (disable_lock env prompt pin a).1.lock.is_locked ≡ false
  unfolding disable_lock
  disable_lock_open env prompt pin a e = ground arith

  if_IsSealed :
      (b : Bool) {x y : App F}
      → (b ≡ true → IsSealed x)
      → (b ≡ false → IsSealed y)
      → IsSealed (if b then x else y)
  if_IsSealed true h g = h refl
  if_IsSealed false h g = g refl

  if_opened :
      (b : Bool) (r r' : Bool × LockState) (a : App F)
      → (b ≡ true → IsSealed (opened r a))
      → (b ≡ false → IsSealed (opened r' a))
      → IsSealed (opened (if b then r else r') a)
  if_opened true r r' a h g = h refl
  if_opened false r r' a h g = g refl

  open-IsSealed : (a : App F) → a.lock.is_locked ≡ false → IsSealed a
  open-IsSealed a lifted = record { holds = λ locked. absurd (apart lifted locked) }

  -- A lock that is not there is not locked.
  missing_sealed :
      (a : App F) → IsSealed a → a.lock.any_lock_enabled ≡ false → a.lock.is_locked ≡ false
  missing_sealed a h e = elim (Bool-cases a.lock.is_locked) [
    | inl l ↦ absurd (apart e (h.holds l).1)
    | inr l ↦ l
  ]

module _ {F : Type 0} (env : Pins) where
  -- What an attempt at the gate leaves: the gate as it was, or an application that is not locked.
  opened-IsSealed :
      (prompt : Prompt) (pin : Option ℕ) (a : App F)
      → IsSealed a
      → IsSealed (opened (unlock env prompt pin a.phone.storage a.lock) a)
  unfolding opened unlock
  opened-IsSealed prompt pin a h =
      if_opened (not a.lock.any_lock_enabled) (true, a.lock) _ a
        (λ e. open-IsSealed _ (missing_sealed a h (not-true e)))
        (λ there.
          if_opened (authenticated env prompt pin a.lock a.phone.storage)
            (true, record (a.lock) { is_locked = false }) (false, a.lock) a
            (λ e. open-IsSealed _ refl) (λ e. h))

  -- A second prompt that is confirmed lifts the lock.
  confirmed_open :
      (second : Prompt) (a : App F)
      → IsSealed a
      → a.lock.biometrics_enabled ≡ true
      → try_biometrics second ≡ true
      → (unlock env second none a.phone.storage a.lock).1.is_locked ≡ false
  unfolding unlock
  confirmed_open second a h b e = elim (Bool-cases a.lock.any_lock_enabled) [
    | inl there ↦ ground arith
    | inr n ↦ let lifted = missing_sealed a h n in ground arith
  ]

  auto_prompt-IsSealed :
      (first second : Prompt) (a : App F)
      → IsSealed a
      → (try_biometrics first && not (try_biometrics second)) ≡ false
      → IsSealed (auto_prompt env first second a)
  unfolding auto_prompt
  auto_prompt-IsSealed first second a h k =
      if_IsSealed (a.lock.biometrics_enabled && try_biometrics first)
        (λ e. open-IsSealed _ (
          confirmed_open second a h (both_first a.lock.biometrics_enabled _ e)
            (then_second a.lock.biometrics_enabled (try_biometrics first) _ e k)))
        (λ e. h)

  to_foreground-IsSealed : (now : ℕ) (a : App F) → IsSealed a → IsSealed (to_foreground now a)
  unfolding to_foreground
  to_foreground-IsSealed now a h =
      if_IsSealed (a.lock.any_lock_enabled && not a.lock.is_locked && too_long now a.left_at)
        (λ e. record {
          holds = λ locked. (
            record { token = refl; address = refl; session = refl },
            lock_now_kept a.lock locked
                (second_not a.lock.any_lock_enabled a.lock.is_locked (too_long now a.left_at) e),
          );
        })
        (λ e. record { holds = h.holds })

  event-IsSealed :
      (z : F) (e : AppEvent) (a : App F)
      → IsNotTorn e
      → IsSealed a
      → IsSealed (after_app_event env z e a)
  unfolding after_app_event
  event-IsSealed z (presses_biometrics first second) a k h =
      if_IsSealed a.lock.is_locked
        (λ l. if_IsSealed (try_biometrics first) (λ e. opened-IsSealed second none a h) (λ e. h))
        (λ l. h)
  event-IsSealed z (prompts_itself first second) a k h =
      if_IsSealed a.lock.is_locked (λ l. auto_prompt-IsSealed first second a h k) (λ l. h)
  event-IsSealed z (submits_pin pin prompt) a k h =
      if_IsSealed a.lock.is_locked
        (λ l.
          if_IsSealed (try_pin env pin a.phone.storage) (λ e. opened-IsSealed prompt (some pin) a h)
            (λ e. h))
        (λ l. h)
  event-IsSealed z forgets_pin a k h =
      if_IsSealed a.lock.is_locked (λ l. open-IsSealed (forgot_pin a) refl) (λ l. h)
  event-IsSealed z (goes_away now) a k h = record { holds = h.holds }
  event-IsSealed z (comes_back now) a k h = to_foreground-IsSealed now a h
  event-IsSealed z (enrolls_biometrics prompt) a k h =
      if_IsSealed a.lock.is_locked (λ l. h)
        (λ l. open-IsSealed _ (enroll_biometrics_open prompt a l))
  event-IsSealed z (enrolls_pin pin confirm salt) a k h =
      if_IsSealed a.lock.is_locked (λ l. h)
        (λ l. open-IsSealed _ (enroll_pin_open env pin confirm salt a l))
  event-IsSealed z (disables prompt pin) a k h =
      if_IsSealed a.lock.is_locked (λ l. h)
        (λ l. open-IsSealed _ (disable_lock_open env prompt pin a l))
  event-IsSealed z (uses c) a k h = if_IsSealed a.lock.is_locked (λ l. h) (λ l. open-IsSealed _ l)

  events-IsSealed :
      (z : F) (es : List AppEvent) (a : App F)
      → All IsNotTorn es
      → IsSealed a
      → IsSealed (after_app_events env z es a)
  unfolding after_app_events
  events-IsSealed z [] a k h = h
  events-IsSealed z (e ∷ es) a (k, ks) h =
      events-IsSealed z es (after_app_event env z e a) ks (event-IsSealed z e a k h)

  launch-IsSealed : (z : F) (st : Storage) → IsSealed (launch_app z st)
  unfolding launch_app
  launch-IsSealed z st = record {
    holds = λ locked. (rw locked (record { token = refl; address = refl; session = refl }), locked);
  }

  -- After a launch and any events of the application, the store holds no token, no address and no
  -- session id while it is locked, where no prompt that the gate showed of itself was confirmed at
  -- first and refused the second time.
  pub locked-HoldsNothing :
      (z : F) (st : Storage) (es : List AppEvent)
      → All IsNotTorn es
      → (after_app_events env z es (launch_app z st)).lock.is_locked ≡ true
      → HoldsNothing (after_app_events env z es (launch_app z st)).phone.store
  locked-HoldsNothing z st es k locked =
      ((events-IsSealed z es (launch_app z st) k (launch-IsSealed z st)).holds locked).0
