-- ===== src/Mobile/Lock/Gate.antt =====
-- What does not lift the lock.
use veillend.Base.{
  ℕ, ◌==◌, ◌&&◌, Bool, true, false, not, none, some, List, [], ◌∷◌, ◌≡◌, refl, ◌∙◌, ap, arith,
  if◌then◌else◌, All,
}
use veillend.Mobile.Storage.{Key, Storage, get_secure_item}
use veillend.Mobile.Lock.{
  Pins, Prompt, LockState, App, opened, unlock, to_foreground, try_biometrics, try_pin, too_long,
  auto_prompt,
}
use veillend.Mobile.Lock.History.{
  AppEvent, presses_biometrics, prompts_itself, submits_pin, forgets_pin, goes_away, comes_back,
  enrolls_biometrics, enrolls_pin, disables, uses, after_app_event, after_app_events,
}

-- The attempts that fail: a prompt refused, or a PIN whose digest is another than the stored one.
abbrev pub IsFailure : Pins → (salt digest : ℕ) → AppEvent → Type 0
IsFailure env s d (presses_biometrics first second) =
    (try_biometrics first && try_biometrics second) ≡ false
IsFailure env s d (prompts_itself first second) = try_biometrics first ≡ false
IsFailure env s d (submits_pin pin prompt) = (env.hash_pin pin s == d) ≡ false
IsFailure env s d forgets_pin = ⊥
IsFailure env s d _ = Unit

clash : {b : Bool} → b ≡ false → b ≡ true → ⊥
clash e f = cc

second_of : (b c : Bool) → (b && c) ≡ false → b ≡ true → c ≡ false
second_of b c e h = ground arith

last_true : (a b : Bool) → (a && b) ≡ true → b ≡ true
last_true a b e = ground arith

not_locked : (a b c : Bool) → (a && not b && c) ≡ true → b ≡ false
not_locked a b c e = ground arith

module _ {F : Type 0} where
  -- The memory, the items and the lock are as they were.
  pub record IsUntouched (a b : App F) : Type 0 where
    pub phone : b.phone ≡ a.phone
    pub lock : b.lock ≡ a.lock

  if_IsUntouched :
      (b : Bool) {a x y : App F}
      → (b ≡ true → IsUntouched a x)
      → (b ≡ false → IsUntouched a y)
      → IsUntouched a (if b then x else y)
  if_IsUntouched true h g = h refl
  if_IsUntouched false h g = g refl

  itself : (a : App F) → IsUntouched a a
  itself a = record { phone = refl; lock = refl }

  refused-IsUntouched :
      (r : Bool × LockState) (a : App F) → r ≡ (false, a.lock) → IsUntouched a (opened r a)
  unfolding opened
  refused-IsUntouched r a e = rw e (record { phone = refl; lock = refl })

  then-IsUntouched : {a b c : App F} → IsUntouched a b → IsUntouched b c → IsUntouched a c
  then-IsUntouched h g = record { phone = g.phone ∙ h.phone; lock = g.lock ∙ h.lock }

module _ {F : Type 0} (env : Pins) (z : F) where
  second_refused :
      (second : Prompt) (a : App F)
      → a.lock.any_lock_enabled ≡ true
      → try_biometrics second ≡ false
      → unlock env second none a.phone.storage a.lock ≡ (false, a.lock)
  unfolding unlock
  second_refused second a there e = ground arith

  wrong_pin :
      (pin s d : ℕ) (st : Storage)
      → get_secure_item Key.salt st ≡ some s
      → get_secure_item Key.pin_hash st ≡ some d
      → (env.hash_pin pin s == d) ≡ false
      → try_pin env pin st ≡ false
  unfolding try_pin
  wrong_pin pin s d st hs hd e = rw (hs, hd) (ground arith)

  -- The application waits at its gate, with a PIN enrolled.
  pub record IsWaitingFor (salt digest : ℕ) (a : App F) : Type 0 where
    pub locked : a.lock.is_locked ≡ true
    pub there : a.lock.any_lock_enabled ≡ true
    pub salted : get_secure_item Key.salt a.phone.storage ≡ some salt
    pub enrolled : get_secure_item Key.pin_hash a.phone.storage ≡ some digest

  untouched_waits :
      {s d : ℕ} {a b : App F} → IsWaitingFor s d a → IsUntouched a b → IsWaitingFor s d b
  untouched_waits h u = record {
    locked = ap (λ l. l.is_locked) u.lock ∙ h.locked;
    there = ap (λ l. l.any_lock_enabled) u.lock ∙ h.there;
    salted = ap (λ p. get_secure_item Key.salt p.storage) u.phone ∙ h.salted;
    enrolled = ap (λ p. get_secure_item Key.pin_hash p.storage) u.phone ∙ h.enrolled;
  }

  unprompted :
      (first second : Prompt) (a : App F)
      → try_biometrics first ≡ false
      → IsUntouched a (auto_prompt env first second a)
  unfolding auto_prompt
  unprompted first second a k =
      if_IsUntouched (a.lock.biometrics_enabled && try_biometrics first)
        (λ e. absurd (clash k (last_true a.lock.biometrics_enabled _ e))) (λ e. itself a)

  away : (now : ℕ) (a : App F) → a.lock.is_locked ≡ true → IsUntouched a (to_foreground now a)
  unfolding to_foreground
  away now a l =
      if_IsUntouched (a.lock.any_lock_enabled && not a.lock.is_locked && too_long now a.left_at)
        (λ e. absurd (clash (not_locked a.lock.any_lock_enabled a.lock.is_locked _ e) l))
        (λ e. record { phone = refl; lock = refl })

  failure-IsUntouched :
      (s d : ℕ) (e : AppEvent) (a : App F)
      → IsWaitingFor s d a
      → IsFailure env s d e
      → IsUntouched a (after_app_event env z e a)
  unfolding after_app_event
  failure-IsUntouched s d (presses_biometrics first second) a h k =
      if_IsUntouched a.lock.is_locked
        (λ l.
          if_IsUntouched (try_biometrics first)
            (λ f. refused-IsUntouched _ a (
              second_refused second a h.there
                (second_of (try_biometrics first) (try_biometrics second) k f)))
            (λ f. itself a))
        (λ l. itself a)
  failure-IsUntouched s d (prompts_itself first second) a h k =
      if_IsUntouched a.lock.is_locked (λ l. unprompted first second a k) (λ l. itself a)
  failure-IsUntouched s d (submits_pin pin prompt) a h k =
      if_IsUntouched a.lock.is_locked
        (λ l.
          if_IsUntouched (try_pin env pin a.phone.storage)
            (λ t. absurd (clash (wrong_pin pin s d a.phone.storage h.salted h.enrolled k) t))
            (λ t. itself a))
        (λ l. itself a)
  failure-IsUntouched s d forgets_pin a h k = absurd k
  failure-IsUntouched s d (goes_away now) a h k = record { phone = refl; lock = refl }
  failure-IsUntouched s d (comes_back now) a h k = away now a h.locked
  failure-IsUntouched s d (enrolls_biometrics prompt) a h k =
      if_IsUntouched a.lock.is_locked (λ l. itself a) (λ l. absurd (clash l h.locked))
  failure-IsUntouched s d (enrolls_pin pin confirm salt) a h k =
      if_IsUntouched a.lock.is_locked (λ l. itself a) (λ l. absurd (clash l h.locked))
  failure-IsUntouched s d (disables prompt pin) a h k =
      if_IsUntouched a.lock.is_locked (λ l. itself a) (λ l. absurd (clash l h.locked))
  failure-IsUntouched s d (uses c) a h k =
      if_IsUntouched a.lock.is_locked (λ l. itself a) (λ l. absurd (clash l h.locked))

  -- A locked application with a PIN stays locked, with its memory and its items as they were,
  -- through any events whose prompts are refused, whose PINs have another digest than the stored
  -- one, and which do not give the PIN up.
  pub failures_leave_locked :
      (s d : ℕ) (es : List AppEvent) (a : App F)
      → IsWaitingFor s d a
      → All (IsFailure env s d) es
      → IsUntouched a (after_app_events env z es a)
  unfolding after_app_events
  failures_leave_locked s d [] a h k = itself a
  failures_leave_locked s d (e ∷ es) a h (k, ks) =
      let u = failure-IsUntouched s d e a h k in
      then-IsUntouched u
        (failures_leave_locked s d es (after_app_event env z e a) (untouched_waits h u) ks)
