-- ===== src/Mobile/Lock/Enrolled.antt =====
-- What a PIN that was enrolled does at the next launch.
use veillend.Base.{
  ℕ, ◌==◌, ◌&&◌, ◌||◌, Bool, true, false, none, some, ◌≡◌, refl, ◌∙◌, Bool-cases, inl, inr, ==_refl,
}
use veillend.Mobile.Storage.{Key, Storage, get_secure_item, given}
use veillend.Mobile.Store.Data.{initial_store}
use veillend.Mobile.Store.Settings.{hydrate, launch, launch_with, any_lock_enabled, is_true_text}
use veillend.Mobile.Store.Restart.{IsPersisted, settings_of, hydrated_settings}
use veillend.Mobile.Lock.{
  Pins, Prompt, App, submit_pin, enroll_pin, launch_app, try_biometrics, try_pin, pinned,
  wipe_hot_secrets,
}

or_true : (b : Bool) → (b || true) ≡ true
or_true true = refl
or_true false = refl

module _ {F : Type 0} (env : Pins) (z : F) where
  -- The application as a launch leaves it where a PIN is stored.
  abbrev waiting_app : Storage → Bool → App F
  waiting_app st b = record {
    phone = wipe_hot_secrets (launch_with z true st);
    lock = record {
      biometrics_enabled = b;
      pin_enabled = true;
      any_lock_enabled = true;
      is_locked = true;
    };
    left_at = none;
    is_active = true;
  }

  launch_waits :
      (st : Storage)
      → given (get_secure_item Key.pin_hash st) ≡ true
      → launch_app z st ≡ waiting_app st (is_true_text (get_secure_item Key.biometrics_enabled st))
  unfolding launch_app launch any_lock_enabled
  launch_waits st g = elim (Bool-cases (is_true_text (get_secure_item Key.biometrics_enabled st))) [
    | inl e ↦ rw (e, g) refl
    | inr e ↦ rw (e, g) refl
  ]

  right_pin :
      (pin s : ℕ) (st : Storage)
      → env.six_digits pin ≡ true
      → (s == 0) ≡ false
      → (env.hash_pin pin s == 0) ≡ false
      → get_secure_item Key.salt st ≡ some s
      → get_secure_item Key.pin_hash st ≡ some (env.hash_pin pin s)
      → try_pin env pin st ≡ true
  unfolding try_pin
  right_pin pin s st six n m hs hd = rw (six, hs, hd, n, m) (==_refl (env.hash_pin pin s))

  submit_opens :
      (pin : ℕ) (prompt : Prompt) (st : Storage) (b : Bool)
      → try_pin env pin st ≡ true
      → ((submit_pin env pin prompt (waiting_app st b)).lock.is_locked ≡ false)
        × (settings_of (submit_pin env pin prompt (waiting_app st b)).phone.store
            ≡ settings_of (hydrate st (initial_store z)))
  unfolding submit_pin settings_of launch_with wipe_hot_secrets
  submit_opens pin prompt st b e = rw (e, or_true (b && try_biometrics prompt)) (refl, refl)

  pinned-IsPersisted :
      (pin salt : ℕ) (a : App F) → IsPersisted a.phone → IsPersisted (pinned env pin salt a).phone
  unfolding pinned
  pinned-IsPersisted pin salt a h = record {
    address = h.address;
    auth_token = h.auth_token;
    session_id = h.session_id;
    name = h.name;
    image = h.image;
    privacy = h.privacy;
    currency = h.currency;
    notifications = h.notifications;
  }

  -- What the next launch and the PIN find.
  pub record Reopens (pin : ℕ) (prompt : Prompt) (a next : App F) : Type 0 where
    pub locked : next.lock.is_locked ≡ true
    pub lifted : (submit_pin env pin prompt next).lock.is_locked ≡ false
    pub restored :
        settings_of (submit_pin env pin prompt next).phone.store ≡ settings_of a.phone.store

  pinned-Reopens :
      (pin salt : ℕ) (prompt : Prompt) (a : App F)
      → env.six_digits pin ≡ true
      → (salt == 0) ≡ false
      → (env.hash_pin pin salt == 0) ≡ false
      → IsPersisted a.phone
      → Reopens pin prompt a (launch_app z (pinned env pin salt a).phone.storage)
  unfolding pinned
  pinned-Reopens pin salt prompt a six n m h =
      let st = (pinned env pin salt a).phone.storage in
      let opens =
        submit_opens pin prompt st (is_true_text (get_secure_item Key.biometrics_enabled st))
          (right_pin pin salt st six n m refl refl) in
      rw (launch_waits st (rw m refl)) (record {
        locked = refl;
        lifted = opens.0;
        restored =
            opens.1
            ∙ hydrated_settings z (pinned env pin salt a).phone (pinned-IsPersisted pin salt a h);
      })

  -- A PIN of six digits that was enrolled and confirmed locks the next launch; the PIN lifts the
  -- lock, and the session and the settings are those of the application that enrolled it, where the
  -- device held them, and where the salt and the digest are not empty.
  pub enrolled_pin_opens :
      (pin salt : ℕ) (prompt : Prompt) (a : App F)
      → env.six_digits pin ≡ true
      → (salt == 0) ≡ false
      → (env.hash_pin pin salt == 0) ≡ false
      → IsPersisted a.phone
      → Reopens pin prompt a (launch_app z (enroll_pin env pin pin salt a).1.phone.storage)
  unfolding enroll_pin
  enrolled_pin_opens pin salt prompt a six n m h =
      rw (six, ==_refl pin) (pinned-Reopens pin salt prompt a six n m h)
