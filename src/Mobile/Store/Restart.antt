-- ===== src/Mobile/Store/Restart.antt =====
-- What a launch restores of the session and the settings.
use veillend.Base.{
  ℕ, ◌==◌, ◌||◌, Bool, true, false, Option, none, some, List, [], ◌∷◌, ◌≡◌, refl, ◌∙◌, arith, All,
}
use veillend.Mobile.Storage.{Key, Storage, get_secure_item, given}
use veillend.Mobile.Store.Data.{Store, Phone, usd, initial_store}
use veillend.Mobile.Store.Settings.{
  VerifyReply, verified, refused, or_null, patched, patched_text, is_true_text, patched_flag,
  set_profile_name, set_profile_image, toggle_privacy_mode, set_currency, set_notifications_enabled,
  authenticate, logout, wipe_all_local_state, hydrate, trigger_hydration_after_unlock,
  any_lock_enabled, launch, launch_with,
}
use veillend.Mobile.Store.Calls.{
  SettingsCall, after_setting, after_settings, authenticates, hydrates, lifted, logs_out, reopened,
  sets_currency, sets_notifications, sets_profile_image, sets_profile_name, toggles_privacy_mode,
  wipes,
}

-- A currency has a code, and an accepted login an address, a token and a session id.
abbrev pub IsComplete : SettingsCall → Type 0
IsComplete (sets_currency c) = (c == 0) ≡ false
IsComplete (authenticates wallet (verified t s)) =
    ((wallet == 0) ≡ false) × (given t ≡ true) × (given s ≡ true)
IsComplete _ = Unit

-- The items hold what the store holds, an empty text standing for none.
pub record IsPersisted {F : Type 0} (p : Phone F) : Type 0 where
  pub address : or_null (get_secure_item Key.address p.storage) ≡ or_null p.store.address
  pub auth_token : or_null (get_secure_item Key.auth_token p.storage) ≡ or_null p.store.auth_token
  pub session_id : or_null (get_secure_item Key.session_id p.storage) ≡ or_null p.store.session_id
  pub name : or_null (get_secure_item Key.profile_name p.storage) ≡ or_null p.store.profile_name
  pub image : or_null (get_secure_item Key.profile_image p.storage) ≡ or_null p.store.profile_image
  pub privacy :
      is_true_text (get_secure_item Key.is_privacy_mode p.storage) ≡ p.store.is_privacy_mode
  pub currency : patched_text (get_secure_item Key.currency p.storage) usd ≡ p.store.currency
  pub notifications :
      patched_flag (get_secure_item Key.notifications_enabled p.storage) true
      ≡ p.store.notifications_enabled

-- The session and the settings, as the screens read them.
pub record Settings : Type 0 where
  pub address : Option ℕ
  pub auth_token : Option ℕ
  pub session_id : Option ℕ
  pub name : Option ℕ
  pub image : Option ℕ
  pub privacy : Bool
  pub currency : ℕ
  pub notifications : Bool

unfoldable pub settings_of : {F : Type 0} → Store F → Settings
unfolding or_null
settings_of s = record {
  address = or_null s.address;
  auth_token = or_null s.auth_token;
  session_id = or_null s.session_id;
  name = or_null s.profile_name;
  image = or_null s.profile_image;
  privacy = s.is_privacy_mode;
  currency = s.currency;
  notifications = s.notifications_enabled;
}

patched-or_null :
    (stored held : Option ℕ)
    → or_null stored ≡ or_null held
    → or_null stored ≡ or_null (patched stored held)
unfolding or_null patched
patched-or_null none held h = h
patched-or_null (some v) held h = ground arith

patched_text-again :
    (o : Option ℕ) (c : ℕ) → patched_text o usd ≡ c → patched_text o usd ≡ patched_text o c
unfolding patched_text
patched_text-again none c h = h
patched_text-again (some v) c h = ground arith

patched_flag-again :
    (o : Option ℕ) (b : Bool) → patched_flag o true ≡ b → patched_flag o true ≡ patched_flag o b
unfolding patched_flag
patched_flag-again none b h = h
patched_flag-again (some v) b h = refl

or_null-patched : (o : Option ℕ) → or_null (patched o none) ≡ or_null o
unfolding or_null patched
or_null-patched none = refl
or_null-patched (some v) = ground arith

or-false : (b : Bool) → (b || false) ≡ b
or-false true = refl
or-false false = refl

or-absorbs : (a b : Bool) → a ≡ b → a ≡ (a || b)
or-absorbs true b h = refl
or-absorbs false b h = h

module _ {F : Type 0} where
  set_profile_name-IsPersisted :
      (n : Option ℕ) (p : Phone F) → IsPersisted p → IsPersisted (set_profile_name n p)
  unfolding set_profile_name or_null
  set_profile_name-IsPersisted none p h = ground arith
  set_profile_name-IsPersisted (some n) p h = ground arith

  set_profile_image-IsPersisted :
      (n : Option ℕ) (p : Phone F) → IsPersisted p → IsPersisted (set_profile_image n p)
  unfolding set_profile_image or_null
  set_profile_image-IsPersisted none p h = ground arith
  set_profile_image-IsPersisted (some n) p h = ground arith

  toggle_privacy_mode-IsPersisted :
      (p : Phone F) → IsPersisted p → IsPersisted (toggle_privacy_mode p)
  unfolding toggle_privacy_mode is_true_text
  toggle_privacy_mode-IsPersisted p h = ground arith

  set_currency-IsPersisted :
      (c : ℕ) (p : Phone F) → (c == 0) ≡ false → IsPersisted p → IsPersisted (set_currency c p)
  unfolding set_currency patched_text
  set_currency-IsPersisted c p given h = ground arith

  set_notifications-IsPersisted :
      (b : Bool) (p : Phone F) → IsPersisted p → IsPersisted (set_notifications_enabled b p)
  unfolding set_notifications_enabled patched_flag
  set_notifications-IsPersisted true p h = ground arith
  set_notifications-IsPersisted false p h = ground arith

  authenticate-IsPersisted :
      (w : ℕ) (r : VerifyReply) (p : Phone F)
      → IsComplete (authenticates w r)
      → IsPersisted p
      → IsPersisted (authenticate w r p)
  unfolding authenticate or_null
  authenticate-IsPersisted w refused p c h = ground arith
  authenticate-IsPersisted w (verified none s) p c h = ground arith
  authenticate-IsPersisted w (verified (some t) none) p c h = ground arith
  authenticate-IsPersisted w (verified (some t) (some s)) p c h = ground arith

  logout-IsPersisted : (p : Phone F) → IsPersisted (logout p)
  unfolding logout or_null is_true_text patched_text patched_flag
  logout-IsPersisted p = ground arith

  wipe-IsPersisted : (z : F) (p : Phone F) → IsPersisted (wipe_all_local_state z p)
  unfolding wipe_all_local_state or_null is_true_text patched_text patched_flag
  wipe-IsPersisted z p = ground arith

  hydrate-IsPersisted :
      (p : Phone F) → IsPersisted p → IsPersisted (trigger_hydration_after_unlock p)
  unfolding trigger_hydration_after_unlock
  hydrate-IsPersisted p h = record {
    address = patched-or_null _ _ h.address;
    auth_token = patched-or_null _ _ h.auth_token;
    session_id = patched-or_null _ _ h.session_id;
    name = patched-or_null _ _ h.name;
    image = patched-or_null _ _ h.image;
    privacy = or-absorbs _ _ h.privacy;
    currency = patched_text-again (get_secure_item Key.currency p.storage) _ h.currency;
    notifications =
        patched_flag-again (get_secure_item Key.notifications_enabled p.storage) _ h.notifications;
  }

  after_setting-IsPersisted :
      (z : F) (c : SettingsCall) (p : Phone F)
      → IsComplete c
      → IsPersisted p
      → IsPersisted (after_setting z c p)
  unfolding after_setting
  after_setting-IsPersisted z (sets_profile_name n) p c h = set_profile_name-IsPersisted n p h
  after_setting-IsPersisted z (sets_profile_image n) p c h = set_profile_image-IsPersisted n p h
  after_setting-IsPersisted z toggles_privacy_mode p c h = toggle_privacy_mode-IsPersisted p h
  after_setting-IsPersisted z (sets_currency k) p c h = set_currency-IsPersisted k p c h
  after_setting-IsPersisted z (sets_notifications b) p c h = set_notifications-IsPersisted b p h
  after_setting-IsPersisted z (authenticates w r) p c h = authenticate-IsPersisted w r p c h
  after_setting-IsPersisted z logs_out p c h = logout-IsPersisted p
  after_setting-IsPersisted z wipes p c h = wipe-IsPersisted z p
  after_setting-IsPersisted z hydrates p c h = hydrate-IsPersisted p h

  pub after_settings-IsPersisted :
      (z : F) (cs : List SettingsCall) (p : Phone F)
      → All IsComplete cs
      → IsPersisted p
      → IsPersisted (after_settings z cs p)
  unfolding after_settings
  after_settings-IsPersisted z [] p c h = h
  after_settings-IsPersisted z (k ∷ ks) p (c, cs) h =
      after_settings-IsPersisted z ks _ cs (after_setting-IsPersisted z k p c h)

  lifted_store :
      (z : F) (b : Bool) (st : Storage)
      → settings_of (lifted b (launch_with z b st)).store
        ≡ settings_of (hydrate st (initial_store z))
  unfolding lifted launch_with settings_of
  lifted_store z true st = refl
  lifted_store z false st = refl

  pub hydrated_settings :
      (z : F) (p : Phone F)
      → IsPersisted p
      → settings_of (hydrate p.storage (initial_store z)) ≡ settings_of p.store
  unfolding settings_of hydrate
  hydrated_settings z p h = λ i. record {
    address = (or_null-patched (get_secure_item Key.address p.storage) ∙ h.address) i;
    auth_token = (or_null-patched (get_secure_item Key.auth_token p.storage) ∙ h.auth_token) i;
    session_id = (or_null-patched (get_secure_item Key.session_id p.storage) ∙ h.session_id) i;
    name = (or_null-patched (get_secure_item Key.profile_name p.storage) ∙ h.name) i;
    image = (or_null-patched (get_secure_item Key.profile_image p.storage) ∙ h.image) i;
    privacy = (or-false _ ∙ h.privacy) i;
    currency = h.currency i;
    notifications = h.notifications i;
  }

  -- A new launch, with the lock lifted if there is one, restores the session and the settings that
  -- the application had after any sequence of complete settings calls, where the device held them
  -- before.
  pub settings_survive_restart :
      (z : F) (cs : List SettingsCall) (p : Phone F)
      → All IsComplete cs
      → IsPersisted p
      → settings_of (reopened z (after_settings z cs p).storage).store
        ≡ settings_of (after_settings z cs p).store
  unfolding reopened launch
  settings_survive_restart z cs p c h =
      lifted_store z (any_lock_enabled (after_settings z cs p).storage)
        (after_settings z cs p).storage
      ∙ hydrated_settings z (after_settings z cs p) (after_settings-IsPersisted z cs p c h)
