-- ===== src/Mobile/Lock.antt =====
-- hooks/useAppLock.ts, providers/AppLockProvider.tsx and screens/UnlockGate.tsx: the lock, what
-- lifts it, and the secrets that the store holds meanwhile. The system's prompts, the digits of a
-- PIN and its hash are parameters, and `verifyPin`, which Pin models, is equality of the hashes.
pub mod History
pub mod Sealed
pub mod Gate
pub mod Enrolled
pub mod Torn
use veillend.Base.{
  ℕ, ◌==◌, ◌&&◌, ◌||◌, ◌-◌, Bool, true, false, not, Option, none, some, List, [], ◌∷◌,
  if◌then◌else◌, leb,
}
use veillend.Mobile.Storage.{
  Key, Storage, given, get_secure_item, set_secure_item, delete_secure_item, wipe_all_secure_items,
}
use veillend.Mobile.Store.Data.{Store, Phone, true_text}
use veillend.Mobile.Store.Settings.{is_true_text, trigger_hydration_after_unlock, launch}

pub record Pins : Type 0 where
  pub six_digits : ℕ → Bool
  pub hash_pin : (pin salt : ℕ) → ℕ

-- What the device answers to `hasHardwareAsync`, `isEnrolledAsync` and `authenticateAsync`.
pub record Prompt : Type 0 where
  pub has_hardware : Bool
  pub is_enrolled : Bool
  pub succeeds : Bool
  pub has_types : Bool  -- whether `supportedAuthenticationTypesAsync` lists any

pub record LockState : Type 0 where
  pub biometrics_enabled : Bool
  pub pin_enabled : Bool
  pub any_lock_enabled : Bool
  pub is_locked : Bool

abbrev pub background_lock_threshold_ms : ℕ
background_lock_threshold_ms = 60000

-- The first read of the items of the lock.
unfoldable pub read_lock : Storage → LockState
unfolding is_true_text
read_lock st =
    let biometrics = is_true_text (get_secure_item Key.biometrics_enabled st) in
    let pin = given (get_secure_item Key.pin_hash st) in
    record {
      biometrics_enabled = biometrics;
      pin_enabled = pin;
      any_lock_enabled = biometrics || pin;
      is_locked = biometrics || pin;
    }

abbrev pub try_biometrics : Prompt → Bool
try_biometrics p = p.has_hardware && p.is_enrolled && p.succeeds

unfoldable pub match_pin : Pins → ℕ → Option ℕ → Option ℕ → Bool
match_pin env pin (some s) (some d) = if s == 0 || d == 0 then false else env.hash_pin pin s == d
match_pin env pin _ _ = false

unfoldable pub try_pin : Pins → ℕ → Storage → Bool
unfolding match_pin
try_pin env pin st =
    if env.six_digits pin
    then match_pin env pin (get_secure_item Key.salt st) (get_secure_item Key.pin_hash st)
    else false

unfoldable pub try_given_pin : Pins → Option ℕ → Storage → Bool
unfolding try_pin
try_given_pin env none st = false
try_given_pin env (some pin) st = try_pin env pin st

-- A prompt where biometrics are on, and then the PIN where there is one.
unfoldable pub authenticated : Pins → Prompt → Option ℕ → LockState → Storage → Bool
unfolding try_given_pin
authenticated env prompt pin l st =
    (l.biometrics_enabled && try_biometrics prompt) || (l.pin_enabled && try_given_pin env pin st)

unfoldable pub unlock : Pins → Prompt → Option ℕ → Storage → LockState → Bool × LockState
unfolding authenticated
unlock env prompt pin st l =
    if not l.any_lock_enabled
    then (true, l)
    else if authenticated env prompt pin l st
    then (true, record l { is_locked = false })
    else (false, l)

abbrev no_lock : LockState
no_lock = record {
  biometrics_enabled = false;
  pin_enabled = false;
  any_lock_enabled = false;
  is_locked = false;
}

unfoldable pub lock_now : LockState → LockState
lock_now l = if l.any_lock_enabled then record l { is_locked = true } else l

unfoldable pub too_long : ℕ → Option ℕ → Bool
too_long now none = false
too_long now (some t) = leb background_lock_threshold_ms (now - t)

-- The application: its memory and items, its lock, and when it left the foreground.
pub record App (F : Type 0) : Type 0 where
  pub phone : Phone F
  pub lock : LockState
  pub left_at : Option ℕ
  pub is_active : Bool

module _ {F : Type 0} where
  abbrev pub with_lock : LockState → App F → App F
  with_lock l a = record a { lock = l }

  abbrev on_storage : (Storage → Storage) → App F → App F
  on_storage f a = record a { phone = record (a.phone) { storage = f a.phone.storage } }

  unfoldable pub wipe_hot_secrets : Phone F → Phone F
  wipe_hot_secrets p = record p {
    store = record (p.store) { auth_token = none; address = none; session_id = none };
  }

  unfoldable pub enroll_biometrics : Prompt → App F → Bool × App F
  enroll_biometrics prompt a =
      if try_biometrics prompt && prompt.has_types
      then (
        true,
        record (on_storage (set_secure_item Key.biometrics_enabled true_text) a) {
          lock = record (a.lock) {
            biometrics_enabled = true;
            any_lock_enabled = true;
            is_locked = false;
          };
        },
      )
      else (false, a)

  unfoldable pub pinned : Pins → (pin salt : ℕ) → App F → App F
  pinned env pin salt a =
      record (on_storage
        (λ st.
          set_secure_item Key.pin_hash (env.hash_pin pin salt) (set_secure_item Key.salt salt st))
        a) {
          lock = record (a.lock) { pin_enabled = true; any_lock_enabled = true; is_locked = false };
        }

  unfoldable pub enroll_pin : Pins → (pin confirm salt : ℕ) → App F → Bool × App F
  unfolding pinned
  enroll_pin env pin confirm salt a =
      if env.six_digits pin && pin == confirm then (true, pinned env pin salt a) else (false, a)

  unfoldable pub disable_lock : Pins → Prompt → Option ℕ → App F → Bool × App F
  unfolding authenticated
  disable_lock env prompt pin a =
      if not a.lock.biometrics_enabled && not a.lock.pin_enabled
      then (false, a)
      else if authenticated env prompt pin a.lock a.phone.storage
      then (
        true,
        record (on_storage
            (λ st.
              delete_secure_item Key.salt
                (delete_secure_item Key.pin_hash (delete_secure_item Key.biometrics_enabled st)))
            a) { lock = no_lock },
      )
      else (false, a)

  unfoldable pub forgot_pin : App F → App F
  unfolding wipe_all_secure_items
  forgot_pin a = record (on_storage wipe_all_secure_items a) { lock = no_lock }

  -- `if (unlocked) triggerHydrate?.();`
  unfoldable pub opened : Bool × LockState → App F → App F
  unfolding trigger_hydration_after_unlock
  opened (true, l) a = record a { lock = l; phone = trigger_hydration_after_unlock a.phone }
  opened (false, l) a = record a { lock = l }

  -- The gate's two ways in: each asks once before it calls `unlock`.
  unfoldable pub press_biometrics : Pins → Prompt → Prompt → App F → App F
  unfolding opened unlock
  press_biometrics env first second a =
      if try_biometrics first then opened (unlock env second none a.phone.storage a.lock) a else a

  unfoldable pub submit_pin : Pins → ℕ → Prompt → App F → App F
  unfolding opened unlock try_pin
  submit_pin env pin prompt a =
      if try_pin env pin a.phone.storage
      then opened (unlock env prompt (some pin) a.phone.storage a.lock) a
      else a

  -- The prompt that the gate shows of itself once it is there, which does not look at what `unlock`
  -- returns: `unlock().then(() => triggerHydrate?.())`.
  unfoldable pub auto_prompt : Pins → Prompt → Prompt → App F → App F
  unfolding trigger_hydration_after_unlock unlock
  auto_prompt env first second a =
      if a.lock.biometrics_enabled && try_biometrics first
      then record a {
        lock = (unlock env second none a.phone.storage a.lock).1;
        phone = trigger_hydration_after_unlock a.phone;
      }
      else a

  unfoldable pub to_background : ℕ → App F → App F
  to_background now a = record a {
    left_at = if a.is_active then some now else a.left_at;
    is_active = false;
  }

  unfoldable pub to_foreground : ℕ → App F → App F
  unfolding lock_now wipe_hot_secrets too_long
  to_foreground now a =
      let back = record a { left_at = none; is_active = true } in
      if a.lock.any_lock_enabled && not a.lock.is_locked && too_long now a.left_at
      then record back { phone = wipe_hot_secrets a.phone; lock = lock_now a.lock }
      else back

  -- A launch: the effect on `isLocked` wipes what the store holds.
  unfoldable pub launch_app : F → Storage → App F
  unfolding read_lock launch wipe_hot_secrets
  launch_app z st =
      let l = read_lock st in
      record {
        phone = if l.is_locked then wipe_hot_secrets (launch z st) else launch z st;
        lock = l;
        left_at = none;
        is_active = true;
      }
