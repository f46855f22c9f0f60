-- ===== src/Mobile/Storage/Laws.antt =====
-- What a wipe leaves, and what a change of the lock policy does to the secret key.
use veillend.Base.{ℕ, ◌==◌, Bool, Option, none, some, ◌≡◌, refl, sym, arith, Bool-cases, inl, inr}
use veillend.Mobile.Storage.{
  Key, StoreOptions, stellar_secret_key, Storage, Device, get_secure_item, wipe_all_secure_items,
  apply_secret_key_lock_policy, put, item_with, set_or_downgrade, default_fallback, lock_value,
}

pub wipe_all-clears : (st : Storage) (k : Key) → wipe_all_secure_items st k ≡ none
unfolding wipe_all_secure_items
wipe_all-clears st Key.stellar_secret_key = refl
wipe_all-clears st Key.auth_token = refl
wipe_all-clears st Key.address = refl
wipe_all-clears st Key.is_privacy_mode = refl
wipe_all-clears st Key.profile_name = refl
wipe_all-clears st Key.profile_image = refl
wipe_all-clears st Key.currency = refl
wipe_all-clears st Key.notifications_enabled = refl
wipe_all-clears st Key.wallet_backup_confirmed = refl
wipe_all-clears st Key.session_id = refl
wipe_all-clears st Key.biometrics_enabled = refl
wipe_all-clears st Key.pin_hash = refl
wipe_all-clears st Key.salt = refl

put_secret_value :
    (k : Key) (v : ℕ) (opts : StoreOptions) (st : Storage)
    → get_secure_item stellar_secret_key st ≡ some v
    → get_secure_item k (put stellar_secret_key (some (item_with opts v)) st) ≡ get_secure_item k st
put_secret_value Key.stellar_secret_key v opts st h = sym h
put_secret_value Key.auth_token v opts st h = refl
put_secret_value Key.address v opts st h = refl
put_secret_value Key.is_privacy_mode v opts st h = refl
put_secret_value Key.profile_name v opts st h = refl
put_secret_value Key.profile_image v opts st h = refl
put_secret_value Key.currency v opts st h = refl
put_secret_value Key.notifications_enabled v opts st h = refl
put_secret_value Key.wallet_backup_confirmed v opts st h = refl
put_secret_value Key.session_id v opts st h = refl
put_secret_value Key.biometrics_enabled v opts st h = refl
put_secret_value Key.pin_hash v opts st h = refl
put_secret_value Key.salt v opts st h = refl

set_or_downgrade_value :
    (device : Device) (k : Key) (v : ℕ) (opts : StoreOptions) (st : Storage)
    → get_secure_item stellar_secret_key st ≡ some v
    → get_secure_item k (set_or_downgrade device stellar_secret_key v opts st).1
      ≡ get_secure_item k st
unfolding set_or_downgrade
set_or_downgrade_value device k v opts st h =
    ground (arith, put_secret_value k v opts st h, put_secret_value k v default_fallback st h)

lock_value_keeps :
    (device : Device) (biometrics : Bool) (k : Key) (o : Option ℕ) (st : Storage)
    → get_secure_item stellar_secret_key st ≡ o
    → get_secure_item k (lock_value device biometrics o st) ≡ get_secure_item k st
unfolding lock_value
lock_value_keeps device biometrics k none st h = refl
lock_value_keeps device biometrics k (some v) st h = elim (Bool-cases (v == 0)) [
  | inl e ↦ rw e refl
  | inr e ↦ rw e (set_or_downgrade_value device k v _ st h)
]

-- Changing the lock policy keeps the value of every item, the secret key's included, whatever the
-- device accepts.
pub lock_policy_keeps_values :
    (device : Device) (biometrics : Bool) (st : Storage) (k : Key)
    → get_secure_item k (apply_secret_key_lock_policy device biometrics st) ≡ get_secure_item k st
unfolding apply_secret_key_lock_policy
lock_policy_keeps_values device biometrics st k = lock_value_keeps device biometrics k _ st refl
