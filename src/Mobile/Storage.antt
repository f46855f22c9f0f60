-- ===== src/Mobile/Storage.antt =====
-- utils/secureStorage.ts: the items of the device's SecureStore. A text is a number, and 0 is the
-- empty text, which JavaScript takes for false. What the device accepts is a parameter.
pub mod Laws
use veillend.Base.{
  ℕ, ◌==◌, Bool, true, false, Option, none, some, List, [], ◌∷◌, if◌then◌else◌, Outcome, ok, err,
}

pub data Key : Type 0 where
  stellar_secret_key auth_token address is_privacy_mode profile_name profile_image currency : Key
  notifications_enabled wallet_backup_confirmed session_id : Key
  biometrics_enabled pin_hash salt : Key  -- `applock.*`

pub data Accessible : Type 0 where
  when_passcode_set after_first_unlock : Accessible

pub record StoreOptions : Type 0 where
  pub accessible : Accessible
  pub require_authentication : Bool

pub record Item : Type 0 where
  pub value : ℕ
  pub options : StoreOptions

abbrev pub Storage : Type 0
Storage = Key → Option Item

-- Whether the device takes an item with these options: one that requires authentication is refused
-- where no passcode is set.
abbrev pub Device : Type 0
Device = Key → StoreOptions → Bool

abbrev pub empty_storage : Storage
empty_storage k = none

abbrev key_code : Key → ℕ
key_code stellar_secret_key = 0
key_code auth_token = 1
key_code address = 2
key_code is_privacy_mode = 3
key_code profile_name = 4
key_code profile_image = 5
key_code currency = 6
key_code notifications_enabled = 7
key_code wallet_backup_confirmed = 8
key_code session_id = 9
key_code biometrics_enabled = 10
key_code pin_hash = 11
key_code salt = 12

abbrev pub same_key : Key → Key → Bool
same_key j k = key_code j == key_code k

-- The native store's `setItemAsync` and `deleteItemAsync`, where it takes them.
abbrev pub put : Key → Option Item → Storage → Storage
put k item st j = if same_key j k then item else st j

-- `KEY_OPTIONS`
abbrev pub get_options : Key → StoreOptions
get_options stellar_secret_key = record {
  accessible = when_passcode_set;
  require_authentication = false;
}
get_options _ = record { accessible = after_first_unlock; require_authentication = false }

abbrev pub default_fallback : StoreOptions
default_fallback = record { accessible = after_first_unlock; require_authentication = false }

abbrev pub item_with : StoreOptions → ℕ → Item
item_with opts v = record { value = v; options = opts }

unfoldable pub set_item_async :
    Device → Key → ℕ → StoreOptions → Storage → Outcome (Unit {0}) (Unit {0}) × Storage
set_item_async device k v opts st =
    if device k opts then (ok tt, put k (some (item_with opts v)) st) else (err tt, st)

-- The item as it is asked for, and the weaker one where the device refuses authentication.
unfoldable pub set_or_downgrade :
    Device → Key → ℕ → StoreOptions → Storage → Outcome (Unit {0}) (Unit {0}) × Storage
unfolding set_item_async
set_or_downgrade device k v opts st =
    if device k opts
    then set_item_async device k v opts st
    else if opts.require_authentication
    then set_item_async device k v default_fallback st
    else (err tt, st)

unfoldable pub set_secure_item_on :
    Device → Key → ℕ → Storage → Outcome (Unit {0}) (Unit {0}) × Storage
unfolding set_or_downgrade
set_secure_item_on device k v st = set_or_downgrade device k v (get_options k) st

unfoldable pub set_secret_key_with_lock_policy :
    Device → ℕ → Bool → Storage → Outcome (Unit {0}) (Unit {0}) × Storage
unfolding set_or_downgrade
set_secret_key_with_lock_policy device v biometrics st =
    set_or_downgrade device stellar_secret_key v
      (record (get_options stellar_secret_key) { require_authentication = biometrics }) st

abbrev value_of : Option Item → Option ℕ
value_of none = none
value_of (some i) = some i.value

abbrev pub get_secure_item : Key → Storage → Option ℕ
get_secure_item k st = value_of (st k)

abbrev pub delete_secure_item : Key → Storage → Storage
delete_secure_item k st = put k none st

-- The writes of the store of the application, which awaits none of them: they are taken to succeed.
abbrev pub set_secure_item : Key → ℕ → Storage → Storage
set_secure_item k v st = put k (some (item_with (get_options k) v)) st

abbrev all_keys : List Key
all_keys =
    stellar_secret_key ∷ auth_token ∷ address ∷ is_privacy_mode ∷ profile_name ∷ profile_image
    ∷ currency ∷ notifications_enabled ∷ wallet_backup_confirmed ∷ session_id ∷ biometrics_enabled
    ∷ pin_hash ∷ salt ∷ []

unfoldable pub delete_all : List Key → Storage → Storage
delete_all [] st = st
delete_all (k ∷ ks) st = delete_all ks (delete_secure_item k st)

unfoldable pub wipe_all_secure_items : Storage → Storage
unfolding delete_all
wipe_all_secure_items st = delete_all all_keys st

-- A JavaScript text that is neither null nor empty.
abbrev pub given : Option ℕ → Bool
given none = false
given (some v) = if v == 0 then false else true

unfoldable pub lock_value : Device → Bool → Option ℕ → Storage → Storage
unfolding set_secret_key_with_lock_policy
lock_value device biometrics none st = st
lock_value device biometrics (some v) st =
    if v == 0 then st else (set_secret_key_with_lock_policy device v biometrics st).1

-- `applySecretKeyLockPolicy` of the store: an error is swallowed.
unfoldable pub apply_secret_key_lock_policy : Device → Bool → Storage → Storage
unfolding lock_value
apply_secret_key_lock_policy device biometrics st =
    lock_value device biometrics (get_secure_item stellar_secret_key st) st
