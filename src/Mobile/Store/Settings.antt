-- ===== src/Mobile/Store/Settings.antt =====
-- The actions of store.ts on the session and the settings, with what each writes to the device, and
-- `authenticate` of hooks/useStellarAuth.ts. A text is a number, and 0 is the empty text.
use veillend.Base.{ℕ, ◌==◌, ◌||◌, Bool, true, false, not, Option, none, some, [], if◌then◌else◌}
use veillend.Mobile.Storage.{
  Key, Storage, given, get_secure_item, set_secure_item, delete_secure_item, wipe_all_secure_items,
}
use veillend.Mobile.Store.Data.{
  Store, Phone, true_text, false_text, usd, initial_store, no_portfolio,
}

-- `if (v) setSecureItem(k, v); else deleteSecureItem(k);`
unfoldable pub persist : Key → Option ℕ → Storage → Storage
persist k none st = delete_secure_item k st
persist k (some v) st = if v == 0 then delete_secure_item k st else set_secure_item k v st

-- `if (v) setSecureItem(k, v);`
unfoldable pub persist_given : Key → Option ℕ → Storage → Storage
persist_given k none st = st
persist_given k (some v) st = if v == 0 then st else set_secure_item k v st

-- `v || null`
unfoldable pub or_null : Option ℕ → Option ℕ
or_null none = none
or_null (some v) = if v == 0 then none else some v

-- `if (v) patch.field = v;`
unfoldable pub patched : Option ℕ → Option ℕ → Option ℕ
patched none old = old
patched (some v) old = if v == 0 then old else some v

unfoldable pub patched_text : Option ℕ → ℕ → ℕ
patched_text none old = old
patched_text (some v) old = if v == 0 then old else v

unfoldable pub is_true_text : Option ℕ → Bool
is_true_text none = false
is_true_text (some v) = v == true_text

-- `if (v !== null) patch.notificationsEnabled = v === 'true';`
unfoldable pub patched_flag : Option ℕ → Bool → Bool
patched_flag none old = old
patched_flag (some v) old = v == true_text

abbrev pub flag_text : Bool → ℕ
flag_text true = true_text
flag_text false = false_text

-- What `POST /auth/verify` answers.
pub data VerifyReply : Type 0 where
  verified : (access_token session_id : Option ℕ) → VerifyReply
  refused : VerifyReply

-- The keys that a logout deletes: those of the lock stay.
unfoldable pub clear_session_items : Storage → Storage
clear_session_items st = delete_secure_item Key.wallet_backup_confirmed (
    delete_secure_item Key.notifications_enabled (
      delete_secure_item Key.currency (
        delete_secure_item Key.stellar_secret_key (
          delete_secure_item Key.profile_image (
            delete_secure_item Key.profile_name (
              delete_secure_item Key.is_privacy_mode (
                delete_secure_item Key.session_id
                  (delete_secure_item Key.address (delete_secure_item Key.auth_token st)))))))))

-- Whether a lock guards the application, from the items of the lock.
unfoldable pub any_lock_enabled : Storage → Bool
unfolding is_true_text
any_lock_enabled st =
    is_true_text (get_secure_item Key.biometrics_enabled st)
    || given (get_secure_item Key.pin_hash st)

module _ {F : Type 0} where
  unfoldable pub set_address : Option ℕ → Phone F → Phone F
  unfolding persist
  set_address a p = record {
    store = record (p.store) { address = a };
    storage = persist Key.address a p.storage;
  }

  unfoldable pub set_auth_token : Option ℕ → Phone F → Phone F
  unfolding persist
  set_auth_token t p = record {
    store = record (p.store) { auth_token = t };
    storage = persist Key.auth_token t p.storage;
  }

  unfoldable pub set_profile_name : Option ℕ → Phone F → Phone F
  unfolding persist
  set_profile_name n p = record {
    store = record (p.store) { profile_name = n };
    storage = persist Key.profile_name n p.storage;
  }

  unfoldable pub set_profile_image : Option ℕ → Phone F → Phone F
  unfolding persist
  set_profile_image n p = record {
    store = record (p.store) { profile_image = n };
    storage = persist Key.profile_image n p.storage;
  }

  unfoldable pub toggle_privacy_mode : Phone F → Phone F
  toggle_privacy_mode p =
      let next = not p.store.is_privacy_mode in
      record {
        store = record (p.store) { is_privacy_mode = next };
        storage =
            if next
            then set_secure_item Key.is_privacy_mode true_text p.storage
            else delete_secure_item Key.is_privacy_mode p.storage;
      }

  unfoldable pub set_currency : ℕ → Phone F → Phone F
  set_currency c p = record {
    store = record (p.store) { currency = c };
    storage = set_secure_item Key.currency c p.storage;
  }

  unfoldable pub set_notifications_enabled : Bool → Phone F → Phone F
  set_notifications_enabled b p = record {
    store = record (p.store) { notifications_enabled = b };
    storage = set_secure_item Key.notifications_enabled (flag_text b) p.storage;
  }

  unfoldable pub verify : ℕ → VerifyReply → Phone F → Option ℕ × Phone F
  unfolding or_null persist_given
  verify wallet (verified token sid) p = (
    or_null token,
    record {
      store = record (p.store) {
        auth_loading = false;
        auth_token = or_null token;
        address = some wallet;
        session_id = or_null sid;
      };
      storage =
          persist_given Key.session_id (or_null sid)
            (persist_given Key.auth_token (or_null token) p.storage);
    },
  )
  verify wallet refused p =
      (none, record { store = record (p.store) { auth_loading = false }; storage = p.storage })

  unfoldable pub keep_login : ℕ → Option ℕ × Phone F → Phone F
  unfolding set_auth_token set_address
  keep_login wallet (none, p) = p
  keep_login wallet (some t, p) = set_auth_token (some t) (set_address (some wallet) p)

  unfoldable pub authenticate : ℕ → VerifyReply → Phone F → Phone F
  unfolding keep_login verify
  authenticate wallet reply p = keep_login wallet (verify wallet reply p)

  unfoldable pub clear_session : Store F → Store F
  clear_session s = record s {
    address = none;
    auth_token = none;
    session_id = none;
    is_privacy_mode = false;
    profile_name = none;
    profile_image = none;
    currency = usd;
    notifications_enabled = true;
    session_restored = true;
    auth_loading = false;
    lending_loading = false;
    shielded_loading = false;
  }

  unfoldable pub logout : Phone F → Phone F
  unfolding clear_session clear_session_items
  logout p = record { store = clear_session p.store; storage = clear_session_items p.storage }

  unfoldable pub wipe_all_local_state : F → Phone F → Phone F
  unfolding clear_session wipe_all_secure_items
  wipe_all_local_state zero_number p = record {
    store = record (clear_session p.store) {
      hydration_completed = true;
      portfolio = no_portfolio zero_number;
      transactions = [];
      positions = [];
      supported_assets = [];
      pending_transactions = [];
      portfolio_loading = false;
      transactions_loading = false;
      dashboard_loading = false;
      dashboard_error = [];
      backend_slow = false;
    };
    storage = wipe_all_secure_items p.storage;
  }

  -- `triggerHydrationAfterUnlock`
  unfoldable pub hydrate : Storage → Store F → Store F
  unfolding patched patched_text is_true_text patched_flag
  hydrate st s = record s {
    auth_token = patched (get_secure_item Key.auth_token st) s.auth_token;
    address = patched (get_secure_item Key.address st) s.address;
    session_id = patched (get_secure_item Key.session_id st) s.session_id;
    is_privacy_mode = is_true_text (get_secure_item Key.is_privacy_mode st) || s.is_privacy_mode;
    profile_name = patched (get_secure_item Key.profile_name st) s.profile_name;
    profile_image = patched (get_secure_item Key.profile_image st) s.profile_image;
    currency = patched_text (get_secure_item Key.currency st) s.currency;
    notifications_enabled =
        patched_flag (get_secure_item Key.notifications_enabled st) s.notifications_enabled;
    session_restored = true;
    hydration_completed = true;
  }

  unfoldable pub trigger_hydration_after_unlock : Phone F → Phone F
  unfolding hydrate
  trigger_hydration_after_unlock p = record {
    store = hydrate p.storage p.store;
    storage = p.storage;
  }

  -- A launch, in a new process: the store is the initial one until the items are read, and waits
  -- for the lock where there is one.
  unfoldable pub launch_with : F → Bool → Storage → Phone F
  unfolding trigger_hydration_after_unlock
  launch_with zero_number true st = record {
    store = record (initial_store zero_number) {
      session_restored = true;
      hydration_completed = false;
    };
    storage = st;
  }
  launch_with zero_number false st =
      trigger_hydration_after_unlock (record { store = initial_store zero_number; storage = st })

  unfoldable pub launch : F → Storage → Phone F
  unfolding launch_with
  launch zero_number st = launch_with zero_number (any_lock_enabled st) st
