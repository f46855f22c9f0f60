-- ===== src/Mobile/Lock/Torn.antt =====
-- The prompt that the gate shows of itself, confirmed at first and refused the second time.
use veillend.Base.{ℕ, ◌==◌, true, false, some, ◌≡◌, refl, arith}
use veillend.Mobile.Storage.{Key, Storage, get_secure_item}
use veillend.Mobile.Store.Data.{Store}
use veillend.Mobile.Store.Settings.{hydrate}
use veillend.Mobile.Lock.{Pins, Prompt, App, auto_prompt, unlock, try_biometrics}
use veillend.Mobile.Lock.History.{prompts_itself, after_app_event}

module _ {F : Type 0} (env : Pins) (z : F) where
  hydrated_token :
      (st : Storage) (s : Store F) (t : ℕ)
      → get_secure_item Key.auth_token st ≡ some t
      → (t == 0) ≡ false
      → (hydrate st s).auth_token ≡ some t
  unfolding hydrate
  hydrated_token st s t e n = rw (e, n) refl

  -- Where a locked application shows its prompt of itself, and the user confirms it and then refuses
  -- the second one, the lock stays and the stored token is in memory.
  pub torn_prompt_leaks :
      (first second : Prompt) (t : ℕ) (a : App F)
      → a.lock.is_locked ≡ true
      → a.lock.any_lock_enabled ≡ true
      → a.lock.biometrics_enabled ≡ true
      → try_biometrics first ≡ true
      → try_biometrics second ≡ false
      → get_secure_item Key.auth_token a.phone.storage ≡ some t
      → (t == 0) ≡ false
      → ((after_app_event env z (prompts_itself first second) a).lock.is_locked ≡ true)
        × ((after_app_event env z (prompts_itself first second) a).phone.store.auth_token ≡ some t)
  unfolding after_app_event auto_prompt unlock
  torn_prompt_leaks first second t a locked there b e k stored n =
      rw (locked, b, e) (ground arith, hydrated_token a.phone.storage a.phone.store t stored n)
