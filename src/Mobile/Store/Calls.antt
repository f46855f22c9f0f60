-- ===== src/Mobile/Store/Calls.antt =====
-- Any sequence of the store's calls on the session and the settings, and what a later launch reads.
use veillend.Base.{ℕ, Bool, true, false, Option, List, [], ◌∷◌}
use veillend.Mobile.Storage.{Storage}
use veillend.Mobile.Store.Data.{Phone}
use veillend.Mobile.Store.Settings.{
  VerifyReply, set_profile_name, set_profile_image, toggle_privacy_mode, set_currency,
  set_notifications_enabled, authenticate, logout, wipe_all_local_state,
  trigger_hydration_after_unlock, any_lock_enabled, launch,
}

pub data SettingsCall : Type 0 where
  sets_profile_name sets_profile_image : Option ℕ → SettingsCall
  toggles_privacy_mode : SettingsCall
  sets_currency : ℕ → SettingsCall
  sets_notifications : Bool → SettingsCall
  authenticates : (wallet : ℕ) → VerifyReply → SettingsCall
  logs_out wipes hydrates : SettingsCall

module _ {F : Type 0} (zero_number : F) where
  unfoldable pub after_setting : SettingsCall → Phone F → Phone F
  unfolding set_profile_name set_profile_image toggle_privacy_mode set_currency
      set_notifications_enabled authenticate logout wipe_all_local_state
      trigger_hydration_after_unlock
  after_setting (sets_profile_name n) p = set_profile_name n p
  after_setting (sets_profile_image n) p = set_profile_image n p
  after_setting toggles_privacy_mode p = toggle_privacy_mode p
  after_setting (sets_currency c) p = set_currency c p
  after_setting (sets_notifications b) p = set_notifications_enabled b p
  after_setting (authenticates wallet reply) p = authenticate wallet reply p
  after_setting logs_out p = logout p
  after_setting wipes p = wipe_all_local_state zero_number p
  after_setting hydrates p = trigger_hydration_after_unlock p

  unfoldable pub after_settings : List SettingsCall → Phone F → Phone F
  unfolding after_setting
  after_settings [] p = p
  after_settings (c ∷ cs) p = after_settings cs (after_setting c p)

module _ {F : Type 0} where
  -- The hydration that follows once a lock is lifted.
  unfoldable pub lifted : Bool → Phone F → Phone F
  unfolding trigger_hydration_after_unlock
  lifted true p = trigger_hydration_after_unlock p
  lifted false p = p

  unfoldable pub reopened : F → Storage → Phone F
  unfolding launch lifted
  reopened z st = lifted (any_lock_enabled st) (launch z st)
