-- ===== src/Mobile/Store/SignedOut.antt =====
-- What a logout and a wipe leave, in memory and on the device.
use veillend.Base.{
  ℕ, Bool, true, false, Option, none, some, List, [], ◌∷◌, ◌≡◌, refl, sym, subst, ◌∙◌, All, ◌⊎◌,
  inl, inr, ap, not, ◌==◌, Bool-cases,
}
use veillend.Mobile.Storage.{Key, Storage, same_key}
use veillend.Mobile.Storage.Laws.{wipe_all-clears}
use veillend.Mobile.Store.Data.{Phone}
use veillend.Mobile.Store.Settings.{launch, launch_with, persist}
use veillend.Mobile.Store.Calls.{
  SettingsCall, sets_profile_name, sets_profile_image, toggles_privacy_mode, sets_currency,
  sets_notifications, authenticates, logs_out, wipes, hydrates, after_setting, after_settings,
  reopened, lifted,
}

-- Every call but a login.
abbrev pub IsNoLogin : SettingsCall → Type 0
IsNoLogin (authenticates w r) = ⊥
IsNoLogin _ = Unit

-- No session in memory, and neither a session nor a secret key on the device.
pub record IsSignedOut {F : Type 0} (p : Phone F) : Type 0 where
  pub token : p.store.auth_token ≡ none
  pub address : p.store.address ≡ none
  pub session : p.store.session_id ≡ none
  pub token_item : p.storage Key.auth_token ≡ none
  pub address_item : p.storage Key.address ≡ none
  pub session_item : p.storage Key.session_id ≡ none
  pub secret_item : p.storage Key.stellar_secret_key ≡ none

module _ {F : Type 0} (z : F) where
  logout_signs_out : (p : Phone F) → IsSignedOut (after_setting z logs_out p)
  unfolding after_setting
  logout_signs_out p = record {
    token = refl;
    address = refl;
    session = refl;
    token_item = refl;
    address_item = refl;
    session_item = refl;
    secret_item = refl;
  }

  wipe_signs_out : (p : Phone F) → IsSignedOut (after_setting z wipes p)
  unfolding after_setting
  wipe_signs_out p = record {
    token = refl;
    address = refl;
    session = refl;
    token_item = wipe_all-clears p.storage Key.auth_token;
    address_item = wipe_all-clears p.storage Key.address;
    session_item = wipe_all-clears p.storage Key.session_id;
    secret_item = wipe_all-clears p.storage Key.stellar_secret_key;
  }

  same_items :
      {p : Phone F} {q : Phone F}
      → IsSignedOut p
      → q.store.auth_token ≡ p.store.auth_token
      → q.store.address ≡ p.store.address
      → q.store.session_id ≡ p.store.session_id
      → q.storage Key.auth_token ≡ p.storage Key.auth_token
      → q.storage Key.address ≡ p.storage Key.address
      → q.storage Key.session_id ≡ p.storage Key.session_id
      → q.storage Key.stellar_secret_key ≡ p.storage Key.stellar_secret_key
      → IsSignedOut q
  same_items h a b c d e f g = record {
    token = a ∙ h.token;
    address = b ∙ h.address;
    session = c ∙ h.session;
    token_item = d ∙ h.token_item;
    address_item = e ∙ h.address_item;
    session_item = f ∙ h.session_item;
    secret_item = g ∙ h.secret_item;
  }

  persist_other :
      (k j : Key) (o : Option ℕ) (st : Storage) → same_key j k ≡ false → persist k o st j ≡ st j
  unfolding persist
  persist_other k j none st e = rw e refl
  persist_other k j (some v) st e = elim (Bool-cases (v == 0)) [
    | inl t ↦ rw (t, e) refl
    | inr n ↦ rw (n, e) refl
  ]

  setting-IsSignedOut :
      (c : SettingsCall) (p : Phone F)
      → IsNoLogin c
      → IsSignedOut p
      → IsSignedOut (after_setting z c p)
  unfolding after_setting
  setting-IsSignedOut (sets_profile_name n) p k h =
      same_items h refl refl refl (persist_other Key.profile_name Key.auth_token n p.storage refl)
        (persist_other Key.profile_name Key.address n p.storage refl)
        (persist_other Key.profile_name Key.session_id n p.storage refl)
        (persist_other Key.profile_name Key.stellar_secret_key n p.storage refl)
  setting-IsSignedOut (sets_profile_image n) p k h =
      same_items h refl refl refl (persist_other Key.profile_image Key.auth_token n p.storage refl)
        (persist_other Key.profile_image Key.address n p.storage refl)
        (persist_other Key.profile_image Key.session_id n p.storage refl)
        (persist_other Key.profile_image Key.stellar_secret_key n p.storage refl)
  setting-IsSignedOut toggles_privacy_mode p k h = elim (Bool-cases p.store.is_privacy_mode) [
    | inl e ↦
        let off : not p.store.is_privacy_mode ≡ false = ap not e in
        same_items h refl refl refl (rw off refl) (rw off refl) (rw off refl) (rw off refl)
    | inr e ↦
        let on : not p.store.is_privacy_mode ≡ true = ap not e in
        same_items h refl refl refl (rw on refl) (rw on refl) (rw on refl) (rw on refl)
  ]
  setting-IsSignedOut (sets_currency c) p k h = same_items h refl refl refl refl refl refl refl
  setting-IsSignedOut (sets_notifications b) p k h = same_items h refl refl refl refl refl refl refl
  setting-IsSignedOut (authenticates w r) p k h = absurd k
  setting-IsSignedOut logs_out p k h = logout_signs_out p
  setting-IsSignedOut wipes p k h = wipe_signs_out p
  setting-IsSignedOut hydrates p k h = record {
    token = rw h.token_item h.token;
    address = rw h.address_item h.address;
    session = rw h.session_item h.session;
    token_item = h.token_item;
    address_item = h.address_item;
    session_item = h.session_item;
    secret_item = h.secret_item;
  }

  settings-IsSignedOut :
      (cs : List SettingsCall) (p : Phone F)
      → All IsNoLogin cs
      → IsSignedOut p
      → IsSignedOut (after_settings z cs p)
  unfolding after_settings
  settings-IsSignedOut [] p k h = h
  settings-IsSignedOut (c ∷ cs) p (k, ks) h =
      settings-IsSignedOut cs (after_setting z c p) ks (setting-IsSignedOut c p k h)

  launched-IsSignedOut :
      (b : Bool) (p : Phone F) → IsSignedOut p → IsSignedOut (lifted b (launch_with z b p.storage))
  unfolding lifted launch_with
  launched-IsSignedOut true p h = record {
    token = rw h.token_item refl;
    address = rw h.address_item refl;
    session = rw h.session_item refl;
    token_item = h.token_item;
    address_item = h.address_item;
    session_item = h.session_item;
    secret_item = h.secret_item;
  }
  launched-IsSignedOut false p h = record {
    token = rw h.token_item refl;
    address = rw h.address_item refl;
    session = rw h.session_item refl;
    token_item = h.token_item;
    address_item = h.address_item;
    session_item = h.session_item;
    secret_item = h.secret_item;
  }

  signing_out :
      (c : SettingsCall) (p : Phone F)
      → (c ≡ logs_out) ⊎ (c ≡ wipes)
      → IsSignedOut (after_setting z c p)
  signing_out c p (inl e) =
      subst (λ x. IsSignedOut (after_setting z x p)) (sym e) (logout_signs_out p)
  signing_out c p (inr e) =
      subst (λ x. IsSignedOut (after_setting z x p)) (sym e) (wipe_signs_out p)

  -- After a logout or a wipe, and any settings calls but logins, the application has no session in
  -- memory or on the device and no secret key, and neither has the next launch, also once its lock
  -- is lifted.
  pub IsSignedOut-stays :
      (c : SettingsCall) (cs : List SettingsCall) (p : Phone F)
      → (c ≡ logs_out) ⊎ (c ≡ wipes)
      → All IsNoLogin cs
      → IsSignedOut (after_settings z (c ∷ cs) p)
        × IsSignedOut (reopened z (after_settings z (c ∷ cs) p).storage)
  unfolding after_settings reopened launch
  IsSignedOut-stays c cs p out k =
      let h = settings-IsSignedOut cs (after_setting z c p) k (signing_out c p out) in
      (h, launched-IsSignedOut _ _ h)
